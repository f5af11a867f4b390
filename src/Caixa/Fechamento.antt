-- ===== src/Caixa/Fechamento.antt =====
-- What the closing of the cash register reports.
use gestao_restaurante.Base.{
  ◌≡◌, refl, Bool, true, false, Option, List, [], ◌∷◌, length, ◌+◌, ap, All, arith,
}
use gestao_restaurante.Caixa.{
  FecharCaixaResponseDto, Sorteio, Dialogo, encerrado, erro_ao_encerrar, Caixa, on_success, fechar,
}

abbrev pub e_erro : Dialogo → Bool
e_erro (encerrado id total vendas) = false
e_erro (erro_ao_encerrar m) = true

-- Attempts to close, one after another, with what the server answers to each.
unfoldable pub tentativas : List (Sorteio × Option FecharCaixaResponseDto) → Caixa → Caixa
unfolding fechar
tentativas [] c = c
tentativas ((s, r) ∷ rest) c = tentativas rest (fechar s r c)

tentativas-no_error :
    (ts : List (Sorteio × Option FecharCaixaResponseDto)) (c : Caixa)
    → All (λ d. e_erro d ≡ false) c.dialogos
    → All (λ d. e_erro d ≡ false) (tentativas ts c).dialogos
unfolding tentativas fechar on_success
tentativas-no_error [] c h = h
tentativas-no_error ((s, r) ∷ rest) c h = tentativas-no_error rest (fechar s r c) (refl, h)

tentativas-length :
    (ts : List (Sorteio × Option FecharCaixaResponseDto)) (c : Caixa)
    → length (tentativas ts c).dialogos ≡ length ts + length c.dialogos
unfolding tentativas fechar on_success
tentativas-length [] c = omega arith
tentativas-length ((s, r) ∷ rest) c = omega (arith, tentativas-length rest (fechar s r c))

-- However often a new screen tries to close the register, and whatever the server answers, a failure
-- of the request included: every attempt is reported as a closing that succeeded, and no error is
-- ever shown.
pub tentativas-reported :
    (ts : List (Sorteio × Option FecharCaixaResponseDto)) (c : Caixa)
    → c.dialogos ≡ []
    → (length (tentativas ts c).dialogos ≡ length ts)
      × All (λ d. e_erro d ≡ false) (tentativas ts c).dialogos
tentativas-reported ts c e =
    (omega (arith, tentativas-length ts c, ap length e), tentativas-no_error ts c (rw e tt))
