-- ===== src/Shared/Dialogo/Toques.antt =====
-- How often a callback is called.
use gestao_restaurante.Base.{
  ℕ, suc, ◌+◌, ◌≤◌, ◌≡◌, refl, ap, Bool, true, false, Option, none, some, List, [], ◌∷◌, length,
  length-append, if◌then◌else◌, arith,
}
use gestao_restaurante.Shared.Dialogo.{
  DialogOptions, Dialogos, inicial, abrir_dialogo, Toque, confirmar, retorno_de,
  handle_button_press, tocar_em, terminar, Acao, abrir, tocar, animacao_termina, passo, executar,
}

abbrev pub toques : List Acao → ℕ
toques [] = 0
toques (tocar t ∷ acoes) = suc (toques acoes)
toques (abrir o ∷ acoes) = toques acoes
toques (animacao_termina ∷ acoes) = toques acoes

-- The calls made and to be made.
abbrev pub contagem : Dialogos → ℕ
contagem d = length d.chamados + length d.saindo

either :
    (b : Bool) (n : ℕ) (x y : Dialogos)
    → contagem x ≤ n
    → contagem y ≤ n
    → contagem (if b then x else y) ≤ n
either true n x y h k = h
either false n x y h k = k

handle-contagem :
    (r : Option (Option ℕ)) (d : Dialogos) → contagem (handle_button_press r d) ≤ suc (contagem d)
handle-contagem none d = omega arith
handle-contagem (some r) d = omega (arith, length-append d.saindo (r ∷ []))

tocar_em-contagem :
    (o : Option DialogOptions) (t : Toque) (d : Dialogos)
    → contagem (tocar_em o t d) ≤ suc (contagem d)
tocar_em-contagem none t d = omega arith
tocar_em-contagem (some o) t d = handle-contagem (retorno_de t o) d

terminar-contagem :
    (rs : List (Option ℕ)) (d : Dialogos) → d.saindo ≡ rs → contagem (terminar rs d) ≤ contagem d
terminar-contagem [] d e = omega arith
terminar-contagem (none ∷ rs) d e = omega (arith, ap length e)
terminar-contagem (some k ∷ rs) d e = omega (arith, ap length e)

executar-contagem :
    (acoes : List Acao) (d : Dialogos) → contagem (executar acoes d) ≤ contagem d + toques acoes
unfolding executar passo
executar-contagem [] d = omega arith
executar-contagem (abrir o ∷ acoes) d = executar-contagem acoes (abrir_dialogo o d)
executar-contagem (tocar t ∷ acoes) d =
    let next = executar-contagem acoes (passo (tocar t) d) in
    let one =
      either d.is_open (suc (contagem d)) (tocar_em d.options t d) d
        (tocar_em-contagem d.options t d) (omega arith) in
    omega (arith, next, one)
executar-contagem (animacao_termina ∷ acoes) d =
    let next = executar-contagem acoes (passo animacao_termina d) in
    let one = terminar-contagem d.saindo d refl in omega (arith, next, one)

-- Over any use, no more callbacks are called than there are presses.
pub executar-inicial-calls :
    (acoes : List Acao) → length (executar acoes inicial).chamados ≤ toques acoes
executar-inicial-calls acoes = omega (arith, executar-contagem acoes inicial)

-- Two presses of the confirming button before its animation ends call its callback twice: the first
-- does not take the dialog from the screen.
pub confirmar-twice :
    (o : DialogOptions) (k : ℕ) (d : Dialogos)
    → retorno_de confirmar o ≡ some (some k)
    → d.saindo ≡ []
    → (executar
        (abrir o ∷ tocar confirmar ∷ tocar confirmar ∷ animacao_termina ∷ animacao_termina ∷ [])
        d).chamados
      ≡ k ∷ k ∷ d.chamados
unfolding executar passo
confirmar-twice o k d e s = rw (e, s, e) refl
