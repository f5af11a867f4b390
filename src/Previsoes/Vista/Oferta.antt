-- ===== src/Previsoes/Vista/Oferta.antt =====
-- What the screen of the forecasts and the form of its order offer to press.
use gestao_restaurante.Base.{
  ℕ, ◌+◌, ◌<◌, ◌==◌, ◌≡◌, ◌≢◌, ◌↔◌, refl, sym, ap, ◌∙◌, inl, inr, Bool, true, false, not, ◌||◌,
  Option, none, some, List, [], ◌∷◌, ◌++◌, map, any, sum_from, sum_from-eq, ltb, All, Bool-cases,
  arith,
}
use native.Mathlib.Nat.{mul-pos}
use gestao_restaurante.Shared.Vista.{Elemento, botao, oferece, oferece-append}
use gestao_restaurante.Previsoes.{
  ItemCapacidadeProducao, SugestaoReposicaoInsumo, item_com_maior_deficit,
}
use gestao_restaurante.Previsoes.Gargalo.{IsGargalo, item_com_maior_deficit-IsGargalo}
use gestao_restaurante.Previsoes.OrdemCompra.{
  Selecionados, ao_abrir, itens_para_comprar, escolhidos, preco_ou_padrao, custo, valor_total,
  insumo_pedido, handle_confirmar,
}
use gestao_restaurante.Previsoes.OrdemCompra.Selecao.{escolhidos-ao_abrir}
use gestao_restaurante.Previsoes.Vista.{
  Acao, sugerir_pedido, gerar_ordem_compra, gargalo_critico_card, precisa_comprar, vista_sugestoes,
  consolidar, sugestao_reposicao_card,
}
use gestao_restaurante.Previsoes.Vista.Dialogos.{
  ordem_compra_item_row, linhas, legenda_envio, ordem_compra_modal,
}
use gestao_restaurante.Previsoes.Vista.Dialogos

abbrev pub e_confirmar : Dialogos.Acao → Bool
e_confirmar Dialogos.confirmar = true
e_confirmar _ = false

abbrev pub e_gerar : Acao → Bool
e_gerar gerar_ordem_compra = true
e_gerar _ = false

abbrev pub e_sugerir : Acao → Bool
e_sugerir (sugerir_pedido id) = true
e_sugerir _ = false

-- The rows of the form only mark.
linha-confirmar :
    (b : Bool) (i : SugestaoReposicaoInsumo) (v : List (Elemento Dialogos.Acao))
    → oferece e_confirmar (ordem_compra_item_row b i ++ v) ≡ oferece e_confirmar v
unfolding ordem_compra_item_row
linha-confirmar true i v = refl
linha-confirmar false i v = refl

linhas-confirmar :
    (m : Selecionados) (is : List SugestaoReposicaoInsumo)
    → oferece e_confirmar (linhas m is) ≡ false
linhas-confirmar m [] = refl
linhas-confirmar m (i ∷ is) =
    linha-confirmar (m i.insumo_id) i (linhas m is) ∙ linhas-confirmar m is

envio-confirmar :
    (d b : Bool) → oferece e_confirmar (botao d Dialogos.confirmar ∷ legenda_envio b) ≡ not d
envio-confirmar true true = refl
envio-confirmar true false = refl
envio-confirmar false b = refl

ordem_compra_modal-confirmar :
    (m : Selecionados) (is_enviando : Bool) (s : List SugestaoReposicaoInsumo)
    → oferece e_confirmar (ordem_compra_modal m is_enviando s)
      ≡ not (is_enviando || (valor_total m (itens_para_comprar s) == 0))
unfolding ordem_compra_modal
ordem_compra_modal-confirmar m true s =
    oferece-append e_confirmar (linhas m (itens_para_comprar s)) _
    ∙ rw (linhas-confirmar m (itens_para_comprar s)) (envio-confirmar true true)
ordem_compra_modal-confirmar m false s =
    oferece-append e_confirmar (linhas m (itens_para_comprar s)) _
    ∙ rw (linhas-confirmar m (itens_para_comprar s))
        (envio-confirmar (valor_total m (itens_para_comprar s) == 0) false)

-- What is to be bought costs something.
preco_ou_padrao-positive : (p : Option ℕ) → 0 < preco_ou_padrao p
preco_ou_padrao-positive none = omega arith
preco_ou_padrao-positive (some p) = elim (Bool-cases (ltb 0 p)) [
  | inl e ↦ rw (preco_ou_padrao, e) (ground (arith, e))
  | inr e ↦ rw (preco_ou_padrao, e) (omega arith)
]

custo-All :
    (m : Selecionados) (s : List SugestaoReposicaoInsumo)
    → All (λ i. 0 < custo i) (escolhidos m (itens_para_comprar s))
unfolding escolhidos itens_para_comprar
custo-All m [] = tt
custo-All m (i ∷ s) = elim (Bool-cases (ltb 0 i.quantidade_comprar)) [
  | inr e ↦ rw e (custo-All m s)
  | inl e ↦ rw e (elim (Bool-cases (m i.insumo_id)) [
    | inr f ↦ rw f (custo-All m s)
    | inl f ↦ rw f (
      mul-pos (ground (arith, e)) (preco_ou_padrao-positive i.preco_estimado_unitario),
      custo-All m s,
    )
  ])
]

total-empty :
    (xs : List SugestaoReposicaoInsumo)
    → All (λ i. 0 < custo i) xs
    → ((sum_from custo 0 xs == 0) ≡ false) ↔ (map insumo_pedido xs ≢ [])
total-empty [] h = ground arith
total-empty (x ∷ xs) (h, hs) =
    let law = sum_from-eq custo (0 + custo x) xs in
    ((λ e. (ground arith)), (λ e. ground (arith, law, h)))

-- The form's confirmation can be pressed exactly when no order is being sent and the order that it
-- would send has an ingredient.
pub ordem_compra_modal_iff :
    (m : Selecionados) (is_enviando : Bool) (s : List SugestaoReposicaoInsumo)
    → (oferece e_confirmar (ordem_compra_modal m is_enviando s) ≡ true)
      ↔ ((is_enviando ≡ false) × ((handle_confirmar m (itens_para_comprar s)).insumos ≢ []))
unfolding handle_confirmar valor_total
ordem_compra_modal_iff m is_enviando s =
    let law = total-empty (escolhidos m (itens_para_comprar s)) (custo-All m s) in
    rw (ordem_compra_modal-confirmar m is_enviando s) (ground (arith, law))

-- The suggestions only show.
sugestoes-gerar :
    (s : List SugestaoReposicaoInsumo) (v : List (Elemento Acao))
    → oferece e_gerar (vista_sugestoes s ++ v) ≡ oferece e_gerar v
unfolding vista_sugestoes
sugestoes-gerar [] v = refl
sugestoes-gerar (i ∷ s) v = sugestoes-gerar s v

sugestao_reposicao_card-gerar :
    (s : List SugestaoReposicaoInsumo)
    → oferece e_gerar (sugestao_reposicao_card s) ≡ any precisa_comprar s
unfolding sugestao_reposicao_card
sugestao_reposicao_card-gerar s = sugestoes-gerar s _ ∙ shown (any precisa_comprar s)
  where
    shown : (b : Bool) → oferece e_gerar (consolidar b) ≡ b
    shown true = refl
    shown false = refl

itens_para_comprar-any :
    (s : List SugestaoReposicaoInsumo)
    → (any precisa_comprar s ≡ true) ↔ (map insumo_pedido (itens_para_comprar s) ≢ [])
unfolding itens_para_comprar
itens_para_comprar-any [] = ground arith
itens_para_comprar-any (i ∷ s) = elim (Bool-cases (ltb 0 i.quantidade_comprar)) [
  | inl e ↦ rw e (ground arith)
  | inr e ↦ rw e (itens_para_comprar-any s)
]

-- The form as it opens for no ingredient in particular can be confirmed if there is something to
-- buy.
pub ao_abrir-ordem :
    (s : List SugestaoReposicaoInsumo)
    → (any precisa_comprar s ≡ true) ↔ (
        oferece e_confirmar (ordem_compra_modal (ao_abrir none (itens_para_comprar s)) false s)
        ≡ true)
unfolding handle_confirmar
ao_abrir-ordem s =
    let whole = ap (map insumo_pedido) (escolhidos-ao_abrir none (itens_para_comprar s)) in
    let form = ordem_compra_modal_iff (ao_abrir none (itens_para_comprar s)) false s in
    let some_item = itens_para_comprar-any s in
    (
      (λ e. form.1 (refl, λ k. some_item.0 e (sym whole ∙ k))),
      (λ e. some_item.1 (λ k. (form.0 e).1 (whole ∙ k))),
    )

-- The card of the suggestions offers an order exactly when the form that this opens, for no
-- ingredient in particular, can be confirmed as it opens.
pub sugestao_reposicao_card_iff :
    (s : List SugestaoReposicaoInsumo)
    → (oferece e_gerar (sugestao_reposicao_card s) ≡ true) ↔ (
        oferece e_confirmar (ordem_compra_modal (ao_abrir none (itens_para_comprar s)) false s)
        ≡ true)
sugestao_reposicao_card_iff s = rw (sugestao_reposicao_card-gerar s) (ao_abrir-ordem s)

any-none :
    (xs : List ItemCapacidadeProducao)
    → All (λ i. i.risco_rutura ≡ false) xs
    → any (λ i. i.risco_rutura) xs ≡ false
any-none [] h = refl
any-none (x ∷ xs) (h, hs) = rw h (any-none xs hs)

any-append :
    (xs ys : List ItemCapacidadeProducao) (g : ItemCapacidadeProducao)
    → g.risco_rutura ≡ true
    → any (λ i. i.risco_rutura) (xs ++ g ∷ ys) ≡ true
any-append [] ys g h = rw h refl
any-append (x ∷ xs) ys g h = ground (arith, any-append xs ys g h)

-- The card of the bottleneck suggests an order exactly when a product of the report is at risk; if
-- none is, it says that the whole demand is met.
pub gargalo_critico_card-risco :
    (xs : List ItemCapacidadeProducao) (perda : ℕ)
    → oferece e_sugerir (gargalo_critico_card (item_com_maior_deficit xs) perda)
      ≡ any (λ i. i.risco_rutura) xs
unfolding gargalo_critico_card
gargalo_critico_card-risco xs perda =
    shown (item_com_maior_deficit xs) (item_com_maior_deficit-IsGargalo xs)
  where
    shown :
        (o : Option ItemCapacidadeProducao)
        → IsGargalo xs o
        → oferece e_sugerir (gargalo_critico_card o perda) ≡ any (λ i. i.risco_rutura) xs
    shown none h = sym (any-none xs h)
    shown (some g) (risk, most, (antes, depois, split, less)) =
        rw split (sym (any-append antes depois g risk))
