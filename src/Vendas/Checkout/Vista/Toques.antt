-- ===== src/Vendas/Checkout/Vista/Toques.antt =====
-- What the sheet offers to press.
use gestao_restaurante.Base.{
  ℕ, ◌≡◌, ◌≢◌, ◌↔◌, refl, ap, ◌∙◌, Bool, true, false, not, ◌||◌, none, List, [], ◌∷◌, ◌++◌, ◌==◌,
  if◌then◌else◌, arith,
}
use gestao_restaurante.Base.Number.{ℤ}
use gestao_restaurante.Base.Text.{Texto}
use gestao_restaurante.Shared.Vista.{Elemento, botao, toques, oferece, oferece-append}
use gestao_restaurante.Vendas.Carrinho.{CarrinhoState, obter_total_itens, obter_subtotal}
use gestao_restaurante.Vendas.Checkout.{
  Pilula, Checkout, is_dinheiro, pilulas_calculadas, valor_recebido_numerico, troco,
  is_valor_insuficiente, confirmar,
}
use gestao_restaurante.Vendas.Checkout.Vista.{
  Acao, confirmar_venda, resumo_comanda_box, grade_formas_pagamento, vista_pilulas,
  painel_dinheiro_troco, painel_do_checkout, legenda, botao_confirmar, checkout_bottom_sheet,
}

abbrev pub e_confirmar : Acao → Bool
e_confirmar confirmar_venda = true
e_confirmar _ = false

pilulas-confirmar :
    (ps : List Pilula) (v : List (Elemento Acao))
    → oferece e_confirmar v ≡ false
    → oferece e_confirmar (vista_pilulas ps ++ v) ≡ false
pilulas-confirmar [] v h = h
pilulas-confirmar (p ∷ ps) v h = pilulas-confirmar ps v h

-- The parts of the sheet do not confirm.
painel_dinheiro_troco-confirmar :
    (subtotal : ℕ) (input : Texto) (ps : List Pilula) (t : ℕ) (b : Bool) (r : ℤ)
    → oferece e_confirmar (painel_dinheiro_troco subtotal input ps t b r) ≡ false
unfolding painel_dinheiro_troco
painel_dinheiro_troco-confirmar subtotal input ps t true r = pilulas-confirmar ps _ refl
painel_dinheiro_troco-confirmar subtotal input ps t false r = pilulas-confirmar ps _ refl

either :
    (b : Bool) (v w : List (Elemento Acao))
    → oferece e_confirmar v ≡ false
    → oferece e_confirmar w ≡ false
    → oferece e_confirmar (if b then v else w) ≡ false
either true v w h k = h
either false v w h k = k

painel_do_checkout-confirmar :
    (subtotal : ℕ) (c : Checkout) → oferece e_confirmar (painel_do_checkout subtotal c) ≡ false
unfolding painel_do_checkout
painel_do_checkout-confirmar subtotal c =
    either (is_dinheiro c.forma_pagamento) _ []
      (painel_dinheiro_troco-confirmar subtotal c.valor_recebido_input (pilulas_calculadas subtotal)
        (troco subtotal c) (is_valor_insuficiente subtotal c) (valor_recebido_numerico c))
      refl

legenda-toques : (a b : Bool) → toques (legenda a b) ≡ []
legenda-toques true b = refl
legenda-toques false b = refl

button :
    (d : Bool) (v : List (Elemento Acao))
    → toques v ≡ []
    → oferece e_confirmar (botao d confirmar_venda ∷ v) ≡ not d
button true v h = rw h refl
button false v h = refl

checkout_bottom_sheet-confirmar :
    (is_pending is_api_online : Bool) (s : CarrinhoState) (c : Checkout)
    → oferece e_confirmar (checkout_bottom_sheet is_pending is_api_online s c)
      ≡ not (
          is_valor_insuficiente (obter_subtotal s) c
          || is_pending
          || (obter_total_itens s == 0)
          || not is_api_online)
unfolding checkout_bottom_sheet resumo_comanda_box grade_formas_pagamento botao_confirmar
checkout_bottom_sheet-confirmar is_pending is_api_online s c =
    oferece-append e_confirmar (painel_do_checkout (obter_subtotal s) c)
      (botao_confirmar is_pending is_api_online s c)
    ∙ ap (λ b. b || oferece e_confirmar (botao_confirmar is_pending is_api_online s c))
        (painel_do_checkout-confirmar (obter_subtotal s) c)
    ∙ button _ (legenda is_pending is_api_online) (legenda-toques is_pending is_api_online)

pub checkout_bottom_sheet_iff :
    (is_pending is_api_online : Bool) (s : CarrinhoState) (c : Checkout)
    → (oferece e_confirmar (checkout_bottom_sheet is_pending is_api_online s c) ≡ true)
      ↔ ((is_api_online ≡ true) × (confirmar is_pending s c ≢ none))
unfolding confirmar
checkout_bottom_sheet_iff is_pending is_api_online s c =
    rw (checkout_bottom_sheet-confirmar is_pending is_api_online s c) (ground arith)
