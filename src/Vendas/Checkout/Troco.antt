-- ===== src/Vendas/Checkout/Troco.antt =====
-- What the customer pays and gets back.
use gestao_restaurante.Base.{
  ℕ, ◌+◌, ◌-◌, ◌≤◌, ◌<◌, ◌≡◌, ◌≢◌, ◌↔◌, refl, sym, ap, ◌∙◌, Bool, true, false, some, List, [], ◌∷◌,
  map, sum, sum_from-eq, arith,
}
use gestao_restaurante.Base.Number.{
  ℤ, pos, negsuc, to_fixed2, IsCents, to_fixed2_bounds, to_fixed2_of_IsCents,
}
use gestao_restaurante.Base.Decimal.Roundtrip.{parse_float-texto_fixed2, replace_first-texto_fixed2}
use gestao_restaurante.Vendas.{dinheiro, ItemComanda, RegistrarVendaRequestDto}
use gestao_restaurante.Vendas.Carrinho.{CarrinhoState, obter_total_itens, obter_subtotal}
use gestao_restaurante.Vendas.Checkout.{
  Pilula, Checkout, valor_final2, pilula1, pilula2, pilula_exata, pilulas_calculadas,
  selecionar_pilula, ao_abrir, valor_recebido_numerico, troco_de, troco, menor_que,
  is_valor_insuficiente, pedido_de_item, confirmar,
}

-- What a suggestion is worth next to the subtotal.
pub record IsSuggestion (subtotal : ℕ) (p1 p2 p3 : Pilula) : Type 0 where
  pub above : subtotal < p1.valor
  pub near : p1.valor ≤ subtotal + 10000
  pub rising : p1.valor < p2.valor
  pub bounded : p2.valor ≤ subtotal + 51000
  pub exact : p3.valor ≡ subtotal

-- For a positive subtotal there are three suggestions: the first exceeds the subtotal by at most ten
-- reais, the second is larger still and exceeds it by at most fifty-one, and the third is exact.
pub pilulas_calculadas-IsSuggestion :
    (subtotal : ℕ)
    → 0 < subtotal
    → (p1 : Pilula) × (p2 : Pilula) × (p3 : Pilula) × (pilulas_calculadas subtotal
        ≡ p1 ∷ p2 ∷ p3 ∷ [])
      × IsSuggestion subtotal p1 p2 p3
unfolding pilulas_calculadas
pilulas_calculadas-IsSuggestion subtotal h = (
  pilula1 subtotal,
  pilula2 subtotal,
  pilula_exata subtotal,
  ground arith,
  record {
    above = ground arith;
    near = ground arith;
    rising = ground arith;
    bounded = ground arith;
    exact = refl;
  },
)

-- The amount of the input after a suggestion is chosen.
recebido-selecionar :
    (p : Pilula) (c : Checkout)
    → valor_recebido_numerico (selecionar_pilula p c) ≡ pos (to_fixed2 p.valor)
unfolding valor_recebido_numerico selecionar_pilula
recebido-selecionar p c =
    rw (
      replace_first-texto_fixed2 p.valor,
      parse_float-texto_fixed2 p.valor,
      valor_recebido_numerico,
    )

module _ (subtotal : ℕ) (c : Checkout) (v : ℤ) (cash : c.forma_pagamento ≡ dinheiro)
    (read : valor_recebido_numerico c ≡ v) where
  insuficiente-em_dinheiro : is_valor_insuficiente subtotal c ≡ menor_que v subtotal
  unfolding is_valor_insuficiente
  insuficiente-em_dinheiro = rw (read, cash)

  troco-em_dinheiro : troco subtotal c ≡ troco_de v subtotal
  unfolding troco
  troco-em_dinheiro = rw (read, cash)

troco_de-exact :
    (v subtotal : ℕ)
    → IsCents subtotal
    → IsCents v
    → subtotal ≤ v
    → troco_de (pos v) subtotal ≡ v - subtotal
unfolding troco_de
troco_de-exact v subtotal hs hv le =
    ground (arith, to_fixed2_of_IsCents (v - subtotal) (omega arith))

-- Choosing an amount of whole cents that covers a subtotal of whole cents, paid in cash: the text
-- written to the input reads back as that amount, the payment is sufficient, and the change is the
-- amount less the subtotal.
pub selecionar_pilula-troco :
    (p : Pilula) (c : Checkout) (subtotal : ℕ)
    → IsCents subtotal
    → IsCents p.valor
    → subtotal ≤ p.valor
    → c.forma_pagamento ≡ dinheiro
    → (valor_recebido_numerico (selecionar_pilula p c) ≡ pos p.valor)
      × (is_valor_insuficiente subtotal (selecionar_pilula p c) ≡ false)
      × (troco subtotal (selecionar_pilula p c) ≡ p.valor - subtotal)
unfolding selecionar_pilula
selecionar_pilula-troco p c subtotal hs hp le cash =
    let chosen = selecionar_pilula p c in
    let same = recebido-selecionar p c ∙ ap pos (to_fixed2_of_IsCents p.valor hp) in
    (
      same,
      insuficiente-em_dinheiro subtotal chosen (pos p.valor) cash same ∙ ground arith,
      troco-em_dinheiro subtotal chosen (pos p.valor) cash same
          ∙ troco_de-exact p.valor subtotal hs hp le,
    )

ao_abrir-opened :
    (c : Checkout) (subtotal : ℕ)
    → 0 < subtotal
    → ao_abrir true subtotal c ≡ selecionar_pilula (pilula2 subtotal) c
unfolding ao_abrir
ao_abrir-opened c subtotal h = ground arith

valor_final2-IsCents : (subtotal : ℕ) → IsCents subtotal → IsCents (valor_final2 subtotal)
valor_final2-IsCents subtotal h = ground arith

valor_final2-above : (subtotal : ℕ) → subtotal ≤ valor_final2 subtotal
valor_final2-above subtotal = ground arith

-- When the sheet opens over a positive subtotal of whole cents, paid in cash, the second suggestion
-- is in the input: the payment is sufficient, and the change is that suggestion less the subtotal.
pub ao_abrir-sufficient :
    (c : Checkout) (subtotal : ℕ)
    → 0 < subtotal
    → IsCents subtotal
    → c.forma_pagamento ≡ dinheiro
    → (is_valor_insuficiente subtotal (ao_abrir true subtotal c) ≡ false)
      × (troco subtotal (ao_abrir true subtotal c) ≡ valor_final2 subtotal - subtotal)
ao_abrir-sufficient c subtotal h hs cash =
    let (_, enough, back) =
      selecionar_pilula-troco (pilula2 subtotal) c subtotal hs (valor_final2-IsCents subtotal hs)
        (valor_final2-above subtotal) cash in
    rw (ao_abrir-opened c subtotal h) (enough, back)

-- A sale is sent exactly when the cart has an item, the payment suffices and no sale is pending; it
-- then names the payment form of the sheet, and of each line its product and quantity, in order.
pub confirmar_iff :
    (is_pending : Bool) (s : CarrinhoState) (c : Checkout) (dto : RegistrarVendaRequestDto)
    → (confirmar is_pending s c ≡ some dto) ↔ (
        (obter_total_itens s ≢ 0)
        × (is_valor_insuficiente (obter_subtotal s) c ≡ false)
        × (is_pending ≡ false)
        × (dto.forma_pagamento ≡ c.forma_pagamento)
        × (dto.itens ≡ map pedido_de_item s.itens))
unfolding confirmar
confirmar_iff is_pending s c dto = (
  λ sent. (ground arith, ground arith, ground arith, ground arith, ground arith),
  λ ready. ground arith,
)

pedido-quantidade :
    (is : List ItemComanda)
    → sum (λ d. d.quantidade) (map pedido_de_item is) ≡ sum (λ i. i.quantidade) is
unfolding pedido_de_item
pedido-quantidade [] = refl
pedido-quantidade (i ∷ is) = omega (arith, pedido-quantidade is)

troco_de-balance :
    (v : ℤ) (subtotal : ℕ)
    → menor_que v subtotal ≡ false
    → (r : ℕ) × (v ≡ pos r)
      × (subtotal + troco_de v subtotal ≤ r + 5)
      × (r < subtotal + troco_de v subtotal + 6)
unfolding troco_de
troco_de-balance (pos r) subtotal h =
    let near = to_fixed2_bounds (r - subtotal) in
    (r, refl, ground (arith, near), ground (arith, near))
troco_de-balance (negsuc n) subtotal h = cc

-- A cash sale that is sent: it asks for as many units as the cart shows, and the amount received is
-- a number that covers the subtotal and the change, up to half a cent of rounding in the change.
pub confirmar-balance :
    (is_pending : Bool) (s : CarrinhoState) (c : Checkout) (dto : RegistrarVendaRequestDto)
    → confirmar is_pending s c ≡ some dto
    → c.forma_pagamento ≡ dinheiro
    → (sum (λ d. d.quantidade) dto.itens ≡ obter_total_itens s)
      × ((r : ℕ) × (valor_recebido_numerico c ≡ pos r)
          × (obter_subtotal s + troco (obter_subtotal s) c ≤ r + 5)
          × (r < obter_subtotal s + troco (obter_subtotal s) c + 6))
unfolding obter_total_itens
confirmar-balance is_pending s c dto sent cash =
    let (_, enough, _, _, itens) = (confirmar_iff is_pending s c dto).0 sent in
    let v = valor_recebido_numerico c in
    let subtotal = obter_subtotal s in
    let (r, same, above, below) =
      troco_de-balance v subtotal
        (sym (insuficiente-em_dinheiro subtotal c v cash refl) ∙ enough) in
    (
      rw itens (
          pedido-quantidade s.itens
          ∙ omega (arith, sum_from-eq (λ (i : ItemComanda). i.quantidade) 0 s.itens)),
      (
        r,
        same,
        rw (troco-em_dinheiro subtotal c v cash refl) above,
        rw (troco-em_dinheiro subtotal c v cash refl) below,
      ),
    )
