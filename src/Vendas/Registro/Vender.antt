-- ===== src/Vendas/Registro/Vender.antt =====
-- What a sale does to the cart and to the server, from the button on.
use gestao_restaurante.Base.{
  ◌+◌, ◌≡◌, refl, sym, ap, ◌∙◌, Bool, true, false, not, none, some, [], ◌∷◌, ◌++◌, if◌then◌else◌,
}
use gestao_restaurante.Base.Text.{includes, starts_with, to_lower_case}
use gestao_restaurante.Vendas.{RegistrarVendaRequestDto}
use gestao_restaurante.Vendas.Carrinho.{
  CarrinhoState, limpar_carrinho, obter_subtotal, obter_total_itens,
}
use gestao_restaurante.Vendas.Checkout.{Checkout, confirmar, troco}
use gestao_restaurante.Vendas.Registro.{
  VendaResponseDto, Falha, Resposta, emitida, recusada, servidor_offline, Loja, dialogo_de_erro,
  on_error, on_success, falha_offline, ao_responder, registrar_venda, enviar, vender,
}

choose-true : {b : Bool} (x y : Loja) → b ≡ true → (if b then x else y) ≡ x
choose-true x y e = rw e refl

choose-false : {b : Bool} (x y : Loja) → b ≡ false → (if b then x else y) ≡ y
choose-false x y e = rw e refl

falha_offline_lem : dialogo_de_erro falha_offline ≡ servidor_offline
unfolding dialogo_de_erro to_lower_case includes starts_with
falha_offline_lem = refl

-- Where the API is offline, an order that the sheet lets through changes nothing but that the dialog
-- for the offline server is shown: nothing is sent, and the cart is kept.
pub vender-offline :
    (is_pending : Bool) (c : Checkout) (r : Resposta) (l : Loja) (dto : RegistrarVendaRequestDto)
    → l.is_api_online ≡ false
    → confirmar is_pending l.carrinho c ≡ some dto
    → vender is_pending c r l ≡ record l { dialogos = servidor_offline ∷ l.dialogos }
unfolding vender registrar_venda on_error
vender-offline is_pending c r l dto off sent =
    ap (enviar (troco (obter_subtotal l.carrinho) c) r l) sent
    ∙ choose-true _ _ (ap not off)
    ∙ ap (λ d. record l { dialogos = d ∷ l.dialogos }) falha_offline_lem

vender-sent :
    (is_pending : Bool) (c : Checkout) (r : Resposta) (l : Loja) (dto : RegistrarVendaRequestDto)
    → l.is_api_online ≡ true
    → confirmar is_pending l.carrinho c ≡ some dto
    → vender is_pending c r l
      ≡ ao_responder
          (troco (obter_subtotal l.carrinho) c)
          r
          (record l { pedidos = l.pedidos ++ dto ∷ [] })
unfolding vender registrar_venda
vender-sent is_pending c r l dto on sent =
    ap (enviar (troco (obter_subtotal l.carrinho) c) r l) sent ∙ choose-false _ _ (ap not on)

confirmar-empty :
    (is_pending : Bool) (s : CarrinhoState) (c : Checkout)
    → confirmar is_pending (limpar_carrinho s) c ≡ none
unfolding confirmar limpar_carrinho obter_total_itens
confirmar-empty is_pending s c = refl

-- Where the API is online and the sheet lets an order through which the server issues: the order is
-- sent once, the cart is empty and the sheet is closed, and a second confirmation, whatever is then
-- entered and whatever the server would answer, changes nothing.
pub vender-once :
    (p q : Bool) (c d : Checkout) (v : VendaResponseDto) (r : Resposta) (l : Loja)
    (dto : RegistrarVendaRequestDto)
    → l.is_api_online ≡ true
    → confirmar p l.carrinho c ≡ some dto
    → ((vender p c (emitida v) l).pedidos ≡ l.pedidos ++ dto ∷ [])
      × ((vender p c (emitida v) l).carrinho.itens ≡ [])
      × ((vender p c (emitida v) l).fechamentos ≡ l.fechamentos + 1)
      × (vender q d r (vender p c (emitida v) l) ≡ vender p c (emitida v) l)
unfolding ao_responder on_success vender limpar_carrinho
vender-once p q c d v r l dto on sent =
    let t = troco (obter_subtotal l.carrinho) c in
    let after = on_success t v (record l { pedidos = l.pedidos ++ dto ∷ [] }) in
    let done : vender p c (emitida v) l ≡ after = vender-sent p c (emitida v) l dto on sent in
    let again : vender q d r after ≡ after =
      ap (enviar (troco (obter_subtotal after.carrinho) d) r after)
        (confirmar-empty q l.carrinho d) in
    (
      ap (λ x. x.pedidos) done,
      ap (λ x. x.carrinho.itens) done,
      ap (λ x. x.fechamentos) done,
      ap (vender q d r) done ∙ again ∙ sym done,
    )

-- Where the API is online, an order that the server refuses, or whose answer is lost, keeps the cart,
-- and one dialog tells it; confirming the same sheet again sends the same order a second time.
pub vender-retry :
    (c : Checkout) (f g : Falha) (l : Loja) (dto : RegistrarVendaRequestDto)
    → l.is_api_online ≡ true
    → confirmar false l.carrinho c ≡ some dto
    → ((vender false c (recusada f) l).carrinho ≡ l.carrinho)
      × ((vender false c (recusada f) l).dialogos ≡ dialogo_de_erro f ∷ l.dialogos)
      × ((vender false c (recusada g) (vender false c (recusada f) l)).pedidos
          ≡ (l.pedidos ++ dto ∷ []) ++ dto ∷ [])
unfolding ao_responder on_error
vender-retry c f g l dto on sent =
    let after = on_error f (record l { pedidos = l.pedidos ++ dto ∷ [] }) in
    let done : vender false c (recusada f) l ≡ after =
      vender-sent false c (recusada f) l dto on sent in
    let again = vender-sent false c (recusada g) after dto on sent in
    (
      ap (λ x. x.carrinho) done,
      ap (λ x. x.dialogos) done,
      ap (λ x. (vender false c (recusada g) x).pedidos) done ∙ ap (λ x. x.pedidos) again,
    )
