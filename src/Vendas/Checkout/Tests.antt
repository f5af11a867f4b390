-- ===== src/Vendas/Checkout/Tests.antt =====
-- The payment sheet at concrete orders.
use gestao_restaurante.Base.{
  ℕ, ◌+◌, ◌≤◌, ◌<◌, ◌≡◌, ◌≢◌, ◌↔◌, refl, sym, ◌∙◌, true, false, some, none, [], ◌∷◌, map, sum,
  arith,
}
use gestao_restaurante.Base.Number.{pos, to_fixed2}
use gestao_restaurante.Base.Text.{codes, replace_first, trim_start}
use gestao_restaurante.Base.Decimal.{texto_fixed2, parse_float}
use gestao_restaurante.Vendas.{Produto, RegistrarVendaRequestDto, dinheiro, bebidas}
use gestao_restaurante.Vendas.Carrinho.{CarrinhoState, obter_total_itens, obter_subtotal}
use gestao_restaurante.Vendas.Checkout.{
  Pilula, Checkout, inicial, pilulas_calculadas, selecionar_pilula, valor_recebido_numerico, troco,
  is_valor_insuficiente, pedido_de_item, confirmar,
}
use gestao_restaurante.Shared.Vista.{oferece}
use gestao_restaurante.Vendas.Checkout.Vista.{checkout_bottom_sheet}
use gestao_restaurante.Vendas.Checkout.Vista.Toques.{e_confirmar, checkout_bottom_sheet_iff}
use gestao_restaurante.Vendas.Checkout.Troco.{selecionar_pilula-troco, confirmar-balance}

abbrev suco : Produto
suco = record {
  id = "suco";
  nome = codes "Suco";
  descricao = none;
  preco = 12000;
  categoria = bebidas;
  imagem_url = none;
  estoque_restante = none;
  ativo = true;
}

abbrev comanda : CarrinhoState
comanda = record {
  itens = record { produto = suco; quantidade = 3; subtotal = 36000 } ∷ [];
  comanda_ativa = "#042";
}

abbrev cinquenta : Pilula
cinquenta = record { id = "p2"; label = codes "+ R$ 50,00"; valor = 50000 }

abbrev pago : Checkout
pago = record inicial { valor_recebido_input = codes "50,00" }

abbrev venda : RegistrarVendaRequestDto
venda = record {
  forma_pagamento = dinheiro;
  itens = record { produto_id = "suco"; quantidade = 3 } ∷ [];
}

lidos :
    (parse_float (codes "  12.345") ≡ some (pos 12345))
    × (parse_float (codes "1e2x") ≡ some (pos 100000))
    × (parse_float (codes ".") ≡ none)
    × (texto_fixed2 36005 ≡ codes "36.01")
unfolding parse_float trim_start texto_fixed2
lidos = (refl, refl, refl, refl)

aberta : map (λ p. p.valor) (pilulas_calculadas 36000) ≡ 40000 ∷ 50000 ∷ 36000 ∷ []
unfolding pilulas_calculadas
aberta = refl

enviada : confirmar false comanda pago ≡ some venda
unfolding confirmar pedido_de_item obter_total_itens obter_subtotal is_valor_insuficiente
    valor_recebido_numerico parse_float replace_first trim_start to_fixed2
enviada = refl

selecionar_pilula-troco_example :
    (valor_recebido_numerico (selecionar_pilula cinquenta inicial) ≡ pos 50000)
    × (is_valor_insuficiente 36000 (selecionar_pilula cinquenta inicial) ≡ false)
    × (troco 36000 (selecionar_pilula cinquenta inicial) ≡ 14000)
selecionar_pilula-troco_example =
    selecionar_pilula-troco cinquenta inicial 36000 refl refl (omega arith) refl

confirmar-balance_example :
    (sum (λ d. d.quantidade) venda.itens ≡ obter_total_itens comanda)
    × ((r : ℕ) × (valor_recebido_numerico pago ≡ pos r)
        × (obter_subtotal comanda + troco (obter_subtotal comanda) pago ≤ r + 5)
        × (r < obter_subtotal comanda + troco (obter_subtotal comanda) pago + 6))
confirmar-balance_example = confirmar-balance false comanda pago venda enviada refl

checkout_bottom_sheet_iff_example :
    (oferece e_confirmar (checkout_bottom_sheet false true comanda pago) ≡ true)
    ↔ ((true ≡ true) × (confirmar false comanda pago ≢ none))
checkout_bottom_sheet_iff_example = checkout_bottom_sheet_iff false true comanda pago

-- The sheet prints the change of that sale, and offers to confirm it.
oferecida : oferece e_confirmar (checkout_bottom_sheet false true comanda pago) ≡ true
oferecida = checkout_bottom_sheet_iff_example.1 (refl, λ e. none-some (sym e ∙ enviada))
  where
    none-some : none ≢ some venda
    none-some = ground arith
