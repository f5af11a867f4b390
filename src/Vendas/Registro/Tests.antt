-- ===== src/Vendas/Registro/Tests.antt =====
-- A sale by PIX: offline, issued, and refused twice.
use gestao_restaurante.Base.{◌+◌, ◌≡◌, refl, true, false, some, none, [], ◌∷◌, ◌++◌}
use gestao_restaurante.Base.Text.{codes, includes, starts_with, to_lower_case}
use gestao_restaurante.Vendas.{Produto, RegistrarVendaRequestDto, pix, bebidas}
use gestao_restaurante.Vendas.Carrinho.{CarrinhoState, obter_total_itens}
use gestao_restaurante.Vendas.Checkout
use gestao_restaurante.Vendas.Checkout.{Checkout, is_valor_insuficiente, pedido_de_item, confirmar}
use gestao_restaurante.Vendas.Registro.{
  VendaResponseDto, Falha, emitida, caixa_fechado, Loja, dialogo_de_erro, vender,
}
use gestao_restaurante.Vendas.Registro.Vender.{vender-once}

abbrev agua : Produto
agua = record {
  id = "agua";
  nome = codes "Água";
  descricao = none;
  preco = 5000;
  categoria = bebidas;
  imagem_url = none;
  estoque_restante = none;
  ativo = true;
}

abbrev mesa : CarrinhoState
mesa = record {
  itens = record { produto = agua; quantidade = 2; subtotal = 10000 } ∷ [];
  comanda_ativa = "#042";
}

abbrev por_pix : Checkout
por_pix = record Checkout.inicial { forma_pagamento = pix }

abbrev loja : Loja
loja = record {
  carrinho = mesa;
  is_api_online = true;
  pedidos = [];
  dialogos = [];
  invalidacoes = 0;
  fechamentos = 0;
}

abbrev ordem : RegistrarVendaRequestDto
ordem = record {
  forma_pagamento = pix;
  itens = record { produto_id = "agua"; quantidade = 2 } ∷ [];
}

abbrev recibo : VendaResponseDto
recibo = record {
  venda_id = "v1";
  restaurante_id = "r1";
  fechamento_caixa_id = "f1";
  data_hora = "";
  status = "Emitida";
  forma_pagamento = "Pix";
  valor_total = 10000;
  itens = [];
}

abbrev fechado : Falha
fechado = record { response_status = some 422; data_error = none; message = none }

fechado_dialogo : dialogo_de_erro fechado ≡ caixa_fechado
unfolding dialogo_de_erro to_lower_case includes starts_with
fechado_dialogo = refl

ordenada : confirmar false mesa por_pix ≡ some ordem
unfolding confirmar pedido_de_item obter_total_itens is_valor_insuficiente
ordenada = refl

vender-once_example :
    ((vender false por_pix (emitida recibo) loja).pedidos ≡ [] ++ ordem ∷ [])
    × ((vender false por_pix (emitida recibo) loja).carrinho.itens ≡ [])
    × ((vender false por_pix (emitida recibo) loja).fechamentos ≡ 0 + 1)
    × (vender false por_pix (emitida recibo) (vender false por_pix (emitida recibo) loja)
        ≡ vender false por_pix (emitida recibo) loja)
vender-once_example =
    vender-once false false por_pix por_pix recibo (emitida recibo) loja ordem refl ordenada
