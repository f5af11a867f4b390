-- ===== src/Vendas/Carrinho/Tests.antt =====
-- Runs of the cart, and its theorems at concrete carts.
use gestao_restaurante.Base.{
  ℕ, ◌≡◌, refl, String, true, none, some, List, [], ◌∷◌, str_eq, eq_iff, find, if◌then◌else◌, All,
  arith,
}
use gestao_restaurante.Base.Number.{pos, negsuc, to_fixed2}
use gestao_restaurante.Base.Text.{codes}
use gestao_restaurante.Vendas.{Produto, sobremesas}
use gestao_restaurante.Vendas.Carrinho.{
  has_id, CarrinhoState, inicial, incrementado, novo_item, adicionar_item, remover_item,
  com_quantidade, alterar_quantidade, limpar_carrinho, obter_total_itens, obter_subtotal, Comando,
  adicionar, alterar, limpar, step, run,
}
use gestao_restaurante.Vendas.Carrinho.Invariant.{HasSubtotal, IsValid, run-inicial-IsValid}
use gestao_restaurante.Vendas.Carrinho.Refinement.{quantidade_de, efeitos, run-refines-efeitos}
use gestao_restaurante.Vendas.Carrinho.Subtotal.{adicionar_item-stale_price}

abbrev produto_de : String → ℕ → Produto
produto_de id preco = record {
  id = id;
  nome = codes id;
  descricao = none;
  preco = preco;
  categoria = sobremesas;
  imagem_url = none;
  estoque_restante = some 3;
  ativo = true;
}

abbrev brownie : Produto
brownie = produto_de "brownie" 18900

abbrev smash : Produto
smash = produto_de "smash" 42333

abbrev precos : String → ℕ
precos id = if str_eq id "brownie" then 18900 else 42333

abbrev pedido : List Comando
pedido =
    adicionar brownie
    ∷ adicionar smash
    ∷ adicionar brownie
    ∷ alterar "smash" (pos 3)
    ∷ alterar "agua" (pos 4)
    ∷ []

abbrev cesta : CarrinhoState
cesta = record {
  itens =
      record { produto = brownie; quantidade = 2; subtotal = 37800 }
      ∷ record { produto = smash; quantidade = 3; subtotal = 127000 }
      ∷ [];
  comanda_ativa = "#042";
}

run-pedido : run pedido inicial ≡ cesta
unfolding run step adicionar_item incrementado novo_item alterar_quantidade com_quantidade to_fixed2
run-pedido = refl

totais :
    (obter_total_itens cesta ≡ 5)
    × (obter_subtotal cesta ≡ 164800)
    × (obter_total_itens (run (alterar "smash" (negsuc 0) ∷ []) cesta) ≡ 2)
    × (obter_total_itens (run (limpar ∷ []) cesta) ≡ 0)
unfolding obter_total_itens obter_subtotal to_fixed2 run step alterar_quantidade remover_item
    limpar_carrinho
totais = (refl, refl, refl, refl)

cesta-IsValid : IsValid precos cesta
unfolding to_fixed2
cesta-IsValid = record {
  distinct = ((ground (arith, eq_iff "smash" "brownie"), tt), (tt, tt));
  priced = omega arith;
}

run-inicial-IsValid_example : IsValid precos (run pedido inicial)
run-inicial-IsValid_example = run-inicial-IsValid precos pedido (omega arith)

run-refines-efeitos_example :
    quantidade_de "smash" (run pedido inicial).itens ≡ efeitos pedido (λ _. 0) "smash"
run-refines-efeitos_example = run-refines-efeitos pedido "smash"

-- The brownie comes back at R$ 20,00.
abbrev brownie_caro : Produto
brownie_caro = produto_de "brownie" 20000

adicionar_item-stale_price_example :
    (find (has_id "brownie") (adicionar_item brownie_caro cesta).itens
      ≡ some (record { produto = brownie; quantidade = 3; subtotal = 60000 }))
    × (¬ All HasSubtotal (adicionar_item brownie_caro cesta).itens)
unfolding to_fixed2
adicionar_item-stale_price_example =
    adicionar_item-stale_price brownie_caro cesta
      (record { produto = brownie; quantidade = 2; subtotal = 37800 }) refl (omega arith)
