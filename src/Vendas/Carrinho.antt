-- ===== src/Vendas/Carrinho.antt =====
-- frontend/features/vendas/hooks/useCarrinho.ts: the cart of the open order, a store whose
-- operations return the new state. A quantity that a caller sets may be zero or negative.
pub mod Invariant
pub mod Refinement
pub mod Subtotal
mod Tests
use gestao_restaurante.Base.{
  ℕ, zero, suc, ◌+◌, ◌*◌, String, Bool, not, Option, none, some, List, [], ◌∷◌, ◌++◌, map, filter,
  find_index, get_elem?, set, sum_from, str_eq, if◌then◌else◌,
}
use gestao_restaurante.Base.Number.{ℤ, pos, negsuc, to_fixed2}
use gestao_restaurante.Vendas.{Produto, ItemComanda}

pub record CarrinhoState : Type 0 where
  pub itens : List ItemComanda
  pub comanda_ativa : String

abbrev pub inicial : CarrinhoState
inicial = record { itens = []; comanda_ativa = "#042" }

-- `i.produto.id === id`
abbrev pub has_id : String → ItemComanda → Bool
has_id id i = str_eq i.produto.id id

-- The line of a product already in the cart, one unit up, at the price of the product added.
pub incrementado : Produto → ItemComanda → ItemComanda
incrementado p item = record item {
  quantidade = item.quantidade + 1;
  subtotal = to_fixed2 ((item.quantidade + 1) * p.preco);
}

pub novo_item : Produto → ItemComanda
novo_item p = record { produto = p; quantidade = 1; subtotal = to_fixed2 p.preco }

pub adicionar_item : Produto → CarrinhoState → CarrinhoState
adicionar_item p s = elim (find_index (has_id p.id) s.itens) [
  | some i ↦ elim (get_elem? s.itens i) [
    | some item ↦ record s { itens = set s.itens i (incrementado p item) }
    | none ↦ s
  ]
  | none ↦ record s { itens = s.itens ++ novo_item p ∷ [] }
]

pub remover_item : String → CarrinhoState → CarrinhoState
remover_item id s = record s { itens = filter (λ i. not (has_id id i)) s.itens }

-- A line of the product `id` with its quantity set to `q`, and any other line as it is.
pub com_quantidade : String → ℕ → ItemComanda → ItemComanda
com_quantidade id q item =
    if has_id id item
    then record item { quantidade = q; subtotal = to_fixed2 (q * item.produto.preco) }
    else item

pub alterar_quantidade : String → ℤ → CarrinhoState → CarrinhoState
alterar_quantidade id (negsuc n) s = remover_item id s
alterar_quantidade id (pos zero) s = remover_item id s
alterar_quantidade id (pos (suc n)) s = record s { itens = map (com_quantidade id (suc n)) s.itens }

unfoldable pub limpar_carrinho : CarrinhoState → CarrinhoState
limpar_carrinho s = record s { itens = [] }

unfoldable pub obter_total_itens : CarrinhoState → ℕ
obter_total_itens s = sum_from (λ i. i.quantidade) 0 s.itens

unfoldable pub obter_subtotal : CarrinhoState → ℕ
obter_subtotal s = to_fixed2 (sum_from (λ i. i.subtotal) 0 s.itens)

-- What a screen can do to the cart.
pub data Comando : Type 0 where
  adicionar : Produto → Comando
  remover : String → Comando
  alterar : String → ℤ → Comando
  limpar : Comando

pub step : Comando → CarrinhoState → CarrinhoState
step (adicionar p) s = adicionar_item p s
step (remover id) s = remover_item id s
step (alterar id q) s = alterar_quantidade id q s
step limpar s = limpar_carrinho s

pub run : List Comando → CarrinhoState → CarrinhoState
run [] s = s
run (c ∷ cs) s = run cs (step c s)
