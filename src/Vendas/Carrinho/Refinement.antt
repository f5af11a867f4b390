-- ===== src/Vendas/Carrinho/Refinement.antt =====
-- The cart as a multiset of products: how many units of each id it holds. The lines, their order
-- and their prices are forgotten.
use gestao_restaurante.Base.{
  ℕ, zero, suc, ◌+◌, ◌≤◌, ◌≡◌, refl, ◌∙◌, String, not, List, [], ◌∷◌, map, filter, str_eq, eq_iff,
  if◌then◌else◌, ◌==◌, All, All-filter, arith,
}
use gestao_restaurante.Base.Number.{pos, negsuc}
use gestao_restaurante.Vendas.{Produto, ItemComanda}
use gestao_restaurante.Vendas.Carrinho.{
  CarrinhoState, inicial, has_id, incrementado, novo_item, remover_item, com_quantidade,
  alterar_quantidade, limpar_carrinho, Comando, adicionar, remover, alterar, limpar, step, run,
}
use gestao_restaurante.Vendas.Carrinho.Invariant.{acrescentar, adicionar_item-acrescentar}

-- How many units of the product `id` the lines hold.
abbrev pub quantidade_de : String → List ItemComanda → ℕ
quantidade_de id [] = 0
quantidade_de id (i ∷ is) = if has_id id i then i.quantidade else quantidade_de id is

-- The abstract cart, and what each command means there.
abbrev pub Cesta : Type 0
Cesta = String → ℕ

abbrev pub efeito : Comando → Cesta → Cesta
efeito (adicionar p) f j = if str_eq p.id j then f j + 1 else f j
efeito (remover id) f j = if str_eq id j then 0 else f j
efeito (alterar id (negsuc n)) f j = if str_eq id j then 0 else f j
efeito (alterar id (pos zero)) f j = if str_eq id j then 0 else f j
efeito (alterar id (pos (suc n))) f j = if str_eq id j then (if f j == 0 then 0 else suc n) else f j
efeito limpar f j = 0

abbrev pub efeitos : List Comando → Cesta → Cesta
efeitos [] f = f
efeitos (c ∷ cs) f = efeitos cs (efeito c f)

abbrev HasUnits : ItemComanda → Type 0
HasUnits i = 1 ≤ i.quantidade

quantidade_de-acrescentar :
    (p : Produto) (j : String) (is : List ItemComanda)
    → quantidade_de j (acrescentar p is)
      ≡ (if str_eq p.id j then quantidade_de j is + 1 else quantidade_de j is)
unfolding incrementado novo_item
quantidade_de-acrescentar p j [] = ground arith
quantidade_de-acrescentar p j (i ∷ is) = ground (
  arith,
  eq_iff i.produto.id p.id,
  eq_iff i.produto.id j,
  eq_iff p.id j,
  quantidade_de-acrescentar p j is,
)

pub quantidade_de-remover :
    (id j : String) (is : List ItemComanda)
    → quantidade_de j (filter (λ i. not (has_id id i)) is)
      ≡ (if str_eq id j then 0 else quantidade_de j is)
quantidade_de-remover id j [] = ground arith
quantidade_de-remover id j (i ∷ is) = ground (
  arith,
  eq_iff i.produto.id id,
  eq_iff i.produto.id j,
  eq_iff id j,
  quantidade_de-remover id j is,
)

quantidade_de-alterar :
    (id j : String) (n : ℕ) (is : List ItemComanda)
    → All HasUnits is
    → quantidade_de j (map (com_quantidade id (suc n)) is)
      ≡ (if str_eq id j then (if quantidade_de j is == 0 then 0 else suc n) else quantidade_de j is)
unfolding com_quantidade
quantidade_de-alterar id j n [] h = ground arith
quantidade_de-alterar id j n (i ∷ is) (h, hs) = ground (
  arith,
  eq_iff i.produto.id id,
  eq_iff i.produto.id j,
  eq_iff id j,
  quantidade_de-alterar id j n is hs,
)

quantidade_de-step :
    (c : Comando) (s : CarrinhoState) (j : String)
    → All HasUnits s.itens
    → quantidade_de j (step c s).itens ≡ efeito c (λ k. quantidade_de k s.itens) j
unfolding step alterar_quantidade remover_item limpar_carrinho
quantidade_de-step (adicionar p) s j h =
    rw (adicionar_item-acrescentar p s) (quantidade_de-acrescentar p j s.itens)
quantidade_de-step (remover id) s j h = quantidade_de-remover id j s.itens
quantidade_de-step (alterar id (negsuc n)) s j h = quantidade_de-remover id j s.itens
quantidade_de-step (alterar id (pos zero)) s j h = quantidade_de-remover id j s.itens
quantidade_de-step (alterar id (pos (suc n))) s j h = quantidade_de-alterar id j n s.itens h
quantidade_de-step limpar s j h = refl

acrescentar-HasUnits :
    (p : Produto) (is : List ItemComanda) → All HasUnits is → All HasUnits (acrescentar p is)
unfolding incrementado novo_item
acrescentar-HasUnits p [] h = (omega arith, tt)
acrescentar-HasUnits p (i ∷ is) (h, hs) = ground (arith, acrescentar-HasUnits p is hs)

alterar-HasUnits :
    (id : String) (n : ℕ) (is : List ItemComanda)
    → All HasUnits is
    → All HasUnits (map (com_quantidade id (suc n)) is)
unfolding com_quantidade
alterar-HasUnits id n [] h = tt
alterar-HasUnits id n (i ∷ is) (h, hs) = ground (arith, alterar-HasUnits id n is hs)

step-HasUnits :
    (c : Comando) (s : CarrinhoState) → All HasUnits s.itens → All HasUnits (step c s).itens
unfolding step alterar_quantidade remover_item limpar_carrinho
step-HasUnits (adicionar p) s h =
    rw (adicionar_item-acrescentar p s) (acrescentar-HasUnits p s.itens h)
step-HasUnits (remover id) s h = All-filter HasUnits _ s.itens h
step-HasUnits (alterar id (negsuc n)) s h = All-filter HasUnits _ s.itens h
step-HasUnits (alterar id (pos zero)) s h = All-filter HasUnits _ s.itens h
step-HasUnits (alterar id (pos (suc n))) s h = alterar-HasUnits id n s.itens h
step-HasUnits limpar s h = tt

efeito-ext :
    (c : Comando) (f g : Cesta)
    → ((k : String) → f k ≡ g k)
    → (j : String) → efeito c f j ≡ efeito c g j
efeito-ext (adicionar p) f g h j = rw (h j)
efeito-ext (remover id) f g h j = rw (h j)
efeito-ext (alterar id (negsuc n)) f g h j = rw (h j)
efeito-ext (alterar id (pos zero)) f g h j = rw (h j)
efeito-ext (alterar id (pos (suc n))) f g h j = rw (h j)
efeito-ext limpar f g h j = refl

run-efeitos :
    (cs : List Comando) (s : CarrinhoState) (f : Cesta)
    → All HasUnits s.itens
    → ((k : String) → quantidade_de k s.itens ≡ f k)
    → (j : String) → quantidade_de j (run cs s).itens ≡ efeitos cs f j
unfolding run
run-efeitos [] s f h e j = e j
run-efeitos (c ∷ cs) s f h e j =
    run-efeitos cs (step c s) (efeito c f) (step-HasUnits c s h)
      (λ k. quantidade_de-step c s k h ∙ efeito-ext c _ f e k) j

-- Whatever commands act on the empty cart, the cart holds of each product exactly the units that
-- the commands give it when each is read on plain quantities: an addition adds one unit of its
-- product, a removal or a quantity of zero or less takes all of it, a positive quantity replaces
-- the quantity of a product that is there, and no other product is touched.
pub run-refines-efeitos :
    (cs : List Comando) (j : String)
    → quantidade_de j (run cs inicial).itens ≡ efeitos cs (λ _. 0) j
run-refines-efeitos cs j = run-efeitos cs inicial (λ _. 0) tt (λ k. refl) j
