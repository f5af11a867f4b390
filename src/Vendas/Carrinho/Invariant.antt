-- ===== src/Vendas/Carrinho/Invariant.antt =====
-- What every cart that the operations build satisfies: one line to a product, no line without
-- units, and each line's subtotal the rounded price of its units.
use gestao_restaurante.Base.{
  ℕ, zero, suc, ◌+◌, ◌*◌, ◌≤◌, ◌≡◌, ◌≢◌, refl, sym, ap, ◌∙◌, inl, inr, String, Bool, Option, none,
  some, List, [], ◌∷◌, ◌++◌, map, filter, find_index, get_elem?, set, eq_iff, if◌then◌else◌,
  Bool-cases, All, All-filter, arith,
}
use gestao_restaurante.Base.Number.{pos, negsuc, to_fixed2}
use gestao_restaurante.Vendas.{Produto, ItemComanda}
use gestao_restaurante.Vendas.Carrinho.{
  CarrinhoState, has_id, incrementado, novo_item, adicionar_item, remover_item, com_quantidade,
  alterar_quantidade, limpar_carrinho, inicial, Comando, adicionar, remover, alterar, limpar, step,
  run,
}

-- `adicionarItem` as one pass over the lines.
abbrev pub acrescentar : Produto → List ItemComanda → List ItemComanda
acrescentar p [] = novo_item p ∷ []
acrescentar p (i ∷ is) = if has_id p.id i then incrementado p i ∷ is else i ∷ acrescentar p is

abbrev com_indice : Produto → List ItemComanda → Option ℕ → List ItemComanda
com_indice p is none = is ++ novo_item p ∷ []
com_indice p is (some n) = elim (get_elem? is n) [
  | some item ↦ set is n (incrementado p item)
  | none ↦ is
]

com_indice-acrescentar :
    (p : Produto) (is : List ItemComanda)
    → com_indice p is (find_index (has_id p.id) is) ≡ acrescentar p is
com_indice-acrescentar p [] = refl
com_indice-acrescentar p (i ∷ is) = ground (arith, com_indice-acrescentar p is)

pub adicionar_item-acrescentar :
    (p : Produto) (s : CarrinhoState) → (adicionar_item p s).itens ≡ acrescentar p s.itens
unfolding adicionar_item
adicionar_item-acrescentar p s = ground (arith, com_indice-acrescentar p s.itens)

-- No line of `is` is of the product `id`.
abbrev pub Fresh : String → List ItemComanda → Type 0
Fresh id is = All (λ i. i.produto.id ≢ id) is

-- No two lines are of one product.
abbrev pub Distinct : List ItemComanda → Type 0
Distinct [] = Unit {0}
Distinct (i ∷ is) = Fresh i.produto.id is × Distinct is

-- The line's subtotal is the price of its units, to the cent.
abbrev pub HasSubtotal : ItemComanda → Type 0
HasSubtotal i = i.subtotal ≡ to_fixed2 (i.quantidade * i.produto.preco)

-- A line under a price list.
abbrev pub IsPriced : (String → ℕ) → ItemComanda → Type 0
IsPriced preco i = (1 ≤ i.quantidade) × (i.produto.preco ≡ preco i.produto.id) × HasSubtotal i

pub record IsValid (preco : String → ℕ) (s : CarrinhoState) : Type 0 where
  pub distinct : Distinct s.itens
  pub priced : All (IsPriced preco) s.itens

-- A command that agrees with the price list.
abbrev pub Agrees : (String → ℕ) → Comando → Type 0
Agrees preco (adicionar p) = p.preco ≡ preco p.id
Agrees preco (remover id) = Unit {0}
Agrees preco (alterar id q) = Unit {0}
Agrees preco limpar = Unit {0}

acrescentar-Fresh :
    (id : String) (p : Produto) (is : List ItemComanda)
    → p.id ≢ id
    → Fresh id is
    → Fresh id (acrescentar p is)
unfolding incrementado novo_item
acrescentar-Fresh id p [] h k = (h, tt)
acrescentar-Fresh id p (i ∷ is) h (k, ks) = ground (arith, acrescentar-Fresh id p is h ks)

acrescentar-Distinct :
    (p : Produto) (is : List ItemComanda) → Distinct is → Distinct (acrescentar p is)
unfolding incrementado novo_item
acrescentar-Distinct p [] d = (tt, tt)
acrescentar-Distinct p (i ∷ is) (f, d) = ground (
  arith,
  eq_iff i.produto.id p.id,
  acrescentar-Fresh i.produto.id p is,
  acrescentar-Distinct p is d,
)

filter-Distinct :
    (test : ItemComanda → Bool) (is : List ItemComanda) → Distinct is → Distinct (filter test is)
filter-Distinct test [] d = tt
filter-Distinct test (i ∷ is) (f, d) =
    ground
      (arith, All-filter (λ j. j.produto.id ≢ i.produto.id) test is f, filter-Distinct test is d)

com_quantidade-id :
    (id : String) (q : ℕ) (i : ItemComanda) → (com_quantidade id q i).produto ≡ i.produto
unfolding com_quantidade
com_quantidade-id id q i = ground arith

alterar-Fresh :
    (id k : String) (q : ℕ) (is : List ItemComanda)
    → Fresh k is
    → Fresh k (map (com_quantidade id q) is)
alterar-Fresh id k q [] h = tt
alterar-Fresh id k q (i ∷ is) (h, hs) =
    (rw (com_quantidade-id id q i) h, alterar-Fresh id k q is hs)

alterar-Distinct :
    (id : String) (q : ℕ) (is : List ItemComanda)
    → Distinct is
    → Distinct (map (com_quantidade id q) is)
alterar-Distinct id q [] d = tt
alterar-Distinct id q (i ∷ is) (f, d) = (
  rw (com_quantidade-id id q i) (alterar-Fresh id i.produto.id q is f),
  alterar-Distinct id q is d,
)

module _ (preco : String → ℕ) where
  acrescentar-IsPriced :
      (p : Produto) (is : List ItemComanda)
      → p.preco ≡ preco p.id
      → All (IsPriced preco) is
      → All (IsPriced preco) (acrescentar p is)
  unfolding incrementado novo_item
  acrescentar-IsPriced p [] h k = ((omega arith, h, ap to_fixed2 (omega arith)), tt)
  acrescentar-IsPriced p (i ∷ is) h ((q, c, t), ks) = elim (Bool-cases (has_id p.id i)) [
    | inl e ↦
        let same_price = h ∙ ap preco (sym ((eq_iff i.produto.id p.id).0 e)) ∙ sym c in
        rw e ((omega arith, c, ap (λ x. to_fixed2 ((i.quantidade + 1) * x)) same_price), ks)
    | inr e ↦ rw e ((q, c, t), acrescentar-IsPriced p is h ks)
  ]

  alterar-IsPriced :
      (id : String) (n : ℕ) (is : List ItemComanda)
      → All (IsPriced preco) is
      → All (IsPriced preco) (map (com_quantidade id (suc n)) is)
  unfolding com_quantidade
  alterar-IsPriced id n [] h = tt
  alterar-IsPriced id n (i ∷ is) (h, hs) = ground (arith, alterar-IsPriced id n is hs)

  remover_item-IsValid :
      (id : String) (s : CarrinhoState) → IsValid preco s → IsValid preco (remover_item id s)
  unfolding remover_item
  remover_item-IsValid id s v = record {
    distinct = filter-Distinct _ s.itens v.distinct;
    priced = All-filter (IsPriced preco) _ s.itens v.priced;
  }

  step-IsValid :
      (c : Comando) (s : CarrinhoState)
      → Agrees preco c
      → IsValid preco s
      → IsValid preco (step c s)
  unfolding step alterar_quantidade limpar_carrinho
  step-IsValid (adicionar p) s h v = record {
    distinct = rw (adicionar_item-acrescentar p s) (acrescentar-Distinct p s.itens v.distinct);
    priced = rw (adicionar_item-acrescentar p s) (acrescentar-IsPriced p s.itens h v.priced);
  }
  step-IsValid (remover id) s h v = remover_item-IsValid id s v
  step-IsValid (alterar id (negsuc n)) s h v = remover_item-IsValid id s v
  step-IsValid (alterar id (pos zero)) s h v = remover_item-IsValid id s v
  step-IsValid (alterar id (pos (suc n))) s h v = record {
    distinct = alterar-Distinct id (suc n) s.itens v.distinct;
    priced = alterar-IsPriced id n s.itens v.priced;
  }
  step-IsValid limpar s h v = record { distinct = tt; priced = tt }

  pub run-IsValid :
      (cs : List Comando) (s : CarrinhoState)
      → All (Agrees preco) cs
      → IsValid preco s
      → IsValid preco (run cs s)
  unfolding run
  run-IsValid [] s h v = v
  run-IsValid (c ∷ cs) s (h, hs) v = run-IsValid cs (step c s) hs (step-IsValid c s h v)

-- Whatever commands act on the empty cart, as long as every product is added at its price of one
-- price list: each product has one line, each line has a unit at least, its product's list price,
-- and as subtotal its quantity times that price, rounded to the cent.
pub run-inicial-IsValid :
    (preco : String → ℕ) (cs : List Comando)
    → All (Agrees preco) cs
    → IsValid preco (run cs inicial)
run-inicial-IsValid preco cs h =
    run-IsValid preco cs inicial h (record { distinct = tt; priced = tt })
