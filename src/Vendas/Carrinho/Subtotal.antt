-- ===== src/Vendas/Carrinho/Subtotal.antt =====
-- The totals that the cart shows: what they count, how far rounding takes them, and what a price
-- that changes while a product is in the cart does to its line.
use gestao_restaurante.Base.{
  ℕ, zero, suc, Option, some, Bool-cases, inl, inr, ◌+◌, ◌*◌, ◌≤◌, ◌≡◌, ◌≢◌, refl, String, not,
  List, [], ◌∷◌, map, filter, find, sum, sum_from-eq, length, eq_iff, All, arith,
}
use native.Mathlib.Nat.{zero-add}
use gestao_restaurante.Base.Number.{
  pos, negsuc, to_fixed2, IsCents, to_fixed2-IsCents, to_fixed2_of_IsCents, to_fixed2_bounds,
}
use gestao_restaurante.Vendas.{Produto, ItemComanda}
use gestao_restaurante.Vendas.Carrinho.{
  CarrinhoState, has_id, incrementado, novo_item, adicionar_item, remover_item, com_quantidade,
  alterar_quantidade, obter_total_itens, obter_subtotal, Comando, adicionar, remover, alterar,
  limpar, step,
}
use gestao_restaurante.Vendas.Carrinho.Invariant.{
  acrescentar, adicionar_item-acrescentar, Fresh, Distinct, HasSubtotal, IsPriced, IsValid,
}
use gestao_restaurante.Vendas.Carrinho.Refinement.{quantidade_de, quantidade_de-remover}

-- The command is about the product `id`.
abbrev pub IsAbout : Comando → String → Type 0
IsAbout (adicionar p) id = p.id ≡ id
IsAbout (remover k) id = k ≡ id
IsAbout (alterar k q) id = k ≡ id
IsAbout limpar id = ⊥

abbrev unidades : List ItemComanda → ℕ
unidades is = sum (λ i. i.quantidade) is

acrescentar-unidades :
    (p : Produto) (is : List ItemComanda)
    → unidades (acrescentar p is) + quantidade_de p.id is
      ≡ unidades is + quantidade_de p.id (acrescentar p is)
unfolding incrementado novo_item
acrescentar-unidades p [] = ground (arith, eq_iff p.id p.id)
acrescentar-unidades p (i ∷ is) = ground (arith, acrescentar-unidades p is)

Fresh-quantidade_de : (id : String) (is : List ItemComanda) → Fresh id is → quantidade_de id is ≡ 0
Fresh-quantidade_de id [] h = refl
Fresh-quantidade_de id (i ∷ is) (h, hs) =
    ground (arith, eq_iff i.produto.id id, Fresh-quantidade_de id is hs)

remover-Fresh :
    (id : String) (is : List ItemComanda)
    → Fresh id is
    → unidades (filter (λ i. not (has_id id i)) is) ≡ unidades is
remover-Fresh id [] h = refl
remover-Fresh id (i ∷ is) (h, hs) = ground (arith, eq_iff i.produto.id id, remover-Fresh id is hs)

remover-unidades :
    (id : String) (is : List ItemComanda)
    → Distinct is
    → unidades (filter (λ i. not (has_id id i)) is) + quantidade_de id is ≡ unidades is
remover-unidades id [] d = refl
remover-unidades id (i ∷ is) (f, d) =
    ground
      (arith, eq_iff i.produto.id id, remover-Fresh i.produto.id is f, remover-unidades id is d)

alterar-Fresh :
    (id : String) (n : ℕ) (is : List ItemComanda)
    → Fresh id is
    → unidades (map (com_quantidade id n) is) ≡ unidades is
unfolding com_quantidade
alterar-Fresh id n [] h = refl
alterar-Fresh id n (i ∷ is) (h, hs) =
    ground (arith, eq_iff i.produto.id id, alterar-Fresh id n is hs)

alterar-unidades :
    (id : String) (n : ℕ) (is : List ItemComanda)
    → Distinct is
    → unidades (map (com_quantidade id n) is) + quantidade_de id is
      ≡ unidades is + quantidade_de id (map (com_quantidade id n) is)
unfolding com_quantidade
alterar-unidades id n [] d = refl
alterar-unidades id n (i ∷ is) (f, d) =
    ground
      (arith, eq_iff i.produto.id id, alterar-Fresh i.produto.id n is f, alterar-unidades id n is d)

remover_item-total :
    (id : String) (s : CarrinhoState)
    → Distinct s.itens
    → unidades (remover_item id s).itens + quantidade_de id s.itens
      ≡ unidades s.itens + quantidade_de id (remover_item id s).itens
unfolding remover_item
remover_item-total id s d =
    ground (arith, remover-unidades id s.itens d, quantidade_de-remover id id s.itens, eq_iff id id)

step-unidades :
    (c : Comando) (id : String) (s : CarrinhoState)
    → Distinct s.itens
    → IsAbout c id
    → unidades (step c s).itens + quantidade_de id s.itens
      ≡ unidades s.itens + quantidade_de id (step c s).itens
unfolding step alterar_quantidade
step-unidades (adicionar p) id s d h =
    rw (← h, adicionar_item-acrescentar p s) (acrescentar-unidades p s.itens)
step-unidades (remover k) id s d h = rw (← h) (remover_item-total k s d)
step-unidades (alterar k (negsuc n)) id s d h = rw (← h) (remover_item-total k s d)
step-unidades (alterar k (pos zero)) id s d h = rw (← h) (remover_item-total k s d)
step-unidades (alterar k (pos (suc n))) id s d h = rw (← h) (alterar-unidades k (suc n) s.itens d)
step-unidades limpar id s d h = absurd h

-- In a cart with one line to a product, a command on a product changes the number of items by
-- exactly the change in that product's quantity.
pub total_itens-step :
    (c : Comando) (id : String) (s : CarrinhoState)
    → Distinct s.itens
    → IsAbout c id
    → obter_total_itens (step c s) + quantidade_de id s.itens
      ≡ obter_total_itens s + quantidade_de id (step c s).itens
unfolding obter_total_itens
total_itens-step c id s d h = omega (
  arith,
  step-unidades c id s d h,
  sum_from-eq (λ (i : ItemComanda). i.quantidade) 0 s.itens,
  sum_from-eq (λ (i : ItemComanda). i.quantidade) 0 (step c s).itens,
)

-- What the lines would cost if nothing were rounded.
abbrev pub exato : List ItemComanda → ℕ
exato is = sum (λ i. i.quantidade * i.produto.preco) is

abbrev subtotais : List ItemComanda → ℕ
subtotais is = sum (λ i. i.subtotal) is

subtotais_bounds :
    (preco : String → ℕ) (is : List ItemComanda)
    → All (IsPriced preco) is
    → IsCents (subtotais is)
      × (subtotais is ≤ exato is + 5 * length is)
      × (exato is ≤ subtotais is + 5 * length is)
subtotais_bounds preco [] h = omega arith
subtotais_bounds preco (i ∷ is) ((q, c, t), hs) =
    let v = i.quantidade * i.produto.preco in
    omega (arith, t, to_fixed2-IsCents v, to_fixed2_bounds v, subtotais_bounds preco is hs)

-- The subtotal of a valid cart is the sum of its lines' subtotals, with nothing left to round, and
-- it is a whole number of cents that lies within half a cent a line of the sum of the exact prices.
pub obter_subtotal_bounds :
    (preco : String → ℕ) (s : CarrinhoState)
    → IsValid preco s
    → (obter_subtotal s ≡ sum (λ i. i.subtotal) s.itens)
      × IsCents (obter_subtotal s)
      × (obter_subtotal s ≤ exato s.itens + 5 * length s.itens)
      × (exato s.itens ≤ obter_subtotal s + 5 * length s.itens)
unfolding obter_subtotal
obter_subtotal_bounds preco s v =
    let (cents, above, below) = subtotais_bounds preco s.itens v.priced in
    let same = to_fixed2_of_IsCents _ cents in
    rw (sum_from-eq (λ (i : ItemComanda). i.subtotal) 0 s.itens, zero-add, same)
      (refl, cents, above, below)

find-incrementado :
    (p : Produto) (i : ItemComanda) (is : List ItemComanda)
    → find (has_id p.id) is ≡ some i
    → find (has_id p.id) (acrescentar p is) ≡ some (incrementado p i)
unfolding incrementado
find-incrementado p i [] h = cc
find-incrementado p i (k ∷ is) h = elim (Bool-cases (has_id p.id k)) [
  | inl e ↦ (let same : ◌≡◌ {A = Option ItemComanda} (some k) (some i) = rw e at h in rw (e, e) cc)
  | inr e ↦ rw (e, e) (find-incrementado p i is (rw e at h))
]

find-All :
    (P : ItemComanda → Type 0) (id : String) (i : ItemComanda) (is : List ItemComanda)
    → find (has_id id) is ≡ some i
    → All P is
    → P i
find-All P id i [] h a = cc
find-All P id i (k ∷ is) h (a, rest) = elim (Bool-cases (has_id id k)) [
  | inl e ↦
      (let found : ◌≡◌ {A = Option ItemComanda} (some k) (some i) = rw e at h in
        let same : k ≡ i = cc in rw same at a)
  | inr e ↦ find-All P id i is (rw e at h) rest
]

-- A product that comes back at another price: its line goes on showing the product at the old price,
-- with one unit more, and charges all of its units at the new one. So where the two prices of the new
-- quantity differ by a cent, the line's subtotal is no longer its quantity times its price.
pub adicionar_item-stale_price :
    (p : Produto) (s : CarrinhoState) (i : ItemComanda)
    → find (has_id p.id) s.itens ≡ some i
    → to_fixed2 ((i.quantidade + 1) * p.preco) ≢ to_fixed2 ((i.quantidade + 1) * i.produto.preco)
    → (find (has_id p.id) (adicionar_item p s).itens
        ≡ some (record {
          produto = i.produto;
          quantidade = i.quantidade + 1;
          subtotal = to_fixed2 ((i.quantidade + 1) * p.preco);
        }))
      × (¬ All HasSubtotal (adicionar_item p s).itens)
unfolding incrementado
adicionar_item-stale_price p s i h differ = rw (adicionar_item-acrescentar p s) (
  find-incrementado p i s.itens h,
  λ a. differ (find-All HasSubtotal p.id _ _ (find-incrementado p i s.itens h) a),
)
