-- ===== src/Previsoes/Gargalo.antt =====
-- The bottleneck is the first of the worst items at risk.
use gestao_restaurante.Base.{
  ℕ, ◌≤◌, ◌<◌, ◌≡◌, ◌≢◌, refl, sym, ap, ◌∙◌, inl, inr, Bool, true, false, Option, none, some, List,
  [], ◌∷◌, ◌++◌, filter, ltb, if◌then◌else◌, All, Bool-cases, arith,
}
use gestao_restaurante.Previsoes.{
  ItemCapacidadeProducao, inserir, ordenar, primeiro, item_com_maior_deficit,
}

-- An item that is at risk lacks at most, or less than, `n` units.
abbrev pub AtMost : ℕ → ItemCapacidadeProducao → Type 0
AtMost n i = i.risco_rutura ≡ true → i.deficit_unidades ≤ n

abbrev pub LessThan : ℕ → ItemCapacidadeProducao → Type 0
LessThan n i = i.risco_rutura ≡ true → i.deficit_unidades < n

-- Nothing is at risk, or the item is at risk, none at risk lacks more, and those before it less.
abbrev pub IsGargalo : List ItemCapacidadeProducao → Option ItemCapacidadeProducao → Type 0
IsGargalo xs none = All (λ i. i.risco_rutura ≡ false) xs
IsGargalo xs (some g) =
    (g.risco_rutura ≡ true)
    × All (AtMost g.deficit_unidades) xs
    × ((antes : List ItemCapacidadeProducao) × (depois : List ItemCapacidadeProducao) × (xs
          ≡ antes ++ g ∷ depois)
        × All (LessThan g.deficit_unidades) antes)

-- The better of an item and of what is found after it.
pior : ItemCapacidadeProducao → Option ItemCapacidadeProducao → Option ItemCapacidadeProducao
pior x none = some x
pior x (some y) = if ltb x.deficit_unidades y.deficit_unidades then some y else some x

primeiro-inserir :
    (x : ItemCapacidadeProducao) (ys : List ItemCapacidadeProducao)
    → primeiro (inserir x ys) ≡ pior x (primeiro ys)
unfolding inserir pior
primeiro-inserir x [] = refl
primeiro-inserir x (y ∷ ys) = elim (Bool-cases (ltb x.deficit_unidades y.deficit_unidades)) [
  | inl e ↦ rw e refl
  | inr e ↦ rw e refl
]

if_true : {A : Type 0} {b : Bool} (x y : A) → b ≡ true → (if b then x else y) ≡ x
if_true x y e = rw e refl

if_false : {A : Type 0} {b : Bool} (x y : A) → b ≡ false → (if b then x else y) ≡ y
if_false x y e = rw e refl

maior-cons :
    (x : ItemCapacidadeProducao) (xs : List ItemCapacidadeProducao)
    → x.risco_rutura ≡ true
    → item_com_maior_deficit (x ∷ xs) ≡ pior x (item_com_maior_deficit xs)
unfolding item_com_maior_deficit ordenar
maior-cons x xs e =
    ap (λ l. primeiro (ordenar l)) (if_true _ _ e)
    ∙ primeiro-inserir x (ordenar (filter (λ i. i.risco_rutura) xs))

maior-skip :
    (x : ItemCapacidadeProducao) (xs : List ItemCapacidadeProducao)
    → x.risco_rutura ≡ false
    → item_com_maior_deficit (x ∷ xs) ≡ item_com_maior_deficit xs
unfolding item_com_maior_deficit
maior-skip x xs e = ap (λ l. primeiro (ordenar l)) (if_false _ _ e)

All-map :
    {P Q : ItemCapacidadeProducao → Type 0} (xs : List ItemCapacidadeProducao)
    → ((x : ItemCapacidadeProducao) → P x → Q x)
    → All P xs
    → All Q xs
All-map [] f h = tt
All-map (x ∷ xs) f (h, hs) = (f x h, All-map xs f hs)

skip-IsGargalo :
    (x : ItemCapacidadeProducao) (xs : List ItemCapacidadeProducao)
    (o : Option ItemCapacidadeProducao)
    → x.risco_rutura ≡ false
    → IsGargalo xs o
    → IsGargalo (x ∷ xs) o
skip-IsGargalo x xs none e h = (e, h)
skip-IsGargalo x xs (some g) e (risk, most, (antes, depois, split, less)) =
    (risk, (none_of, most), (x ∷ antes, depois, ap (λ l. x ∷ l) split, (none_of, less)))
  where
    true-false : true ≢ false
    true-false = ground arith

    none_of : {n : ℕ} {m : ℕ} → x.risco_rutura ≡ true → n ≤ m
    none_of t = absurd (true-false (sym t ∙ e))

pior-IsGargalo :
    (x : ItemCapacidadeProducao) (xs : List ItemCapacidadeProducao)
    (o : Option ItemCapacidadeProducao)
    → x.risco_rutura ≡ true
    → IsGargalo xs o
    → IsGargalo (x ∷ xs) (pior x o)
unfolding pior
pior-IsGargalo x xs none e h = (e, ((λ t. same), All-map xs safe h), ([], xs, refl, tt))
  where
    true-false : true ≢ false
    true-false = ground arith

    same : x.deficit_unidades ≤ x.deficit_unidades
    same = omega arith

    safe : (y : ItemCapacidadeProducao) → y.risco_rutura ≡ false → AtMost x.deficit_unidades y
    safe y k t = absurd (true-false (sym t ∙ k))
pior-IsGargalo x xs (some g) e (risk, most, (antes, depois, split, less)) =
    elim (Bool-cases (ltb x.deficit_unidades g.deficit_unidades)) [
      | inl lt ↦ rw (if_true (some g) (some x) lt) (
        risk,
        ((λ t. below lt), most),
        (x ∷ antes, depois, ap (λ l. x ∷ l) split, ((λ t. strictly lt), less)),
      )
      | inr ge ↦
          rw (if_false (some g) (some x) ge)
            (e, ((λ t. same), All-map xs (λ y k t. up ge (k t)) most), ([], xs, refl, tt))
    ]
  where
    same : x.deficit_unidades ≤ x.deficit_unidades
    same = omega arith

    below :
        ltb x.deficit_unidades g.deficit_unidades ≡ true → x.deficit_unidades ≤ g.deficit_unidades
    below h = ground (arith, h)

    strictly :
        ltb x.deficit_unidades g.deficit_unidades ≡ true → x.deficit_unidades < g.deficit_unidades
    strictly h = ground (arith, h)

    up :
        {n : ℕ}
        → ltb x.deficit_unidades g.deficit_unidades ≡ false
        → n ≤ g.deficit_unidades
        → n ≤ x.deficit_unidades
    up h k = ground (arith, h, k)

-- The item shown as the bottleneck is at risk, no item at risk lacks more units, and every item at
-- risk before it in the report lacks fewer; and none is shown exactly when nothing is at risk.
pub item_com_maior_deficit-IsGargalo :
    (xs : List ItemCapacidadeProducao) → IsGargalo xs (item_com_maior_deficit xs)
unfolding item_com_maior_deficit ordenar
item_com_maior_deficit-IsGargalo [] = tt
item_com_maior_deficit-IsGargalo (x ∷ xs) = elim (Bool-cases x.risco_rutura) [
  | inl e ↦ rw (maior-cons x xs e) (pior-IsGargalo x xs _ e (item_com_maior_deficit-IsGargalo xs))
  | inr e ↦ rw (maior-skip x xs e) (skip-IsGargalo x xs _ e (item_com_maior_deficit-IsGargalo xs))
]
