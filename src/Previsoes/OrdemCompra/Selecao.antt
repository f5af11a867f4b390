-- ===== src/Previsoes/OrdemCompra/Selecao.antt =====
-- What is ordered after the modal opens, and after toggles.
use gestao_restaurante.Base.{
  some, none, ◌+◌, ◌≡◌, ◌⊎◌, refl, sym, ap, ◌∙◌, inl, inr, Bool, true, false, not, String, Option,
  List, [], ◌∷◌, map, filter, sum, sum_from, sum_from-eq, str_eq, eq_iff, eq_refl, if◌then◌else◌,
  All, Bool-cases, arith,
}
use gestao_restaurante.Previsoes.{SugestaoReposicaoInsumo}
use gestao_restaurante.Previsoes.OrdemCompra.{
  Selecionados, nenhum, marcar, foco_de, foco_existe, marca, ao_abrir, toggle_item, escolhidos,
  custo, valor_total, insumo_pedido, handle_confirmar,
}

-- The mark of an id that is set stays.
marcar-keeps :
    (f : String → Bool) (is : List SugestaoReposicaoInsumo) (m : Selecionados) (k : String)
    → m k ≡ f k
    → marcar f is m k ≡ f k
unfolding marcar
marcar-keeps f [] m k h = h
marcar-keeps f (i ∷ is) m k h = marcar-keeps f is _ k (next (Bool-cases (str_eq k i.insumo_id)))
  where
    next :
        (str_eq k i.insumo_id ≡ true) ⊎ (str_eq k i.insumo_id ≡ false)
        → (if str_eq k i.insumo_id then f i.insumo_id else m k) ≡ f k
    next (inl e) = rw e (ap f (sym ((eq_iff k i.insumo_id).0 e)))
    next (inr e) = rw e h

marcar-All :
    (f : String → Bool) (is : List SugestaoReposicaoInsumo) (m : Selecionados)
    → All (λ i. marcar f is m i.insumo_id ≡ f i.insumo_id) is
unfolding marcar
marcar-All f [] m = tt
marcar-All f (i ∷ is) m = (marcar-keeps f is _ i.insumo_id set_now, marcar-All f is _)
  where
    set_now :
        (if str_eq i.insumo_id i.insumo_id then f i.insumo_id else m i.insumo_id) ≡ f i.insumo_id
    set_now = rw (eq_refl i.insumo_id) refl

filter-All :
    (p q : SugestaoReposicaoInsumo → Bool) (xs : List SugestaoReposicaoInsumo)
    → All (λ x. p x ≡ q x) xs
    → filter p xs ≡ filter q xs
filter-All p q [] h = refl
filter-All p q (x ∷ xs) (h, hs) = rw (h, filter-All p q xs hs)

filter-true : (xs : List SugestaoReposicaoInsumo) → filter (λ i. true) xs ≡ xs
filter-true [] = refl
filter-true (x ∷ xs) = ap (λ l. x ∷ l) (filter-true xs)

-- The lines of the ingredient in focus, or all.
abbrev pub alvo : Option String → List SugestaoReposicaoInsumo → List SugestaoReposicaoInsumo
alvo none is = is
alvo (some foco) is = if foco_existe foco is then filter (λ i. str_eq i.insumo_id foco) is else is

marca-alvo :
    (o : Option String) (is : List SugestaoReposicaoInsumo)
    → filter (λ i. marca o is i.insumo_id) is ≡ alvo o is
marca-alvo none is = filter-true is
marca-alvo (some foco) is = in_focus (foco_existe foco is)
  where
    in_focus :
        (b : Bool)
        → filter (λ i. if b then str_eq i.insumo_id foco else true) is
          ≡ (if b then filter (λ i. str_eq i.insumo_id foco) is else is)
    in_focus true = refl
    in_focus false = filter-true is

-- When the modal opens, the lines of the ingredient in focus are chosen, if it is in the list; with
-- no focus, or one that is not in the list, all are.
pub escolhidos-ao_abrir :
    (foco : Option String) (is : List SugestaoReposicaoInsumo)
    → escolhidos (ao_abrir foco is) is ≡ alvo (foco_de foco) is
unfolding escolhidos ao_abrir
escolhidos-ao_abrir foco is =
    filter-All _ _ is (marcar-All (marca (foco_de foco) is) is nenhum)
    ∙ marca-alvo (foco_de foco) is

not-not : (b : Bool) → not (not b) ≡ b
not-not true = refl
not-not false = refl

toggle_item_lem :
    (id : String) (m : Selecionados) (k : String) → toggle_item id (toggle_item id m) k ≡ m k
unfolding toggle_item
toggle_item_lem id m k = elim (Bool-cases (str_eq k id)) [
  | inl e ↦
      rw (toggle_item, e, toggle_item, eq_refl id) (not-not (m id) ∙ ap m (sym ((eq_iff k id).0 e)))
  | inr e ↦ rw (toggle_item, e) refl
]

All-every :
    {P : SugestaoReposicaoInsumo → Type 0} (xs : List SugestaoReposicaoInsumo)
    → ((x : SugestaoReposicaoInsumo) → P x)
    → All P xs
All-every [] f = tt
All-every (x ∷ xs) f = (f x, All-every xs f)

-- Toggling an ingredient twice gives the order that was there before.
pub toggle_item-toggle_item :
    (id : String) (m : Selecionados) (is : List SugestaoReposicaoInsumo)
    → handle_confirmar (toggle_item id (toggle_item id m)) is ≡ handle_confirmar m is
unfolding handle_confirmar valor_total escolhidos
toggle_item-toggle_item id m is =
    ap (λ xs. record { insumos = map insumo_pedido xs; valor_total = sum_from custo 0 xs })
      (filter-All _ _ is (All-every is (λ i. toggle_item_lem id m i.insumo_id)))

sum_split :
    (m : Selecionados) (is : List SugestaoReposicaoInsumo)
    → sum custo (filter (λ i. m i.insumo_id) is) + sum custo (filter (λ i. not (m i.insumo_id)) is)
      ≡ sum custo is
sum_split m [] = refl
sum_split m (i ∷ is) = elim (Bool-cases (m i.insumo_id)) [
  | inl e ↦ rw e (omega (arith, sum_split m is))
  | inr e ↦ rw e (omega (arith, sum_split m is))
]

-- The total of the order and the total of what is left out add up to that of the whole list.
pub valor_total_split :
    (m : Selecionados) (is : List SugestaoReposicaoInsumo)
    → valor_total m is + valor_total (λ k. not (m k)) is ≡ sum custo is
unfolding valor_total escolhidos
valor_total_split m is =
    rw
      (
        sum_from-eq custo 0 (filter (λ i. m i.insumo_id) is),
        sum_from-eq custo 0 (filter (λ i. not (m i.insumo_id)) is),
      )
      (omega (arith, sum_split m is))
