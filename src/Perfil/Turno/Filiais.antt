-- ===== src/Perfil/Turno/Filiais.antt =====
-- The search of the branches' dialog.
use gestao_restaurante.Base.{
  ◌≡◌, refl, ap, Bool, true, false, ◌||◌, List, [], ◌∷◌, filter, if◌then◌else◌,
}
use gestao_restaurante.Base.Text.{Texto, vazio, trim, includes, starts_with, to_lower_case}
use gestao_restaurante.Auth.{RestauranteTenant}
use gestao_restaurante.Perfil.Turno.{so_digitos, filial_contem, filiais_filtradas}

includes-nil : (s : Texto) → includes s [] ≡ true
unfolding includes starts_with
includes-nil [] = refl
includes-nil (c ∷ s) = refl

or_second : (a b c : Bool) → (a || true || b || c) ≡ true
or_second true b c = refl
or_second false b c = refl

contem-no_digit :
    (termo : Texto) (t : RestauranteTenant) → so_digitos termo ≡ [] → filial_contem termo t ≡ true
contem-no_digit termo t h = rw (h, includes-nil (so_digitos t.cnpj)) (or_second _ _ _)

filter-every :
    (p : RestauranteTenant → Bool) (ts : List RestauranteTenant)
    → ((t : RestauranteTenant) → p t ≡ true)
    → filter p ts ≡ ts
filter-every p [] h = refl
filter-every p (t ∷ ts) h = rw (h t) (ap (λ l. t ∷ l) (filter-every p ts h))

same_branches : (b : Bool) (x y : List RestauranteTenant) → y ≡ x → (if b then x else y) ≡ x
same_branches true x y h = refl
same_branches false x y h = h

-- A search whose text has no digit, such as the name of a branch, filters nothing: every branch is
-- listed, since the digits of the search are empty and the digits of every registration contain them.
pub filiais_filtradas-no_digit :
    (busca : Texto) (ts : List RestauranteTenant)
    → so_digitos (to_lower_case (trim busca)) ≡ []
    → filiais_filtradas busca ts ≡ ts
unfolding filiais_filtradas
filiais_filtradas-no_digit busca ts h = same_branches (vazio (to_lower_case (trim busca))) ts _ (
    filter-every (filial_contem (to_lower_case (trim busca))) ts
      (λ t. contem-no_digit (to_lower_case (trim busca)) t h))
