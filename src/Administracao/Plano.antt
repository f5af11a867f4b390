-- ===== src/Administracao/Plano.antt =====
-- The plan that the paywall's button names, and the one that it sends.
use gestao_restaurante.Base.{
  ◌≡◌, ◌≢◌, refl, false, String, none, some, List, [], ◌∷◌, find, str_eq, eq_iff, All, arith,
}
use gestao_restaurante.Administracao.{
  PlanoItem, plano_pro_padrao, plano_ativo, abrir_paywall, assinar,
}

not_found :
    (id : String) (ps : List PlanoItem)
    → All (λ p. str_eq p.id id ≡ false) ps
    → find (λ p. str_eq p.id id) ps ≡ none
not_found id [] h = refl
not_found id (p ∷ ps) (h, hs) = rw h (not_found id ps hs)

differs : (x y : String) → str_eq x y ≡ false → x ≢ y
differs x y h = ground (arith, h, eq_iff x y)

-- A paywall that was mounted with one list of plans keeps its selection when another list arrives:
-- if no plan of the other list is the selected one, the button names the first plan of the list, and
-- sends the selection, which is not that plan's identifier.
pub assinar-stale :
    (antes : List PlanoItem) (p : PlanoItem) (ps : List PlanoItem)
    → str_eq (plano_pro_padrao antes) "" ≡ false
    → All (λ q. str_eq q.id (plano_pro_padrao antes) ≡ false) (p ∷ ps)
    → (assinar (p ∷ ps) (abrir_paywall antes) ≡ (some p, some (plano_pro_padrao antes)))
      × (p.id ≢ plano_pro_padrao antes)
unfolding assinar plano_ativo
assinar-stale antes p ps named missing = (
  rw (not_found (plano_pro_padrao antes) (p ∷ ps) missing, named) refl,
  λ e. differs p.id (plano_pro_padrao antes) missing.0 e,
)
