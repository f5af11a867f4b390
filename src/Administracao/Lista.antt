-- ===== src/Administracao/Lista.antt =====
-- A change to one restaurant in the cached list, and the plan that the paywall starts with.
use gestao_restaurante.Base.{
  ◌≡◌, refl, sym, ap, String, Option, none, some, List, [], ◌∷◌, map, find, str_eq, eq_iff,
  Bool-cases, inl, inr,
}
use gestao_restaurante.Administracao.{
  TenantAdminItem, trocado, atualizar, Operacao, alterado, AdminTenants, responder, ou_vazia,
}

-- The entry of a restaurant.
abbrev pub buscar : String → List TenantAdminItem → Option TenantAdminItem
buscar id = find (λ t. str_eq t.restaurante_id id)

-- What a change to `u` makes of the entry of `id`.
abbrev pub esperado : TenantAdminItem → String → Option TenantAdminItem → Option TenantAdminItem
esperado u id none = none
esperado u id (some t) = some (trocado u t)

trocado-id : (u t : TenantAdminItem) → (trocado u t).restaurante_id ≡ t.restaurante_id
trocado-id u t = elim (Bool-cases (str_eq t.restaurante_id u.restaurante_id)) [
  | inl e ↦ rw e (sym ((eq_iff t.restaurante_id u.restaurante_id).0 e))
  | inr e ↦ rw e refl
]

buscar-atualizar :
    (u : TenantAdminItem) (id : String) (old : List TenantAdminItem)
    → buscar id (atualizar u old) ≡ esperado u id (buscar id old)
unfolding atualizar
buscar-atualizar u id [] = refl
buscar-atualizar u id (t ∷ ts) = elim (Bool-cases (str_eq t.restaurante_id id)) [
  | inl e ↦ rw (trocado-id u t, e) refl
  | inr e ↦ rw (trocado-id u t, e) (buscar-atualizar u id ts)
]

ids-atualizar :
    (u : TenantAdminItem) (old : List TenantAdminItem)
    → map (λ t. t.restaurante_id) (atualizar u old) ≡ map (λ t. t.restaurante_id) old
unfolding atualizar
ids-atualizar u [] = refl
ids-atualizar u (t ∷ ts) = rw (trocado-id u t, ids-atualizar u ts) refl

-- When the server has changed a restaurant: the list keeps its restaurants in their order, and the
-- entry of any identifier is what it was, but the changed restaurant where it is its entry.
pub responder-buscar :
    (op : Operacao) (u : TenantAdminItem) (id : String) (old : List TenantAdminItem)
    (a : AdminTenants)
    → a.tenants ≡ some old
    → (new : List TenantAdminItem) × ((responder op (alterado u) a).tenants ≡ some new)
      × (map (λ t. t.restaurante_id) new ≡ map (λ t. t.restaurante_id) old)
      × (buscar id new ≡ esperado u id (buscar id old))
unfolding responder
responder-buscar op u id old a e = (
  atualizar u old,
  ap (λ o. some (atualizar u (ou_vazia o))) e,
  ids-atualizar u old,
  buscar-atualizar u id old,
)
