-- ===== src/Auth/Login.antt =====
-- frontend/features/auth/hooks/useLoginMutation.ts: the restaurant that a login makes active.
use gestao_restaurante.Base.{
  ◌≡◌, refl, ap, false, String, Option, none, some, List, [], ◌∷◌, find, All,
}
use gestao_restaurante.Base.Text.{Texto, same}
use gestao_restaurante.Auth.{RestauranteTenant}

pub record LoginInput : Type 0 where
  pub identificador : Texto
  pub palavra_passe : Texto
  pub restaurante_id : Texto

pub record OperadorLogin : Type 0 where
  pub id : String
  pub nome : Texto
  pub email : Texto
  pub cargo : String
  pub role : Option String
  pub restaurantes_vinculados : List RestauranteTenant

pub record LoginResponse : Type 0 where
  pub token : Texto
  pub refresh_token : Texto
  pub expiracao : String
  pub operador : OperadorLogin

-- `xs[0]`
abbrev pub primeiro : List RestauranteTenant → Option RestauranteTenant
primeiro [] = none
primeiro (t ∷ ts) = some t

-- `a || b` for a value that may be missing.
abbrev pub ou : Option RestauranteTenant → Option RestauranteTenant → Option RestauranteTenant
ou none b = b
ou (some t) b = some t

-- `activeTenant`, with the restaurant of the store before the login.
unfoldable pub active_tenant :
    LoginResponse → LoginInput → Option RestauranteTenant → Option RestauranteTenant
active_tenant resposta variables current_tenant =
    ou (find (λ t. same t.id variables.restaurante_id) resposta.operador.restaurantes_vinculados)
      (ou current_tenant (primeiro resposta.operador.restaurantes_vinculados))

not_linked :
    (id : Texto) (ts : List RestauranteTenant)
    → All (λ t. same t.id id ≡ false) ts
    → find (λ t. same t.id id) ts ≡ none
not_linked id [] h = refl
not_linked id (t ∷ ts) (h, hs) = rw h (not_linked id ts hs)

-- Where the operator is not linked to the restaurant that was asked for, the restaurant of the store
-- stays active, to which the operator need not be linked either.
pub active_tenant-not_linked :
    (r : LoginResponse) (x : LoginInput) (t : RestauranteTenant)
    → All (λ u. same u.id x.restaurante_id ≡ false) r.operador.restaurantes_vinculados
    → active_tenant r x (some t) ≡ some t
unfolding active_tenant
active_tenant-not_linked r x t h =
    ap (λ o. ou o (ou (some t) (primeiro r.operador.restaurantes_vinculados)))
      (not_linked x.restaurante_id r.operador.restaurantes_vinculados h)
