-- ===== src/Auth.antt =====
-- frontend/features/auth/hooks/useAuthStore.ts, with the storage of
-- frontend/shared/services/storage.ts that it keeps the session in. JSON is a parameter.
pub mod Requests
pub mod Session
pub mod Credentials
pub mod Cnpj
pub mod Login
pub mod Cadastro
pub mod Entrada
pub mod Resposta
mod Tests
mod FormTests
use gestao_restaurante.Base.{
  ℕ, Bool, true, false, not, ◌&&◌, ◌||◌, String, Option, none, some, List, [], ◌∷◌, if◌then◌else◌,
}
use gestao_restaurante.Base.Text.{Texto, codes, starts_with}

pub record RestauranteTenant : Type 0 where
  pub id : Texto
  pub nome : Texto
  pub cnpj : Texto
  pub filial_numero : Texto
  pub ativo : Bool

pub record OperadorRecente : Type 0 where
  pub id : String
  pub nome : Texto
  pub matricula : Texto
  pub foto_url : Option String
  pub email : Texto
  pub iniciais : Option Texto
  pub cargo : Option String
  pub role : Option String
  pub restaurantes_vinculados : Option (List RestauranteTenant)

-- `JSON.stringify`, and `JSON.parse` where its text is a tenant or an operator: `none` where it
-- throws, `some none` where the value is null.
pub record Json : Type 0 where
  pub stringify_tenant : RestauranteTenant → Texto
  pub stringify_operador : OperadorRecente → Texto
  pub parse_tenant : Texto → Option (Option RestauranteTenant)
  pub parse_operador : Texto → Option (Option OperadorRecente)

-- `STORAGE_KEYS`
pub data Chave : Type 0 where
  auth_token refresh_token active_tenant active_operator : Chave

abbrev pub same_chave : Chave → Chave → Bool
same_chave auth_token auth_token = true
same_chave refresh_token refresh_token = true
same_chave active_tenant active_tenant = true
same_chave active_operator active_operator = true
same_chave _ _ = false

abbrev pub Storage : Type 0
Storage = Chave → Option Texto

abbrev pub vazia : Storage
vazia k = none

unfoldable pub get_string : Chave → Storage → Option Texto
get_string k s = s k

unfoldable pub set_item : Chave → Texto → Storage → Storage
set_item k v s j = if same_chave j k then some v else s j

unfoldable pub delete_item : Chave → Storage → Storage
delete_item k s j = if same_chave j k then none else s j

pub record AuthState : Type 0 where
  pub token : Option Texto
  pub refresh_token : Option Texto
  pub tenant : Option RestauranteTenant
  pub operador : Option OperadorRecente
  pub is_authenticated : Bool
  pub is_initialized : Bool

-- `TENANTS_PADRAO[0]`
abbrev pub tenant_padrao : RestauranteTenant
tenant_padrao = record {
  id = codes "11111111-1111-1111-1111-111111111111";
  nome = codes "Restaurante Teste E2E";
  cnpj = codes "12.345.678/0001-90";
  filial_numero = codes "Filial #01";
  ativo = true;
}

abbrev pub inicial : AuthState
inicial = record {
  token = none;
  refresh_token = none;
  tenant = some tenant_padrao;
  operador = none;
  is_authenticated = false;
  is_initialized = false;
}

pub record Sessao : Type 0 where
  pub token : Texto
  pub refresh_token : Texto
  pub tenant : RestauranteTenant
  pub operador : OperadorRecente

unfoldable pub set_session : Json → Sessao → Storage × AuthState → Storage × AuthState
unfolding set_item
set_session json x (s, a) = (
  set_item active_operator (json.stringify_operador x.operador) (
      set_item active_tenant (json.stringify_tenant x.tenant)
        (set_item refresh_token x.refresh_token (set_item auth_token x.token s))),
  record {
    token = some x.token;
    refresh_token = some x.refresh_token;
    tenant = some x.tenant;
    operador = some x.operador;
    is_authenticated = true;
    is_initialized = true;
  },
)

unfoldable pub set_tenant : Json → RestauranteTenant → Storage × AuthState → Storage × AuthState
unfolding set_item
set_tenant json t (s, a) =
    (set_item active_tenant (json.stringify_tenant t) s, record a { tenant = some t })

-- The three deletions that `logout`, the purge and the interceptors share.
unfoldable pub apagar_credenciais : Storage → Storage
unfolding delete_item
apagar_credenciais s =
    delete_item active_operator (delete_item refresh_token (delete_item auth_token s))

abbrev pub sem_sessao : AuthState → AuthState
sem_sessao a = record a {
  token = none;
  refresh_token = none;
  operador = none;
  is_authenticated = false;
  is_initialized = true;
}

unfoldable pub logout : Storage × AuthState → Storage × AuthState
unfolding apagar_credenciais
logout (s, a) = (apagar_credenciais s, sem_sessao a)

-- `t?.startsWith(p)` as a condition.
abbrev pub comeca_com : Option Texto → Texto → Bool
comeca_com none p = false
comeca_com (some t) p = starts_with t p

abbrev pub is_mock : Storage → Bool
is_mock s =
    comeca_com (get_string auth_token s) (codes "mock-jwt-token")
    || comeca_com (get_string refresh_token s) (codes "mock-refresh-token")

-- `!!v` for a text that may be missing, and for any other value.
abbrev pub truthy : Option Texto → Bool
truthy none = false
truthy (some []) = false
truthy (some (c ∷ t)) = true

abbrev pub presente : {A : Type 0} → Option A → Bool
presente none = false
presente (some x) = true

-- `let v = d; if (raw) v = JSON.parse(raw)`; `none` where the parse throws.
abbrev pub lido :
    {A : Type 0} → Option A → (Texto → Option (Option A)) → Option Texto → Option (Option A)
lido d parse none = some d
lido d parse (some []) = some d
lido d parse (some (c ∷ t)) = parse (c ∷ t)

-- The `catch`.
abbrev pub sessao_invalida : AuthState
sessao_invalida = record inicial { is_initialized = true }

-- What is done after the reads: whether a token is a mock, and the tenant and the operator as far
-- as their texts parse.
unfoldable pub retomar :
    Bool
    → Option (Option RestauranteTenant)
    → Option (Option OperadorRecente)
    → Storage × AuthState
    → Storage × AuthState
unfolding get_string apagar_credenciais
retomar true t o (s, a) = (apagar_credenciais s, sem_sessao a)
retomar false none o (s, a) = (s, sessao_invalida)
retomar false (some t) none (s, a) = (s, sessao_invalida)
retomar false (some t) (some o) (s, a) = (
  s,
  record {
    token = get_string auth_token s;
    refresh_token = get_string refresh_token s;
    tenant = t;
    operador = o;
    is_authenticated = truthy (get_string auth_token s) && presente o;
    is_initialized = true;
  },
)

unfoldable pub init_session_from_storage : Json → Storage × AuthState → Storage × AuthState
unfolding get_string retomar
init_session_from_storage json (s, a) =
    retomar (is_mock s) (lido (some tenant_padrao) json.parse_tenant (get_string active_tenant s))
      (lido none json.parse_operador (get_string active_operator s)) (s, a)
