-- ===== src/Auth/Requests.antt =====
-- frontend/shared/services/api.ts: the interceptors of the requests and of the responses, and the
-- application as they see it, with its storage, its session and its connection.
use gestao_restaurante.Base.{
  ℕ, Bool, true, false, not, ◌&&◌, ◌||◌, Option, none, some, List, [], ◌∷◌, leb, ◌==◌,
  if◌then◌else◌,
}
use gestao_restaurante.Base.Text.{Texto, codes, same}
use gestao_restaurante.Shared.Conexao
use gestao_restaurante.Shared.Conexao.{ConnectionState, set_api_online}
use gestao_restaurante.Auth
use gestao_restaurante.Auth.{
  RestauranteTenant, Json, auth_token, active_tenant, Storage, vazia, get_string,
  apagar_credenciais, AuthState, Sessao, set_session, set_tenant, logout, comeca_com, truthy,
  init_session_from_storage,
}

-- The headers that the interceptor sets; `x-api-id` is as `api-id`.
pub record Headers : Type 0 where
  pub api_id : Option Texto
  pub authorization : Option Texto
  pub x_tenant_id : Option Texto

abbrev pub sem_headers : Headers
sem_headers = record { api_id = none; authorization = none; x_tenant_id = none }

-- A value as a condition: a text that is missing or empty sets no header.
abbrev pub nao_vazio : Option Texto → Option Texto
nao_vazio none = none
nao_vazio (some []) = none
nao_vazio (some (c ∷ t)) = some (c ∷ t)

-- `JSON.parse(raw)?.id`, where a parse that throws is caught.
abbrev pub id_de : Option (Option RestauranteTenant) → Option Texto
id_de none = none
id_de (some none) = none
id_de (some (some t)) = nao_vazio (some t.id)

abbrev pub tenant_id : Json → Option Texto → Option Texto
tenant_id json none = none
tenant_id json (some []) = none
tenant_id json (some (c ∷ t)) = id_de (json.parse_tenant (c ∷ t))

-- The request interceptor, with `env.apiId`.
unfoldable pub requisitar : Json → Option Texto → Storage → Storage × Headers
unfolding get_string apagar_credenciais
requisitar json api_id s =
    let base = record sem_headers { api_id = nao_vazio api_id } in
    elim (nao_vazio (get_string auth_token s)) [
      | none ↦ (s, base)
      | some token ↦
          if comeca_com (some token) (codes "mock-jwt-token")
          then (apagar_credenciais s, base)
          else (
            s,
            record base {
              authorization = some token;
              x_tenant_id = tenant_id json (get_string active_tenant s);
            },
          )
    ]

-- An error of a request: the status of the response, if there was one.
pub record Falha : Type 0 where
  pub response_status : Option ℕ
  pub code : Texto
  pub message : Texto

abbrev pub is_network_error : Falha → Bool
is_network_error f =
    (elim f.response_status [ none ↦ true | some n ↦ false ])
    || same f.code (codes "ERR_NETWORK")
    || same f.code (codes "ECONNABORTED")
    || same f.message (codes "Network Error")

abbrev pub is_server_error : Falha → Bool
is_server_error f = elim f.response_status [ none ↦ false | some n ↦ leb 502 n && leb n 504 ]

abbrev pub is_unauthorized : Falha → Bool
is_unauthorized f = elim f.response_status [ none ↦ false | some n ↦ n == 401 ]

pub record App : Type 0 where
  pub storage : Storage
  pub auth : AuthState
  pub conexao : ConnectionState

abbrev pub novo : App
novo = record { storage = vazia; auth = Auth.inicial; conexao = Conexao.inicial }

-- The response interceptor, where the response came.
unfoldable pub ao_responder : ℕ → App → App
unfolding set_api_online
ao_responder agora x =
    if not x.conexao.is_api_online
    then record x { conexao = set_api_online true none agora x.conexao }
    else x

-- The response interceptor, where the request failed.
unfoldable pub ao_falhar : Falha → ℕ → App → App
unfolding set_api_online apagar_credenciais
ao_falhar f agora x =
    let seen =
      if is_network_error f || is_server_error f
      then set_api_online false
          (some (Conexao.mensagem (some f.message) (codes "Servidor indisponível"))) agora x.conexao
      else x.conexao in
    record x {
      conexao = seen;
      storage = if is_unauthorized f then apagar_credenciais x.storage else x.storage;
    }

-- What happens to the application. `abrir` is a start: the stores are new, the storage is kept.
pub data Acao : Type 0 where
  abrir : Acao
  entrar : Sessao → Acao
  trocar_tenant : RestauranteTenant → Acao
  sair : Acao
  requerer : Acao
  responder : ℕ → Acao
  falhar : Falha → ℕ → Acao

abbrev pub com_sessao : App → Storage × AuthState → App
com_sessao x (s, a) = record x { storage = s; auth = a }

unfoldable pub passo : Json → Option Texto → Acao → App → App
unfolding init_session_from_storage set_session set_tenant logout requisitar ao_responder ao_falhar
passo json api_id abrir x =
    com_sessao (record x { conexao = Conexao.inicial })
      (init_session_from_storage json (x.storage, Auth.inicial))
passo json api_id (entrar s) x = com_sessao x (set_session json s (x.storage, x.auth))
passo json api_id (trocar_tenant t) x = com_sessao x (set_tenant json t (x.storage, x.auth))
passo json api_id sair x = com_sessao x (logout (x.storage, x.auth))
passo json api_id requerer x = record x { storage = (requisitar json api_id x.storage).0 }
passo json api_id (responder agora) x = ao_responder agora x
passo json api_id (falhar f agora) x = ao_falhar f agora x

unfoldable pub executar : Json → Option Texto → List Acao → App → App
unfolding passo
executar json api_id [] x = x
executar json api_id (a ∷ acoes) x = executar json api_id acoes (passo json api_id a x)
