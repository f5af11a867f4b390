-- ===== src/Auth/Credentials.antt =====
-- The three credentials in the storage stand or fall together.
use gestao_restaurante.Base.{
  ◌≡◌, refl, inl, inr, Bool, true, false, not, Option, none, some, List, [], ◌∷◌, if◌then◌else◌,
  Bool-cases, Option-cases,
}
use gestao_restaurante.Base.Text.{Texto, codes}
use gestao_restaurante.Auth
use gestao_restaurante.Auth.{
  RestauranteTenant, OperadorRecente, Json, Chave, auth_token, refresh_token, active_tenant,
  active_operator, same_chave, Storage, vazia, get_string, set_item, delete_item, AuthState, Sessao,
  set_session, set_tenant, apagar_credenciais, logout, comeca_com, presente, retomar, is_mock,
  init_session_from_storage,
}
use gestao_restaurante.Auth.Requests.{
  nao_vazio, requisitar, App, novo, is_unauthorized, Acao, abrir, entrar, trocar_tenant, sair,
  requerer, responder, falhar, ao_responder, ao_falhar, passo, executar,
}

-- The token, the refresh token and the operator are stored all or none.
pub record IsWhole (s : Storage) : Type 0 where
  pub refresh : presente (get_string refresh_token s) ≡ presente (get_string auth_token s)
  pub operator : presente (get_string active_operator s) ≡ presente (get_string auth_token s)

apagar_credenciais-IsWhole : (s : Storage) → IsWhole (apagar_credenciais s)
unfolding apagar_credenciais delete_item get_string
apagar_credenciais-IsWhole s = record { refresh = refl; operator = refl }

retomar-IsWhole :
    (m : Bool) (t : Option (Option RestauranteTenant)) (o : Option (Option OperadorRecente))
    (s : Storage) (a : AuthState)
    → IsWhole s
    → IsWhole (retomar m t o (s, a)).0
unfolding retomar
retomar-IsWhole true t o s a h = apagar_credenciais-IsWhole s
retomar-IsWhole false none o s a h = h
retomar-IsWhole false (some t) none s a h = h
retomar-IsWhole false (some t) (some o) s a h = h

either : (b : Bool) (s t : Storage) → IsWhole s → IsWhole t → IsWhole (if b then s else t)
either true s t h k = h
either false s t h k = k

requisitar-IsWhole :
    (json : Json) (api_id : Option Texto) (s : Storage)
    → IsWhole s
    → IsWhole (requisitar json api_id s).0
unfolding requisitar
requisitar-IsWhole json api_id s h = elim (Option-cases (nao_vazio (get_string auth_token s))) [
  | inl e ↦ rw (requisitar, e) h
  | inr (t, e) ↦ elim (Bool-cases (comeca_com (some t) (codes "mock-jwt-token"))) [
    | inl mock ↦ rw (requisitar, e) (rw mock (apagar_credenciais-IsWhole s))
    | inr real ↦ rw (requisitar, e) (rw real h)
  ]
]

passo-IsWhole :
    (json : Json) (api_id : Option Texto) (a : Acao) (x : App)
    → IsWhole x.storage
    → IsWhole (passo json api_id a x).storage
unfolding passo init_session_from_storage set_session set_tenant set_item get_string logout
    ao_responder ao_falhar
passo-IsWhole json api_id abrir x h = retomar-IsWhole _ _ _ x.storage Auth.inicial h
passo-IsWhole json api_id (entrar s) x h = record { refresh = refl; operator = refl }
passo-IsWhole json api_id (trocar_tenant t) x h = record {
  refresh = h.refresh;
  operator = h.operator;
}
passo-IsWhole json api_id sair x h = apagar_credenciais-IsWhole x.storage
passo-IsWhole json api_id requerer x h = requisitar-IsWhole json api_id x.storage h
passo-IsWhole json api_id (responder agora) x h = elim (Bool-cases (not x.conexao.is_api_online)) [
  | inl e ↦ rw e h
  | inr e ↦ rw e h
]
passo-IsWhole json api_id (falhar f agora) x h =
    either (is_unauthorized f) _ _ (apagar_credenciais-IsWhole x.storage) h

executar_lem :
    (json : Json) (api_id : Option Texto) (acoes : List Acao) (x : App)
    → IsWhole x.storage
    → IsWhole (executar json api_id acoes x).storage
unfolding executar
executar_lem json api_id [] x h = h
executar_lem json api_id (a ∷ acoes) x h =
    executar_lem json api_id acoes (passo json api_id a x) (passo-IsWhole json api_id a x h)

-- Whatever the user, the starts, the interceptors and the server do to a new installation: the
-- storage holds the token, the refresh token and the operator all, or none of them.
pub executar-novo-IsWhole :
    (json : Json) (api_id : Option Texto) (acoes : List Acao)
    → IsWhole (executar json api_id acoes novo).storage
unfolding get_string
executar-novo-IsWhole json api_id acoes = executar_lem json api_id acoes novo novo-IsWhole
  where
    novo-IsWhole : IsWhole vazia
    novo-IsWhole = record { refresh = refl; operator = refl }
