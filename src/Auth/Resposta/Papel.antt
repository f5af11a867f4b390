-- ===== src/Auth/Resposta/Papel.antt =====
-- The role of the operator, over a history of the application.
use gestao_restaurante.Base.{
  ◌≡◌, refl, ap, sym, ◌∙◌, inl, inr, Bool, true, false, not, String, Option, none, some, List, [],
  ◌∷◌, All, arith, if◌then◌else◌, Bool-cases, Option-cases,
}
use gestao_restaurante.Base.Text.{Texto, codes}
use gestao_restaurante.Auth
use gestao_restaurante.Auth.{
  RestauranteTenant, OperadorRecente, Json, auth_token, active_operator, Storage, get_string,
  set_item, delete_item, AuthState, Sessao, set_session, set_tenant, apagar_credenciais, logout,
  comeca_com, is_mock, lido, retomar, init_session_from_storage,
}
use gestao_restaurante.Auth.Login.{LoginInput, active_tenant}
use gestao_restaurante.Auth.Requests.{
  nao_vazio, requisitar, App, novo, is_unauthorized, Acao, abrir, entrar, trocar_tenant, sair,
  requerer, responder, falhar, ao_responder, ao_falhar, passo, executar,
}
use gestao_restaurante.Auth.Resposta.{
  RespostaLogin, RespostaCadastro, ler_login, com_tenant, sessao_do_login, operador_do_login,
  sessao_do_cadastro, papel, backoffice_visivel,
}

-- What a parse gave: it may throw, or give null.
abbrev lido_ou_nada : Option (Option OperadorRecente) → Option OperadorRecente
lido_ou_nada none = none
lido_ou_nada (some o) = o

-- What a start reads of the stored operator.
abbrev guardado : Json → Storage → Option OperadorRecente
guardado json s = lido_ou_nada (lido none json.parse_operador (get_string active_operator s))

-- A session that the program sets: that of a login, or of a registration.
pub data FromServer : Sessao → Type 0 where
  login :
      (validade : String) (x : LoginInput) (r : RespostaLogin) (current : Option RestauranteTenant)
      {s : Sessao}
      → sessao_do_login (ler_login validade x r) x current ≡ some s
      → FromServer s
  cadastro :
      (cnpj : Texto) (r : RespostaCadastro) {s : Sessao}
      → sessao_do_cadastro cnpj r ≡ s
      → FromServer s

abbrev pub IsAuthentic : Acao → Type 0
IsAuthentic (entrar s) = FromServer s
IsAuthentic _ = Unit {0}

-- Printing and parsing an operator without a role gives it none.
abbrev pub AddsNoRole : Json → Type 0
AddsNoRole json =
    (o : OperadorRecente)
    → o.role ≡ none
    → papel (guardado json (λ k. some (json.stringify_operador o))) ≡ none

-- Neither the store nor the storage has an operator with a role.
pub record HasNoRole (json : Json) (x : App) : Type 0 where
  pub active : papel x.auth.operador ≡ none
  pub stored : papel (guardado json x.storage) ≡ none

FromServer-role : {s : Sessao} → FromServer s → s.operador.role ≡ none
unfolding sessao_do_login sessao_do_cadastro operador_do_login
FromServer-role (login validade x r current h) =
    elim (Option-cases (active_tenant (ler_login validade x r) x current)) [
      | inl e ↦ cc (sym (ap (com_tenant (ler_login validade x r) x) e) ∙ h)
      | inr (t, e) ↦
          let h' = sym (ap (com_tenant (ler_login validade x r) x) e) ∙ h in ground (arith, h')
    ]
FromServer-role (cadastro cnpj r h) = ap (λ s. s.operador.role) (sym h)

apagado : (json : Json) (s : Storage) → papel (guardado json (apagar_credenciais s)) ≡ none
unfolding apagar_credenciais delete_item get_string
apagado json s = refl

retomar-HasNoRole :
    (json : Json) (m : Bool) (t : Option (Option RestauranteTenant))
    (o : Option (Option OperadorRecente)) (s : Storage) (a : AuthState)
    → papel (lido_ou_nada o) ≡ none
    → papel (guardado json s) ≡ none
    → (papel (retomar m t o (s, a)).1.operador ≡ none)
      × (papel (guardado json (retomar m t o (s, a)).0) ≡ none)
unfolding retomar
retomar-HasNoRole json true t o s a h k = (refl, apagado json s)
retomar-HasNoRole json false none o s a h k = (refl, k)
retomar-HasNoRole json false (some t) none s a h k = (refl, k)
retomar-HasNoRole json false (some t) (some o) s a h k = (h, k)

either :
    (json : Json) (b : Bool) (s t : Storage)
    → papel (guardado json s) ≡ none
    → papel (guardado json t) ≡ none
    → papel (guardado json (if b then s else t)) ≡ none
either json true s t h k = h
either json false s t h k = k

requisitar-stored :
    (json : Json) (api_id : Option Texto) (s : Storage)
    → papel (guardado json s) ≡ none
    → papel (guardado json (requisitar json api_id s).0) ≡ none
unfolding requisitar
requisitar-stored json api_id s h = elim (Option-cases (nao_vazio (get_string auth_token s))) [
  | inl e ↦ rw (requisitar, e) h
  | inr (t, e) ↦ elim (Bool-cases (comeca_com (some t) (codes "mock-jwt-token"))) [
    | inl mock ↦ rw (requisitar, e) (rw mock (apagado json s))
    | inr real ↦ rw (requisitar, e) (rw real h)
  ]
]

passo-HasNoRole :
    (json : Json) (api_id : Option Texto) (a : Acao) (x : App)
    → AddsNoRole json
    → IsAuthentic a
    → HasNoRole json x
    → HasNoRole json (passo json api_id a x)
unfolding passo init_session_from_storage set_session set_tenant set_item get_string logout
    ao_responder ao_falhar
passo-HasNoRole json api_id abrir x law a h =
    let (active, stored) =
      retomar-HasNoRole json _ _
        (lido none json.parse_operador (get_string active_operator x.storage)) x.storage
        Auth.inicial h.stored h.stored in
    record { active = active; stored = stored }
passo-HasNoRole json api_id (entrar s) x law a h = record {
  active = FromServer-role a;
  stored = law s.operador (FromServer-role a);
}
passo-HasNoRole json api_id (trocar_tenant t) x law a h = record {
  active = h.active;
  stored = h.stored;
}
passo-HasNoRole json api_id sair x law a h = record {
  active = refl;
  stored = apagado json x.storage;
}
passo-HasNoRole json api_id requerer x law a h = record {
  active = h.active;
  stored = requisitar-stored json api_id x.storage h.stored;
}
passo-HasNoRole json api_id (responder agora) x law a h =
    elim (Bool-cases (not x.conexao.is_api_online)) [
      | inl e ↦ rw e (record { active = h.active; stored = h.stored })
      | inr e ↦ rw e h
    ]
passo-HasNoRole json api_id (falhar f agora) x law a h = record {
  active = h.active;
  stored = either json (is_unauthorized f) _ _ (apagado json x.storage) h.stored;
}

executar-HasNoRole :
    (json : Json) (api_id : Option Texto) (acoes : List Acao) (x : App)
    → AddsNoRole json
    → All IsAuthentic acoes
    → HasNoRole json x
    → HasNoRole json (executar json api_id acoes x)
unfolding executar
executar-HasNoRole json api_id [] x law all h = h
executar-HasNoRole json api_id (a ∷ acoes) x law (authentic, rest) h =
    executar-HasNoRole json api_id acoes (passo json api_id a x) law rest
      (passo-HasNoRole json api_id a x law authentic h)

-- Whatever happens to a new installation, where the sessions are those of logins and registrations,
-- the roles that the server answers included: the profile's screen never offers the administration.
-- (The format of the storage adds no role to an operator without one.)
pub executar-novo-backoffice_visivel :
    (json : Json) (api_id : Option Texto) (acoes : List Acao)
    → AddsNoRole json
    → All IsAuthentic acoes
    → backoffice_visivel (executar json api_id acoes novo).auth.operador ≡ false
unfolding backoffice_visivel get_string
executar-novo-backoffice_visivel json api_id acoes law all =
    let h = executar-HasNoRole json api_id acoes novo law all novo-HasNoRole in rw h.active refl
  where
    novo-HasNoRole : HasNoRole json novo
    novo-HasNoRole = record { active = refl; stored = refl }
