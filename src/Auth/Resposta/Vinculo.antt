-- ===== src/Auth/Resposta/Vinculo.antt =====
-- The restaurant that a login from the screen makes active.
use gestao_restaurante.Base.{
  ◌≡◌, ◌≢◌, refl, ap, sym, ◌∙◌, inl, inr, true, false, String, Option, some, List, [], ◌∷◌, find,
  Option-cases, Bool-cases, arith,
}
use gestao_restaurante.Base.Text.{Texto, codes, vazio, same, trim, starts_with}
use gestao_restaurante.Auth.{RestauranteTenant, Json, get_string, set_item, Sessao, set_session}
use gestao_restaurante.Auth.Login.{LoginInput, LoginResponse, primeiro, ou}
use gestao_restaurante.Auth.Entrada.{LoginScreen, enviado, handle_acessar_painel}
use gestao_restaurante.Auth.Login
use gestao_restaurante.Auth.Requests.{tenant_id, requisitar, App, entrar, passo}
use gestao_restaurante.Auth.Session.{IsReal, nao_vazio-text}
use gestao_restaurante.Auth.Resposta.{
  RespostaLogin, ler_login, com_tenant, sessao_do_login, operador_do_login,
}

same→eq : (s t : Texto) → same s t ≡ true → s ≡ t
unfolding same
same→eq [] [] h = refl
same→eq [] (d ∷ t) h = cc
same→eq (c ∷ s) [] h = cc
same→eq (c ∷ s) (d ∷ t) h = ground (arith, h, same→eq s t)

-- The restaurant that is found has the identifier that was looked for.
find-id :
    (id : Texto) (ts : List RestauranteTenant) (t : RestauranteTenant)
    → find (λ u. same u.id id) ts ≡ some t
    → t.id ≡ id
find-id id [] t h = cc
find-id id (u ∷ ts) t h = elim (Bool-cases (same u.id id)) [
  | inl e ↦ ground (arith, e, h, same→eq u.id id e)
  | inr e ↦ find-id id ts t (rw e at h)
]

chosen :
    (r : LoginResponse) (x : LoginInput) (t : RestauranteTenant)
    → t.id ≡ x.restaurante_id
    → (u : RestauranteTenant) × (Login.active_tenant r x (some t) ≡ some u) × (u.id ≡ t.id)
unfolding Login.active_tenant
chosen r x t e =
    elim (Option-cases
      (find (λ u. same u.id x.restaurante_id) r.operador.restaurantes_vinculados)) [
        | inl f ↦ (t, rw f refl, refl)
        | inr (u, f) ↦ (u, rw f refl, find-id x.restaurante_id _ u f ∙ sym e)
      ]

-- Parsing what was printed of a restaurant gives its identifier, where it has one.
abbrev pub KeepsId : Json → Type 0
KeepsId json =
    (u : RestauranteTenant)
    → u.id ≢ []
    → tenant_id json (some (json.stringify_tenant u)) ≡ some u.id

-- After a login with real tokens the requests name the session's restaurant.
entrar-requisitar :
    (json : Json) (api_id : Option Texto) (s : Sessao) (x : App)
    → KeepsId json
    → IsReal s
    → s.tenant.id ≢ []
    → (requisitar json api_id (passo json api_id (entrar s) x).storage).1.x_tenant_id
      ≡ some s.tenant.id
unfolding passo set_session set_item get_string requisitar
entrar-requisitar json api_id s x keeps r named =
    rw (nao_vazio-text s.token r.token, r.real, keeps s.tenant named) refl

cheio : (t : Texto) → vazio t ≡ false → t ≢ []
cheio [] h = λ e. cc
cheio (c ∷ t) h = λ e. cc

-- The request of the screen asks for the restaurant that is active.
handle_acessar_painel-id :
    (t : RestauranteTenant) (s : LoginScreen) (x : LoginInput)
    → vazio t.id ≡ false
    → handle_acessar_painel (some t) s ≡ enviado x
    → t.id ≡ x.restaurante_id
unfolding handle_acessar_painel
handle_acessar_painel-id t s x named h = elim (Bool-cases (vazio (trim s.identificador))) [
  | inl e ↦ cc (rw e at h)
  | inr e ↦ elim (Bool-cases (vazio (trim s.palavra_passe))) [
    | inl f ↦ cc (rw (e, f) at h)
    | inr f ↦ ground (arith, e, f, named, h)
  ]
]

-- Tokens of the server that no purge takes.
pub record IsRealAnswer (r : RespostaLogin) : Type 0 where
  pub token : r.token ≢ []
  pub real : starts_with r.token (codes "mock-jwt-token") ≡ false
  pub real_refresh : starts_with r.refresh_token (codes "mock-refresh-token") ≡ false

-- A login from the screen, on a device where a restaurant with an identifier is active, answered
-- with real tokens: whatever else the server answers, the identifier of its restaurant for that user
-- included, the session that is set has the identifier that was active before, and the next request
-- is made in its name. (The format of the storage keeps the identifiers.)
pub sessao_do_login-tenant :
    (json : Json) (api_id : Option Texto) (validade : String) (t : RestauranteTenant)
    (s : LoginScreen) (x : LoginInput) (r : RespostaLogin) (app : App)
    → KeepsId json
    → vazio t.id ≡ false
    → handle_acessar_painel (some t) s ≡ enviado x
    → IsRealAnswer r
    → (sessao : Sessao) × (sessao_do_login (ler_login validade x r) x (some t) ≡ some sessao)
      × (sessao.tenant.id ≡ t.id)
      × ((requisitar json api_id (passo json api_id (entrar sessao) app).storage).1.x_tenant_id
          ≡ some t.id)
unfolding sessao_do_login ler_login
sessao_do_login-tenant json api_id validade t s x r app keeps named h real =
    let (u, found, same_id) =
      chosen (ler_login validade x r) x t (handle_acessar_painel-id t s x named h) in
    let sessao : Sessao = record {
      token = r.token;
      refresh_token = r.refresh_token;
      tenant = u;
      operador = operador_do_login (ler_login validade x r) x;
    } in
    let genuine : IsReal sessao = record {
      token = real.token;
      real = real.real;
      real_refresh = real.real_refresh;
    } in
    (
      sessao,
      ap (com_tenant (ler_login validade x r) x) found,
      same_id,
      entrar-requisitar json api_id sessao app keeps genuine
            (λ e. cheio t.id named (sym same_id ∙ e))
          ∙ ap some same_id,
    )
