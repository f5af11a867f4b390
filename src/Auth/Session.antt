-- ===== src/Auth/Session.antt =====
-- The session over a restart, and what the requests carry.
use gestao_restaurante.Base.{
  ℕ, ◌≡◌, ◌≢◌, refl, ap, sym, ◌∙◌, Bool, true, false, ◌&&◌, ◌||◌, Option, none, some, [], ◌∷◌,
  arith,
}
use gestao_restaurante.Base.Text.{Texto, codes, starts_with}
use gestao_restaurante.Auth
use gestao_restaurante.Auth.{
  RestauranteTenant, OperadorRecente, Json, Chave, auth_token, refresh_token, active_tenant,
  active_operator, same_chave, Storage, get_string, set_item, delete_item, AuthState, tenant_padrao,
  Sessao, set_session, set_tenant, apagar_credenciais, sem_sessao, logout, comeca_com, is_mock,
  truthy, presente, lido, sessao_invalida, retomar, init_session_from_storage,
}
use gestao_restaurante.Auth.Requests.{
  nao_vazio, tenant_id, requisitar, App, Falha, abrir, entrar, trocar_tenant, sair, falhar, passo,
  ao_falhar,
}

-- Parsing undoes the printing of this tenant, whose text, that of an object, is not empty.
pub record IsStored (json : Json) (t : RestauranteTenant) : Type 0 where
  pub parses : json.parse_tenant (json.stringify_tenant t) ≡ some (some t)
  pub text : json.stringify_tenant t ≢ []

-- The same of an operator.
pub record IsStoredOperador (json : Json) (o : OperadorRecente) : Type 0 where
  pub parses : json.parse_operador (json.stringify_operador o) ≡ some (some o)
  pub text : json.stringify_operador o ≢ []

lido-text :
    {A : Type 0} (d : Option A) (parse : Texto → Option (Option A)) (t : Texto)
    → t ≢ []
    → lido d parse (some t) ≡ parse t
lido-text d parse [] h = absurd (h refl)
lido-text d parse (c ∷ t) h = refl

truthy-text : (t : Texto) → t ≢ [] → truthy (some t) ≡ true
truthy-text [] h = absurd (h refl)
truthy-text (c ∷ t) h = refl

-- Tokens that no purge takes.
pub record IsReal (s : Sessao) : Type 0 where
  pub token : s.token ≢ []
  pub real : starts_with s.token (codes "mock-jwt-token") ≡ false
  pub real_refresh : starts_with s.refresh_token (codes "mock-refresh-token") ≡ false

-- A session with real tokens survives a restart: the store that a new start reads from the storage
-- is the one that the login set, whatever was stored before. (Parsing undoes the printing of its
-- tenant and of its operator.)
pub entrar-abrir :
    (json : Json) (api_id : Option Texto) (s : Sessao) (x : App)
    → IsStored json s.tenant
    → IsStoredOperador json s.operador
    → IsReal s
    → (passo json api_id abrir (passo json api_id (entrar s) x)).auth
      ≡ (passo json api_id (entrar s) x).auth
unfolding passo init_session_from_storage retomar set_session set_item get_string apagar_credenciais
entrar-abrir json api_id s x f g r = rw (
  r.real,
  r.real_refresh,
  lido-text (some tenant_padrao) json.parse_tenant (json.stringify_tenant s.tenant) f.text,
  f.parses,
  lido-text none json.parse_operador (json.stringify_operador s.operador) g.text,
  g.parses,
  truthy-text s.token r.token,
)

false-true : false ≢ true
false-true = ground arith

-- What a start that finds the operator logged in has read.
and_first : (a b : Bool) → (a && b) ≡ true → a ≡ true
and_first a b h = ground arith

or_first : (a b : Bool) → (a || b) ≡ false → a ≡ false
or_first a b h = ground arith

retomar-authenticated :
    (m : Bool) (t : Option (Option RestauranteTenant)) (o : Option (Option OperadorRecente))
    (s : Storage) (a : AuthState)
    → (retomar m t o (s, a)).1.is_authenticated ≡ true
    → (m ≡ false)
      × ((retomar m t o (s, a)).0 ≡ s)
      × ((retomar m t o (s, a)).1.token ≡ get_string auth_token s)
      × (truthy (get_string auth_token s) ≡ true)
unfolding retomar
retomar-authenticated true t o s a h = ground (arith, h)
retomar-authenticated false none o s a h = ground (arith, h)
retomar-authenticated false (some t) none s a h = ground (arith, h)
retomar-authenticated false (some t) (some o) s a h =
    (refl, refl, refl, and_first (truthy (get_string auth_token s)) (presente o) h)

cons-nil : {c : ℕ} {t : Texto} → ◌∷◌ c t ≢ []
cons-nil = ground arith

texto_cheio :
    (o : Option Texto)
    → truthy o ≡ true
    → (t : Texto) × (o ≡ some t) × (t ≢ []) × (nao_vazio o ≡ some t)
texto_cheio none h = absurd (false-true h)
texto_cheio (some []) h = absurd (false-true h)
texto_cheio (some (c ∷ t)) h = (c ∷ t, refl, cons-nil, refl)

requisitar-sent :
    (json : Json) (api_id : Option Texto) (s : Storage) (t : Texto)
    → nao_vazio (get_string auth_token s) ≡ some t
    → starts_with t (codes "mock-jwt-token") ≡ false
    → (requisitar json api_id s).1.authorization ≡ some t
unfolding requisitar
requisitar-sent json api_id s t sent real = rw (requisitar, sent) (rw real refl)

requisitar-bearer :
    (json : Json) (api_id : Option Texto) (s : Storage)
    → is_mock s ≡ false
    → truthy (get_string auth_token s) ≡ true
    → (t : Texto) × (get_string auth_token s ≡ some t)
      × (starts_with t (codes "mock-jwt-token") ≡ false)
      × (t ≢ [])
      × ((requisitar json api_id s).1.authorization ≡ some t)
requisitar-bearer json api_id s real full =
    let (t, found, some_text, sent) = texto_cheio (get_string auth_token s) full in
    let real_token : starts_with t (codes "mock-jwt-token") ≡ false =
      ap (λ o. comeca_com o (codes "mock-jwt-token")) (sym found) ∙ or_first _ _ real in
    (t, found, real_token, some_text, requisitar-sent json api_id s t sent real_token)

-- After a start that finds the operator logged in, the token is neither empty nor a mock, and the
-- next request carries it as its Bearer token.
pub abrir-IsAuthorized :
    (json : Json) (api_id : Option Texto) (x : App)
    → (passo json api_id abrir x).auth.is_authenticated ≡ true
    → (t : Texto) × ((passo json api_id abrir x).auth.token ≡ some t)
      × (starts_with t (codes "mock-jwt-token") ≡ false)
      × (t ≢ [])
      × ((requisitar json api_id (passo json api_id abrir x).storage).1.authorization ≡ some t)
unfolding passo init_session_from_storage
abrir-IsAuthorized json api_id x h =
    let (real, kept, read, full) = retomar-authenticated _ _ _ x.storage Auth.inicial h in
    let (t, found, real_token, some_text, sent) =
      requisitar-bearer json api_id x.storage real full in
    (
      t,
      read ∙ found,
      real_token,
      some_text,
      ap (λ s. (requisitar json api_id s).1.authorization) kept ∙ sent,
    )

-- A storage without a token: the request names nobody.
requisitar-anonymous :
    (json : Json) (api_id : Option Texto) (s : Storage)
    → get_string auth_token s ≡ none
    → (requisitar json api_id s).1.authorization ≡ none
unfolding requisitar
requisitar-anonymous json api_id s gone = rw (requisitar, gone) refl

true_or_false : (b : Bool) → b ≢ true → b ≡ false
true_or_false b h = ground arith

-- A start over it finds nobody logged in.
abrir-anonymous :
    (json : Json) (api_id : Option Texto) (x : App)
    → get_string auth_token x.storage ≡ none
    → (passo json api_id abrir x).auth.is_authenticated ≡ false
unfolding passo init_session_from_storage
abrir-anonymous json api_id x gone = true_or_false _ (λ h.
    let full = (retomar-authenticated _ _ _ x.storage Auth.inicial h).3 in
    false-true (ap truthy (sym gone) ∙ full))

apagar_credenciais_lem : (s : Storage) → get_string auth_token (apagar_credenciais s) ≡ none
unfolding apagar_credenciais delete_item get_string
apagar_credenciais_lem s = refl

-- After a logout the store is not authenticated, no request names the operator, the next start finds
-- nobody logged in, and the restaurant is kept in the store and in the storage.
pub sair-forgets :
    (json : Json) (api_id : Option Texto) (x : App)
    → ((passo json api_id sair x).auth.is_authenticated ≡ false)
      × ((requisitar json api_id (passo json api_id sair x).storage).1.authorization ≡ none)
      × ((passo json api_id abrir (passo json api_id sair x)).auth.is_authenticated ≡ false)
      × ((passo json api_id sair x).auth.tenant ≡ x.auth.tenant)
      × (get_string active_tenant (passo json api_id sair x).storage
          ≡ get_string active_tenant x.storage)
unfolding passo logout get_string apagar_credenciais delete_item
sair-forgets json api_id x =
    let gone = apagar_credenciais_lem x.storage in
    (
      refl,
      requisitar-anonymous json api_id (apagar_credenciais x.storage) gone,
      abrir-anonymous json api_id (passo json api_id sair x) gone,
      refl,
      refl,
    )

-- A response 401: the next request names nobody and the next start finds nobody logged in, but the
-- store, which the guard of the screens reads, is left as it was.
pub falhar-401 :
    (json : Json) (api_id : Option Texto) (f : Falha) (agora : ℕ) (x : App)
    → f.response_status ≡ some 401
    → ((passo json api_id (falhar f agora) x).auth ≡ x.auth)
      × ((requisitar json api_id (passo json api_id (falhar f agora) x).storage).1.authorization
          ≡ none)
      × ((passo json api_id abrir (passo json api_id (falhar f agora) x)).auth.is_authenticated
          ≡ false)
unfolding passo ao_falhar
falhar-401 json api_id f agora x e =
    let gone : get_string auth_token (passo json api_id (falhar f agora) x).storage ≡ none =
      rw (passo, ao_falhar, e) (apagar_credenciais_lem x.storage) in
    (
      refl,
      requisitar-anonymous json api_id (passo json api_id (falhar f agora) x).storage gone,
      abrir-anonymous json api_id (passo json api_id (falhar f agora) x) gone,
    )

pub nao_vazio-text : (t : Texto) → t ≢ [] → nao_vazio (some t) ≡ some t
nao_vazio-text [] h = absurd (h refl)
nao_vazio-text (c ∷ t) h = refl

pub tenant_id-text :
    (json : Json) (t : RestauranteTenant)
    → IsStored json t
    → t.id ≢ []
    → tenant_id json (some (json.stringify_tenant t)) ≡ some t.id
tenant_id-text json t f named = text (json.stringify_tenant t) refl
  where
    text : (r : Texto) → json.stringify_tenant t ≡ r → tenant_id json (some r) ≡ some t.id
    text [] e = absurd (f.text e)
    text (c ∷ r) e = rw (← e, f.parses) (nao_vazio-text t.id named)

-- Once an operator has logged in with real tokens and has changed to a restaurant with an id, every
-- request carries the token and that restaurant's id. (Parsing undoes the printing of the restaurant.)
pub trocar_tenant-requisitar :
    (json : Json) (api_id : Option Texto) (s : Sessao) (t : RestauranteTenant) (x : App)
    → IsStored json t
    → IsReal s
    → t.id ≢ []
    → (requisitar json api_id
        (passo json api_id (trocar_tenant t) (passo json api_id (entrar s) x)).storage).1
      ≡ record { api_id = nao_vazio api_id; authorization = some s.token; x_tenant_id = some t.id }
unfolding passo set_tenant set_session set_item get_string requisitar
trocar_tenant-requisitar json api_id s t x f r named =
    rw (nao_vazio-text s.token r.token, r.real, tenant_id-text json t f named)
