-- ===== src/TempoReal/Sessao.antt =====
-- The stream follows the session: a refusal of the server, a logout, another tenant.
use gestao_restaurante.Base.{
  ℕ, ◌+◌, ◌<◌, ◌≡◌, refl, ap, ◌∙◌, Bool, true, false, not, ◌&&◌, Option, none, some, List, ◌∷◌,
  ◌++◌, drop, length, lt→ltb, if◌then◌else◌, arith,
}
use gestao_restaurante.Base.Text.{Texto, vazio}
use gestao_restaurante.Shared.Fluxo.{ler}
use gestao_restaurante.Shared.Sse.{
  SseConnectionState, connected, disconnected, SseConnectOptions, aguardando, lendo, Aberto,
  SseClient, Sinal, conectar, desconectar, resposta, aberto?, eventos_de, is_mock,
}
use gestao_restaurante.Shared.Sse.Keeps.{desconectar-passo, resposta-401}
use gestao_restaurante.Shared.Sse.Despacho.{chegadas}
use gestao_restaurante.Shared.Sse.Leak.{conectar-chegadas}
use gestao_restaurante.Auth.{
  RestauranteTenant, Storage, AuthState, auth_token, get_string, set_tenant, delete_item,
  apagar_credenciais, logout,
}
use gestao_restaurante.Shared.Sse
use gestao_restaurante.TempoReal.{
  Plataforma, TempoReal, on_status, sinal_da_sessao, sincronizar, same_dependencias, mudar, ouvir,
  entregar, rede, trocar_tenant, passo,
}
use gestao_restaurante.TempoReal.Espelho.{on_events_keeps}

either {ℓ} :
    (P : TempoReal → Type ℓ) (b : Bool) (x y : TempoReal) → P x → P y → P (if b then x else y)
either P true x y h k = h
either P false x y h k = k

chosen : {b : Bool} (x y : TempoReal) → b ≡ true → (if b then x else y) ≡ x
chosen x y e = rw e refl

skipped : {b : Bool} (x y : TempoReal) → b ≡ false → (if b then x else y) ≡ y
skipped x y e = rw e refl

mudar-sessao : (s : Storage × AuthState) (x : TempoReal) → (mudar s x).sessao ≡ s
unfolding mudar
mudar-sessao s x =
    either (λ y. y.sessao ≡ s) (same_dependencias x.sessao.1 s.1) (record x { sessao = s })
      (on_status (record x { sessao = s; cliente = sincronizar s.1 x.cliente })) refl refl

-- After a logout the client is disconnected, if it was so before or the effect runs.
sair-cliente :
    (s : Storage × AuthState) (x : TempoReal)
    → x.cliente.connection_state ≡ disconnected
    → (mudar (logout s) x).cliente.connection_state ≡ disconnected
unfolding mudar logout sincronizar
sair-cliente s x h =
    either (λ y. y.cliente.connection_state ≡ disconnected)
      (same_dependencias x.sessao.1 (logout s).1) (record x { sessao = logout s })
      (on_status (record x { sessao = logout s; cliente = sincronizar (logout s).1 x.cliente })) h
      (desconectar-passo x.cliente)

entregar-refused :
    (p : Plataforma) (agora : ℕ) (novo : SseClient) (x : TempoReal)
    → novo.nao_autorizados ≡ x.cliente.nao_autorizados + 1
    → entregar p agora novo x ≡ mudar (logout (ouvir p agora novo x).sessao) (ouvir p agora novo x)
unfolding entregar
entregar-refused p agora novo x e =
    chosen _ _ (lt→ltb x.cliente.nao_autorizados novo.nao_autorizados (omega (arith, e)))

-- When the server answers 401 to a stream that awaits its response: the user is logged out, the
-- token is no longer stored, and the client is disconnected.
pub resposta-401-sair :
    (p : Plataforma) (agora n jitter : ℕ) (a : Aberto) (x : TempoReal)
    → aberto? n x.cliente ≡ some a
    → a.fase ≡ aguardando
    → ((passo p (rede agora (resposta n 401 jitter)) x).sessao.1.is_authenticated ≡ false)
      × (get_string auth_token (passo p (rede agora (resposta n 401 jitter)) x).sessao.0 ≡ none)
      × ((passo p (rede agora (resposta n 401 jitter)) x).cliente.connection_state ≡ disconnected)
unfolding passo ouvir logout apagar_credenciais get_string delete_item
resposta-401-sair p agora n jitter a x found phase =
    let novo = Sse.passo (resposta n 401 jitter) x.cliente in
    let (state, count, events) = resposta-401 n jitter a x.cliente found phase in
    let heard = ouvir p agora novo x in
    let client =
      (on_events_keeps p agora (drop (length x.cliente.eventos) novo.eventos)
        (record x { cliente = novo })).1 in
    let session = mudar-sessao (logout heard.sessao) heard in
    let same = entregar-refused p agora novo x count in
    (
      ap (λ y. y.sessao.1.is_authenticated) same ∙ ap (λ s. s.1.is_authenticated) session,
      ap (λ y. y.sessao.0 auth_token) same ∙ ap (λ s. s.0 auth_token) session,
      ap (λ y. y.cliente.connection_state) same
          ∙ sair-cliente heard.sessao heard (ap (λ c. c.connection_state) client ∙ state),
    )

ligada :
    (auth : Bool) (o : Option Texto) (token : Texto) (r : RestauranteTenant)
    → auth ≡ true
    → o ≡ some token
    → (not (vazio token) && not (vazio r.id)) ≡ true
    → sinal_da_sessao auth o (some r)
      ≡ conectar (record { url = none; token = token; tenant_id = r.id })
ligada auth o token r a t named = rw (a, t, named) refl

-- Another tenant is chosen while a stream is being read: whatever the old tenant's stream sends from
-- then on is still dispatched.
pub trocar_tenant-chegadas :
    (p : Plataforma) (x : TempoReal) (r : RestauranteTenant) (token : Texto) (n : ℕ) (b : Texto)
    (rest : List Aberto) (ts : List Texto) (agora padrao : Texto)
    → x.sessao.1.is_authenticated ≡ true
    → x.sessao.1.token ≡ some token
    → (not (vazio token) && not (vazio r.id)) ≡ true
    → same_dependencias x.sessao.1 (set_tenant p.json r x.sessao).1 ≡ false
    → is_mock (record { url = none; token = token; tenant_id = r.id }) ≡ false
    → x.cliente.abertos ≡ record { id = n; fase = lendo b } ∷ rest
    → n < x.cliente.proximo
    → (Sse.executar (chegadas n agora padrao ts) (passo p (trocar_tenant r) x).cliente).eventos
      ≡ x.cliente.eventos ++ eventos_de agora padrao (ler b ts).0
unfolding passo mudar sincronizar set_tenant
trocar_tenant-chegadas p x r token n b rest ts agora padrao auth tok named changed real e lt =
    let s = set_tenant p.json r x.sessao in
    let signal = ligada x.sessao.1.is_authenticated x.sessao.1.token token r auth tok named in
    let o : SseConnectOptions = record { url = none; token = token; tenant_id = r.id } in
    let moved : (passo p (trocar_tenant r) x).cliente ≡ Sse.passo (conectar o) x.cliente =
      ap (λ y. y.cliente)
        (skipped (record x { sessao = s })
          (on_status (record x { sessao = s; cliente = sincronizar s.1 x.cliente })) changed)
      ∙ ap (λ z. Sse.passo z x.cliente) signal in
    ap (λ c. (Sse.executar (chegadas n agora padrao ts) c).eventos) moved
    ∙ conectar-chegadas x.cliente o n b rest ts agora padrao e lt real
