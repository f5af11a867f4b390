-- ===== src/TempoReal/Espelho.antt =====
-- The store of the notices shows the state of the client.
use gestao_restaurante.Base.{
  ℕ, ◌≡◌, ◌≢◌, refl, ap, ◌∙◌, Bool, true, false, Option, none, some, List, [], ◌∷◌, drop, length,
  ltb, if◌then◌else◌,
}
use gestao_restaurante.Shared.Bloco.{TenantStreamEvent}
use gestao_restaurante.Shared.Sse.{SseConnectionState, disconnected, SseClient, Sinal}
use gestao_restaurante.Shared.Sse.Status.{ultimo, IsAnnounced, passo-IsAnnounced, passo-spoken}
use gestao_restaurante.Auth.{Storage, AuthState, set_session, set_tenant, logout}
use gestao_restaurante.Shared.Sse
use gestao_restaurante.TempoReal.{
  Toast, SseStatusState, Plataforma, TempoReal, inicial, mostrar, on_event, on_events, anunciado,
  on_status, sinal_da_sessao, sincronizar, same_dependencias, mudar, de_rede, ouvir, entregar,
  Evento, rede, entrar, trocar_tenant, sair, passo, executar,
}

-- The store shows the state last announced, which is the client's.
abbrev pub IsMirrored : TempoReal → Type 0
IsMirrored x = (x.avisos.status ≡ ultimo x.cliente.avisos) × IsAnnounced x.cliente

mostrar-status :
    (p : Plataforma) (agora : ℕ) (t : Option Toast) (s : SseStatusState)
    → (mostrar p agora t s).status ≡ s.status
mostrar-status p agora none s = refl
mostrar-status p agora (some t) s = refl

-- The listener of events touches neither the client, the session nor the state shown.
pub on_events_keeps :
    (p : Plataforma) (agora : ℕ) (es : List TenantStreamEvent) (x : TempoReal)
    → ((on_events p agora es x).avisos.status ≡ x.avisos.status)
      × ((on_events p agora es x).cliente ≡ x.cliente)
      × ((on_events p agora es x).sessao ≡ x.sessao)
unfolding on_events on_event
on_events_keeps p agora [] x = (refl, refl, refl)
on_events_keeps p agora (e ∷ es) x =
    let (state, client, session) = on_events_keeps p agora es (on_event p agora e x) in
    (state ∙ mostrar-status p agora _ _, client, session)

anunciado-ultimo :
    (antes depois : List SseConnectionState)
    → (antes ≢ [] → depois ≢ [])
    → anunciado depois (ultimo antes) ≡ ultimo depois
anunciado-ultimo [] [] h = refl
anunciado-ultimo (s ∷ antes) [] h = absurd (h (λ e. cc) refl)
anunciado-ultimo antes (s ∷ depois) h = refl

-- The client has taken a step, and the store, which showed its state before, hears of it.
on_status-IsMirrored :
    (s : Sinal) (c : SseClient) (x : TempoReal)
    → x.cliente ≡ Sse.passo s c
    → x.avisos.status ≡ ultimo c.avisos
    → IsAnnounced c
    → IsMirrored (on_status x)
on_status-IsMirrored s c x moved shown told = (
  ap (anunciado x.cliente.avisos) shown
      ∙ rw moved (anunciado-ultimo c.avisos (Sse.passo s c).avisos (passo-spoken s c)),
  rw moved (passo-IsAnnounced s c told),
)

either :
    (b : Bool) (x y : TempoReal) → IsMirrored x → IsMirrored y → IsMirrored (if b then x else y)
either true x y h k = h
either false x y h k = k

pub mudar-IsMirrored :
    (s : Storage × AuthState) (x : TempoReal) → IsMirrored x → IsMirrored (mudar s x)
unfolding mudar sincronizar
mudar-IsMirrored s x (shown, told) =
    let moved = record x { sessao = s; cliente = sincronizar s.1 x.cliente } in
    either (same_dependencias x.sessao.1 s.1) (record x { sessao = s }) (on_status moved)
      (shown, told)
      (on_status-IsMirrored (sinal_da_sessao s.1.is_authenticated s.1.token s.1.tenant) x.cliente
        moved refl shown told)

ouvir-IsMirrored :
    (p : Plataforma) (agora : ℕ) (s : Sinal) (x : TempoReal)
    → IsMirrored x
    → IsMirrored (ouvir p agora (Sse.passo s x.cliente) x)
unfolding ouvir
ouvir-IsMirrored p agora s x (shown, told) =
    let es = drop (length x.cliente.eventos) (Sse.passo s x.cliente).eventos in
    let y = record x { cliente = Sse.passo s x.cliente } in
    let (state, client, session) = on_events_keeps p agora es y in
    on_status-IsMirrored s x.cliente (on_events p agora es y) client (state ∙ shown) told

entregar-IsMirrored :
    (p : Plataforma) (agora : ℕ) (s : Sinal) (x : TempoReal)
    → IsMirrored x
    → IsMirrored (entregar p agora (Sse.passo s x.cliente) x)
unfolding entregar
entregar-IsMirrored p agora s x h =
    let novo = Sse.passo s x.cliente in
    let y = ouvir p agora novo x in
    let heard = ouvir-IsMirrored p agora s x h in
    either (ltb x.cliente.nao_autorizados novo.nao_autorizados) (mudar (logout y.sessao) y) y
      (mudar-IsMirrored (logout y.sessao) y heard) heard

passo-IsMirrored :
    (p : Plataforma) (e : Evento) (x : TempoReal) → IsMirrored x → IsMirrored (passo p e x)
unfolding passo
passo-IsMirrored p (rede agora s) x h =
    either (de_rede s) (entregar p agora (Sse.passo s x.cliente) x) x
      (entregar-IsMirrored p agora s x h) h
passo-IsMirrored p (entrar s) x h = mudar-IsMirrored (set_session p.json s x.sessao) x h
passo-IsMirrored p (trocar_tenant t) x h = mudar-IsMirrored (set_tenant p.json t x.sessao) x h
passo-IsMirrored p sair x h = mudar-IsMirrored (logout x.sessao) x h

pub executar-IsMirrored :
    (p : Plataforma) (es : List Evento) (x : TempoReal)
    → IsMirrored x
    → IsMirrored (executar p es x)
unfolding executar
executar-IsMirrored p [] x h = h
executar-IsMirrored p (e ∷ es) x h =
    executar-IsMirrored p es (passo p e x) (passo-IsMirrored p e x h)

-- Whatever the network, the timers and the user do to a new application, the state that the status
-- bar reads is the state of the client of the stream.
pub executar-inicial-status :
    (p : Plataforma) (es : List Evento)
    → (executar p es inicial).avisos.status ≡ (executar p es inicial).cliente.connection_state
executar-inicial-status p es =
    let (shown, told) = executar-IsMirrored p es inicial (refl, (refl, tt)) in shown ∙ told.0
