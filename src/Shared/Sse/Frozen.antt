-- ===== src/Shared/Sse/Frozen.antt =====
-- When a client can no longer move by itself: after the watchdog, and after `disconnect`.
use gestao_restaurante.Shared.Sse.Keeps.{set_status_keeps, abortar_keeps}
use gestao_restaurante.Base.{
  ℕ, ◌≡◌, refl, ◌∙◌, inl, inr, true, false, Option, none, some, List, [], ◌∷◌, All, Option-cases,
  arith,
}
use gestao_restaurante.Shared.Sse.{
  connected, disconnected, Aberto, SseClient, set_status, clear_timers, abortar, disconnect, sem,
  Sinal, conectar, desconectar, resposta, chunk, texto, fim, falha, hora_de_reconectar, vigia,
  vigiar, reconectar, passo, executar,
}

-- The signals that the application does not send.
abbrev pub IsExternal : Sinal → Type 0
IsExternal (conectar o) = ⊥
IsExternal desconectar = ⊥
IsExternal _ = Unit {0}

-- No stream in flight and no timer pending.
pub record IsFrozen (c : SseClient) : Type 0 where
  pub no_stream : c.abertos ≡ []
  pub no_reconnect : c.reconnect_timer ≡ none
  pub no_watchdog : c.heartbeat_timer ≡ false

pub passo-frozen : (s : Sinal) (c : SseClient) → IsExternal s → IsFrozen c → passo s c ≡ c
unfolding passo vigiar reconectar
passo-frozen (conectar o) c h f = absurd h
passo-frozen desconectar c h f = absurd h
passo-frozen (resposta n status jitter) c h f = ground arith
passo-frozen (chunk n t agora padrao) c h f = ground arith
passo-frozen (texto n t agora padrao jitter) c h f = ground arith
passo-frozen (fim n jitter) c h f = ground arith
passo-frozen (falha n jitter) c h f = ground arith
passo-frozen hora_de_reconectar c h f = ground arith
passo-frozen vigia c h f = ground arith

executar-frozen :
    (ss : List Sinal) (c : SseClient) → All IsExternal ss → IsFrozen c → executar ss c ≡ c
unfolding executar
executar-frozen [] c h f = refl
executar-frozen (s ∷ ss) c (h, hs) f = rw (passo-frozen s c h f) (executar-frozen ss c hs f)

-- Every stream in flight is the one that the controller aborts.
abbrev pub IsCurrent : SseClient → Aberto → Type 0
IsCurrent c a = c.abort_controller ≡ some a.id

sem-current :
    (n : ℕ) (xs : List Aberto)
    → All (λ a. ◌≡◌ {A = Option ℕ} (some n) (some a.id)) xs
    → sem n xs ≡ []
sem-current n [] h = refl
sem-current n (a ∷ xs) (h, hs) = ground (arith, sem-current n xs hs)

no_controller : (xs : List Aberto) → All (λ a. ◌≡◌ {A = Option ℕ} none (some a.id)) xs → xs ≡ []
no_controller [] h = refl
no_controller (a ∷ xs) (h, hs) = cc

abortar-current : (c : SseClient) → All (IsCurrent c) c.abertos → (abortar c).abertos ≡ []
unfolding abortar
abortar-current c h = elim (Option-cases c.abort_controller) [
  | inl e ↦ rw (e, abortar) (no_controller c.abertos (rw e at h))
  | inr (n, e) ↦ rw (e, abortar) (sem-current n c.abertos (rw e at h))
]

-- The client after the watchdog's timer, before the abort.
abbrev fired : SseClient → SseClient
fired c = record c { heartbeat_timer = false }

vigia-fires :
    (c : SseClient)
    → c.connection_state ≡ connected
    → c.heartbeat_timer ≡ true
    → passo vigia c ≡ abortar (fired c)
unfolding passo vigiar
vigia-fires c state armed = rw (armed, state)

-- The watchdog fires over the one stream of a connected client that has no reconnection pending, as
-- it is after the response: the stream is aborted, no reconnection is scheduled, and whatever the
-- server and the timers do then, the client stays as it is and goes on calling itself connected.
pub vigia-stuck :
    (c : SseClient) (ss : List Sinal)
    → c.connection_state ≡ connected
    → c.heartbeat_timer ≡ true
    → c.reconnect_timer ≡ none
    → All (IsCurrent c) c.abertos
    → All IsExternal ss
    → (executar ss (passo vigia c) ≡ passo vigia c)
      × ((passo vigia c).abertos ≡ [])
      × ((passo vigia c).reconnect_timer ≡ none)
      × ((passo vigia c).connection_state ≡ connected)
vigia-stuck c ss state armed idle current external =
    let (reconnect, watchdog, keeps, _) = abortar_keeps (fired c) in
    let still = abortar-current (fired c) current in
    let frozen : IsFrozen (abortar (fired c)) = record {
      no_stream = still;
      no_reconnect = reconnect ∙ idle;
      no_watchdog = watchdog;
    } in
    rw (vigia-fires c state armed) (
      executar-frozen ss (abortar (fired c)) external frozen,
      still,
      reconnect ∙ idle,
      keeps ∙ state,
    )

-- After `disconnect`, if every stream in flight is the one that the controller aborts: the client is
-- disconnected with nothing in flight and no timer pending, and nothing that the server or a timer
-- does moves it.
pub disconnect-IsFrozen :
    (c : SseClient) (ss : List Sinal)
    → All (IsCurrent c) c.abertos
    → All IsExternal ss
    → IsFrozen (disconnect c)
      × ((disconnect c).connection_state ≡ disconnected)
      × (executar ss (disconnect c) ≡ disconnect c)
unfolding disconnect clear_timers
disconnect-IsFrozen c ss current external = (frozen, state, executar-frozen ss _ external frozen)
  where
    manual : SseClient
    manual = clear_timers (record c { is_manual_disconnect = true })

    stopped : SseClient
    stopped = record (abortar manual) { abort_controller = none }

    state : (set_status disconnected stopped).connection_state ≡ disconnected
    state = (set_status_keeps disconnected stopped).4

    frozen : IsFrozen (set_status disconnected stopped)
    frozen = record {
      no_stream = (set_status_keeps disconnected stopped).2 ∙ abortar-current manual current;
      no_reconnect = (set_status_keeps disconnected stopped).0 ∙ (abortar_keeps manual).0;
      no_watchdog = (set_status_keeps disconnected stopped).1 ∙ (abortar_keeps manual).1;
    }

pub desconectar-IsFrozen :
    (c : SseClient) → All (IsCurrent c) c.abertos → IsFrozen (passo desconectar c)
unfolding passo
desconectar-IsFrozen c current = (disconnect-IsFrozen c [] current tt).0
