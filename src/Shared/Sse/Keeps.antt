-- ===== src/Shared/Sse/Keeps.antt =====
-- What the elementary steps of the client leave alone.
use gestao_restaurante.Base.{
  ℕ, ◌+◌, ◌≡◌, refl, ap, ◌∙◌, Bool, true, false, none, some, [], if◌then◌else◌, arith,
}
use gestao_restaurante.Shared.Sse.{
  SseConnectionState, connecting, connected, disconnected, reconnecting, SseConnectOptions,
  aguardando, lendo, Aberto, SseClient, set_status, clear_timers, reset_heartbeat_watchdog, sem,
  com_fase, abortar, abrir, is_mock, start_streaming, connect, disconnect, final_delay,
  schedule_reconnect, encerrar, responder, desconectar, resposta, aberto?, passo,
}

-- Announcing a state changes nothing but the state and the announcements.
pub set_status_keeps :
    (s : SseConnectionState) (c : SseClient)
    → ((set_status s c).reconnect_timer ≡ c.reconnect_timer)
      × ((set_status s c).heartbeat_timer ≡ c.heartbeat_timer)
      × ((set_status s c).abertos ≡ c.abertos)
      × ((set_status s c).is_manual_disconnect ≡ c.is_manual_disconnect)
      × ((set_status s c).connection_state ≡ s)
unfolding set_status
set_status_keeps s c = (ground arith, ground arith, ground arith, ground arith, ground arith)

-- An abort keeps the timers, the state and the flag of `disconnect`.
pub abortar_keeps :
    (c : SseClient)
    → ((abortar c).reconnect_timer ≡ c.reconnect_timer)
      × ((abortar c).heartbeat_timer ≡ c.heartbeat_timer)
      × ((abortar c).connection_state ≡ c.connection_state)
      × ((abortar c).is_manual_disconnect ≡ c.is_manual_disconnect)
unfolding abortar
abortar_keeps c = (ground arith, ground arith, ground arith, ground arith)

-- `disconnect` leaves the streams that the controller's abort leaves, and sets the flag.
pub disconnect_lem :
    (c : SseClient)
    → ((disconnect c).abertos ≡ (abortar c).abertos) × ((disconnect c).is_manual_disconnect ≡ true)
unfolding disconnect clear_timers
disconnect_lem c = (
  (set_status_keeps disconnected stopped).2 ∙ same,
  (set_status_keeps disconnected stopped).3 ∙ (abortar_keeps manual).3,
)
  where
    manual : SseClient
    manual = clear_timers (record c { is_manual_disconnect = true })

    stopped : SseClient
    stopped = record (abortar manual) { abort_controller = none }

    same : (abortar manual).abertos ≡ (abortar c).abertos
    same = unfold abortar in ground arith

abbrev pub novas_opcoes : SseConnectOptions → SseClient → SseClient
novas_opcoes o c = record c {
  is_manual_disconnect = false;
  current_options = some o;
  reconnect_attempt = 0;
}

pub connect-real :
    (o : SseConnectOptions) (c : SseClient)
    → is_mock o ≡ false
    → connect o c ≡ abrir (set_status connecting (clear_timers (novas_opcoes o c)))
unfolding connect start_streaming
connect-real o c real = rw real

set_status-proximo : (s : SseConnectionState) (c : SseClient) → (set_status s c).proximo ≡ c.proximo
unfolding set_status
set_status-proximo s c = ground arith

-- After a real `connect` the next abort leaves the streams that were in flight before, less any of
-- the new one's number.
pub abortar-connect :
    (o : SseConnectOptions) (c : SseClient)
    → is_mock o ≡ false
    → (abortar (connect o c)).abertos ≡ sem c.proximo c.abertos
unfolding abortar abrir clear_timers
abortar-connect o c real = rw (connect-real o c real) (
    ground (
      arith,
      set_status-proximo connecting (clear_timers (novas_opcoes o c)),
      (set_status_keeps connecting (clear_timers (novas_opcoes o c))).2,
    ))

if-false : {b : Bool} (x y : SseClient) → b ≡ false → (if b then x else y) ≡ y
if-false x y e = rw e refl

-- A stream that ends while the client has not been disconnected by hand.
pub encerrar-auto :
    (n j : ℕ) (c : SseClient)
    → c.is_manual_disconnect ≡ false
    → ((encerrar n j c).abertos ≡ sem n c.abertos)
      × ((encerrar n j c).connection_state ≡ reconnecting)
      × ((encerrar n j c).reconnect_attempt ≡ c.reconnect_attempt + 1)
      × ((encerrar n j c).reconnect_timer ≡ some (final_delay (c.reconnect_attempt + 1) j))
unfolding encerrar schedule_reconnect clear_timers
encerrar-auto n j c auto =
    let kept = set_status_keeps reconnecting (record c { abertos = sem n c.abertos }) in
    let same = if-false (record c { abertos = sem n c.abertos }) _ auto in
    (
      ap (λ d. d.abertos) same ∙ kept.2,
      ap (λ d. d.connection_state) same ∙ kept.4,
      ap (λ d. d.reconnect_attempt) same,
      ap (λ d. d.reconnect_timer) same,
    )

-- A response to a stream that awaits it.
pub resposta-passo :
    (n s j : ℕ) (a : Aberto) (c : SseClient)
    → aberto? n c ≡ some a
    → a.fase ≡ aguardando
    → passo (resposta n s j) c ≡ responder n s j c
unfolding passo
resposta-passo n s j a c found phase = rw (passo, found) (rw phase refl)

-- The response 200.
pub responder-200 :
    (n j : ℕ) (c : SseClient)
    → ((responder n 200 j c).connection_state ≡ connected)
      × ((responder n 200 j c).is_manual_disconnect ≡ c.is_manual_disconnect)
unfolding responder reset_heartbeat_watchdog
responder-200 n j c =
    let kept =
      set_status_keeps connected
        (record c { reconnect_attempt = 0; abertos = com_fase n (lendo []) c.abertos }) in
    (kept.4, kept.3)

pub desconectar-passo : (c : SseClient) → (passo desconectar c).connection_state ≡ disconnected
unfolding passo disconnect
desconectar-passo c = (set_status_keeps disconnected _).4

-- The response 401 to a stream that awaits it.
pub resposta-401 :
    (n j : ℕ) (a : Aberto) (c : SseClient)
    → aberto? n c ≡ some a
    → a.fase ≡ aguardando
    → ((passo (resposta n 401 j) c).connection_state ≡ disconnected)
      × ((passo (resposta n 401 j) c).nao_autorizados ≡ c.nao_autorizados + 1)
      × ((passo (resposta n 401 j) c).eventos ≡ c.eventos)
unfolding responder set_status
resposta-401 n j a c found phase =
    rw (resposta-passo n 401 j a c found phase) (ground arith, ground arith, ground arith)
