-- ===== src/Shared/Sse.antt =====
-- frontend/shared/services/sseClient.ts: the client of the event stream, as a state machine. Each
-- call of `startStreaming` that has opened a request is a stream in flight, `abertos`; what happens
-- to it, to the timers and to the two methods is a signal. An abort takes the stream out at once,
-- since the code answers an `AbortError` by returning.
pub mod Stable
pub mod Keeps
pub mod Frozen
pub mod Status
pub mod Backoff
pub mod Despacho
pub mod Leak
mod Tests
use Prim.Native.Nat.{min}
use mathlib.Core.List.{filter_map}
use gestao_restaurante.Base.{
  ℕ, zero, suc, ◌+◌, ◌-◌, ◌*◌, ◌^◌, Bool, true, false, not, ◌&&◌, ◌||◌, String, Option, none, some,
  List, [], ◌∷◌, ◌++◌, map, filter, find, ltb, leb, ◌==◌, if◌then◌else◌,
}
use gestao_restaurante.Base.Text.{Texto, codes, starts_with}
use gestao_restaurante.Shared.Bloco.{TenantStreamEvent, process_sse_block}
use gestao_restaurante.Shared.Fluxo.{split_blocos, receber}

pub data SseConnectionState : Type 0 where
  connecting connected disconnected reconnecting : SseConnectionState

pub record SseConnectOptions : Type 0 where
  pub url : Option String
  pub token : Texto
  pub tenant_id : Texto

-- A stream awaits its response, or reads with a buffer.
pub data Fase : Type 0 where
  aguardando : Fase
  lendo : Texto → Fase

pub record Aberto : Type 0 where
  pub id : ℕ
  pub fase : Fase

-- The private fields of the class, then what it has done: the streams in flight and the number of
-- the next, the states announced to the status listeners (newest first), the events dispatched (in
-- order), and how often the unauthorized listeners were called.
pub record SseClient : Type 0 where
  pub connection_state : SseConnectionState
  pub reconnect_attempt : ℕ
  pub reconnect_timer : Option ℕ
  pub heartbeat_timer : Bool
  pub current_options : Option SseConnectOptions
  pub is_manual_disconnect : Bool
  pub abort_controller : Option ℕ
  pub abertos : List Aberto
  pub proximo : ℕ
  pub avisos : List SseConnectionState
  pub eventos : List TenantStreamEvent
  pub nao_autorizados : ℕ

abbrev pub inicial : SseClient
inicial = record {
  connection_state = disconnected;
  reconnect_attempt = 0;
  reconnect_timer = none;
  heartbeat_timer = false;
  current_options = none;
  is_manual_disconnect = false;
  abort_controller = none;
  abertos = [];
  proximo = 0;
  avisos = [];
  eventos = [];
  nao_autorizados = 0;
}

-- `a === b` on states.
abbrev pub same_state : SseConnectionState → SseConnectionState → Bool
same_state connecting connecting = true
same_state connected connected = true
same_state disconnected disconnected = true
same_state reconnecting reconnecting = true
same_state _ _ = false

unfoldable pub set_status : SseConnectionState → SseClient → SseClient
set_status novo c =
    if same_state c.connection_state novo
    then c
    else record c { connection_state = novo; avisos = novo ∷ c.avisos }

unfoldable pub clear_timers : SseClient → SseClient
clear_timers c = record c { reconnect_timer = none; heartbeat_timer = false }

pub reset_heartbeat_watchdog : SseClient → SseClient
reset_heartbeat_watchdog c = record c { heartbeat_timer = true }

-- The streams that are left when one ends.
abbrev pub sem : ℕ → List Aberto → List Aberto
sem n = filter (λ a. not (a.id == n))

-- `this.abortController.abort()`
pub abortar : SseClient → SseClient
abortar c = elim c.abort_controller [ none ↦ c | some n ↦ record c { abertos = sem n c.abertos } ]

-- `new AbortController()` and the request.
unfoldable pub abrir : SseClient → SseClient
abrir c = record c {
  abort_controller = some c.proximo;
  abertos = record { id = c.proximo; fase = aguardando } ∷ c.abertos;
  proximo = c.proximo + 1;
}

abbrev pub is_mock : SseConnectOptions → Bool
is_mock o = starts_with o.token (codes "mock-jwt-token")

abbrev pub estado_de_abertura : SseClient → SseConnectionState
estado_de_abertura c = if c.reconnect_attempt == 0 then connecting else reconnecting

unfoldable pub start_streaming : SseClient → SseClient
start_streaming c = elim c.current_options [
  | none ↦ c
  | some o ↦
      if c.is_manual_disconnect
      then c
      else if is_mock o
      then set_status disconnected c
      else abrir (set_status (estado_de_abertura c) (clear_timers c))
]

unfoldable pub connect : SseConnectOptions → SseClient → SseClient
connect o c =
    start_streaming
      (record c { is_manual_disconnect = false; current_options = some o; reconnect_attempt = 0 })

pub disconnect : SseClient → SseClient
disconnect c =
    let stopped = abortar (clear_timers (record c { is_manual_disconnect = true })) in
    set_status disconnected (record stopped { abort_controller = none })

-- The delay before attempt number `n`, with the jitter, both in milliseconds.
pub final_delay : ℕ → ℕ → ℕ
final_delay n jitter = min (1000 * 2 ^ (n - 1)) 30000 + jitter

pub schedule_reconnect : ℕ → SseClient → SseClient
schedule_reconnect jitter c =
    if c.is_manual_disconnect
    then c
    else (let waiting = set_status reconnecting c in
        record (clear_timers waiting) {
          reconnect_attempt = c.reconnect_attempt + 1;
          reconnect_timer = some (final_delay (c.reconnect_attempt + 1) jitter);
        })

-- A stream ends, by itself or by an error that is no abort.
pub encerrar : ℕ → ℕ → SseClient → SseClient
encerrar n jitter c = schedule_reconnect jitter (record c { abertos = sem n c.abertos })

abbrev pub com_fase : ℕ → Fase → List Aberto → List Aberto
com_fase n f = map (λ a. if a.id == n then record a { fase = f } else a)

pub responder : ℕ → ℕ → ℕ → SseClient → SseClient
responder n status jitter c =
    if status == 401 || status == 403
    then (let out = set_status disconnected (record c { abertos = sem n c.abertos }) in
        record out { nao_autorizados = out.nao_autorizados + 1 })
    else if leb 200 status && leb status 299
    then reset_heartbeat_watchdog (
        set_status connected
          (record c { reconnect_attempt = 0; abertos = com_fase n (lendo []) c.abertos }))
    else encerrar n jitter c

-- The events of some blocks, read at one time.
abbrev pub eventos_de : Texto → Texto → List Texto → List TenantStreamEvent
eventos_de agora padrao [] = []
eventos_de agora padrao (b ∷ bs) = elim (process_sse_block agora padrao b).0 [
  | none ↦ eventos_de agora padrao bs
  | some e ↦ e ∷ eventos_de agora padrao bs
]

abbrev pub despachar : Texto → Texto → List Texto → SseClient → SseClient
despachar agora padrao blocos c = record c { eventos = c.eventos ++ eventos_de agora padrao blocos }

-- One `read()` of a stream whose buffer is known.
pub ler_chunk : ℕ → Texto → Texto → Texto → Texto → SseClient → SseClient
ler_chunk n buffer chunk agora padrao c =
    let partes = receber buffer chunk in
    despachar agora padrao partes.0
      (reset_heartbeat_watchdog (record c { abertos = com_fase n (lendo partes.1) c.abertos }))

-- The whole body at once, where the response has no reader.
pub ler_texto : ℕ → Texto → Texto → Texto → ℕ → SseClient → SseClient
ler_texto n texto agora padrao jitter c =
    encerrar n jitter (despachar agora padrao (split_blocos texto) (reset_heartbeat_watchdog c))

pub data Sinal : Type 0 where
  conectar : SseConnectOptions → Sinal
  desconectar : Sinal
  resposta : ℕ → ℕ → ℕ → Sinal
  chunk : ℕ → Texto → Texto → Texto → Sinal
  texto : ℕ → Texto → Texto → Texto → ℕ → Sinal
  fim : ℕ → ℕ → Sinal
  falha : ℕ → ℕ → Sinal
  hora_de_reconectar : Sinal
  vigia : Sinal

-- The stream `n`, if it is in flight.
abbrev pub aberto? : ℕ → SseClient → Option Aberto
aberto? n c = find (λ a. a.id == n) c.abertos

-- The watchdog's timer fires.
pub vigiar : SseClient → SseClient
vigiar c =
    if c.heartbeat_timer
    then (let fired = record c { heartbeat_timer = false } in
        if same_state c.connection_state connected then abortar fired else fired)
    else c

-- The reconnection's timer fires.
pub reconectar : SseClient → SseClient
reconectar c = elim c.reconnect_timer [
  | none ↦ c
  | some d ↦ start_streaming (record c { reconnect_timer = none })
]

unfoldable pub passo : Sinal → SseClient → SseClient
passo (conectar o) c = connect o c
passo desconectar c = disconnect c
passo (resposta n status jitter) c = elim (aberto? n c) [
  | none ↦ c
  | some a ↦ elim a.fase [ aguardando ↦ responder n status jitter c | lendo b ↦ c ]
]
passo (chunk n t agora padrao) c = elim (aberto? n c) [
  | none ↦ c
  | some a ↦ elim a.fase [ aguardando ↦ c | lendo b ↦ ler_chunk n b t agora padrao c ]
]
passo (texto n t agora padrao jitter) c = elim (aberto? n c) [
  | none ↦ c
  | some a ↦ elim a.fase [ aguardando ↦ c | lendo b ↦ ler_texto n t agora padrao jitter c ]
]
passo (fim n jitter) c = elim (aberto? n c) [
  | none ↦ c
  | some a ↦ elim a.fase [ aguardando ↦ c | lendo b ↦ encerrar n jitter c ]
]
passo (falha n jitter) c = elim (aberto? n c) [ none ↦ c | some a ↦ encerrar n jitter c ]
passo hora_de_reconectar c = reconectar c
passo vigia c = vigiar c

pub executar : List Sinal → SseClient → SseClient
executar [] c = c
executar (s ∷ ss) c = executar ss (passo s c)
