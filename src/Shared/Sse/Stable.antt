-- ===== src/Shared/Sse/Stable.antt =====
-- What holds under each elementary change of the client holds under every signal.
use gestao_restaurante.Base.{
  ℕ, ◌+◌, Bool, true, false, ◌&&◌, ◌||◌, Option, none, some, List, [], ◌∷◌, leb, ◌==◌,
  if◌then◌else◌, All,
}
use gestao_restaurante.Base.Text.{Texto}
use gestao_restaurante.Shared.Bloco.{TenantStreamEvent}
use gestao_restaurante.Shared.Fluxo.{receber}
use gestao_restaurante.Shared.Sse.{
  SseConnectionState, connected, disconnected, reconnecting, SseConnectOptions, Fase, aguardando,
  lendo, Aberto, SseClient, same_state, set_status, clear_timers, reset_heartbeat_watchdog, sem,
  abortar, abrir, is_mock, estado_de_abertura, start_streaming, connect, disconnect, final_delay,
  schedule_reconnect, encerrar, com_fase, responder, ler_chunk, ler_texto, Sinal, conectar,
  desconectar, resposta, chunk, texto, fim, falha, hora_de_reconectar, vigia, aberto?, vigiar,
  reconectar, passo, executar,
}

-- Every jitter of a signal satisfies `J`.
abbrev pub HasJitter : (ℕ → Type 0) → Sinal → Type 0
HasJitter J (resposta n status j) = J j
HasJitter J (texto n t agora padrao j) = J j
HasJitter J (fim n j) = J j
HasJitter J (falha n j) = J j
HasJitter J _ = Unit {0}

pub record IsStable (J : ℕ → Type 0) (P : SseClient → Type 0) : Type 0 where
  pub status : (s : SseConnectionState) (c : SseClient) → P c → P (set_status s c)
  pub timers : (c : SseClient) → P c → P (clear_timers c)
  pub beat : (b : Bool) (c : SseClient) → P c → P (record c { heartbeat_timer = b })
  pub opened : (c : SseClient) → P c → P (abrir c)
  pub streams : (xs : List Aberto) (c : SseClient) → P c → P (record c { abertos = xs })
  pub events : (es : List TenantStreamEvent) (c : SseClient) → P c → P (record c { eventos = es })
  pub attempt : (n : ℕ) (c : SseClient) → P c → P (record c { reconnect_attempt = n })
  pub idle : (c : SseClient) → P c → P (record c { reconnect_timer = none })
  pub waits :
      (n j : ℕ) (c : SseClient)
      → J j
      → P c
      → P (record c { reconnect_timer = some (final_delay (n + 1) j) })
  pub renewed :
      (o : SseConnectOptions) (c : SseClient)
      → P c
      → P (record c {
        is_manual_disconnect = false;
        current_options = some o;
        reconnect_attempt = 0;
      })
  pub manual : (c : SseClient) → P c → P (record c { is_manual_disconnect = true })
  pub uncontrolled : (c : SseClient) → P c → P (record c { abort_controller = none })
  pub refused : (n : ℕ) (c : SseClient) → P c → P (record c { nao_autorizados = n })

module _ (J : ℕ → Type 0) (P : SseClient → Type 0) (k : IsStable J P) where
  either : (b : Bool) (x y : SseClient) → P x → P y → P (if b then x else y)
  either true x y h g = h
  either false x y h g = g

  optional :
      {A : Type 0} (o : Option A) (x : SseClient) (f : A → SseClient)
      → P x
      → ((a : A) → P (f a))
      → P (elim o [ none ↦ x | some a ↦ f a ])
  optional none x f h g = h
  optional (some a) x f h g = g a

  -- A signal to a stream: in its two phases.
  phased :
      (o : Option Aberto) (x y : SseClient) (f : Texto → SseClient)
      → P x
      → P y
      → ((b : Texto) → P (f b))
      → P (elim o [ none ↦ x | some a ↦ elim a.fase [ aguardando ↦ y | lendo b ↦ f b ] ])
  phased none x y f h g r = h
  phased (some a) x y f h g r = in_phase a.fase
    where
      in_phase : (p : Fase) → P (elim p [ aguardando ↦ y | lendo b ↦ f b ])
      in_phase aguardando = g
      in_phase (lendo b) = r b

  abortar-stable : (c : SseClient) → P c → P (abortar c)
  unfolding abortar
  abortar-stable c h =
      optional c.abort_controller c (λ n. record c { abertos = sem n c.abertos }) h
        (λ n. k.streams (sem n c.abertos) c h)

  start_streaming-stable : (c : SseClient) → P c → P (start_streaming c)
  unfolding start_streaming
  start_streaming-stable c h = optional c.current_options c _ h (λ o.
      either c.is_manual_disconnect c _ h (
        either (is_mock o) (set_status disconnected c) _ (k.status disconnected c h)
          (k.opened _ (k.status (estado_de_abertura c) (clear_timers c) (k.timers c h)))))

  schedule_reconnect-stable : (j : ℕ) (c : SseClient) → J j → P c → P (schedule_reconnect j c)
  unfolding schedule_reconnect
  schedule_reconnect-stable j c small h = either c.is_manual_disconnect c _ h (
      k.waits c.reconnect_attempt j _ small (
        k.attempt (c.reconnect_attempt + 1) _
          (k.timers (set_status reconnecting c) (k.status reconnecting c h))))

  encerrar-stable : (n j : ℕ) (c : SseClient) → J j → P c → P (encerrar n j c)
  unfolding encerrar
  encerrar-stable n j c small h =
      schedule_reconnect-stable j _ small (k.streams (sem n c.abertos) c h)

  responder-stable : (n status j : ℕ) (c : SseClient) → J j → P c → P (responder n status j c)
  unfolding responder reset_heartbeat_watchdog
  responder-stable n status j c small h =
      either (status == 401 || status == 403) _ _
        (k.refused _ _ (k.status disconnected _ (k.streams (sem n c.abertos) c h)))
        (either (leb 200 status && leb status 299) _ _
          (k.beat true _ (
            k.status connected _ (k.streams (com_fase n (lendo []) c.abertos) _ (k.attempt 0 c h))))
          (encerrar-stable n j c small h))

  ler_chunk-stable :
      (n : ℕ) (b t agora padrao : Texto) (c : SseClient) → P c → P (ler_chunk n b t agora padrao c)
  unfolding ler_chunk reset_heartbeat_watchdog
  ler_chunk-stable n b t agora padrao c h =
      k.events _ _ (k.beat true _ (k.streams (com_fase n (lendo (receber b t).1) c.abertos) c h))

  ler_texto-stable :
      (n : ℕ) (t agora padrao : Texto) (j : ℕ) (c : SseClient)
      → J j
      → P c
      → P (ler_texto n t agora padrao j c)
  unfolding ler_texto reset_heartbeat_watchdog
  ler_texto-stable n t agora padrao j c small h =
      encerrar-stable n j _ small (k.events _ _ (k.beat true c h))

  disconnect-stable : (c : SseClient) → P c → P (disconnect c)
  unfolding disconnect
  disconnect-stable c h =
      k.status disconnected _ (k.uncontrolled _ (abortar-stable _ (k.timers _ (k.manual c h))))

  vigiar-stable : (c : SseClient) → P c → P (vigiar c)
  unfolding vigiar
  vigiar-stable c h =
      let fired = k.beat false c h in
      either c.heartbeat_timer _ c
        (either (same_state c.connection_state connected) _ _ (abortar-stable _ fired) fired) h

  reconectar-stable : (c : SseClient) → P c → P (reconectar c)
  unfolding reconectar
  reconectar-stable c h =
      optional c.reconnect_timer c _ h (λ d. start_streaming-stable _ (k.idle c h))

  pub passo-stable : (s : Sinal) (c : SseClient) → HasJitter J s → P c → P (passo s c)
  unfolding passo connect
  passo-stable (conectar o) c small h = start_streaming-stable _ (k.renewed o c h)
  passo-stable desconectar c small h = disconnect-stable c h
  passo-stable (resposta n status j) c small h =
      phased (aberto? n c) c (responder n status j c) (λ b. c) h
        (responder-stable n status j c small h) (λ b. h)
  passo-stable (chunk n t agora padrao) c small h =
      phased (aberto? n c) c c _ h h (λ b. ler_chunk-stable n b t agora padrao c h)
  passo-stable (texto n t agora padrao j) c small h =
      phased (aberto? n c) c c _ h h (λ b. ler_texto-stable n t agora padrao j c small h)
  passo-stable (fim n j) c small h =
      phased (aberto? n c) c c _ h h (λ b. encerrar-stable n j c small h)
  passo-stable (falha n j) c small h =
      optional (aberto? n c) c _ h (λ a. encerrar-stable n j c small h)
  passo-stable hora_de_reconectar c small h = reconectar-stable c h
  passo-stable vigia c small h = vigiar-stable c h

  pub executar-stable :
      (ss : List Sinal) (c : SseClient) → All (HasJitter J) ss → P c → P (executar ss c)
  unfolding executar
  executar-stable [] c small h = h
  executar-stable (s ∷ ss) c (small, rest) h =
      executar-stable ss (passo s c) rest (passo-stable s c small h)
