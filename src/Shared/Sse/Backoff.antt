-- ===== src/Shared/Sse/Backoff.antt =====
-- The delay before a reconnection.
use Prim.Native.Nat.{min}
use native.Mathlib.Nat.{one-le-pow, pow-suc}
use gestao_restaurante.Base.{
  ℕ, suc, ◌+◌, ◌-◌, ◌*◌, ◌≤◌, ◌≡◌, refl, false, Option, none, some, List, All, Bool-cases, inl, inr,
  arith,
}
use gestao_restaurante.Shared.Sse.{
  SseConnectionState, SseClient, inicial, same_state, set_status, clear_timers, abrir, final_delay,
  encerrar, Sinal, falha, passo, executar, sem, aberto?, Aberto, reconnecting,
}
use gestao_restaurante.Shared.Sse.Keeps.{encerrar-auto}
use gestao_restaurante.Shared.Sse.Stable.{HasJitter, IsStable, executar-stable}

-- `Math.random() * 1000`, rounded with the delay.
abbrev pub IsJitter : ℕ → Type 0
IsJitter j = j ≤ 1000

-- A pending reconnection waits one second at least and 31 at most.
abbrev pub IsPrompt : Option ℕ → Type 0
IsPrompt none = Unit {0}
IsPrompt (some d) = (1000 ≤ d) × (d ≤ 31000)

abbrev pub WaitsPromptly : SseClient → Type 0
WaitsPromptly c = IsPrompt c.reconnect_timer

final_delay_bounds :
    (n j : ℕ) → j ≤ 1000 → (1000 ≤ final_delay (n + 1) j) × (final_delay (n + 1) j ≤ 31000)
unfolding final_delay
final_delay_bounds n j h =
    let power = one-le-pow (n + 1 - 1) 2 (omega arith) in
    (omega (arith, power), omega (arith, power))

set_status-WaitsPromptly :
    (s : SseConnectionState) (c : SseClient) → WaitsPromptly c → WaitsPromptly (set_status s c)
unfolding set_status
set_status-WaitsPromptly s c h = elim (Bool-cases (same_state c.connection_state s)) [
  | inl e ↦ rw e h
  | inr e ↦ rw e h
]

WaitsPromptly-stable : IsStable IsJitter WaitsPromptly
unfolding clear_timers abrir
WaitsPromptly-stable = record {
  status = set_status-WaitsPromptly;
  timers = λ c h. tt;
  beat = λ b c h. h;
  opened = λ c h. h;
  streams = λ xs c h. h;
  events = λ es c h. h;
  attempt = λ n c h. h;
  idle = λ c h. tt;
  waits = λ n j c small h. final_delay_bounds n j small;
  renewed = λ o c h. h;
  manual = λ c h. h;
  uncontrolled = λ c h. h;
  refused = λ n c h. h;
}

-- Whatever happens to a new client, with a jitter of one second at most: a reconnection that is
-- pending waits between one and 31 seconds.
pub executar-inicial-WaitsPromptly :
    (ss : List Sinal) → All (HasJitter IsJitter) ss → WaitsPromptly (executar ss inicial)
executar-inicial-WaitsPromptly ss small =
    executar-stable IsJitter WaitsPromptly WaitsPromptly-stable ss inicial small tt

-- The delay without jitter doubles from attempt to attempt up to its ceiling, and stays there.
pub final_delay_doubles :
    (n j : ℕ) → final_delay (n + 2) j ≡ min (2 * final_delay (n + 1) 0) 30000 + j
unfolding final_delay
final_delay_doubles n j =
    let up : n + 2 - 1 ≡ suc n = omega arith in
    let same : n + 1 - 1 ≡ n = omega arith in rw (up, same) (omega (arith, pow-suc 2 n))

falha-passo :
    (n j : ℕ) (a : Aberto) (c : SseClient)
    → aberto? n c ≡ some a
    → passo (falha n j) c ≡ encerrar n j c
unfolding passo
falha-passo n j a c found = rw (passo, found) refl

-- A stream that fails while the client has not been disconnected by hand: it is gone, the client is
-- reconnecting, the attempt is counted, and the reconnection is due after the delay of that attempt.
pub falha-reconnects :
    (n j : ℕ) (c : SseClient) (a : Aberto)
    → aberto? n c ≡ some a
    → c.is_manual_disconnect ≡ false
    → ((passo (falha n j) c).abertos ≡ sem n c.abertos)
      × ((passo (falha n j) c).connection_state ≡ reconnecting)
      × ((passo (falha n j) c).reconnect_attempt ≡ c.reconnect_attempt + 1)
      × ((passo (falha n j) c).reconnect_timer ≡ some (final_delay (c.reconnect_attempt + 1) j))
falha-reconnects n j c a found auto = rw (falha-passo n j a c found) (encerrar-auto n j c auto)
