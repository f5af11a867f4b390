-- ===== src/Shared/Sse/Status.antt =====
-- What the status listeners hear.
use gestao_restaurante.Shared.Sse.Stable.{passo-stable, HasJitter, IsStable, executar-stable}
use gestao_restaurante.Base.{◌≡◌, ◌≢◌, refl, inl, inr, false, List, [], ◌∷◌, Bool-cases, All, arith}
use gestao_restaurante.Shared.Sse.{
  passo, SseConnectionState, disconnected, SseClient, inicial, same_state, set_status, clear_timers,
  abrir, Sinal, conectar, executar,
}

-- The state last announced; before the first announcement the client is disconnected.
abbrev pub ultimo : List SseConnectionState → SseConnectionState
ultimo [] = disconnected
ultimo (s ∷ ss) = s

-- No announcement repeats the state before it.
abbrev pub Alternates : List SseConnectionState → Type 0
Alternates [] = Unit {0}
Alternates (s ∷ ss) = (s ≢ ultimo ss) × Alternates ss

-- The announcements tell the state, and tell each change once.
abbrev pub IsAnnounced : SseClient → Type 0
IsAnnounced c = (ultimo c.avisos ≡ c.connection_state) × Alternates c.avisos

same_state-false : (s t : SseConnectionState) → same_state s t ≡ false → t ≢ s
same_state-false s t h = ground arith

set_status-IsAnnounced :
    (s : SseConnectionState) (c : SseClient) → IsAnnounced c → IsAnnounced (set_status s c)
unfolding set_status
set_status-IsAnnounced s c (told, once) = elim (Bool-cases (same_state c.connection_state s)) [
  | inl e ↦ rw e (told, once)
  | inr e ↦ rw e (refl, ((rw told (same_state-false c.connection_state s e)), once))
]

IsAnnounced-stable : IsStable (λ j. Unit) IsAnnounced
unfolding clear_timers abrir
IsAnnounced-stable = record {
  status = set_status-IsAnnounced;
  timers = λ c h. h;
  beat = λ b c h. h;
  opened = λ c h. h;
  streams = λ xs c h. h;
  events = λ es c h. h;
  attempt = λ n c h. h;
  idle = λ c h. h;
  waits = λ n j c small h. h;
  renewed = λ o c h. h;
  manual = λ c h. h;
  uncontrolled = λ c h. h;
  refused = λ n c h. h;
}

no_bound : (ss : List Sinal) → All (HasJitter (λ j. Unit)) ss
no_bound [] = tt
no_bound (conectar o ∷ ss) = (tt, no_bound ss)
no_bound (_ ∷ ss) = (tt, no_bound ss)

-- Whatever happens to a new client, the status listeners have heard its present state last, and
-- have heard every state exactly when it differed from the one before.
pub executar-inicial-IsAnnounced : (ss : List Sinal) → IsAnnounced (executar ss inicial)
executar-inicial-IsAnnounced ss =
    executar-stable (λ j. Unit) IsAnnounced IsAnnounced-stable ss inicial (no_bound ss) (refl, tt)

-- One signal more.
pub passo-IsAnnounced : (s : Sinal) (c : SseClient) → IsAnnounced c → IsAnnounced (passo s c)
passo-IsAnnounced s c h =
    passo-stable (λ j. Unit) IsAnnounced IsAnnounced-stable s c (no_bound (s ∷ [])).0 h

-- Something has been announced.
abbrev Spoken : SseClient → Type 0
Spoken c = c.avisos ≢ []

set_status-Spoken : (s : SseConnectionState) (c : SseClient) → Spoken c → Spoken (set_status s c)
unfolding set_status
set_status-Spoken s c h = elim (Bool-cases (same_state c.connection_state s)) [
  | inl e ↦ rw e h
  | inr e ↦ rw e (λ k. cc)
]

Spoken-stable : IsStable (λ j. Unit) Spoken
unfolding clear_timers abrir
Spoken-stable = record {
  status = set_status-Spoken;
  timers = λ c h. h;
  beat = λ b c h. h;
  opened = λ c h. h;
  streams = λ xs c h. h;
  events = λ es c h. h;
  attempt = λ n c h. h;
  idle = λ c h. h;
  waits = λ n j c b h. h;
  renewed = λ o c h. h;
  manual = λ c h. h;
  uncontrolled = λ c h. h;
  refused = λ n c h. h;
}

pub passo-spoken : (s : Sinal) (c : SseClient) → c.avisos ≢ [] → (passo s c).avisos ≢ []
passo-spoken s c h = passo-stable (λ j. Unit) Spoken Spoken-stable s c (no_bound (s ∷ [])).0 h
