-- ===== src/TempoReal/Aviso.antt =====
-- frontend/shared/components/RealtimeEventToast.tsx: the notice on the screen, its timer and its
-- closing animation, over the store of hooks/useSseStatus.ts; and the label of
-- components/RealtimeStatusBar.tsx. An animation is in flight until its end is reported: the
-- animation library calls the callback of `start` at the end or when the animation is interrupted.
pub mod Fecho
mod Tests
use gestao_restaurante.Base.{
  ℕ, zero, suc, ◌+◌, Bool, true, false, String, Option, none, some, List, [], ◌∷◌, ltb,
  if◌then◌else◌,
}
use gestao_restaurante.Shared.Sse.{
  SseConnectionState, connected, reconnecting, connecting, disconnected,
}
use gestao_restaurante.TempoReal.{
  Plataforma, RealtimeToastNotice, SseStatusState, status_inicial, Toast, show_toast, clear_toast,
}

-- The component: the store, `timerRef` as the time at which it fires, the closing animations in
-- flight, and whether the notice has been brought in.
pub record Aviso : Type 0 where
  pub status : SseStatusState
  pub timer : Option ℕ
  pub fechando : ℕ
  pub a_mostra : Bool

abbrev pub inicial : Aviso
inicial = record { status = status_inicial; timer = none; fechando = 0; a_mostra = false }

abbrev pub presente : Option RealtimeToastNotice → Bool
presente none = false
presente (some t) = true

-- The effect, after a change of the store's notice: the timer is dropped, and a notice is brought in
-- and given six seconds.
unfoldable pub efeito : ℕ → Aviso → Aviso
efeito agora a =
    if presente a.status.active_toast
    then record a { timer = some (agora + 6000); a_mostra = true }
    else record a { timer = none; a_mostra = false }

-- `dismissToast`: the closing animation is started.
unfoldable pub dismiss_toast : Aviso → Aviso
dismiss_toast a = record a { fechando = suc a.fechando; a_mostra = false }

-- What happens to it: a notice is shown, the timer fires, the close button is pressed, and a closing
-- animation ends, which clears the store's notice.
pub data Evento : Type 0 where
  mostrar : Toast → Evento
  disparar : Evento
  fechar : Evento
  terminar : Evento

abbrev pub clear_e_efeito : ℕ → Aviso → Aviso
clear_e_efeito agora a =
    if presente a.status.active_toast
    then efeito agora (record a { status = clear_toast a.status })
    else a

unfoldable pub passo : Plataforma → ℕ → Evento → Aviso → Aviso
unfolding efeito dismiss_toast
passo p agora (mostrar t) a = efeito agora (record a { status = show_toast p agora t a.status })
passo p agora disparar a = elim a.timer [
  | none ↦ a
  | some n ↦ if ltb agora n then a else dismiss_toast (record a { timer = none })
]
passo p agora fechar a = if presente a.status.active_toast then dismiss_toast a else a
passo p agora terminar a = elim a.fechando [
  | zero ↦ a
  | suc n ↦ clear_e_efeito agora (record a { fechando = n })
]

unfoldable pub executar : Plataforma → List (ℕ × Evento) → Aviso → Aviso
unfolding passo
executar p [] a = a
executar p ((agora, e) ∷ es) a = executar p es (passo p agora e a)

-- `statusLabel` of the bar, which is only shown to a user who is logged in.
unfoldable pub status_label : Bool → SseConnectionState → Option String
status_label false s = none
status_label true connected = some "Tempo Real Ativo"
status_label true reconnecting = some "Reconectando..."
status_label true connecting = some "Conectando..."
status_label true disconnected = some "Stream Offline"
