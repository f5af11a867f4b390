-- ===== src/TempoReal/Aviso/Fecho.antt =====
-- How long a notice stays.
use gestao_restaurante.Base.{
  ℕ, zero, suc, ◌+◌, ◌≤◌, ◌<◌, ◌≡◌, ◌⊎◌, inl, inr, refl, ap, Bool, true, false, Option, none, some,
  List, [], ◌∷◌, All, ltb, lt→ltb, if◌then◌else◌, arith,
}
use gestao_restaurante.TempoReal.{Plataforma, Toast, RealtimeToastNotice, show_toast}
use gestao_restaurante.TempoReal.Aviso.{
  Aviso, inicial, presente, efeito, dismiss_toast, Evento, mostrar, disparar, fechar, terminar,
  clear_e_efeito, passo, executar,
}

abbrev pendente : Option ℕ → Bool
pendente none = false
pendente (some n) = true

-- A pending timer is that of a notice, a notice that was brought in and not closed has one, and a
-- notice without one is being closed.
pub record IsTimed (a : Aviso) : Type 0 where
  pub shown : a.a_mostra ≡ true → pendente a.timer ≡ true
  pub timed : pendente a.timer ≡ true → presente a.status.active_toast ≡ true
  pub ends : presente a.status.active_toast ≡ true → (pendente a.timer ≡ true) ⊎ (0 < a.fechando)

efeito-IsTimed : (agora : ℕ) (a : Aviso) → IsTimed (efeito agora a)
unfolding efeito
efeito-IsTimed agora a = go (presente a.status.active_toast) refl
  where
    go :
        (b : Bool)
        → presente a.status.active_toast ≡ b
        → IsTimed (
            if b
            then record a { timer = some (agora + 6000); a_mostra = true }
            else record a { timer = none; a_mostra = false })
    go true e = record { shown = λ h. refl; timed = λ h. e; ends = λ h. inl refl }
    go false e = record {
      shown = λ h. cc;
      timed = λ h. cc;
      ends = λ h. absurd (ground (arith, e, h));
    }

either :
    (b : Bool) (x y : Aviso)
    → (b ≡ true → IsTimed x)
    → (b ≡ false → IsTimed y)
    → IsTimed (if b then x else y)
either true x y h k = h refl
either false x y h k = k refl

dismiss_toast-IsTimed : (a : Aviso) → IsTimed a → IsTimed (dismiss_toast a)
unfolding dismiss_toast
dismiss_toast-IsTimed a h = record {
  shown = λ e. cc;
  timed = h.timed;
  ends = λ e. inr (omega arith);
}

fired : (a : Aviso) → IsTimed (dismiss_toast (record a { timer = none }))
unfolding dismiss_toast
fired a = record { shown = λ e. cc; timed = λ e. cc; ends = λ e. inr (omega arith) }

clear_e_efeito-IsTimed :
    (agora n : ℕ) (a : Aviso)
    → IsTimed a
    → IsTimed (clear_e_efeito agora (record a { fechando = n }))
clear_e_efeito-IsTimed agora n a h =
    either (presente a.status.active_toast) _ _ (λ e. efeito-IsTimed agora _)
      λ e. record { shown = h.shown; timed = h.timed; ends = λ f. absurd (ground (arith, e, f)) }

passo-IsTimed :
    (p : Plataforma) (agora : ℕ) (e : Evento) (a : Aviso) → IsTimed a → IsTimed (passo p agora e a)
unfolding passo
passo-IsTimed p agora (mostrar t) a h =
    efeito-IsTimed agora (record a { status = show_toast p agora t a.status })
passo-IsTimed p agora disparar a h = go a.timer
  where
    go :
        (o : Option ℕ)
        → IsTimed (elim o [
          | none ↦ a
          | some n ↦ if ltb agora n then a else dismiss_toast (record a { timer = none })
        ])
    go none = h
    go (some n) = either (ltb agora n) _ _ (λ e. h) (λ e. fired a)
passo-IsTimed p agora fechar a h =
    either (presente a.status.active_toast) _ _ (λ e. dismiss_toast-IsTimed a h) (λ e. h)
passo-IsTimed p agora terminar a h = go a.fechando
  where
    go :
        (k : ℕ)
        → IsTimed (elim k [ zero ↦ a | suc n ↦ clear_e_efeito agora (record a { fechando = n }) ])
    go zero = h
    go (suc n) = clear_e_efeito-IsTimed agora n a h

executar-IsTimed :
    (p : Plataforma) (es : List (ℕ × Evento)) (a : Aviso) → IsTimed a → IsTimed (executar p es a)
unfolding executar
executar-IsTimed p [] a h = h
executar-IsTimed p ((agora, e) ∷ es) a h =
    executar-IsTimed p es (passo p agora e a) (passo-IsTimed p agora e a h)

-- Whatever is shown, pressed and timed out, in any order: a pending timer is that of a notice on the
-- screen, a notice that is in place has one, and every notice has a timer or an animation whose end
-- takes it away.
pub executar-inicial-IsTimed :
    (p : Plataforma) (es : List (ℕ × Evento)) → IsTimed (executar p es inicial)
executar-inicial-IsTimed p es =
    executar-IsTimed p es inicial (record { shown = λ h. cc; timed = λ h. cc; ends = λ h. cc })

-- What may happen while a notice stays: anything before six seconds but another notice or a press.
abbrev pub IsQuiet : ℕ → ℕ × Evento → Type 0
IsQuiet ate (agora, mostrar t) = ⊥
IsQuiet ate (agora, disparar) = agora < ate
IsQuiet ate (agora, fechar) = ⊥
IsQuiet ate (agora, terminar) = Unit {0}

-- A notice that is up, with its timer, and nothing being closed.
record IsUp (ate : ℕ) (o : Option RealtimeToastNotice) (a : Aviso) : Type 0 where
  notice : a.status.active_toast ≡ o
  timed : a.timer ≡ some ate
  still : a.fechando ≡ 0

passo-IsUp :
    (p : Plataforma) (ate agora : ℕ) (e : Evento) (o : Option RealtimeToastNotice) (a : Aviso)
    → IsQuiet ate (agora, e)
    → IsUp ate o a
    → IsUp ate o (passo p agora e a)
unfolding passo
passo-IsUp p ate agora (mostrar t) o a q h = absurd q
passo-IsUp p ate agora disparar o a q h =
    rw (h.timed, lt→ltb agora ate q) (record { notice = h.notice; timed = refl; still = h.still })
passo-IsUp p ate agora fechar o a q h = absurd q
passo-IsUp p ate agora terminar o a q h =
    rw h.still (record { notice = h.notice; timed = h.timed; still = refl })

executar-IsUp :
    (p : Plataforma) (ate : ℕ) (es : List (ℕ × Evento)) (o : Option RealtimeToastNotice) (a : Aviso)
    → All (IsQuiet ate) es
    → IsUp ate o a
    → IsUp ate o (executar p es a)
unfolding executar
executar-IsUp p ate [] o a q h = h
executar-IsUp p ate ((agora, e) ∷ es) o a (q, qs) h =
    executar-IsUp p ate es o (passo p agora e a) qs (passo-IsUp p ate agora e o a q h)

-- A notice that is shown while no closing animation is in flight stays for its six seconds, unless
-- another one is shown or its close button is pressed.
pub executar-mostrar :
    (p : Plataforma) (agora : ℕ) (t : Toast) (es : List (ℕ × Evento)) (a : Aviso)
    → a.fechando ≡ 0
    → All (IsQuiet (agora + 6000)) es
    → (executar p es (passo p agora (mostrar t) a)).status.active_toast
      ≡ (show_toast p agora t a.status).active_toast
unfolding passo efeito
executar-mostrar p agora t es a h q =
    (executar-IsUp p (agora + 6000) es _ (passo p agora (mostrar t) a) q
      (record { notice = refl; timed = refl; still = h })).notice

-- A notice that is shown while the one before is being closed: when that animation ends, even at
-- once, the new notice is taken away with it, and its timer is dropped.
pub terminar-mostrar :
    (p : Plataforma) (t0 t1 t2 : ℕ) (t : Toast) (a : Aviso)
    → presente a.status.active_toast ≡ true
    → let b = executar p ((t0, fechar) ∷ (t1, mostrar t) ∷ (t2, terminar) ∷ []) a in
      (b.status.active_toast ≡ none) × (b.timer ≡ none)
unfolding executar passo efeito dismiss_toast
terminar-mostrar p t0 t1 t2 t a h = (rw h refl, rw h refl)

-- The end of a closing animation leaves no notice.
terminar-none :
    (p : Plataforma) (t : ℕ) (a : Aviso)
    → (presente a.status.active_toast ≡ true → 0 < a.fechando)
    → (passo p t terminar a).status.active_toast ≡ none
unfolding passo efeito
terminar-none p t a h = go a.status.active_toast a.fechando refl refl
  where
    go :
        (o : Option RealtimeToastNotice) (k : ℕ)
        → a.status.active_toast ≡ o
        → a.fechando ≡ k
        → (passo p t terminar a).status.active_toast ≡ none
    go none zero e f = rw f e
    go none (suc n) e f = rw (f, e) refl
    go (some x) zero e f = absurd (ground (arith, h (ap presente e), f))
    go (some x) (suc n) e f = rw (f, e) refl

disparar-closes :
    (p : Plataforma) (t : ℕ) (o : Option ℕ) (a : Aviso)
    → a.timer ≡ o
    → ((n : ℕ) → o ≡ some n → n ≤ t)
    → IsTimed a
    → presente (passo p t disparar a).status.active_toast ≡ true
    → 0 < (passo p t disparar a).fechando
unfolding passo dismiss_toast
disparar-closes p t none a e due h =
    let left : presente a.status.active_toast ≡ true → 0 < a.fechando =
      λ f. ground (arith, h.ends f, e) in
    rw e left
disparar-closes p t (some n) a e due h =
    let late : ltb t n ≡ false = ground (arith, due n refl) in rw (e, late) (λ f. omega arith)

-- Every notice goes away by itself: after any history, once the timer that is pending, if there is
-- one, is due and fires, and the closing animation has ended, no notice is left.
pub executar-disparar-terminar :
    (p : Plataforma) (es : List (ℕ × Evento)) (t : ℕ)
    → ((n : ℕ) → (executar p es inicial).timer ≡ some n → n ≤ t)
    → (executar p ((t, disparar) ∷ (t, terminar) ∷ []) (executar p es inicial)).status.active_toast
      ≡ none
unfolding executar
executar-disparar-terminar p es t due =
    let a = executar p es inicial in
    terminar-none p t (passo p t disparar a)
      (disparar-closes p t a.timer a refl due (executar-inicial-IsTimed p es))
