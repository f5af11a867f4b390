-- ===== src/TempoReal/Silencio.antt =====
-- After a logout the stream is silent.
use gestao_restaurante.Base.{
  ℕ, ◌≡◌, refl, sym, ap, ◌∙◌, Bool, true, false, List, [], ◌∷◌, drop, length, ltb, map,
  if◌then◌else◌, All, arith,
}
use gestao_restaurante.Shared.Bloco.{TenantStreamEvent}
use gestao_restaurante.Shared.Sse.{SseConnectionState, SseClient, Sinal, desconectar}
use gestao_restaurante.Shared.Sse.Frozen.{
  IsExternal, IsCurrent, IsFrozen, passo-frozen, desconectar-IsFrozen,
}
use gestao_restaurante.Shared.Sse.Status.{ultimo}
use gestao_restaurante.Auth.{logout}
use gestao_restaurante.Shared.Sse
use gestao_restaurante.TempoReal.{
  Plataforma, TempoReal, inicial, on_events, anunciado, on_status, sincronizar, same_dependencias,
  mudar, ouvir, entregar, de_rede, Evento, rede, sair, passo, executar,
}
use gestao_restaurante.TempoReal.Espelho.{IsMirrored, mudar-IsMirrored, executar-IsMirrored}

anunciado-same :
    (ts : List SseConnectionState) (s : SseConnectionState) → s ≡ ultimo ts → anunciado ts s ≡ s
anunciado-same [] s e = refl
anunciado-same (t ∷ ts) s e = sym e

drop-all : (es : List TenantStreamEvent) → drop (length es) es ≡ []
drop-all [] = refl
drop-all (e ∷ es) = drop-all es

-- A client that has not moved has nothing to tell.
ouvir-same :
    (p : Plataforma) (agora : ℕ) (y : TempoReal) → IsMirrored y → ouvir p agora y.cliente y ≡ y
unfolding ouvir on_events
ouvir-same p agora y (shown, told) =
    ap (λ es. on_status (on_events p agora es y)) (drop-all y.cliente.eventos)
    ∙ ap (λ s. record y { avisos = record y.avisos { status = s } })
        (anunciado-same y.cliente.avisos y.avisos.status shown)

skipped : {b : Bool} (x y z : TempoReal) → b ≡ false → y ≡ z → (if b then x else y) ≡ z
skipped x y z e h = rw e h

entregar-same :
    (p : Plataforma) (agora : ℕ) (y : TempoReal) → IsMirrored y → entregar p agora y.cliente y ≡ y
unfolding entregar
entregar-same p agora y h =
    let still = ouvir-same p agora y h in
    skipped {b = ltb y.cliente.nao_autorizados y.cliente.nao_autorizados}
      (mudar (logout (ouvir p agora y.cliente y).sessao) (ouvir p agora y.cliente y))
      (ouvir p agora y.cliente y) y (ground arith) still

if_same : (b : Bool) (x y : TempoReal) → x ≡ y → (if b then x else y) ≡ y
if_same true x y e = e
if_same false x y e = refl

passo-frozen-same :
    (p : Plataforma) (agora : ℕ) (s : Sinal) (y : TempoReal)
    → IsExternal s
    → IsMirrored y
    → IsFrozen y.cliente
    → passo p (rede agora s) y ≡ y
unfolding passo
passo-frozen-same p agora s y external h frozen =
    if_same (de_rede s) (entregar p agora (Sse.passo s y.cliente) y) y (
      ap (λ c. entregar p agora c y) (passo-frozen s y.cliente external frozen)
      ∙ entregar-same p agora y h)

-- The network's signals at one time.
abbrev pub sinais : ℕ → List Sinal → List Evento
sinais agora = map (λ s. rede agora s)

frozen-executar :
    (p : Plataforma) (agora : ℕ) (ss : List Sinal) (y : TempoReal)
    → All IsExternal ss
    → IsMirrored y
    → IsFrozen y.cliente
    → executar p (sinais agora ss) y ≡ y
unfolding executar
frozen-executar p agora [] y external h frozen = refl
frozen-executar p agora (s ∷ ss) y (external, rest) h frozen =
    ap (executar p (sinais agora ss)) (passo-frozen-same p agora s y external h frozen)
    ∙ frozen-executar p agora ss y rest h frozen

not_same : (a : Bool) (x y : TempoReal) → a ≡ false → (if a then x else y) ≡ y
not_same a x y e = rw e refl

-- A logout of a user who is logged in runs the effect, which disconnects.
sair-IsFrozen :
    (x : TempoReal)
    → x.sessao.1.is_authenticated ≡ true
    → All (IsCurrent x.cliente) x.cliente.abertos
    → IsFrozen (mudar (logout x.sessao) x).cliente
unfolding mudar sincronizar same_dependencias logout
sair-IsFrozen x auth current =
    let moved =
      not_same (same_dependencias x.sessao.1 (logout x.sessao).1)
        (record x { sessao = logout x.sessao })
        (on_status (record x {
          sessao = logout x.sessao;
          cliente = sincronizar (logout x.sessao).1 x.cliente;
        }))
        (ground (arith, auth)) in
    rw moved (desconectar-IsFrozen x.cliente current)

-- From any state that the application reaches, where a user is logged in and every stream in flight
-- is the one the client can abort: after a logout, nothing that the server or the timers do changes
-- anything, neither the notices and the state shown nor the invalidated queries nor the session.
pub sair-silences :
    (p : Plataforma) (es : List Evento) (agora : ℕ) (ss : List Sinal)
    → (executar p es inicial).sessao.1.is_authenticated ≡ true
    → All (IsCurrent (executar p es inicial).cliente) (executar p es inicial).cliente.abertos
    → All IsExternal ss
    → executar p (sinais agora ss) (passo p sair (executar p es inicial))
      ≡ passo p sair (executar p es inicial)
unfolding passo
sair-silences p es agora ss auth current external =
    let x = executar p es inicial in
    let mirrored =
      mudar-IsMirrored (logout x.sessao) x (executar-IsMirrored p es inicial (refl, (refl, tt))) in
    frozen-executar p agora ss (mudar (logout x.sessao) x) external mirrored
      (sair-IsFrozen x auth current)
