-- ===== src/Shared/Sse/Despacho.antt =====
-- From the chunks of a stream to the events dispatched.
use gestao_restaurante.Base.{
  ℕ, ◌≡◌, refl, ap, ◌∙◌, inl, inr, Option, none, some, List, [], ◌∷◌, ◌++◌, append_assoc,
  append-nil, map, find, ◌==◌, Bool-cases, Option-cases, arith,
}
use gestao_restaurante.Base.Text.{Texto}
use gestao_restaurante.Shared.Bloco.{process_sse_block}
use gestao_restaurante.Shared.Fluxo.{receber, ler, split_blocos, separar}
use gestao_restaurante.Shared.Fluxo.Chunks.{adiante, ler-cons, ler-nil, ler-split, juntar}
use gestao_restaurante.Shared.Sse.{
  Fase, lendo, Aberto, SseClient, com_fase, reset_heartbeat_watchdog, eventos_de, ler_chunk, Sinal,
  chunk, aberto?, passo, executar,
}

-- The signals of a stream that sends these chunks at one time.
abbrev pub chegadas : ℕ → Texto → Texto → List Texto → List Sinal
chegadas n agora padrao = map (λ t. chunk n t agora padrao)

with_fase : Fase → Option Aberto → Option Aberto
with_fase f none = none
with_fase f (some a) = some (record a { fase = f })

find-com_fase :
    (n : ℕ) (f : Fase) (xs : List Aberto) (a : Aberto)
    → find (λ x. x.id == n) xs ≡ some a
    → find (λ x. x.id == n) (com_fase n f xs) ≡ some (record a { fase = f })
unfolding with_fase
find-com_fase n f [] a h = ground arith
find-com_fase n f (x ∷ xs) a h = elim (Bool-cases (x.id == n)) [
  | inl e ↦ rw (e, e) (ap (with_fase f) (rw e at h))
  | inr e ↦ rw (e, e) (find-com_fase n f xs a (rw e at h))
]

eventos_de-append :
    (agora padrao : Texto) (xs ys : List Texto)
    → eventos_de agora padrao (xs ++ ys) ≡ eventos_de agora padrao xs ++ eventos_de agora padrao ys
eventos_de-append agora padrao [] ys = refl
eventos_de-append agora padrao (x ∷ xs) ys =
    elim (Option-cases (process_sse_block agora padrao x).0) [
      | inl e ↦ rw (eventos_de, e) (eventos_de-append agora padrao xs ys)
      | inr (v, e) ↦ rw (eventos_de, e) (ap (λ l. v ∷ l) (eventos_de-append agora padrao xs ys))
    ]

chunk-passo :
    (n : ℕ) (t agora padrao b : Texto) (a : Aberto) (c : SseClient)
    → aberto? n c ≡ some a
    → a.fase ≡ lendo b
    → passo (chunk n t agora padrao) c ≡ ler_chunk n b t agora padrao c
unfolding passo
chunk-passo n t agora padrao b a c found phase = rw (passo, found) (rw phase refl)

ler_chunk-aberto :
    (n : ℕ) (t agora padrao b : Texto) (a : Aberto) (c : SseClient)
    → aberto? n c ≡ some a
    → aberto? n (ler_chunk n b t agora padrao c) ≡ some (record a { fase = lendo (receber b t).1 })
unfolding ler_chunk reset_heartbeat_watchdog
ler_chunk-aberto n t agora padrao b a c found =
    find-com_fase n (lendo (receber b t).1) c.abertos a found

ler_chunk-eventos :
    (n : ℕ) (t agora padrao b : Texto) (c : SseClient)
    → (ler_chunk n b t agora padrao c).eventos
      ≡ c.eventos ++ eventos_de agora padrao (receber b t).0
unfolding ler_chunk reset_heartbeat_watchdog
ler_chunk-eventos n t agora padrao b c = refl

adiante-blocos : (ps : List Texto) (r : List Texto × Texto) → (adiante ps r).0 ≡ ps ++ r.0
adiante-blocos ps (qs, t) = refl

pub executar-ler :
    (n : ℕ) (ts : List Texto) (agora padrao b : Texto) (a : Aberto) (c : SseClient)
    → aberto? n c ≡ some a
    → a.fase ≡ lendo b
    → (executar (chegadas n agora padrao ts) c).eventos
      ≡ c.eventos ++ eventos_de agora padrao (ler b ts).0
unfolding executar
executar-ler n [] agora padrao b a c found phase = rw (ler-nil b, append-nil)
executar-ler n (t ∷ ts) agora padrao b a c found phase =
    let after = ler_chunk n b t agora padrao c in
    let next =
      executar-ler n ts agora padrao (receber b t).1 _ after
        (ler_chunk-aberto n t agora padrao b a c found) refl in
    rw
      (
        executar,
        chunk-passo n t agora padrao b a c found phase,
        ler-cons b t ts,
        adiante-blocos,
        eventos_de-append,
      )
      (next ∙ rw (ler_chunk-eventos n t agora padrao b c) (append_assoc c.eventos _ _))

-- However the server's text is cut into chunks, a stream that has begun to read and has read nothing
-- dispatches, in order and after the events before, the events of the blocks of the whole text, the
-- last part left out.
pub executar-chegadas :
    (n : ℕ) (ts : List Texto) (agora padrao : Texto) (a : Aberto) (c : SseClient)
    → aberto? n c ≡ some a
    → a.fase ≡ lendo []
    → (executar (chegadas n agora padrao ts) c).eventos
      ≡ c.eventos ++ eventos_de agora padrao (separar (split_blocos (juntar ts))).0
executar-chegadas n ts agora padrao a c found phase =
    rw⁻¹ (ler-split ts) (executar-ler n ts agora padrao [] a c found phase)
