-- ===== src/Shared/Fluxo/Chunks.antt =====
-- How the text is cut into chunks does not matter.
use gestao_restaurante.Base.{
  ℕ, ◌≡◌, refl, sym, ap, ◌∙◌, inl, inr, true, false, ◌&&◌, List, [], ◌∷◌, ◌++◌, append_assoc,
  append-nil, ◌==◌, Bool-cases, arith,
}
use gestao_restaurante.Base.Text.{Texto}
use gestao_restaurante.Shared.Fluxo.{split_from, split_blocos, separar, receber, ler}

-- The whole text that the chunks carry.
abbrev pub juntar : List Texto → Texto
juntar [] = []
juntar (c ∷ cs) = c ++ juntar cs

-- Blocks put in front of what is separated later.
abbrev pub adiante : List Texto → List Texto × Texto → List Texto × Texto
adiante ps (qs, r) = (ps ++ qs, r)

-- A part that holds no cut of its own: reading from it or from its text is the same.
abbrev Whole : Texto → Texto → Type 0
Whole atual s = split_from [] (atual ++ s) ≡ split_from atual s

separar-cons :
    (p atual s : Texto)
    → separar (p ∷ split_from atual s) ≡ adiante (p ∷ []) (separar (split_from atual s))
unfolding separar split_from
separar-cons p atual [] = refl
separar-cons p atual (c ∷ []) = refl
separar-cons p atual (c ∷ d ∷ s) = elim (Bool-cases (c == 10 && d == 10)) [
  | inl e ↦ rw e
  | inr e ↦ rw e (separar-cons p (atual ++ c ∷ []) (d ∷ s))
]

split_from-cut :
    (atual s : Texto) (c d : ℕ)
    → (c == 10 && d == 10) ≡ true
    → split_from atual (c ∷ d ∷ s) ≡ atual ∷ split_from [] s
unfolding split_from
split_from-cut atual s c d e = rw e

split_from-go_on :
    (atual s : Texto) (c d : ℕ)
    → (c == 10 && d == 10) ≡ false
    → split_from atual (c ∷ d ∷ s) ≡ split_from (atual ++ c ∷ []) (d ∷ s)
unfolding split_from
split_from-go_on atual s c d e = rw e

split_from-last :
    (atual : Texto) (c : ℕ) → separar (split_from atual (c ∷ [])) ≡ ([], atual ++ c ∷ [])
unfolding split_from separar
split_from-last atual c = refl

split_from-nil : (atual : Texto) → separar (split_from atual []) ≡ ([], atual)
unfolding split_from separar
split_from-nil atual = refl

separar-split :
    (atual x y : Texto)
    → Whole atual (x ++ y)
    → separar (split_from atual (x ++ y))
      ≡ adiante
          (separar (split_from atual x)).0
          (separar (split_from [] ((separar (split_from atual x)).1 ++ y)))
separar-split atual [] y w = rw (split_from-nil atual, w)
separar-split atual (c ∷ []) y w = rw (split_from-last atual c, append_assoc atual (c ∷ []) y, w)
separar-split atual (c ∷ d ∷ x) y w = elim (Bool-cases (c == 10 && d == 10)) [
  | inl e ↦ rw (
    split_from-cut atual (x ++ y) c d e,
    split_from-cut atual x c d e,
    separar-cons atual [] (x ++ y),
    separar-cons atual [] x,
    separar-split [] x y refl,
  )
  | inr e ↦
      rw (split_from-go_on atual (x ++ y) c d e, split_from-go_on atual x c d e)
        (separar-split (atual ++ c ∷ []) (d ∷ x) y (
          rw (append_assoc atual (c ∷ []) (d ∷ x ++ y))
            (w ∙ split_from-go_on atual (x ++ y) c d e)))
]

separar-receber :
    (x y : Texto)
    → separar (split_blocos (x ++ y))
      ≡ adiante (separar (split_blocos x)).0 (receber (separar (split_blocos x)).1 y)
unfolding split_blocos receber
separar-receber x y = separar-split [] x y refl

pub ler-cons :
    (buffer chunk : Texto) (chunks : List Texto)
    → ler buffer (chunk ∷ chunks)
      ≡ adiante (receber buffer chunk).0 (ler (receber buffer chunk).1 chunks)
unfolding ler
ler-cons buffer chunk chunks = refl

pub ler-nil : (buffer : Texto) → ler buffer [] ≡ ([], buffer)
unfolding ler
ler-nil buffer = refl

adiante_assoc :
    (ps qs : List Texto) (r : List Texto × Texto) → adiante ps (adiante qs r) ≡ adiante (ps ++ qs) r
adiante_assoc ps qs (rs, t) = rw (append_assoc ps qs rs)

ler-after :
    (x : Texto) (chunks : List Texto)
    → adiante (separar (split_blocos x)).0 (ler (separar (split_blocos x)).1 chunks)
      ≡ separar (split_blocos (x ++ juntar chunks))
ler-after x [] =
    rw (ler-nil (separar (split_blocos x)).1, append-nil)
      (ap (λ t. separar (split_blocos t)) (sym (append-nil x)))
ler-after x (c ∷ cs) = rw (
  ler-cons (separar (split_blocos x)).1 c cs,
  adiante_assoc,
  ← append_assoc x c (juntar cs),
  ← ler-after (x ++ c) cs,
  separar-receber x c,
)

-- However the text of the stream is cut into chunks, the blocks handed on are those of the whole
-- text split at its empty lines, all but the last part, in order; and that part is in the buffer.
pub ler-split : (chunks : List Texto) → ler [] chunks ≡ separar (split_blocos (juntar chunks))
unfolding split_blocos separar split_from
ler-split chunks = ler-after [] chunks

-- Blocks and buffer as a text again: an empty line after each block.
abbrev pub unir : List Texto × Texto → Texto
unir ([], resto) = resto
unir (p ∷ ps, resto) = p ++ (10 ∷ 10 ∷ unir (ps, resto))

unir-cons :
    (p : Texto) (r : List Texto × Texto) → unir (adiante (p ∷ []) r) ≡ p ++ (10 ∷ 10 ∷ unir r)
unir-cons p (ps, resto) = refl

newlines : (c d : ℕ) → (c == 10 && d == 10) ≡ true → (c ≡ 10) × (d ≡ 10)
newlines c d e = (ground arith, ground arith)

unir-split_from : (atual s : Texto) → unir (separar (split_from atual s)) ≡ atual ++ s
unir-split_from atual [] = rw (split_from-nil atual, append-nil)
unir-split_from atual (c ∷ []) = rw (split_from-last atual c)
unir-split_from atual (c ∷ d ∷ s) = elim (Bool-cases (c == 10 && d == 10)) [
  | inl e ↦
      let (c10, d10) = newlines c d e in
      rw (split_from-cut atual s c d e, separar-cons atual [] s, unir-cons, unir-split_from [] s)
        (rw (c10, d10))
  | inr e ↦
      rw (split_from-go_on atual s c d e)
        (unir-split_from (atual ++ c ∷ []) (d ∷ s) ∙ append_assoc atual (c ∷ []) (d ∷ s))
]

-- Nothing of the stream is lost or made up: the blocks handed on, each followed by an empty line,
-- and then the buffer, spell the text that the chunks carried.
pub unir-ler : (chunks : List Texto) → unir (ler [] chunks) ≡ juntar chunks
unfolding split_blocos
unir-ler chunks = rw (ler-split chunks) (unir-split_from [] (juntar chunks))
