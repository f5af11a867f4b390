-- ===== src/Base/Text/Trim.antt =====
-- A text that `trim` has trimmed is trimmed.
use gestao_restaurante.Base.Tests.{if◌then◌else◌}
use Prim.Native.Nat.{ℕ}
use mathlib.Core.Path.{◌≡◌, refl, ap}
use mathlib.Core.Bool.{Bool, true, false}
use mathlib.Core.List.{[], ◌∷◌, ◌++◌, reverse, reverse-cons, reverse-reverse}
use gestao_restaurante.Base.Text.{Texto, vazio, is_space, trim_start, trim}

-- A text that is not blank, with no white space at its ends.
abbrev pub IsNamed : Texto → Type 0
IsNamed s = (vazio (trim s) ≡ false) × (trim s ≡ s)

-- An empty text, or one that starts with no white space.
abbrev Clean : Texto → Type 0
Clean [] = Unit {0}
Clean (c ∷ s) = is_space c ≡ false

trim_start_cons :
    (c : ℕ) (s : Texto) (P : Texto → Type 0)
    → P (trim_start s)
    → (is_space c ≡ false → P (c ∷ s))
    → P (trim_start (c ∷ s))
unfolding trim_start
trim_start_cons c s P h k = go (is_space c) k
  where
    go : (b : Bool) → (b ≡ false → P (c ∷ s)) → P (if b then trim_start s else c ∷ s)
    go true k = h
    go false k = k refl

trim_start-Clean : (s : Texto) → Clean (trim_start s)
unfolding trim_start
trim_start-Clean [] = tt
trim_start-Clean (c ∷ s) = trim_start_cons c s Clean (trim_start-Clean s) (λ e. e)

Clean-trim_start : (s : Texto) → Clean s → trim_start s ≡ s
unfolding trim_start
Clean-trim_start [] h = refl
Clean-trim_start (c ∷ s) h = rw h refl

Clean-prefix : (s t : Texto) → Clean (s ++ t) → Clean s
Clean-prefix [] t h = tt
Clean-prefix (c ∷ s) t h = h

-- What is dropped at the start leaves the end as it is.
trim_start-ends : (s : Texto) → Clean (reverse s) → Clean (reverse (trim_start s))
unfolding trim_start
trim_start-ends [] h = h
trim_start-ends (c ∷ s) h =
    trim_start_cons c s (λ x. Clean (reverse x))
      (trim_start-ends s (Clean-prefix (reverse s) (c ∷ []) (rw (reverse-cons c s) at h))) (λ e. h)

pub trim-trim : (s : Texto) → trim (trim s) ≡ trim s
unfolding trim
trim-trim s =
    let a = trim_start s in
    let b = trim_start (reverse a) in
    let starts : Clean (reverse b) =
      trim_start-ends (reverse a) (rw (reverse-reverse a) (trim_start-Clean s)) in
    rw (Clean-trim_start (reverse b) starts, reverse-reverse b)
      (ap reverse (Clean-trim_start b (trim_start-Clean (reverse a))))

-- The name that is sent, where the check lets it through.
pub trim-IsNamed : (s : Texto) → vazio (trim s) ≡ false → IsNamed (trim s)
trim-IsNamed s h = rw (trim-trim s) (h, refl)
