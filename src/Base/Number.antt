-- ===== src/Base/Number.antt =====
-- The numbers of the program that are not counts: money, stock and measured quantities, as whole
-- numbers of thousandths (`milésimos`), and what the code computes with them. A text read by
-- `parseFloat` is cut to thousandths, downwards.
use Prim.Native.Nat.{ℕ, ◌+◌, ◌-◌, ◌*◌, ◌/◌, ◌%◌, ◌≤◌, ◌<◌}
use mathlib.Core.Path.{◌≡◌}
use native.Mathlib.Omega.{arith}

-- One real, one kilogram or one litre in thousandths.
abbrev pub unidade : ℕ
unidade = 1000

-- `Number(x.toFixed(2))`: to the nearest cent, and at half a cent up.
unfoldable pub to_fixed2 : ℕ → ℕ
to_fixed2 x = (x + 5) / 10 * 10

-- A whole number of cents.
abbrev pub IsCents : ℕ → Type 0
IsCents x = x % 10 ≡ 0

pub to_fixed2-IsCents : (x : ℕ) → IsCents (to_fixed2 x)
unfolding to_fixed2
to_fixed2-IsCents x = omega arith

pub to_fixed2_of_IsCents : (x : ℕ) → IsCents x → to_fixed2 x ≡ x
unfolding to_fixed2
to_fixed2_of_IsCents x h = omega arith

pub to_fixed2_bounds : (x : ℕ) → (to_fixed2 x ≤ x + 5) × (x < to_fixed2 x + 6)
unfolding to_fixed2
to_fixed2_bounds x = (omega arith, omega arith)

-- Signed numbers: `negsuc n` is -(n + 1).
pub data ℤ : Type 0 where
  pos : ℕ → ℤ
  negsuc : ℕ → ℤ

-- `Math.ceil(x / d) * d`
abbrev pub ceil_to : ℕ → ℕ → ℕ
ceil_to d x = (x + (d - 1)) / d * d

pub ruleset cents = (arith, to_fixed2-IsCents, to_fixed2_of_IsCents)
