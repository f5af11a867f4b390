-- ===== src/Base/Text.antt =====
-- JavaScript strings that the program takes apart, as lists of code units. (Strings that it only
-- compares or passes on are native `String`s.)
pub mod Trim
use Prim.Native.Nat.{ℕ, ◌+◌}
use Prim.Native.Char.{code}
use Prim.Native.String.{String}
use mathlib.Core.Bool.{Bool, true, false, not, ◌&&◌, ◌||◌}
use mathlib.Core.List.{List, [], ◌∷◌, reverse}
use gestao_restaurante.Base.Tests.{leb, ◌==◌, if◌then◌else◌}

abbrev pub Texto : Type 0
Texto = List ℕ

-- The code units of a literal. (A character that takes two counts as one.)
abbrev pub codes : String → Texto
codes String.[] = []
codes (String.◌∷◌ c s) = code c ∷ codes s

-- `/\d/`
abbrev pub is_digit : ℕ → Bool
is_digit c = leb b'0' c && leb c b'9'

-- White space and line ends, as `trim` drops them.
abbrev pub is_space : ℕ → Bool
is_space c =
    (leb 9 c && leb c 13)
    || (c == 32)
    || (c == 160)
    || (c == 5760)
    || (leb 8192 c && leb c 8202)
    || (c == 8232)
    || (c == 8233)
    || (c == 8239)
    || (c == 8287)
    || (c == 12288)
    || (c == 65279)

unfoldable pub trim_start : Texto → Texto
trim_start [] = []
trim_start (c ∷ s) = if is_space c then trim_start s else c ∷ s

-- `s.trim()`
unfoldable pub trim : Texto → Texto
unfolding trim_start
trim s = reverse (trim_start (reverse (trim_start s)))

-- `s === t`
unfoldable pub same : Texto → Texto → Bool
same [] [] = true
same (c ∷ s) (d ∷ t) = c == d && same s t
same _ _ = false

-- `s.startsWith(p)`
unfoldable pub starts_with : Texto → Texto → Bool
starts_with s [] = true
starts_with [] (c ∷ p) = false
starts_with (d ∷ s) (c ∷ p) = d == c && starts_with s p

-- `s.includes(p)`
unfoldable pub includes : Texto → Texto → Bool
unfolding starts_with
includes [] p = starts_with [] p
includes (d ∷ s) p = starts_with (d ∷ s) p || includes s p

-- `s.replace(c, d)` for one code unit: the first occurrence only.
unfoldable pub replace_first : ℕ → ℕ → Texto → Texto
replace_first c d [] = []
replace_first c d (x ∷ s) = if x == c then d ∷ s else x ∷ replace_first c d s

-- `s.toLowerCase()` over ASCII and the Latin-1 letters, which Portuguese is written in; any other
-- code unit stays.
abbrev pub lower : ℕ → ℕ
lower c =
    if (leb b'A' c && leb c b'Z') || (leb 192 c && leb c 222 && not (c == 215)) then c + 32 else c

unfoldable pub to_lower_case : Texto → Texto
to_lower_case [] = []
to_lower_case (c ∷ s) = lower c ∷ to_lower_case s

-- `!s`
abbrev pub vazio : Texto → Bool
vazio [] = true
vazio (c ∷ s) = false

-- `s.replace(/c/g, '')`
unfoldable pub remove_all : ℕ → Texto → Texto
remove_all c [] = []
remove_all c (x ∷ s) = if x == c then remove_all c s else x ∷ remove_all c s
