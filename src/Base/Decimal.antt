-- ===== src/Base/Decimal.antt =====
-- Decimal text: `Number.prototype.toFixed(2)` and `parseFloat` over numbers in thousandths.
pub mod Roundtrip
use Prim.Native.Nat.{ℕ, zero, suc, ◌+◌, ◌-◌, ◌*◌, ◌/◌, ◌%◌, ◌^◌, ◌≤◌, ◌<◌}
use mathlib.Core.Path.{◌≡◌, refl, sym, ap, ◌∙◌}
use mathlib.Core.Logic.{inl, inr}
use mathlib.Core.Bool.{Bool, true, false, ◌||◌}
use mathlib.Core.Option
use mathlib.Core.Option.{Option, none, some}
use mathlib.Core.List.{List, [], ◌∷◌, ◌++◌, append_assoc}
use native.Mathlib.Omega.{arith}
use gestao_restaurante.Base.Tests.{ltb, ◌==◌, if◌then◌else◌, Bool-cases}
use gestao_restaurante.Base.Lists.{length, All}
use gestao_restaurante.Base.Number.{ℤ, pos, negsuc, to_fixed2}
use gestao_restaurante.Base.Text.{Texto, is_digit, trim_start, replace_first}

-- The decimal digits of a number. The fuel bounds their count; one more than the number is enough.
digitos_fuel : ℕ → ℕ → Texto
digitos_fuel zero n = []
digitos_fuel (suc f) n = elim (ltb n 10) [
  | true ↦ (b'0' + n) ∷ []
  | false ↦ digitos_fuel f (n / 10) ++ (b'0' + n % 10) ∷ []
]

unfoldable pub digitos : ℕ → Texto
unfolding digitos_fuel
digitos n = digitos_fuel (suc n) n

-- `x.toFixed(2)`
unfoldable pub texto_fixed2 : ℕ → Texto
unfolding digitos
texto_fixed2 x =
    let c = (x + 5) / 10 in
    digitos (c / 100) ++ (b'.' ∷ (b'0' + c / 10 % 10) ∷ (b'0' + c % 10) ∷ [])

-- Reads digits after those whose value is `m` and count `k`: the value, the count, the rest.
ler_digitos : ℕ → ℕ → Texto → ℕ × ℕ × Texto
ler_digitos m k [] = (m, k, [])
ler_digitos m k (c ∷ s) =
    if is_digit c then ler_digitos (m * 10 + (c - b'0')) (k + 1) s else (m, k, c ∷ s)

-- The significand: its digits as a number, how many follow the point, and the rest; `none` if it
-- has no digit.
ler_fracao : ℕ → ℕ → Texto → Option (ℕ × ℕ × Texto)
ler_fracao m k [] = if k == 0 then none else some (m, 0, [])
ler_fracao m k (c ∷ s) =
    if c == b'.'
    then (let (n, j, rest) = ler_digitos m 0 s in if k + j == 0 then none else some (n, j, rest))
    else if k == 0
    then none
    else some (m, 0, c ∷ s)

ler_significando : Texto → Option (ℕ × ℕ × Texto)
ler_significando s = let (m, k, rest) = ler_digitos 0 0 s in ler_fracao m k rest

abbrev negado : ℕ → ℤ
negado zero = pos zero
negado (suc n) = negsuc n

-- What follows `e`: a sign or none, and digits; without digits there is no exponent.
ler_expoente_sinal : Texto → ℤ
ler_expoente_sinal [] = pos 0
ler_expoente_sinal (c ∷ s) =
    if c == b'-'
    then negado (ler_digitos 0 0 s).0
    else if c == b'+'
    then pos (ler_digitos 0 0 s).0
    else pos (ler_digitos 0 0 (c ∷ s)).0

ler_expoente : Texto → ℤ
ler_expoente [] = pos 0
ler_expoente (c ∷ s) = if c == b'e' || c == b'E' then ler_expoente_sinal s else pos 0

-- The value in thousandths, cut towards minus infinity, as a fraction.
abbrev fracao : ℕ → ℕ → ℤ → ℕ × ℕ
fracao m casas (pos e) = (m * 10 ^ e * 1000, 10 ^ casas)
fracao m casas (negsuc e) = (m * 1000, 10 ^ (casas + suc e))

abbrev positivo : ℕ × ℕ × Texto → ℤ
positivo (m, casas, rest) = let (a, b) = fracao m casas (ler_expoente rest) in pos (a / b)

abbrev negativo : ℕ × ℕ × Texto → ℤ
negativo (m, casas, rest) =
    let (a, b) = fracao m casas (ler_expoente rest) in negado ((a + (b - 1)) / b)

ler_sinal : Texto → Option ℤ
ler_sinal [] = none
ler_sinal (c ∷ s) =
    if c == b'-'
    then Option.map negativo (ler_significando s)
    else if c == b'+'
    then Option.map positivo (ler_significando s)
    else Option.map positivo (ler_significando (c ∷ s))

-- `parseFloat(s)`; `none` is NaN. (The word `Infinity` is not read.)
unfoldable pub parse_float : Texto → Option ℤ
unfolding ler_sinal ler_significando ler_fracao ler_digitos ler_expoente ler_expoente_sinal
parse_float s = ler_sinal (trim_start s)

-- `parseInt(s, 10)` of a text that starts with a digit.
unfoldable pub parse_int : Texto → ℕ
unfolding ler_digitos
parse_int s = (ler_digitos 0 0 s).0
