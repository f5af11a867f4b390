-- ===== src/Base/Decimal/Roundtrip.antt =====
-- A printed amount is read back.
use Prim.Native.Nat.{ℕ, zero, suc, ◌+◌, ◌-◌, ◌*◌, ◌/◌, ◌%◌, ◌<◌}
use mathlib.Core.Path.{◌≡◌, refl, sym, ap, ◌∙◌}
use mathlib.Core.Logic.{inl, inr, ◌≢◌}
use mathlib.Core.Bool.{true, false}
use mathlib.Core.Option.{some}
use mathlib.Core.List.{[], ◌∷◌, ◌++◌, append-nil}
use native.Mathlib.Omega.{arith}
use gestao_restaurante.Base.Tests.{ltb, Bool-cases}
use gestao_restaurante.Base.Lists.{length, All}
use gestao_restaurante.Base.Number.{pos, to_fixed2}
use gestao_restaurante.Base.Text.{Texto, is_digit, trim_start, replace_first}
use gestao_restaurante.Base.Decimal.{
  digitos_fuel, digitos, texto_fixed2, ler_digitos, ler_fracao, ler_significando, ler_sinal,
  ler_expoente, positivo, parse_float, parse_int,
}

abbrev pub IsDigits : Texto → Type 0
IsDigits = All (λ c. is_digit c ≡ true)

abbrev Stops : Texto → Type 0
Stops [] = Unit {0}
Stops (c ∷ s) = is_digit c ≡ false

-- The value of a run of digits after those with value `m`.
abbrev pub valor : ℕ → Texto → ℕ
valor m [] = m
valor m (c ∷ s) = valor (m * 10 + (c - b'0')) s

pub valor-snoc : (m d : ℕ) (ds : Texto) → valor m (ds ++ d ∷ []) ≡ valor m ds * 10 + (d - b'0')
valor-snoc m d [] = refl
valor-snoc m d (c ∷ ds) = valor-snoc (m * 10 + (c - b'0')) d ds

pub IsDigits-snoc : (d : ℕ) (ds : Texto) → IsDigits ds → is_digit d ≡ true → IsDigits (ds ++ d ∷ [])
IsDigits-snoc d [] h k = (k, tt)
IsDigits-snoc d (c ∷ ds) (h, hs) k = (h, IsDigits-snoc d ds hs k)

pub digit-IsDigit : (n : ℕ) → n < 10 → is_digit (b'0' + n) ≡ true
digit-IsDigit n h = ground arith

-- Digits read back as the number, and there is at least one.
abbrev pub Denotes : ℕ → Texto → Type 0
Denotes n ds = (valor 0 ds ≡ n) × IsDigits ds × (ds ≢ [])

pub snoc-ne-nil : (d : ℕ) (ds : Texto) → (ds ++ d ∷ []) ≢ []
snoc-ne-nil d [] = λ e. cc
snoc-ne-nil d (c ∷ ds) = λ e. cc

digitos_fuel-Denotes : (f n : ℕ) → n < f → Denotes n (digitos_fuel f n)
unfolding digitos_fuel
digitos_fuel-Denotes zero n h = elim h [ ]
digitos_fuel-Denotes (suc f) n h = elim (Bool-cases (ltb n 10)) [
  | inl e ↦ rw (e, digitos_fuel) ((omega arith), (digit-IsDigit n (ground arith), tt), λ e. cc)
  | inr e ↦
      let (v, ds, some_digit) = digitos_fuel-Denotes f (n / 10) (ground arith) in
      let d = b'0' + n % 10 in
      let back : valor 0 (digitos_fuel f (n / 10) ++ d ∷ []) ≡ n =
        omega (arith, valor-snoc 0 d (digitos_fuel f (n / 10)), v) in
      rw (e, digitos_fuel)
        (back, IsDigits-snoc d _ ds (digit-IsDigit (n % 10) (omega arith)), snoc-ne-nil d _)
]

pub digitos-Denotes : (n : ℕ) → Denotes n (digitos n)
unfolding digitos
digitos-Denotes n = digitos_fuel-Denotes (suc n) n (omega arith)

ler_digitos-append :
    (m k : ℕ) (ds r : Texto)
    → IsDigits ds
    → Stops r
    → ler_digitos m k (ds ++ r) ≡ (valor m ds, k + length ds, r)
unfolding ler_digitos
ler_digitos-append m k [] [] h s = ground arith
ler_digitos-append m k [] (c ∷ r) h s = ground arith
ler_digitos-append m k (d ∷ ds) r (h, hs) s = rw h (
    ler_digitos-append (m * 10 + (d - b'0')) (k + 1) ds r hs s
    ∙ ap (λ j. (valor (m * 10 + (d - b'0')) ds, j, r)) (omega arith))

ler_significando-fixed2 :
    (ds : Texto) (a b : ℕ)
    → IsDigits ds
    → a < 10
    → b < 10
    → ler_significando (ds ++ (b'.' ∷ (b'0' + a) ∷ (b'0' + b) ∷ []))
      ≡ some ((valor 0 ds * 10 + a) * 10 + b, 2, [])
unfolding ler_significando ler_fracao
ler_significando-fixed2 ds a b h ha hb =
    rw (ler_digitos-append 0 0 ds (b'.' ∷ (b'0' + a) ∷ (b'0' + b) ∷ []) h refl) (
      rw
        (ler_digitos-append (valor 0 ds) 0 ((b'0' + a) ∷ (b'0' + b) ∷ []) []
          (digit-IsDigit a ha, (digit-IsDigit b hb, tt)) tt)
        (ground arith))

ler_sinal-digit :
    (d : ℕ) (s : Texto) {r : ℕ × ℕ × Texto}
    → is_digit d ≡ true
    → ler_significando (d ∷ s) ≡ some r
    → ler_sinal (d ∷ s) ≡ some (positivo r)
unfolding ler_sinal
ler_sinal-digit d s h e = ground arith

trim_start-digit : (d : ℕ) (s : Texto) → is_digit d ≡ true → trim_start (d ∷ s) ≡ d ∷ s
unfolding trim_start
trim_start-digit d s h = ground arith

parse_float-trim : (s t : Texto) → trim_start s ≡ t → parse_float s ≡ ler_sinal t
unfolding parse_float
parse_float-trim s t e = ap ler_sinal e

pub parse_float-fixed2 :
    (ds : Texto) (a b : ℕ)
    → IsDigits ds
    → ds ≢ []
    → a < 10
    → b < 10
    → parse_float (ds ++ (b'.' ∷ (b'0' + a) ∷ (b'0' + b) ∷ []))
      ≡ some (pos (((valor 0 ds * 10 + a) * 10 + b) * 10))
unfolding ler_expoente
parse_float-fixed2 [] a b h n ha hb = absurd (n refl)
parse_float-fixed2 (d ∷ ds) a b (h, hs) n ha hb =
    parse_float-trim _ _ (trim_start-digit d _ h)
    ∙ ler_sinal-digit d _ h (ler_significando-fixed2 (d ∷ ds) a b (h, hs) ha hb)
    ∙ ap (λ y. some (pos y)) (omega arith)

-- `parseFloat(x.toFixed(2))` is `x` rounded to the cent.
pub parse_float-texto_fixed2 : (x : ℕ) → parse_float (texto_fixed2 x) ≡ some (pos (to_fixed2 x))
unfolding texto_fixed2 to_fixed2
parse_float-texto_fixed2 x =
    let c = (x + 5) / 10 in
    let (v, ds, n) = digitos-Denotes (c / 100) in
    parse_float-fixed2 (digitos (c / 100)) (c / 10 % 10) (c % 10) ds n (omega arith) (omega arith)
    ∙ ap (λ y. some (pos y)) (omega (arith, v))

pub IsDigits-replace :
    (ds r : Texto)
    → IsDigits ds
    → replace_first b',' b'.' (ds ++ r) ≡ ds ++ replace_first b',' b'.' r
unfolding replace_first
IsDigits-replace [] r h = refl
IsDigits-replace (d ∷ ds) r (h, hs) = ground (arith, IsDigits-replace ds r hs)

replace_first-decimals :
    (a b : ℕ)
    → a < 10
    → b < 10
    → replace_first b',' b'.' (b'.' ∷ (b'0' + a) ∷ (b'0' + b) ∷ [])
      ≡ b'.' ∷ (b'0' + a) ∷ (b'0' + b) ∷ []
unfolding replace_first
replace_first-decimals a b ha hb = ground arith

-- A printed amount holds no comma.
pub replace_first-texto_fixed2 : (x : ℕ) → replace_first b',' b'.' (texto_fixed2 x) ≡ texto_fixed2 x
unfolding texto_fixed2
replace_first-texto_fixed2 x =
    let c = (x + 5) / 10 in
    IsDigits-replace (digitos (c / 100)) _ (digitos-Denotes (c / 100)).1
    ∙ ap (◌++◌ (digitos (c / 100)))
        (replace_first-decimals (c / 10 % 10) (c % 10) (omega arith) (omega arith))

pub parse_int-eq : (ds : Texto) → IsDigits ds → parse_int ds ≡ valor 0 ds
unfolding parse_int
parse_int-eq ds h =
    ap (λ t. (ler_digitos 0 0 t).0) (sym (append-nil ds))
    ∙ ap (λ r. r.0) (ler_digitos-append 0 0 ds [] h tt)
