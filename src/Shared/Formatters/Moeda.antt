-- ===== src/Shared/Formatters/Moeda.antt =====
-- The money mask: what it prints is read back, and typing on through it loses nothing.
use gestao_restaurante.Base.{
  ℕ, zero, suc, ◌+◌, ◌-◌, ◌*◌, ◌/◌, ◌%◌, ◌<◌, ◌≡◌, ◌≢◌, ◌⊎◌, inl, inr, refl, sym, ap, ◌∙◌, Bool,
  true, false, Option, some, [], ◌∷◌, ◌++◌, append_assoc, ltb, ◌==◌, All-append, filter,
  if◌then◌else◌, Bool-cases, arith,
}
use gestao_restaurante.Base.Number.{ℤ, pos}
use gestao_restaurante.Base.Text.{Texto, is_digit, replace_first, remove_all}
use gestao_restaurante.Base.Decimal.{digitos, parse_int, parse_float}
use gestao_restaurante.Base.Decimal.Roundtrip.{
  IsDigits, valor, Denotes, valor-snoc, IsDigits-snoc, snoc-ne-nil, digit-IsDigit, digitos-Denotes,
  parse_float-fixed2, IsDigits-replace, parse_int-eq,
}
use gestao_restaurante.Shared.Formatters.{
  milhar, agrupar_fuel, agrupar, centavos_pt_br, apenas_numeros, moeda_de_digitos,
  formatar_moeda_input,
}

remove_all-append : (c : ℕ) (s t : Texto) → remove_all c (s ++ t) ≡ remove_all c s ++ remove_all c t
unfolding remove_all
remove_all-append c [] t = refl
remove_all-append c (x ∷ s) t = ground (arith, remove_all-append c s t)

remove_all-IsDigits : (s : Texto) → IsDigits s → remove_all b'.' s ≡ s
unfolding remove_all
remove_all-IsDigits [] h = refl
remove_all-IsDigits (x ∷ s) (h, hs) = ground (arith, remove_all-IsDigits s hs)

remove_all-milhar : (n : ℕ) → n < 1000 → remove_all b'.' (b'.' ∷ milhar n) ≡ milhar n
unfolding remove_all
remove_all-milhar n h = ground arith

Denotes-snoc :
    (n d : ℕ) (ds : Texto) → Denotes n ds → d < 10 → Denotes (n * 10 + d) (ds ++ (b'0' + d) ∷ [])
Denotes-snoc n d ds (v, h, s) k = (
  omega (arith, valor-snoc 0 (b'0' + d) ds, v),
  IsDigits-snoc (b'0' + d) ds h (digit-IsDigit d k),
  snoc-ne-nil (b'0' + d) ds,
)

Denotes-milhar :
    (n m : ℕ) (ds : Texto) → Denotes n ds → m < 1000 → Denotes (n * 1000 + m) (ds ++ milhar m)
Denotes-milhar n m ds h k =
    let um = Denotes-snoc n (m / 100) ds h (omega arith) in
    let dois = Denotes-snoc _ (m / 10 % 10) _ um (omega arith) in
    let (v, d, s) = Denotes-snoc _ (m % 10) _ dois (omega arith) in
    let shape =
      ap (λ t. t ++ (b'0' + m % 10) ∷ [])
        (append_assoc ds ((b'0' + m / 100) ∷ []) ((b'0' + m / 10 % 10) ∷ []))
      ∙ append_assoc ds ((b'0' + m / 100) ∷ (b'0' + m / 10 % 10) ∷ []) ((b'0' + m % 10) ∷ []) in
    rw (sym shape) (omega (arith, v), d, s)

-- The points taken out, a grouped number is its digits.
agrupar_fuel-Denotes : (f n : ℕ) → n < f → Denotes n (remove_all b'.' (agrupar_fuel f n))
unfolding agrupar_fuel
agrupar_fuel-Denotes zero n h = elim h [ ]
agrupar_fuel-Denotes (suc f) n h = elim (Bool-cases (ltb n 1000)) [
  | inl e ↦
      rw (e, agrupar_fuel, remove_all-IsDigits (digitos n) (digitos-Denotes n).1)
        (digitos-Denotes n)
  | inr e ↦
      let (v, d, s) =
        Denotes-milhar (n / 1000) (n % 1000) _ (agrupar_fuel-Denotes f (n / 1000) (ground arith))
          (omega arith) in
      rw
        (
          e,
          agrupar_fuel,
          remove_all-append b'.' (agrupar_fuel f (n / 1000)) (b'.' ∷ milhar (n % 1000)),
          remove_all-milhar (n % 1000) (omega arith),
        )
        (omega (arith, v), d, s)
]

-- Any fuel above the number prints the same.
agrupar_fuel-enough : (f g n : ℕ) → n < f → n < g → agrupar_fuel f n ≡ agrupar_fuel g n
unfolding agrupar_fuel
agrupar_fuel-enough zero g n h k = elim h [ ]
agrupar_fuel-enough (suc f) zero n h k = elim k [ ]
agrupar_fuel-enough (suc f) (suc g) n h k = elim (Bool-cases (ltb n 1000)) [
  | inl e ↦ rw (e, agrupar_fuel) refl
  | inr e ↦
      rw (e, agrupar_fuel)
        (ap (λ t. t ++ b'.' ∷ milhar (n % 1000))
          (agrupar_fuel-enough f g (n / 1000) (ground arith) (ground arith)))
]

-- Grouping ends: with any fuel above the number it prints the whole number.
pub agrupar_fuel-agrupar : (f n : ℕ) → n < f → agrupar_fuel f n ≡ agrupar n
unfolding agrupar
agrupar_fuel-agrupar f n h = agrupar_fuel-enough f (suc n) n h (omega arith)

agrupar-Denotes : (n : ℕ) → Denotes n (remove_all b'.' (agrupar n))
unfolding agrupar
agrupar-Denotes n = agrupar_fuel-Denotes (suc n) n (omega arith)

abbrev decimais : ℕ → Texto
decimais c = b',' ∷ (b'0' + c / 10 % 10) ∷ (b'0' + c % 10) ∷ []

remove_all-decimais : (c : ℕ) → remove_all b'.' (decimais c) ≡ decimais c
unfolding remove_all
remove_all-decimais c = ground arith

replace_first-decimais :
    (c : ℕ)
    → replace_first b',' b'.' (decimais c) ≡ b'.' ∷ (b'0' + c / 10 % 10) ∷ (b'0' + c % 10) ∷ []
unfolding replace_first
replace_first-decimais c = ground arith

-- How ModalEntradaEstoque reads a cost: `parseFloat(t.replace(/\./g, '').replace(',', '.'))`.
unfoldable pub ler_moeda : Texto → Option ℤ
ler_moeda t = parse_float (replace_first b',' b'.' (remove_all b'.' t))

ler_moeda-centavos_pt_br : (c : ℕ) → ler_moeda (centavos_pt_br c) ≡ some (pos (c * 10))
unfolding ler_moeda centavos_pt_br
ler_moeda-centavos_pt_br c =
    let (v, h, n) = agrupar-Denotes (c / 100) in
    rw
      (
        remove_all-append b'.' (agrupar (c / 100)) (decimais c),
        remove_all-decimais c,
        IsDigits-replace _ (decimais c) h,
        replace_first-decimais c,
      )
      (parse_float-fixed2 (remove_all b'.' (agrupar (c / 100))) (c / 10 % 10) (c % 10) h n
          (omega arith) (omega arith)
        ∙ ap (λ y. some (pos y)) (omega (arith, v)))

filter-append : (p : ℕ → Bool) (s t : Texto) → filter p (s ++ t) ≡ filter p s ++ filter p t
filter-append p [] t = refl
filter-append p (x ∷ s) t = ground (arith, filter-append p s t)

either :
    (b : Bool) (x : ℕ) (r : Texto)
    → IsDigits (if b then r else x ∷ r)
    → IsDigits r × ((b ≡ true) ⊎ ((b ≡ false) × (is_digit x ≡ true)))
either true x r h = (h, inl refl)
either false x r (h, hs) = (hs, inr (refl, h))

-- Without its points a text is digits: those are all its digits.
apenas_numeros-remove_all :
    (s : Texto) → IsDigits (remove_all b'.' s) → apenas_numeros s ≡ remove_all b'.' s
unfolding remove_all
apenas_numeros-remove_all [] h = refl
apenas_numeros-remove_all (x ∷ s) h =
    let (hs, split) = either (x == b'.') x (remove_all b'.' s) h in
    let ih = apenas_numeros-remove_all s hs in
    elim split [ inl e ↦ ground (arith, e, ih) | inr (e, d) ↦ ground (arith, e, d, ih) ]

apenas_numeros-IsDigits : (s : Texto) → IsDigits (apenas_numeros s)
apenas_numeros-IsDigits [] = tt
apenas_numeros-IsDigits (x ∷ s) = elim (Bool-cases (is_digit x)) [
  | inl e ↦ rw e (e, apenas_numeros-IsDigits s)
  | inr e ↦ rw e (apenas_numeros-IsDigits s)
]

apenas_numeros-decimais :
    (c : ℕ) → apenas_numeros (decimais c) ≡ (b'0' + c / 10 % 10) ∷ (b'0' + c % 10) ∷ []
apenas_numeros-decimais c = ground arith

-- The digits of a printed amount are its cents.
apenas_numeros-centavos_pt_br : (c : ℕ) → Denotes c (apenas_numeros (centavos_pt_br c))
unfolding centavos_pt_br
apenas_numeros-centavos_pt_br c =
    let whole = agrupar-Denotes (c / 100) in
    let um = Denotes-snoc _ (c / 10 % 10) _ whole (omega arith) in
    let (v, d, s) = Denotes-snoc _ (c % 10) _ um (omega arith) in
    rw
      (
        filter-append is_digit (agrupar (c / 100)) (decimais c),
        apenas_numeros-remove_all _ whole.1,
        apenas_numeros-decimais c,
        sym (
            append_assoc (remove_all b'.' (agrupar (c / 100))) ((b'0' + c / 10 % 10) ∷ [])
              ((b'0' + c % 10) ∷ [])),
      )
      (omega (arith, v), d, s)

moeda_de_digitos-centavos :
    (c : ℕ) (ds : Texto) → Denotes c ds → moeda_de_digitos ds ≡ centavos_pt_br c
unfolding moeda_de_digitos
moeda_de_digitos-centavos c [] (v, h, n) = absurd (n refl)
moeda_de_digitos-centavos c (d ∷ ds) (v, h, n) = ap centavos_pt_br (parse_int-eq (d ∷ ds) h ∙ v)

IsDigits-Denotes : (d : ℕ) (ds : Texto) → IsDigits (d ∷ ds) → Denotes (parse_int (d ∷ ds)) (d ∷ ds)
IsDigits-Denotes d ds h = (sym (parse_int-eq (d ∷ ds) h), h, λ e. cc)

valor-append : (m : ℕ) (s t : Texto) → valor m (s ++ t) ≡ valor (valor m s) t
valor-append m [] t = refl
valor-append m (d ∷ s) t = valor-append (m * 10 + (d - b'0')) s t

append-nonempty : (s t : Texto) → s ≢ [] → (s ++ t) ≢ []
append-nonempty [] t h = absurd (h refl)
append-nonempty (d ∷ s) t h = λ e. cc

Denotes-append : (c : ℕ) (s t : Texto) → Denotes c s → IsDigits t → Denotes (valor c t) (s ++ t)
Denotes-append c s t (v, h, n) k = (
  valor-append 0 s t ∙ ap (λ m. valor m t) v,
  All-append (λ c. is_digit c ≡ true) s t h k,
  append-nonempty s t n,
)

-- What the money mask prints for a text with a digit is read back by the entry form as exactly the
-- number of cents that the text's digits write.
pub ler_moeda-formatar_moeda_input :
    (texto : Texto) (d : ℕ) (ds : Texto)
    → apenas_numeros texto ≡ d ∷ ds
    → ler_moeda (formatar_moeda_input texto) ≡ some (pos (parse_int (d ∷ ds) * 10))
unfolding formatar_moeda_input moeda_de_digitos
ler_moeda-formatar_moeda_input texto d ds e = rw e (ler_moeda-centavos_pt_br (parse_int (d ∷ ds)))

continue_digits :
    (a t : Texto)
    → IsDigits a
    → IsDigits t
    → moeda_de_digitos (apenas_numeros (moeda_de_digitos a) ++ t) ≡ moeda_de_digitos (a ++ t)
unfolding moeda_de_digitos
continue_digits [] t h k = refl
continue_digits (d ∷ ds) t h k =
    let c = parse_int (d ∷ ds) in
    let shown = apenas_numeros-centavos_pt_br c in
    moeda_de_digitos-centavos _ _ (Denotes-append c _ t shown k)
    ∙ sym (moeda_de_digitos-centavos _ _ (Denotes-append c (d ∷ ds) t (IsDigits-Denotes d ds h) k))

-- Typing on through the money mask: to append any text to what is shown and format again gives what
-- the whole text gives at once, so that no keystroke is lost and formatting twice changes nothing.
pub formatar_moeda_input-append :
    (s t : Texto)
    → formatar_moeda_input (formatar_moeda_input s ++ t) ≡ formatar_moeda_input (s ++ t)
unfolding formatar_moeda_input
formatar_moeda_input-append s t =
    ap moeda_de_digitos (filter-append is_digit (moeda_de_digitos (apenas_numeros s)) t)
    ∙ continue_digits (apenas_numeros s) (apenas_numeros t) (apenas_numeros-IsDigits s)
        (apenas_numeros-IsDigits t)
    ∙ sym (ap moeda_de_digitos (filter-append is_digit s t))
