-- ===== src/Auth/Cnpj/Mask.antt =====
-- Masking and unmasking.
use gestao_restaurante.Base.{
  ℕ, zero, suc, ◌+◌, ◌≤◌, ◌≡◌, ◌⊎◌, refl, ap, sym, ◌∙◌, inl, inr, Bool, true, false, [], ◌∷◌, ◌++◌,
  take, drop, length, leb, ◌==◌, if◌then◌else◌, All, Bool-cases, arith,
}
use gestao_restaurante.Base.Text.{Texto, is_digit}
use gestao_restaurante.Auth.Cnpj.{
  slice, desmascarar_cnpj, com_mascara, mascarar_cnpj, is_cnpj_formato_valido,
}

abbrev IsDigits : Texto → Type 0
IsDigits = All (λ c. is_digit c ≡ true)

desmascarar_cnpj-IsDigits : (v : Texto) → IsDigits (desmascarar_cnpj v)
unfolding desmascarar_cnpj
desmascarar_cnpj-IsDigits [] = tt
desmascarar_cnpj-IsDigits (c ∷ v) = elim (Bool-cases (is_digit c)) [
  | inl e ↦ rw (e, e) (refl, desmascarar_cnpj-IsDigits v)
  | inr e ↦ rw e (desmascarar_cnpj-IsDigits v)
]

take-IsDigits : (n : ℕ) (d : Texto) → IsDigits d → IsDigits (take n d)
take-IsDigits zero d h = tt
take-IsDigits (suc n) [] h = tt
take-IsDigits (suc n) (c ∷ d) (h, hs) = (h, take-IsDigits n d hs)

drop-IsDigits : (n : ℕ) (d : Texto) → IsDigits d → IsDigits (drop n d)
drop-IsDigits zero d h = h
drop-IsDigits (suc n) [] h = tt
drop-IsDigits (suc n) (c ∷ d) (h, hs) = drop-IsDigits n d hs

-- Digits that stand before anything are kept.
desmascarar_cnpj-append :
    (d r : Texto) → IsDigits d → desmascarar_cnpj (d ++ r) ≡ d ++ desmascarar_cnpj r
unfolding desmascarar_cnpj
desmascarar_cnpj-append [] r h = refl
desmascarar_cnpj-append (c ∷ d) r (h, hs) = rw h (ap (λ t. c ∷ t) (desmascarar_cnpj-append d r hs))

desmascarar_cnpj-digits : (d : Texto) → IsDigits d → desmascarar_cnpj d ≡ d
unfolding desmascarar_cnpj
desmascarar_cnpj-digits [] h = refl
desmascarar_cnpj-digits (c ∷ d) (h, hs) = rw h (ap (λ t. c ∷ t) (desmascarar_cnpj-digits d hs))

-- A part, a separator, and what follows.
desmascarar_cnpj-part :
    (n x : ℕ) (d r : Texto)
    → IsDigits d
    → is_digit x ≡ false
    → desmascarar_cnpj r ≡ drop n d
    → desmascarar_cnpj (take n d ++ (x ∷ r)) ≡ d
unfolding desmascarar_cnpj
desmascarar_cnpj-part n x d r h sep rest =
    desmascarar_cnpj-append (take n d) (x ∷ r) (take-IsDigits n d h)
    ∙ ap (λ t. take n d ++ t) (skip ∙ rest)
    ∙ take-drop n d
  where
    skip : desmascarar_cnpj (x ∷ r) ≡ desmascarar_cnpj r
    skip = rw (desmascarar_cnpj, sep)

    take-drop : (n : ℕ) (d : Texto) → take n d ++ drop n d ≡ d
    take-drop zero d = refl
    take-drop (suc n) [] = refl
    take-drop (suc n) (c ∷ d) = ap (λ t. c ∷ t) (take-drop n d)

drop-nil : (n : ℕ) → ◌≡◌ {A = Texto} (drop n []) []
drop-nil zero = refl
drop-nil (suc n) = refl

drop-drop : (n m : ℕ) (d : Texto) → drop m (drop n d) ≡ drop (n + m) d
drop-drop zero m d = ap (λ k. drop k d) zero_add
  where
    zero_add : m ≡ zero + m
    zero_add = omega arith
drop-drop (suc n) m [] = drop-nil m ∙ sym (drop-nil (suc n + m))
drop-drop (suc n) m (c ∷ d) = drop-drop n m d ∙ ap (λ k. drop k (c ∷ d)) suc_add
  where
    suc_add : suc (n + m) ≡ suc n + m
    suc_add = omega arith

length-drop : (n : ℕ) (d : Texto) → (length (drop n d) ≡ 0) ⊎ (length (drop n d) + n ≡ length d)
length-drop zero d = inr (omega arith)
length-drop (suc n) [] = inl refl
length-drop (suc n) (c ∷ d) = elim (length-drop n d) [
  | inl e ↦ inl e
  | inr e ↦ inr (omega (arith, e))
]

take-all : (n : ℕ) (d : Texto) → length d ≤ n → take n d ≡ d
take-all zero [] h = refl
take-all zero (c ∷ d) h = absurd (omega (arith, h))
take-all (suc n) [] h = refl
take-all (suc n) (c ∷ d) h = ap (λ t. c ∷ t) (take-all n d (omega (arith, h)))

take-le : (n : ℕ) (d : Texto) → length (take n d) ≤ n
take-le zero d = omega arith
take-le (suc n) [] = omega arith
take-le (suc n) (c ∷ d) = omega (arith, take-le n d)

either :
    (b : Bool) (x y d : Texto)
    → desmascarar_cnpj x ≡ d
    → desmascarar_cnpj y ≡ d
    → desmascarar_cnpj (if b then x else y) ≡ d
either true x y d h k = h
either false x y d h k = k

-- The separators go, the digits stay.
com_mascara-digits : (d : Texto) → IsDigits d → length d ≤ 14 → desmascarar_cnpj (com_mascara d) ≡ d
unfolding com_mascara
com_mascara-digits d h short = either (leb (length d) 2) _ _ d (desmascarar_cnpj-digits d h) (
    either (leb (length d) 5) _ _ d (first _ (kept 2)) (
      either (leb (length d) 8) _ _ d (first _ (second _ (kept 5))) (
        either (leb (length d) 12) _ _ d (first _ (second _ (third _ (kept 8))))
          (first _ (second _ (third _ (fourth _ (end ∙ kept_end))))))))
  where
    kept : (n : ℕ) → desmascarar_cnpj (drop n d) ≡ drop n d
    kept n = desmascarar_cnpj-digits (drop n d) (drop-IsDigits n d h)

    first :
        (r : Texto) → desmascarar_cnpj r ≡ drop 2 d → desmascarar_cnpj (take 2 d ++ (b'.' ∷ r)) ≡ d
    first r e = desmascarar_cnpj-part 2 b'.' d r h refl e

    second :
        (r : Texto)
        → desmascarar_cnpj r ≡ drop 5 d
        → desmascarar_cnpj (slice 2 3 d ++ (b'.' ∷ r)) ≡ drop 2 d
    second r e =
        desmascarar_cnpj-part 3 b'.' (drop 2 d) r (drop-IsDigits 2 d h) refl
          (e ∙ sym (drop-drop 2 3 d))

    third :
        (r : Texto)
        → desmascarar_cnpj r ≡ drop 8 d
        → desmascarar_cnpj (slice 5 3 d ++ (b'/' ∷ r)) ≡ drop 5 d
    third r e =
        desmascarar_cnpj-part 3 b'/' (drop 5 d) r (drop-IsDigits 5 d h) refl
          (e ∙ sym (drop-drop 5 3 d))

    fourth :
        (r : Texto)
        → desmascarar_cnpj r ≡ drop 12 d
        → desmascarar_cnpj (slice 8 4 d ++ (b'-' ∷ r)) ≡ drop 8 d
    fourth r e =
        desmascarar_cnpj-part 4 b'-' (drop 8 d) r (drop-IsDigits 8 d h) refl
          (e ∙ sym (drop-drop 8 4 d))

    last_two : length (drop 12 d) ≤ 2
    last_two = elim (length-drop 12 d) [
      | inl e ↦ omega (arith, e)
      | inr e ↦ omega (arith, e, short)
    ]

    end : desmascarar_cnpj (slice 12 2 d) ≡ desmascarar_cnpj (drop 12 d)
    end = ap desmascarar_cnpj (take-all 2 (drop 12 d) last_two)

    kept_end : desmascarar_cnpj (drop 12 d) ≡ drop 12 d
    kept_end = kept 12

-- Unmasking a masked text gives the first fourteen digits of the text, in order.
pub desmascarar_cnpj-mascarar_cnpj :
    (v : Texto) → desmascarar_cnpj (mascarar_cnpj v) ≡ take 14 (desmascarar_cnpj v)
unfolding mascarar_cnpj
desmascarar_cnpj-mascarar_cnpj v =
    com_mascara-digits (take 14 (desmascarar_cnpj v))
      (take-IsDigits 14 (desmascarar_cnpj v) (desmascarar_cnpj-IsDigits v))
      (take-le 14 (desmascarar_cnpj v))

-- Masking a masked text changes nothing, so the field may be masked at each key.
pub mascarar_cnpj-mascarar_cnpj : (v : Texto) → mascarar_cnpj (mascarar_cnpj v) ≡ mascarar_cnpj v
unfolding mascarar_cnpj
mascarar_cnpj-mascarar_cnpj v =
    let d = take 14 (desmascarar_cnpj v) in
    ap (λ t. com_mascara (take 14 t)) (desmascarar_cnpj-mascarar_cnpj v)
    ∙ ap com_mascara (take-all 14 d (take-le 14 (desmascarar_cnpj v)))

length-take : (n : ℕ) (d : Texto) → (length (take n d) == n) ≡ leb n (length d)
length-take zero d = ground arith
length-take (suc n) [] = ground arith
length-take (suc n) (c ∷ d) = ground (arith, length-take n d)

-- What the field shows has a valid format exactly when fourteen digits or more were typed.
pub mascarar_cnpj-is_cnpj_formato_valido :
    (v : Texto) → is_cnpj_formato_valido (mascarar_cnpj v) ≡ leb 14 (length (desmascarar_cnpj v))
unfolding is_cnpj_formato_valido
mascarar_cnpj-is_cnpj_formato_valido v =
    ap (λ t. length t == 14) (desmascarar_cnpj-mascarar_cnpj v)
    ∙ length-take 14 (desmascarar_cnpj v)
