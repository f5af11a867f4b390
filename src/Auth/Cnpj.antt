-- ===== src/Auth/Cnpj.antt =====
-- frontend/features/auth/utils/maskUtils.ts: the mask of a CNPJ.
pub mod Mask
mod Tests
use gestao_restaurante.Base.{
  ℕ, Bool, List, [], ◌∷◌, ◌++◌, take, drop, filter, length, leb, ◌==◌, if◌then◌else◌,
}
use gestao_restaurante.Base.Text.{Texto, is_digit}

-- `s.slice(i, j)` where i ≤ j; past the end it stops.
abbrev pub slice : ℕ → ℕ → Texto → Texto
slice i n s = take n (drop i s)

-- `valor.replace(/\D/g, '')`
unfoldable pub desmascarar_cnpj : Texto → Texto
desmascarar_cnpj valor = filter is_digit valor

-- The digits with their separators.
unfoldable pub com_mascara : Texto → Texto
com_mascara d =
    if leb (length d) 2
    then d
    else if leb (length d) 5
    then take 2 d ++ (b'.' ∷ drop 2 d)
    else if leb (length d) 8
    then take 2 d ++ (b'.' ∷ (slice 2 3 d ++ (b'.' ∷ drop 5 d)))
    else if leb (length d) 12
    then take 2 d ++ (b'.' ∷ (slice 2 3 d ++ (b'.' ∷ (slice 5 3 d ++ (b'/' ∷ drop 8 d)))))
    else take 2 d
      ++ (b'.'
          ∷ (slice 2 3 d
              ++ (b'.' ∷ (slice 5 3 d ++ (b'/' ∷ (slice 8 4 d ++ (b'-' ∷ slice 12 2 d)))))))

unfoldable pub mascarar_cnpj : Texto → Texto
unfolding desmascarar_cnpj com_mascara
mascarar_cnpj valor = com_mascara (take 14 (desmascarar_cnpj valor))

unfoldable pub is_cnpj_formato_valido : Texto → Bool
unfolding desmascarar_cnpj
is_cnpj_formato_valido valor = length (desmascarar_cnpj valor) == 14
