-- ===== src/Shared/Fluxo/Tests.antt =====
-- A stream in two cuttings.
use gestao_restaurante.Base.{◌≡◌, refl, List, [], ◌∷◌}
use gestao_restaurante.Base.Text.{Texto, codes}
use gestao_restaurante.Shared.Fluxo.{split_blocos, separar, ler}
use gestao_restaurante.Shared.Fluxo.Chunks.{juntar, ler-split}

-- "a\n", "\n\nb\n\nc": the empty line falls between two chunks.
abbrev pedacos : List Texto
pedacos = (b'a' ∷ 10 ∷ []) ∷ (10 ∷ 10 ∷ b'b' ∷ 10 ∷ 10 ∷ b'c' ∷ []) ∷ []

ler-pedacos : ler [] pedacos ≡ (codes "a" ∷ (10 ∷ b'b' ∷ []) ∷ [], codes "c")
unfolding ler
ler-pedacos = refl

ler-split_example : ler [] pedacos ≡ separar (split_blocos (juntar pedacos))
ler-split_example = ler-split pedacos
