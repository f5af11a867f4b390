-- ===== src/Shared/Fluxo.antt =====
-- frontend/shared/services/sseClient.ts, the reader loop of `startStreaming`: the text that has
-- arrived is cut at empty lines, and what follows the last cut waits for more.
pub mod Chunks
mod Tests
use gestao_restaurante.Base.{ℕ, ◌&&◌, List, [], ◌∷◌, ◌++◌, ◌==◌, if◌then◌else◌}
use gestao_restaurante.Base.Text.{Texto}

-- `s.split('\n\n')`, with the part before `s` in `atual`.
unfoldable pub split_from : Texto → Texto → List Texto
split_from atual [] = atual ∷ []
split_from atual (c ∷ []) = (atual ++ c ∷ []) ∷ []
split_from atual (c ∷ d ∷ s) =
    let cut = atual ∷ split_from [] s in
    let go_on = split_from (atual ++ c ∷ []) (d ∷ s) in if c == 10 && d == 10 then cut else go_on

unfoldable pub split_blocos : Texto → List Texto
unfolding split_from
split_blocos s = split_from [] s

-- `parts.pop() || ''`: the last part, and those before it.
unfoldable pub separar : List Texto → List Texto × Texto
separar [] = ([], [])
separar (p ∷ []) = ([], p)
separar (p ∷ q ∷ ps) = let (antes, ultimo) = separar (q ∷ ps) in (p ∷ antes, ultimo)

-- One chunk: the blocks that are complete, and the new buffer.
unfoldable pub receber : Texto → Texto → List Texto × Texto
unfolding split_blocos separar
receber buffer chunk = separar (split_blocos (buffer ++ chunk))

-- All chunks from a buffer: the blocks in order, and what is left.
pub ler : Texto → List Texto → List Texto × Texto
unfolding receber
ler buffer [] = ([], buffer)
ler buffer (chunk ∷ chunks) =
    let (blocos, resto) = receber buffer chunk in
    let (outros, fim) = ler resto chunks in (blocos ++ outros, fim)
