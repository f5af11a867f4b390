-- ===== src/Shared/Bloco.antt =====
-- frontend/shared/services/sseClient.ts, `processSseBlock`, and the event of
-- frontend/shared/types/sse.types.ts: one block of the stream, read line by line.
pub mod Campos
pub mod Roundtrip
mod Tests
use gestao_restaurante.Base.{
  ℕ, suc, ◌+◌, Bool, true, false, not, ◌&&◌, Option, none, some, List, [], ◌∷◌, ◌++◌, drop, ◌==◌,
  if◌then◌else◌,
}
use gestao_restaurante.Base.Text.{vazio, Texto, codes, trim, starts_with}

pub record TenantStreamEvent : Type 0 where
  pub event_type : Texto
  pub payload_json : Texto
  pub timestamp : Texto
  pub correlation_id : Texto

-- `s.split('\n')`, with the part before `s` in `atual`.
unfoldable pub linhas_from : Texto → Texto → List Texto
linhas_from atual [] = atual ∷ []
linhas_from atual (c ∷ s) =
    let cut = atual ∷ linhas_from [] s in
    let go_on = linhas_from (atual ++ c ∷ []) s in if c == 10 then cut else go_on

-- What the loop over the lines has read; `batimentos` counts the comments, each of which resets the
-- watchdog.
pub record Leitura : Type 0 where
  pub event_type : Texto
  pub data_payload : Texto
  pub correlation_id : Texto
  pub batimentos : ℕ

abbrev pub nada : Leitura
nada = record { event_type = []; data_payload = []; correlation_id = []; batimentos = 0 }

-- `dataPayload ? dataPayload + '\n' + content : content`
abbrev pub acumular : Texto → Texto → Texto
acumular p content = if vazio p then content else p ++ 10 ∷ content

-- A line that is trimmed and not empty.
unfoldable pub ler_campo : Texto → Leitura → Leitura
ler_campo line l =
    if starts_with line (codes ":")
    then record l { batimentos = l.batimentos + 1 }
    else if starts_with line (codes "event:")
    then record l { event_type = trim (drop 6 line) }
    else if starts_with line (codes "data:")
    then record l { data_payload = acumular l.data_payload (trim (drop 5 line)) }
    else if starts_with line (codes "id:")
    then record l { correlation_id = trim (drop 3 line) }
    else l

unfoldable pub ler_linha : Texto → Leitura → Leitura
unfolding ler_campo
ler_linha raw l = let line = trim raw in if vazio line then l else ler_campo line l

unfoldable pub ler_linhas : List Texto → Leitura → Leitura
unfolding ler_linha
ler_linhas [] l = l
ler_linhas (raw ∷ rest) l = ler_linhas rest (ler_linha raw l)

-- The event of the fields read, if both are there. `agora` is the clock's time, and `padrao` the id
-- that is made from the clock where the block gives none.
unfoldable pub evento_de : Texto → Texto → Leitura → Option TenantStreamEvent
evento_de agora padrao l =
    if not (vazio l.event_type) && not (vazio l.data_payload)
    then some (record {
      event_type = l.event_type;
      payload_json = l.data_payload;
      timestamp = agora;
      correlation_id = if vazio l.correlation_id then padrao else l.correlation_id;
    })
    else none

-- The event dispatched, if any, and how often the watchdog is reset.
unfoldable pub process_sse_block : Texto → Texto → Texto → Option TenantStreamEvent × ℕ
process_sse_block agora padrao block =
    let l = ler_linhas (linhas_from [] block) nada in (evento_de agora padrao l, l.batimentos)
