-- ===== src/Shared/Bloco/Tests.antt =====
-- Blocks as the server sends them.
use gestao_restaurante.Base.{◌≡◌, refl, some, List, [], ◌∷◌, ◌++◌, map, All, arith}
use gestao_restaurante.Base.Text.{codes, trim, trim_start, starts_with}
use gestao_restaurante.Shared.Bloco.{
  TenantStreamEvent, linhas_from, ler_campo, ler_linha, ler_linhas, evento_de, process_sse_block,
}
use gestao_restaurante.Shared.Bloco.Campos.{unir_linhas, Campo, event, data_, id, linha_de, IsCampo}
use gestao_restaurante.Shared.Bloco.Roundtrip.{
  sse_message, process_sse_block-campos, process_sse_block-sse_message,
}

abbrev venda : TenantStreamEvent
venda = record {
  event_type = codes "VendaRegistrada";
  payload_json = codes "{}";
  timestamp = codes "t";
  correlation_id = codes "c1";
}

lido :
    process_sse_block
      (codes "t")
      (codes "c1")
      (codes ": ping" ++ (10 ∷ (codes "event:VendaRegistrada " ++ (10 ∷ codes "data: {}"))))
    ≡ (some venda, 1)
unfolding process_sse_block linhas_from ler_linhas ler_linha ler_campo evento_de trim trim_start
    starts_with
lido = refl

-- The fields in an order of their own, with two lines of payload and a type that is printed twice.
abbrev campos : List Campo
campos =
    data_ (codes "{")
    ∷ event (codes "x")
    ∷ id (codes "c1")
    ∷ data_ (codes "}")
    ∷ event (codes "VendaRegistrada")
    ∷ []

campos-IsCampo : All IsCampo campos
campos-IsCampo = (
  record { starts = refl; ends = refl; one_line = omega arith },
  (
    record { starts = refl; ends = refl; one_line = omega arith },
    (
      record { starts = refl; ends = refl; one_line = omega arith },
      (
        record { starts = refl; ends = refl; one_line = omega arith },
        (record { starts = refl; ends = refl; one_line = omega arith }, tt),
      ),
    ),
  ),
)

process_sse_block-campos_example :
    process_sse_block (codes "t") (codes "p") (unir_linhas (map linha_de campos)) ≡ (
      some (record {
        event_type = codes "VendaRegistrada";
        payload_json = codes "{" ++ (10 ∷ codes "}");
        timestamp = codes "t";
        correlation_id = codes "c1";
      }),
      0,
    )
process_sse_block-campos_example =
    process_sse_block-campos (codes "t") (codes "p") campos campos-IsCampo (λ e. ground (arith, e))
      (λ e. ground (arith, e))

process_sse_block-sse_message_example :
    process_sse_block
      (codes "t")
      (codes "p")
      (sse_message (codes "c1") (codes "VendaRegistrada") (codes "{}"))
    ≡ (some venda, 0)
process_sse_block-sse_message_example =
    process_sse_block-sse_message (codes "t") (codes "p") (codes "c1") (codes "VendaRegistrada")
      (codes "{}") (record { starts = refl; ends = refl; one_line = omega arith })
      (record { starts = refl; ends = refl; one_line = omega arith })
      (record { starts = refl; ends = refl; one_line = omega arith })
