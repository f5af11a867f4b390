-- ===== src/Shared/Bloco/Roundtrip.antt =====
-- A block is read back, whatever the order of its fields. The server of this repository prints the id,
-- the type and the payload
-- (src/RestauranteInteligente.Api/Controllers/EventsController.cs, the loop over the events).
use gestao_restaurante.Base.{
  ◌≡◌, ◌≢◌, refl, sym, ap, ◌∙◌, false, some, List, [], ◌∷◌, ◌++◌, map, append-nil, All,
  if◌then◌else◌, arith,
}
use gestao_restaurante.Base.Text.{vazio, Texto, codes}
use gestao_restaurante.Shared.Bloco.{nada, evento_de, process_sse_block}
use gestao_restaurante.Shared.Bloco.Campos.{
  cauda, unir_linhas, StartsClean, StartsClean-append, IsField, Campo, event, data_, id, linha_de,
  tipos, dados, ids, ultimo, somar, IsCampo, ler_linhas-campos, somar-cauda, linhas_from-campos,
}

vazio-clean : (s : Texto) → StartsClean s → vazio s ≡ false
vazio-clean [] h = absurd h
vazio-clean (c ∷ s) h = refl

-- The text of a field starts clean, whichever is the last.
tipos-Clean : (cs : List Campo) → All IsCampo cs → All StartsClean (tipos cs)
tipos-Clean [] h = tt
tipos-Clean (event s ∷ cs) (h, hs) = (h.starts, tipos-Clean cs hs)
tipos-Clean (data_ s ∷ cs) (h, hs) = tipos-Clean cs hs
tipos-Clean (id s ∷ cs) (h, hs) = tipos-Clean cs hs

dados-Clean : (cs : List Campo) → All IsCampo cs → All StartsClean (dados cs)
dados-Clean [] h = tt
dados-Clean (event s ∷ cs) (h, hs) = dados-Clean cs hs
dados-Clean (data_ s ∷ cs) (h, hs) = (h.starts, dados-Clean cs hs)
dados-Clean (id s ∷ cs) (h, hs) = dados-Clean cs hs

ids-Clean : (cs : List Campo) → All IsCampo cs → All StartsClean (ids cs)
ids-Clean [] h = tt
ids-Clean (event s ∷ cs) (h, hs) = ids-Clean cs hs
ids-Clean (data_ s ∷ cs) (h, hs) = ids-Clean cs hs
ids-Clean (id s ∷ cs) (h, hs) = (h.starts, ids-Clean cs hs)

ultimo-Clean : (x : Texto) (xs : List Texto) → All StartsClean (x ∷ xs) → StartsClean (ultimo x xs)
ultimo-Clean x [] (h, hs) = h
ultimo-Clean x (y ∷ ys) (h, hs) = ultimo-Clean y ys hs

ultimo-vazio : (xs : List Texto) → All StartsClean xs → xs ≢ [] → vazio (ultimo [] xs) ≡ false
ultimo-vazio [] h k = absurd (k refl)
ultimo-vazio (x ∷ xs) h k = vazio-clean (ultimo x xs) (ultimo-Clean x xs h)

-- The id of the block, or the one made from the clock.
ultimo-padrao :
    (padrao : Texto) (xs : List Texto)
    → All StartsClean xs
    → (if vazio (ultimo [] xs) then padrao else ultimo [] xs) ≡ ultimo padrao xs
ultimo-padrao padrao [] h = refl
ultimo-padrao padrao (x ∷ xs) h = rw (vazio-clean (ultimo x xs) (ultimo-Clean x xs h)) refl

somar-unir : (xs : List Texto) → All StartsClean xs → somar [] xs ≡ unir_linhas xs
somar-unir [] h = refl
somar-unir (x ∷ xs) (h, hs) = somar-cauda x xs h

unir-vazio : (xs : List Texto) → All StartsClean xs → xs ≢ [] → vazio (unir_linhas xs) ≡ false
unir-vazio [] h k = absurd (k refl)
unir-vazio (x ∷ xs) (h, hs) k = vazio-clean (x ++ cauda xs) (StartsClean-append x (cauda xs) h)

evento_de-campos :
    (agora padrao : Texto) (cs : List Campo)
    → All IsCampo cs
    → tipos cs ≢ []
    → dados cs ≢ []
    → evento_de agora padrao (record {
      event_type = ultimo [] (tipos cs);
      data_payload = somar [] (dados cs);
      correlation_id = ultimo [] (ids cs);
      batimentos = 0;
    })
      ≡ some (record {
        event_type = ultimo [] (tipos cs);
        payload_json = unir_linhas (dados cs);
        timestamp = agora;
        correlation_id = ultimo padrao (ids cs);
      })
unfolding evento_de
evento_de-campos agora padrao cs h t d =
    rw
      (
        somar-unir (dados cs) (dados-Clean cs h),
        ultimo-vazio (tipos cs) (tipos-Clean cs h) t,
        unir-vazio (dados cs) (dados-Clean cs h) d,
        ultimo-padrao padrao (ids cs) (ids-Clean cs h),
      )
      refl

-- A block that is printed for fields in any order, a type and a line of payload among them, each a
-- single line without white space at its ends: reading it gives, at the time of reading, the event of
-- the last type, of all the lines of the payload in their order, and of the last id, or of the one
-- made from the clock where there is none; and it resets the watchdog no further.
pub process_sse_block-campos :
    (agora padrao : Texto) (cs : List Campo)
    → All IsCampo cs
    → tipos cs ≢ []
    → dados cs ≢ []
    → process_sse_block agora padrao (unir_linhas (map linha_de cs)) ≡ (
      some (record {
        event_type = ultimo [] (tipos cs);
        payload_json = unir_linhas (dados cs);
        timestamp = agora;
        correlation_id = ultimo padrao (ids cs);
      }),
      0,
    )
unfolding process_sse_block
process_sse_block-campos agora padrao [] h t d = absurd (t refl)
process_sse_block-campos agora padrao (c ∷ cs) h t d =
    rw (linhas_from-campos c cs h, ler_linhas-campos (c ∷ cs) nada h)
      (ap (λ e. (e, 0)) (evento_de-campos agora padrao (c ∷ cs) h t d))

-- `sseMessage` of the server's controller, up to the empty line that ends it.
abbrev pub sse_message : Texto → Texto → Texto → Texto
sse_message correlation_id event_type payload_json =
    codes "id: "
    ++ (correlation_id
        ++ (10 ∷ (codes "event: " ++ (event_type ++ (10 ∷ (codes "data: " ++ payload_json))))))

-- A message of the server, whose id, type and payload are single lines without white space at their
-- ends, is read back as its event: the same id, type and payload, at the time of reading.
pub process_sse_block-sse_message :
    (agora padrao correlation_id event_type payload_json : Texto)
    → IsField correlation_id
    → IsField event_type
    → IsField payload_json
    → process_sse_block agora padrao (sse_message correlation_id event_type payload_json) ≡ (
      some (record {
        event_type = event_type;
        payload_json = payload_json;
        timestamp = agora;
        correlation_id = correlation_id;
      }),
      0,
    )
process_sse_block-sse_message agora padrao i e p hi he hp =
    ap (λ t. process_sse_block agora padrao (sse_message i e t)) (sym (append-nil p))
    ∙ process_sse_block-campos agora padrao (id i ∷ event e ∷ data_ p ∷ []) (hi, (he, (hp, tt)))
        (λ k. ground (arith, k)) (λ k. ground (arith, k))
    ∙ rw (append-nil p) refl
