-- ===== src/TempoReal/Consultas.antt =====
-- The queries of the application, and which of them the invalidated keys reach. The query cache is a
-- library: how it matches a filter with a key is a parameter.
use gestao_restaurante.Base.{
  ℕ, ◌≡◌, refl, sym, ap, ◌∙◌, append-nil, Bool, false, String, Option, none, some, List, [], ◌∷◌,
  ◌++◌, append_assoc, any, str_eq, Option-cases, inl, inr,
}
use gestao_restaurante.Base.Text.{Texto}
use gestao_restaurante.Shared.Bloco.{TenantStreamEvent}
use gestao_restaurante.TempoReal.{
  Plataforma, TempoReal, Toast, mostrar, critico, RealtimeToastNotice, SseStatusState, SseEventType,
  estoque_critico, estoque_atualizado, previsao_concluida, venda_registrada, caixa_turno_fechado,
  outro, chaves_de, tipo_de_evento, on_event, on_events,
}

-- The first words of the query keys of the stock, the forecasts and the cash session.
abbrev pub chave_insumos : String
chave_insumos = "insumos-estoque"

abbrev pub chave_fichas : String
chave_fichas = "fichas-tecnicas"

abbrev pub chave_capacidade : String
chave_capacidade = "capacidade-producao"

abbrev pub chave_caixa : String
chave_caixa = "caixa"

-- The keys that the mutations of the features invalidate.
abbrev pub chaves_da_venda : List String
chaves_da_venda = "produtos" ∷ "estoque" ∷ []

abbrev pub chaves_do_produto : List String
chaves_do_produto = "produtos" ∷ "fichas-tecnicas" ∷ "estoque" ∷ []

-- Some of the filters of one word matches a key.
abbrev pub alcanca : (List String → List String → Bool) → List String → List String → Bool
alcanca corresponde filtros chave = any (λ f. corresponde (f ∷ []) chave) filtros

-- How the cache documents a filter of one word: it matches the keys that begin with that word.
abbrev pub MatchesFirst : (List String → List String → Bool) → Type 0
MatchesFirst corresponde =
    (f k : String) (ks : List String) → corresponde (f ∷ []) (k ∷ ks) ≡ str_eq f k

module _ (corresponde : List String → List String → Bool) (h : MatchesFirst corresponde) where
  alcanca-eq :
      (fs : List String) (k : String) (ks : List String)
      → alcanca corresponde fs (k ∷ ks) ≡ any (λ f. str_eq f k) fs
  alcanca-eq [] k ks = refl
  alcanca-eq (f ∷ fs) k ks = rw (h f k ks, alcanca-eq fs k ks) refl

  -- If the cache matches a filter of one word with the keys that begin with it: neither an event of
  -- the stream nor a new product reaches the query of the cash session, no event reaches the recipes,
  -- and a sale, though it invalidates a key for the balances, reaches neither the ingredients nor the
  -- production capacity.
  pub never_refreshed :
      (t : SseEventType) (ks : List String)
      → (alcanca corresponde (chaves_de t) (chave_caixa ∷ ks) ≡ false)
        × (alcanca corresponde (chaves_de t) (chave_fichas ∷ ks) ≡ false)
        × (alcanca corresponde chaves_do_produto (chave_caixa ∷ ks) ≡ false)
        × (alcanca corresponde chaves_da_venda (chave_insumos ∷ ks) ≡ false)
        × (alcanca corresponde chaves_da_venda (chave_capacidade ∷ ks) ≡ false)
  never_refreshed t ks = (
    alcanca-eq (chaves_de t) chave_caixa ks ∙ caixa t,
    alcanca-eq (chaves_de t) chave_fichas ks ∙ fichas t,
    alcanca-eq chaves_do_produto chave_caixa ks,
    alcanca-eq chaves_da_venda chave_insumos ks,
    alcanca-eq chaves_da_venda chave_capacidade ks,
  )
    where
      caixa : (t : SseEventType) → any (λ f. str_eq f chave_caixa) (chaves_de t) ≡ false
      caixa estoque_critico = refl
      caixa estoque_atualizado = refl
      caixa previsao_concluida = refl
      caixa venda_registrada = refl
      caixa caixa_turno_fechado = refl
      caixa outro = refl

      fichas : (t : SseEventType) → any (λ f. str_eq f chave_fichas) (chaves_de t) ≡ false
      fichas estoque_critico = refl
      fichas estoque_atualizado = refl
      fichas previsao_concluida = refl
      fichas venda_registrada = refl
      fichas caixa_turno_fechado = refl
      fichas outro = refl

-- The keys that a sequence of events invalidates.
abbrev pub chaves_dos_eventos : List TenantStreamEvent → List String
chaves_dos_eventos [] = []
chaves_dos_eventos (e ∷ es) = chaves_de (tipo_de_evento e.event_type) ++ chaves_dos_eventos es

abbrev pub carimbo : Option Texto → List TenantStreamEvent → Option Texto
carimbo t [] = t
carimbo t (e ∷ es) = carimbo (some e.timestamp) es

mostrar-timestamp :
    (p : Plataforma) (agora : ℕ) (t : Option Toast) (s : SseStatusState)
    → (mostrar p agora t s).last_event_timestamp ≡ s.last_event_timestamp
mostrar-timestamp p agora none s = refl
mostrar-timestamp p agora (some t) s = refl

-- A run of events invalidates the keys of each, in order, and leaves the time of the last.
pub on_events_lem :
    (p : Plataforma) (agora : ℕ) (es : List TenantStreamEvent) (x : TempoReal)
    → ((on_events p agora es x).invalidadas ≡ x.invalidadas ++ chaves_dos_eventos es)
      × ((on_events p agora es x).avisos.last_event_timestamp
          ≡ carimbo x.avisos.last_event_timestamp es)
unfolding on_events on_event
on_events_lem p agora [] x = (sym (append-nil x.invalidadas), refl)
on_events_lem p agora (e ∷ es) x =
    let (keys, stamp) = on_events_lem p agora es (on_event p agora e x) in
    (
      keys
          ∙ append_assoc x.invalidadas (chaves_de (tipo_de_evento e.event_type))
              (chaves_dos_eventos es),
      stamp ∙ ap (λ t. carimbo t es) (mostrar-timestamp p agora _ _),
    )

-- Every event that says a stock is critical shows a critical notice, stamped with the clock, even
-- where its payload cannot be read.
pub estoque_critico-notice :
    (p : Plataforma) (agora : ℕ) (e : TenantStreamEvent) (x : TempoReal)
    → tipo_de_evento e.event_type ≡ estoque_critico
    → (n : RealtimeToastNotice) × ((on_event p agora e x).avisos.active_toast ≡ some n)
      × (n.tipo ≡ critico)
      × (n.data_hora ≡ p.iso agora)
unfolding on_event
estoque_critico-notice p agora e x k = elim (Option-cases (p.ler_critico e.payload_json)) [
  | inl r ↦ rw (k, r) (_, refl, refl, refl)
  | inr (c, r) ↦ rw (k, r) (_, refl, refl, refl)
]
