-- ===== src/Shared/Sse/Leak.antt =====
-- A second `connect` while a stream is in flight: the controller of the first is forgotten.
use gestao_restaurante.Base.{ℕ, ◌<◌, ◌≡◌, refl, ap, ◌∙◌, true, false, some, List, ◌∷◌, ◌++◌, arith}
use gestao_restaurante.Base.Text.{Texto}
use gestao_restaurante.Shared.Fluxo.{ler}
use gestao_restaurante.Shared.Sse.Keeps.{
  disconnect_lem, abortar-connect, resposta-passo, responder-200, connect-real,
}
use gestao_restaurante.Shared.Sse.Despacho.{chegadas, executar-ler}
use gestao_restaurante.Shared.Sse.{
  abrir, clear_timers, set_status, conectar, executar, eventos_de, lendo, connected,
  SseConnectOptions, aguardando, Aberto, SseClient, is_mock, connect, disconnect, resposta, aberto?,
  passo, sem,
}

-- A stream that stands first is found, if only a later one is taken out.
still_open :
    (n : ℕ) (rest : List Aberto) (d : SseClient) (m : ℕ)
    → d.abertos ≡ sem m (record { id = n; fase = aguardando } ∷ rest)
    → n < m
    → aberto? n d ≡ some (record { id = n; fase = aguardando })
still_open n rest d m e lt = rw e (ground arith)

-- After two calls of `connect`, where the first stream still awaits its response, and a
-- `disconnect`: the response of the first stream makes the client connected again, though it has
-- been disconnected by hand.
pub connect-leaks :
    (c : SseClient) (o : SseConnectOptions) (n : ℕ) (rest : List Aberto) (jitter : ℕ)
    → c.abertos ≡ record { id = n; fase = aguardando } ∷ rest
    → n < c.proximo
    → is_mock o ≡ false
    → ((passo (resposta n 200 jitter) (disconnect (connect o c))).connection_state ≡ connected)
      × ((passo (resposta n 200 jitter) (disconnect (connect o c))).is_manual_disconnect ≡ true)
connect-leaks c o n rest jitter e lt real =
    let after = disconnect (connect o c) in
    let (streams, manual) = disconnect_lem (connect o c) in
    let left = streams ∙ abortar-connect o c real in
    let found = still_open n rest after c.proximo (left ∙ ap (sem c.proximo) e) lt in
    let (state, flag) = responder-200 n jitter after in
    rw (resposta-passo n 200 jitter _ after found refl) (state, flag ∙ manual)

connect_keeps :
    (o : SseConnectOptions) (c : SseClient)
    → is_mock o ≡ false
    → ((passo (conectar o) c).abertos ≡ record { id = c.proximo; fase = aguardando } ∷ c.abertos)
      × ((passo (conectar o) c).eventos ≡ c.eventos)
unfolding passo abrir clear_timers set_status
connect_keeps o c real = rw (connect-real o c real) (ground arith, ground arith)

lendo-open :
    (n : ℕ) (b : Texto) (rest : List Aberto) (d : SseClient) (m : ℕ)
    → d.abertos ≡ record { id = m; fase = aguardando } ∷ record { id = n; fase = lendo b } ∷ rest
    → n < m
    → aberto? n d ≡ some (record { id = n; fase = lendo b })
lendo-open n b rest d m e lt = rw e (ground arith)

-- After another `connect`, a stream that was being read goes on: what it sends is still dispatched.
pub conectar-chegadas :
    (c : SseClient) (o : SseConnectOptions) (n : ℕ) (b : Texto) (rest : List Aberto)
    (ts : List Texto) (agora padrao : Texto)
    → c.abertos ≡ record { id = n; fase = lendo b } ∷ rest
    → n < c.proximo
    → is_mock o ≡ false
    → (executar (chegadas n agora padrao ts) (passo (conectar o) c)).eventos
      ≡ c.eventos ++ eventos_de agora padrao (ler b ts).0
conectar-chegadas c o n b rest ts agora padrao e lt real =
    let (streams, events) = connect_keeps o c real in
    let found =
      lendo-open n b rest (passo (conectar o) c) c.proximo
        (streams ∙ ap (λ xs. record { id = c.proximo; fase = aguardando } ∷ xs) e) lt in
    executar-ler n ts agora padrao b (record { id = n; fase = lendo b }) (passo (conectar o) c)
      found refl
    ∙ ap (λ es. es ++ eventos_de agora padrao (ler b ts).0) events
