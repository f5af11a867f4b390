-- ===== src/Shared/Sse/Tests.antt =====
-- Runs of the client: a connection, its events, its loss, and a second connection.
use gestao_restaurante.Base.{◌≡◌, refl, true, false, none, some, List, [], ◌∷◌, ◌++◌, arith}
use gestao_restaurante.Base.Text.{Texto, codes, starts_with}
use gestao_restaurante.Shared.Fluxo.{split_blocos, separar}
use gestao_restaurante.Shared.Fluxo.Chunks.{juntar}
use gestao_restaurante.Shared.Sse.{
  connecting, connected, SseConnectOptions, SseClient, inicial, aguardando, lendo, set_status,
  clear_timers, reset_heartbeat_watchdog, abrir, start_streaming, connect, responder, eventos_de,
  is_mock, Sinal, conectar, resposta, falha, hora_de_reconectar, vigia, passo, executar,
}
use gestao_restaurante.Shared.Sse.Frozen.{vigia-stuck}
use gestao_restaurante.Shared.Sse.Backoff.{WaitsPromptly, executar-inicial-WaitsPromptly}
use gestao_restaurante.Shared.Sse.Despacho.{chegadas, executar-chegadas}

abbrev opcoes : SseConnectOptions
opcoes = record { url = none; token = codes "eyJ"; tenant_id = codes "t1" }

-- Connected, with one stream, whose response has come.
abbrev ligado : SseClient
ligado = record inicial {
  connection_state = connected;
  heartbeat_timer = true;
  current_options = some opcoes;
  abort_controller = some 0;
  abertos = record { id = 0; fase = lendo [] } ∷ [];
  proximo = 1;
  avisos = connected ∷ connecting ∷ [];
}

-- The request is out.
abbrev pedindo : SseClient
pedindo = record inicial {
  connection_state = connecting;
  current_options = some opcoes;
  abort_controller = some 0;
  abertos = record { id = 0; fase = aguardando } ∷ [];
  proximo = 1;
  avisos = connecting ∷ [];
}

ligar : executar (conectar opcoes ∷ resposta 0 200 0 ∷ []) inicial ≡ ligado
unfolding executar passo connect start_streaming abrir set_status clear_timers responder
    reset_heartbeat_watchdog starts_with
ligar = refl

pedir : executar (conectar opcoes ∷ []) inicial ≡ pedindo
unfolding executar passo connect start_streaming abrir set_status clear_timers responder
    reset_heartbeat_watchdog starts_with
pedir = refl

abbrev historia : List Sinal
historia =
    conectar opcoes ∷ resposta 0 200 3 ∷ falha 0 250 ∷ hora_de_reconectar ∷ resposta 1 503 1000 ∷ []

executar-inicial-WaitsPromptly_example : WaitsPromptly (executar historia inicial)
executar-inicial-WaitsPromptly_example =
    executar-inicial-WaitsPromptly historia
      (tt, (omega arith, (omega arith, (tt, (omega arith, tt)))))

vigia-stuck_example :
    (executar (hora_de_reconectar ∷ falha 0 0 ∷ []) (passo vigia ligado) ≡ passo vigia ligado)
    × ((passo vigia ligado).abertos ≡ [])
    × ((passo vigia ligado).reconnect_timer ≡ none)
    × ((passo vigia ligado).connection_state ≡ connected)
vigia-stuck_example =
    vigia-stuck ligado (hora_de_reconectar ∷ falha 0 0 ∷ []) refl refl refl (refl, tt)
      (tt, (tt, tt))

real : is_mock opcoes ≡ false
unfolding starts_with
real = refl

-- Two blocks in three chunks, then the beginning of a third.
abbrev pedacos : List Texto
pedacos = codes "data: 1" ∷ (10 ∷ 10 ∷ codes "data: 2") ∷ (10 ∷ 10 ∷ codes "da") ∷ []

executar-chegadas_example :
    (executar (chegadas 0 (codes "t") (codes "p") pedacos) ligado).eventos
    ≡ [] ++ eventos_de (codes "t") (codes "p") (separar (split_blocos (juntar pedacos))).0
executar-chegadas_example =
    executar-chegadas 0 pedacos (codes "t") (codes "p") (record { id = 0; fase = lendo [] }) ligado
      refl refl
