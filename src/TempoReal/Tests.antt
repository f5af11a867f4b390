-- ===== src/TempoReal/Tests.antt =====
-- A login, a lost session, a change of restaurant.
use gestao_restaurante.Base.{
  ◌≡◌, refl, false, true, none, some, String, List, [], ◌∷◌, ◌++◌, str_eq, Bool, arith,
}
use gestao_restaurante.Base.Text.{Texto, codes, same, starts_with}
use gestao_restaurante.Shared.Bloco.{TenantStreamEvent}
use gestao_restaurante.Shared.Fluxo.{ler}
use gestao_restaurante.Shared.Sse.{
  connected, SseConnectOptions, aguardando, lendo, SseClient, resposta, chunk, fim, Sinal,
  eventos_de, set_status, clear_timers, abrir, start_streaming, connect,
}
use gestao_restaurante.Shared.Sse.Despacho.{chegadas}
use gestao_restaurante.Auth.{
  RestauranteTenant, OperadorRecente, Json, AuthState, auth_token, get_string, set_item,
  set_session, set_tenant,
}
use gestao_restaurante.Auth
use gestao_restaurante.Shared.Sse
use gestao_restaurante.TempoReal.{
  Plataforma, estoque_critico, tipo_de_evento, TempoReal, inicial, sincronizar, same_dependencias,
  mudar, rede, entrar, trocar_tenant, sair, passo, executar,
}
use gestao_restaurante.TempoReal.Espelho.{executar-inicial-status}
use gestao_restaurante.TempoReal.Sessao.{resposta-401-sair, trocar_tenant-chegadas}
use gestao_restaurante.TempoReal.Silencio.{sinais, sair-silences}

abbrev plataforma : Plataforma
plataforma = record {
  json = record {
    stringify_tenant = λ t. t.id;
    stringify_operador = λ o. [];
    parse_tenant = λ t. none;
    parse_operador = λ t. none;
  };
  ler_critico = λ t. none;
  base36 = λ n. n ∷ [];
  iso = λ n. n ∷ [];
}

abbrev restaurante : Texto → RestauranteTenant
restaurante id = record {
  id = id;
  nome = codes "R";
  cnpj = codes "1";
  filial_numero = codes "F";
  ativo = true;
}

abbrev operador : OperadorRecente
operador = record {
  id = "o";
  nome = codes "O";
  matricula = codes "1";
  foto_url = none;
  email = codes "o@r.com";
  iniciais = none;
  cargo = none;
  role = none;
  restaurantes_vinculados = none;
}

abbrev login : Auth.Sessao
login = record {
  token = codes "eyJ";
  refresh_token = codes "r";
  tenant = restaurante (codes "t1");
  operador = operador;
}

executar-inicial-status_example :
    (executar plataforma (entrar login ∷ sair ∷ []) inicial).avisos.status
    ≡ (executar plataforma (entrar login ∷ sair ∷ []) inicial).cliente.connection_state
executar-inicial-status_example = executar-inicial-status plataforma (entrar login ∷ sair ∷ [])

abbrev sinais_tardios : List Sinal
sinais_tardios = chunk 0 (codes "data: 1") [] [] ∷ fim 0 3 ∷ []

sair-silences_example :
    executar plataforma
      (sinais 5 sinais_tardios)
      (passo plataforma sair (executar plataforma (entrar login ∷ []) inicial))
    ≡ passo plataforma sair (executar plataforma (entrar login ∷ []) inicial)
unfolding executar passo mudar same_dependencias same sincronizar set_session Sse.passo connect
    start_streaming set_status clear_timers abrir starts_with
sair-silences_example =
    sair-silences plataforma (entrar login ∷ []) 5 sinais_tardios refl (refl, tt) (tt, (tt, tt))

-- A stream that awaits its response.
abbrev pedindo : TempoReal
pedindo = record inicial {
  cliente = record Sse.inicial {
    abertos = record { id = 0; fase = aguardando } ∷ [];
    abort_controller = some 0;
    proximo = 1;
  };
}

resposta-401-sair_example :
    ((passo plataforma (rede 5 (resposta 0 401 7)) pedindo).sessao.1.is_authenticated ≡ false)
    × (get_string auth_token (passo plataforma (rede 5 (resposta 0 401 7)) pedindo).sessao.0 ≡ none)
    × ((passo plataforma (rede 5 (resposta 0 401 7)) pedindo).cliente.connection_state
        ≡ Sse.disconnected)
resposta-401-sair_example =
    resposta-401-sair plataforma 5 0 7 (record { id = 0; fase = aguardando }) pedindo refl refl

-- The first restaurant's stream is being read.
abbrev lendo_t1 : TempoReal
lendo_t1 = record inicial {
  sessao = (
    Auth.vazia,
    record Auth.inicial {
      token = some (codes "eyJ");
      tenant = some (restaurante (codes "t1"));
      is_authenticated = true;
    },
  );
  cliente = record Sse.inicial {
    connection_state = connected;
    abertos = record { id = 0; fase = lendo [] } ∷ [];
    abort_controller = some 0;
    proximo = 1;
  };
}

outro_id :
    same_dependencias lendo_t1.sessao.1
      (set_tenant plataforma.json (restaurante (codes "t2")) lendo_t1.sessao).1
    ≡ false
unfolding same_dependencias same set_tenant
outro_id = refl

real : Sse.is_mock (record { url = none; token = codes "eyJ"; tenant_id = codes "t2" }) ≡ false
unfolding starts_with
real = refl

trocar_tenant-chegadas_example :
    (Sse.executar
      (chegadas 0 (codes "t") (codes "p") (codes "data: 1" ∷ (10 ∷ 10 ∷ []) ∷ []))
      (passo plataforma (trocar_tenant (restaurante (codes "t2"))) lendo_t1).cliente).eventos
    ≡ [] ++ eventos_de (codes "t") (codes "p") (ler [] (codes "data: 1" ∷ (10 ∷ 10 ∷ []) ∷ [])).0
trocar_tenant-chegadas_example =
    trocar_tenant-chegadas plataforma lendo_t1 (restaurante (codes "t2")) (codes "eyJ") 0 [] []
      (codes "data: 1" ∷ (10 ∷ 10 ∷ []) ∷ []) (codes "t") (codes "p") refl refl refl outro_id real
      refl (omega arith)

-- A cache that compares the first words.
abbrev por_palavra : List String → List String → Bool
por_palavra [] chave = true
por_palavra (f ∷ fs) [] = false
por_palavra (f ∷ fs) (k ∷ ks) = str_eq f k

abbrev critico_recebido : TenantStreamEvent
critico_recebido = record {
  event_type = codes "EstoqueCritico";
  payload_json = codes "nada";
  timestamp = codes "t";
  correlation_id = [];
}

e_critico : tipo_de_evento critico_recebido.event_type ≡ estoque_critico
unfolding tipo_de_evento same
e_critico = refl
