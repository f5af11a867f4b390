-- ===== src/TempoReal.antt =====
-- frontend/shared/hooks/useRealtimeEvents.ts and useSseStatus.ts: what the application does with the
-- event stream (Shared/Sse) and with the session (Auth). Which queries an event makes stale, which
-- notice it shows, and when the client is connected. What the browser does is a parameter.
pub mod Espelho
pub mod Consultas
pub mod Sessao
pub mod Silencio
pub mod Aviso
mod Tests
use gestao_restaurante.Base.{
  ℕ, Bool, true, false, not, ◌&&◌, String, Option, none, some, List, [], ◌∷◌, ◌++◌, length, drop,
  ltb, if◌then◌else◌,
}
use gestao_restaurante.Base.Text.{Texto, codes, vazio, same}
use gestao_restaurante.Shared.Bloco.{TenantStreamEvent}
use gestao_restaurante.Shared.Sse.{
  SseConnectionState, disconnected, SseConnectOptions, SseClient, Sinal, conectar, desconectar,
  resposta, chunk, texto, fim, falha, hora_de_reconectar, vigia,
}
use gestao_restaurante.Auth.{
  RestauranteTenant, Storage, vazia, AuthState, Json, set_session, set_tenant, logout,
}
use gestao_restaurante.Auth
use gestao_restaurante.Shared.Sse

pub data TipoNotice : Type 0 where
  critico sucesso info : TipoNotice

pub record RealtimeToastNotice : Type 0 where
  pub id : Texto
  pub tipo : TipoNotice
  pub titulo : Texto
  pub mensagem : Texto
  pub data_hora : Texto
  pub icone : Texto

-- The fields of `EstoqueCriticoPayload` that the notice prints, as texts.
pub record EstoqueCriticoPayload : Type 0 where
  pub nome_insumo : Texto
  pub saldo_atual : Texto
  pub saldo_minimo : Texto
  pub unidade_medida : Texto

-- `JSON.parse` of the payload as the notice reads it (`none` where that throws), and the texts that
-- the clock gives: `Date.now().toString(36)` and `new Date().toISOString()`.
pub record Plataforma : Type 0 where
  pub json : Json
  pub ler_critico : Texto → Option EstoqueCriticoPayload
  pub base36 : ℕ → Texto
  pub iso : ℕ → Texto

-- The store `useSseStatus`.
pub record SseStatusState : Type 0 where
  pub status : SseConnectionState
  pub last_event_timestamp : Option Texto
  pub active_toast : Option RealtimeToastNotice

abbrev pub status_inicial : SseStatusState
status_inicial = record { status = disconnected; last_event_timestamp = none; active_toast = none }

-- What `showToast` is given.
pub record Toast : Type 0 where
  pub tipo : TipoNotice
  pub titulo : Texto
  pub mensagem : Texto
  pub icone : Texto

abbrev pub show_toast : Plataforma → ℕ → Toast → SseStatusState → SseStatusState
show_toast p agora t s = record s {
  active_toast = some (record {
    id = codes "toast-" ++ p.base36 agora;
    tipo = t.tipo;
    titulo = t.titulo;
    mensagem = t.mensagem;
    data_hora = p.iso agora;
    icone = t.icone;
  });
}

abbrev pub clear_toast : SseStatusState → SseStatusState
clear_toast s = record s { active_toast = none }

-- `SseEventTypes`, and any other text.
pub data SseEventType : Type 0 where
  estoque_critico estoque_atualizado previsao_concluida venda_registrada : SseEventType
  caixa_turno_fechado outro : SseEventType

unfoldable pub tipo_de_evento : Texto → SseEventType
unfolding same
tipo_de_evento t =
    if same t (codes "EstoqueCritico")
    then estoque_critico
    else if same t (codes "EstoqueAtualizado")
    then estoque_atualizado
    else if same t (codes "PrevisaoDemandaConcluida")
    then previsao_concluida
    else if same t (codes "VendaRegistrada")
    then venda_registrada
    else if same t (codes "CaixaTurnoFechado")
    then caixa_turno_fechado
    else outro

-- The keys that the handler invalidates.
abbrev pub chaves_de : SseEventType → List String
chaves_de estoque_critico = "insumos-estoque" ∷ "capacidade-producao" ∷ []
chaves_de estoque_atualizado = "insumos-estoque" ∷ "capacidade-producao" ∷ []
chaves_de previsao_concluida = "capacidade-producao" ∷ "previsoes-demanda" ∷ []
chaves_de venda_registrada = "caixa-consolidado" ∷ "insumos-estoque" ∷ []
chaves_de caixa_turno_fechado = "caixa-consolidado" ∷ []
chaves_de outro = "capacidade-producao" ∷ "insumos-estoque" ∷ []

-- The warning sign, with its variation selector.
abbrev alerta : Texto
alerta = 9888 ∷ 65039 ∷ []

abbrev pub toast_critico : Option EstoqueCriticoPayload → Toast
toast_critico none = record {
  tipo = critico;
  titulo = codes "Alerta de Ruptura";
  mensagem = codes "Um insumo crítico atingiu nível de reposição urgente.";
  icone = alerta;
}
toast_critico (some p) = record {
  tipo = critico;
  titulo = codes "Alerta de Estoque Crítico";
  mensagem =
      p.nome_insumo
      ++ codes " atingiu "
      ++ p.saldo_atual
      ++ 32 ∷ p.unidade_medida
      ++ codes " (mínimo: "
      ++ p.saldo_minimo
      ++ codes ").";
  icone = alerta;
}

-- The notice of an event, if it has one.
abbrev pub toast_de : Plataforma → SseEventType → Texto → Option Toast
toast_de p estoque_critico payload = some (toast_critico (p.ler_critico payload))
toast_de p estoque_atualizado payload = none
toast_de p previsao_concluida payload = some (record {
  tipo = info;
  titulo = codes "Inteligência Artificial Sincronizada";
  mensagem = codes "Nova projeção de demanda e capacidade calculada pelo HistGradientBoosting.";
  icone = codes "🤖";
})
toast_de p venda_registrada payload = none
toast_de p caixa_turno_fechado payload = some (record {
  tipo = sucesso;
  titulo = codes "Turno de Caixa Fechado";
  mensagem = codes "Conferência física gravada com sucesso no Ledger imutável.";
  icone = codes "🔒";
})
toast_de p outro payload = none

-- The application: the stored session, the client of the stream, the store of the notices, and the
-- keys that have been invalidated, in order.
pub record TempoReal : Type 0 where
  pub sessao : Storage × AuthState
  pub cliente : SseClient
  pub avisos : SseStatusState
  pub invalidadas : List String

abbrev pub inicial : TempoReal
inicial = record {
  sessao = (vazia, Auth.inicial);
  cliente = Sse.inicial;
  avisos = status_inicial;
  invalidadas = [];
}

abbrev pub mostrar : Plataforma → ℕ → Option Toast → SseStatusState → SseStatusState
mostrar p agora none s = s
mostrar p agora (some t) s = show_toast p agora t s

-- The listener of events.
unfoldable pub on_event : Plataforma → ℕ → TenantStreamEvent → TempoReal → TempoReal
unfolding tipo_de_evento
on_event p agora e x =
    let tipo = tipo_de_evento e.event_type in
    record x {
      avisos =
          mostrar p agora (toast_de p tipo e.payload_json)
            (record x.avisos { last_event_timestamp = some e.timestamp });
      invalidadas = x.invalidadas ++ chaves_de tipo;
    }

unfoldable pub on_events : Plataforma → ℕ → List TenantStreamEvent → TempoReal → TempoReal
unfolding on_event
on_events p agora [] x = x
on_events p agora (e ∷ es) x = on_events p agora es (on_event p agora e x)

-- The listener of states: the last one announced.
abbrev pub anunciado : List SseConnectionState → SseConnectionState → SseConnectionState
anunciado [] s = s
anunciado (novo ∷ antigos) s = novo

abbrev pub on_status : TempoReal → TempoReal
on_status x = record x {
  avisos = record x.avisos { status = anunciado x.cliente.avisos x.avisos.status };
}

-- The end of the effect: the stream follows the session.
abbrev pub sinal_da_sessao : Bool → Option Texto → Option RestauranteTenant → Sinal
sinal_da_sessao false token tenant = desconectar
sinal_da_sessao true none tenant = desconectar
sinal_da_sessao true (some t) none = desconectar
sinal_da_sessao true (some t) (some r) =
    if not (vazio t) && not (vazio r.id)
    then conectar (record { url = none; token = t; tenant_id = r.id })
    else desconectar

unfoldable pub sincronizar : AuthState → SseClient → SseClient
sincronizar a c = Sse.passo (sinal_da_sessao a.is_authenticated a.token a.tenant) c

abbrev same_opcao : Option Texto → Option Texto → Bool
same_opcao none none = true
same_opcao (some s) (some t) = same s t
same_opcao _ _ = false

abbrev same_bool : Bool → Bool → Bool
same_bool true b = b
same_bool false b = not b

abbrev id_de : Option RestauranteTenant → Option Texto
id_de none = none
id_de (some r) = some r.id

-- Whether the effect's dependencies are unchanged: `isAuthenticated`, `token`, `tenant?.id`.
unfoldable pub same_dependencias : AuthState → AuthState → Bool
unfolding same
same_dependencias a b =
    same_bool a.is_authenticated b.is_authenticated
    && same_opcao a.token b.token
    && same_opcao (id_de a.tenant) (id_de b.tenant)

-- The session changes, and the effect runs again where a dependency has changed.
unfoldable pub mudar : Storage × AuthState → TempoReal → TempoReal
unfolding same_dependencias sincronizar
mudar s x =
    if same_dependencias x.sessao.1 s.1
    then record x { sessao = s }
    else on_status (record x { sessao = s; cliente = sincronizar s.1 x.cliente })

-- What the network and the timers do; the methods are called by the effect alone.
abbrev pub de_rede : Sinal → Bool
de_rede (conectar o) = false
de_rede desconectar = false
de_rede _ = true

-- The client has moved: its listeners of events and states have been called.
unfoldable pub ouvir : Plataforma → ℕ → SseClient → TempoReal → TempoReal
unfolding on_events
ouvir p agora novo x =
    on_status (
      on_events p agora (drop (length x.cliente.eventos) novo.eventos)
        (record x { cliente = novo }))

-- And `onUnauthorized`, which logs out.
unfoldable pub entregar : Plataforma → ℕ → SseClient → TempoReal → TempoReal
unfolding ouvir mudar logout
entregar p agora novo x =
    let ouvido = ouvir p agora novo x in
    if ltb x.cliente.nao_autorizados novo.nao_autorizados
    then mudar (logout ouvido.sessao) ouvido
    else ouvido

pub data Evento : Type 0 where
  rede : ℕ → Sinal → Evento
  entrar : Auth.Sessao → Evento
  trocar_tenant : RestauranteTenant → Evento
  sair : Evento

unfoldable pub passo : Plataforma → Evento → TempoReal → TempoReal
unfolding entregar mudar set_session set_tenant logout
passo p (rede agora s) x = if de_rede s then entregar p agora (Sse.passo s x.cliente) x else x
passo p (entrar s) x = mudar (set_session p.json s x.sessao) x
passo p (trocar_tenant t) x = mudar (set_tenant p.json t x.sessao) x
passo p sair x = mudar (logout x.sessao) x

unfoldable pub executar : Plataforma → List Evento → TempoReal → TempoReal
unfolding passo
executar p [] x = x
executar p (e ∷ es) x = executar p es (passo p e x)
