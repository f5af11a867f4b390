-- ===== src/Perfil/Turno.antt =====
-- frontend/features/perfil: the end of a shift. The rest of hooks/usePerfil.ts (the choice of the
-- restaurant, the lock, the closing of the shift and the session that its dialog is given),
-- components/ModalBloqueioTerminal.tsx, the closing's buttons of
-- features/caixa/components/ModalConfirmarFechamento.tsx, and the search of
-- features/auth/components/TenantSelectorModal.tsx.
pub mod Fim
pub mod Filiais
mod Tests
use gestao_restaurante.Base.{
  ℕ, zero, suc, ◌+◌, ◌*◌, Bool, true, false, not, ◌&&◌, ◌||◌, String, Option, none, some, List, [],
  ◌∷◌, ◌++◌, filter, length, leb, ltb, if◌then◌else◌,
}
use gestao_restaurante.Base.Text.{Texto, codes, vazio, trim, includes, to_lower_case, is_digit}
use gestao_restaurante.Auth.{
  RestauranteTenant, OperadorRecente, Json, Storage, AuthState, set_tenant, logout,
}
use gestao_restaurante.Caixa.{MetodoPagamentoResumo, SessaoCaixaResumo, TipoPagamento, aberta}
use gestao_restaurante.Caixa
use gestao_restaurante.Perfil.{ShiftMetrics}

pub data ImpressoraStatus : Type 0 where
  pronta atencao offline : ImpressoraStatus

pub record TerminalStatus : Type 0 where
  pub sse_online : Bool
  pub sse_latency : String
  pub impressora_nome : String
  pub impressora_status : ImpressoraStatus
  pub versao_app : String
  pub build_numero : String

-- `obterStatusTerminal(sseConectado)`
abbrev pub obter_status_terminal : Bool → TerminalStatus
obter_status_terminal conectado = record {
  sse_online = conectado;
  sse_latency = "18ms";
  impressora_nome = "Bluetooth 80mm • Bobina 75%";
  impressora_status = pronta;
  versao_app = "Versão 1.0.0";
  build_numero = "Build 104";
}

-- `metricas?.campo || d`, for a number and for a text.
abbrev pub ou_numero : Option ShiftMetrics → (ShiftMetrics → ℕ) → ℕ → ℕ
ou_numero none f d = d
ou_numero (some m) f d = if ltb 0 (f m) then f m else d

abbrev pub ou_texto : Texto → Texto → Texto
ou_texto t d = if vazio t then d else t

abbrev pub inicio_de : Option ShiftMetrics → Texto
inicio_de none = codes "08:30"
inicio_de (some m) = ou_texto (codes m.inicio_turno) (codes "08:30")

abbrev pub turno_de : Option ShiftMetrics → Texto
turno_de none = codes "Turno Operacional"
turno_de (some m) =
    if vazio (codes m.turno_numero)
    then codes "Turno Operacional"
    else codes "Turno " ++ codes m.turno_numero

abbrev pub nome_de : Option OperadorRecente → Texto
nome_de none = codes "Operador Homologação"
nome_de (some o) = ou_texto o.nome (codes "Operador Homologação")

-- `sessaoFechamento`
unfoldable pub sessao_fechamento : Option ShiftMetrics → Option OperadorRecente → SessaoCaixaResumo
sessao_fechamento m o = record {
  id = "sessao-atual";
  status = aberta;
  terminal = "Terminal 01";
  data_hora_formatada = inicio_de m ++ codes " - Hoje";
  turno = turno_de m;
  operador = nome_de o;
  total_apurado = ou_numero m (λ x. x.volume_total) 1280000;
  percentual_meta = 1000 * ou_numero m (λ x. x.tendencia_percentual) 18;
  total_vendas = ou_numero m (λ x. x.total_vendas) 24;
  ticket_medio = ou_numero m (λ x. x.ticket_medio) 53350;
  pagamentos =
      record {
        id = "pix";
        nome = "PIX";
        tipo = TipoPagamento.pix;
        valor = ou_numero m (λ x. x.tender_breakdown.pix) 720000;
        percentual = 56;
        transacoes_texto = "Instantâneo";
        badge = some "Instantâneo";
        cor_barra = "#B3261E";
        icone = codes "⚡";
      }
      ∷ record {
        id = "cartao";
        nome = "Cartão Crédito/Débito";
        tipo = TipoPagamento.credito;
        valor = ou_numero m (λ x. x.tender_breakdown.cartao) 440500;
        percentual = 34;
        transacoes_texto = "Maquininha Integrada";
        badge = none;
        cor_barra = "#D9381E";
        icone = codes "💳";
      }
      ∷ record {
        id = "dinheiro";
        nome = "Dinheiro em Espécie";
        tipo = TipoPagamento.dinheiro;
        valor = ou_numero m (λ x. x.tender_breakdown.dinheiro) 120000;
        percentual = 10;
        transacoes_texto = "Cédulas na Gaveta";
        badge = some "Gaveta OK";
        cor_barra = "#FCE8E6";
        icone = codes "💵";
      }
      ∷ [];
  clima = record {
    temperatura = 24000;
    condicao = "Estável";
    umidade = 60;
    status_umidade = "Ideal";
    chuva_mm = 0;
    status_chuva = "Sem Impacto";
  };
}

-- `filiaisFiltradas` of the branches' dialog.
abbrev pub so_digitos : Texto → Texto
so_digitos = filter is_digit

abbrev pub filial_contem : Texto → RestauranteTenant → Bool
filial_contem termo t =
    includes (to_lower_case t.nome) termo
    || includes (so_digitos t.cnpj) (so_digitos termo)
    || includes (to_lower_case t.cnpj) termo
    || (not (vazio t.filial_numero) && includes (to_lower_case t.filial_numero) termo)

unfoldable pub filiais_filtradas : Texto → List RestauranteTenant → List RestauranteTenant
unfolding trim includes to_lower_case
filiais_filtradas busca tenants =
    let termo = to_lower_case (trim busca) in
    if vazio termo then tenants else filter (filial_contem termo) tenants

-- The state of the screen: the session, whether the API answers, the branches' dialog with its
-- search, the lock with its code, and the closing, with the waits of 600 ms in flight and how often
-- the user was led to the login.
pub record Turno : Type 0 where
  pub sessao : Storage × AuthState
  pub is_api_online : Bool
  pub is_tenant_modal_open : Bool
  pub busca : Texto
  pub is_bloqueado : Bool
  pub pin : Texto
  pub erro : Bool
  pub is_confirmar_fechamento_open : Bool
  pub is_fechando_caixa : Bool
  pub esperas : ℕ
  pub saidas : ℕ

abbrev pub inicial : Storage × AuthState → Turno
inicial s = record {
  sessao = s;
  is_api_online = true;
  is_tenant_modal_open = false;
  busca = [];
  is_bloqueado = false;
  pin = [];
  erro = false;
  is_confirmar_fechamento_open = false;
  is_fechando_caixa = false;
  esperas = 0;
  saidas = 0;
}

-- `logout(); router.replace('/(auth)/login')`
unfoldable pub handle_logout : Turno → Turno
unfolding logout
handle_logout x = record x { sessao = logout x.sessao; saidas = x.saidas + 1 }

-- `handleTentarDesbloqueio`
unfoldable pub handle_tentar_desbloqueio : Turno → Turno
handle_tentar_desbloqueio x =
    if leb 4 (length x.pin)
    then record x { pin = []; erro = false; is_bloqueado = false }
    else record x { erro = true }

-- `handleConfirmarFechamentoTurno` up to its wait, from the button of the dialog.
unfoldable pub handle_confirmar_fechamento_turno : Turno → Turno
handle_confirmar_fechamento_turno x =
    if x.is_confirmar_fechamento_open && not x.is_fechando_caixa && x.is_api_online
    then record x { is_fechando_caixa = true; esperas = suc x.esperas }
    else x

-- What follows the wait.
unfoldable pub concluir_fechamento : Turno → Turno
unfolding handle_logout
concluir_fechamento x = record (handle_logout (record x { is_confirmar_fechamento_open = false })) {
  is_fechando_caixa = false;
}

-- What happens to the screen. The dialog of the closing has two ways out: its button, which is
-- disabled during a closing, and the backdrop, the cross and the back key, which are not.
pub data Acao : Type 0 where
  conexao : Bool → Acao
  abrir_filiais fechar_filiais : Acao
  buscar : Texto → Acao
  escolher_filial : RestauranteTenant → Acao
  bloquear tentar_desbloqueio sair : Acao
  digitar_pin : Texto → Acao
  abrir_fechamento voltar_fechamento dispensar_fechamento confirmar_fechamento : Acao
  fim_da_espera : Acao

unfoldable pub passo : Json → Acao → Turno → Turno
unfolding handle_logout handle_tentar_desbloqueio handle_confirmar_fechamento_turno
    concluir_fechamento set_tenant
passo json (conexao b) x = record x { is_api_online = b }
passo json abrir_filiais x = record x { is_tenant_modal_open = true }
passo json fechar_filiais x = record x { is_tenant_modal_open = false; busca = [] }
passo json (buscar t) x = record x { busca = t }
passo json (escolher_filial t) x = record x {
  sessao = set_tenant json t x.sessao;
  is_tenant_modal_open = false;
  busca = [];
}
passo json bloquear x = record x { is_bloqueado = true }
passo json tentar_desbloqueio x = if x.is_bloqueado then handle_tentar_desbloqueio x else x
passo json sair x = if x.is_bloqueado then handle_logout x else x
passo json (digitar_pin t) x = record x { pin = t; erro = false }
passo json abrir_fechamento x = record x { is_confirmar_fechamento_open = true }
passo json voltar_fechamento x =
    if x.is_fechando_caixa then x else record x { is_confirmar_fechamento_open = false }
passo json dispensar_fechamento x = record x { is_confirmar_fechamento_open = false }
passo json confirmar_fechamento x = handle_confirmar_fechamento_turno x
passo json fim_da_espera x = elim x.esperas [
  | zero ↦ x
  | suc n ↦ concluir_fechamento (record x { esperas = n })
]

unfoldable pub executar : Json → List Acao → Turno → Turno
unfolding passo
executar json [] x = x
executar json (a ∷ acoes) x = executar json acoes (passo json a x)
