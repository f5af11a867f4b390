-- ===== src/Perfil.antt =====
-- frontend/features/perfil: the cash drawer of the shift. The state of hooks/usePerfil.ts with the
-- form of components/ModalMovimentacaoCaixa.tsx, over services/perfilService.ts. Amounts are in
-- thousandths of a real, and exact: the program adds them as doubles and rounds nothing.
pub mod Gaveta
pub mod Turno
pub mod Vista
mod Tests
use gestao_restaurante.Base.{
  ℕ, zero, suc, ◌+◌, ◌-◌, Bool, true, false, not, ◌&&◌, ◌||◌, String, Option, none, some, List, [],
  ◌∷◌, ltb, if◌then◌else◌,
}
use gestao_restaurante.Base.Number.{ℤ, pos, negsuc}
use gestao_restaurante.Base.Text.{Texto, vazio, trim, replace_first}
use gestao_restaurante.Base.Decimal.{parse_float}

pub data TipoMovimentacaoCaixa : Type 0 where
  suprimento sangria : TipoMovimentacaoCaixa

pub record TenderBreakdown : Type 0 where
  pub pix : ℕ
  pub cartao : ℕ
  pub dinheiro : ℕ

pub record ShiftMetrics : Type 0 where
  pub turno_numero : String
  pub inicio_turno : String
  pub tempo_decorrido : String
  pub total_vendas : ℕ
  pub ticket_medio : ℕ
  pub volume_total : ℕ
  pub tendencia_percentual : ℕ
  pub tender_breakdown : TenderBreakdown

pub record MovimentacaoCaixaInput : Type 0 where
  pub tipo : TipoMovimentacaoCaixa
  pub valor : ℕ
  pub motivo : Texto

-- `obterMetricasTurno()`
abbrev pub obter_metricas_turno : ShiftMetrics
obter_metricas_turno = record {
  turno_numero = "#108";
  inicio_turno = "08:30";
  tempo_decorrido = "Há 3h 15m";
  total_vendas = 24;
  ticket_medio = 53350;
  volume_total = 1280000;
  tendencia_percentual = 18;
  tender_breakdown = record { pix = 720000; cartao = 440500; dinheiro = 120000 };
}

-- `novoSaldoDinheiro` of `registrarMovimentacao`: `Math.max(0, saldoAtual + delta)`, without what the
-- double adds or takes.
unfoldable pub registrar_movimentacao : MovimentacaoCaixaInput → ℕ → ℕ
registrar_movimentacao dados saldo_atual = elim dados.tipo [
  | suprimento ↦ saldo_atual + dados.valor
  | sangria ↦ saldo_atual - dados.valor
]

pub data Erro : Type 0 where
  valor_zero valor_acima_do_saldo sem_motivo : Erro

-- The form's state.
pub record Formulario : Type 0 where
  pub valor_texto : Texto
  pub motivo : Texto
  pub erro : Option Erro

abbrev pub limpo : Formulario
limpo = record { valor_texto = []; motivo = []; erro = none }

-- The state of the screen, and the movements that it has reported as done, newest first.
pub record Perfil : Type 0 where
  pub metricas : Option ShiftMetrics
  pub is_movimentacao_open : Bool
  pub tipo_movimentacao : TipoMovimentacaoCaixa
  pub is_bloqueado : Bool
  pub formulario : Formulario
  pub realizadas : List MovimentacaoCaixaInput

abbrev pub inicial : Perfil
inicial = record {
  metricas = none;
  is_movimentacao_open = false;
  tipo_movimentacao = suprimento;
  is_bloqueado = false;
  formulario = limpo;
  realizadas = [];
}

-- `metricas?.tenderBreakdown?.dinheiro || 0`
abbrev pub saldo_de : Option ShiftMetrics → ℕ
saldo_de none = 0
saldo_de (some m) = m.tender_breakdown.dinheiro

-- `parseFloat(valorTexto.replace(',', '.')) || 0`, cut at a thousandth: a smaller amount is zero here.
abbrev pub ou_zero : Option ℤ → ℤ
ou_zero none = pos 0
ou_zero (some v) = v

unfoldable pub valor_numerico : Formulario → ℤ
valor_numerico f = ou_zero (parse_float (replace_first b',' b'.' f.valor_texto))

abbrev pub is_suprimento : TipoMovimentacaoCaixa → Bool
is_suprimento suprimento = true
is_suprimento sangria = false

-- `handleConfirmar` of the form, for the value that was read: an error, or what is submitted.
pub data Confirmacao : Type 0 where
  recusada : Erro → Confirmacao
  enviada : MovimentacaoCaixaInput → Confirmacao

unfoldable pub confirmar_valor : TipoMovimentacaoCaixa → ℕ → Texto → ℤ → Confirmacao
confirmar_valor tipo saldo motivo (negsuc n) = recusada valor_zero
confirmar_valor tipo saldo motivo (pos zero) = recusada valor_zero
confirmar_valor tipo saldo motivo (pos (suc n)) =
    if not (is_suprimento tipo) && ltb saldo (suc n)
    then recusada valor_acima_do_saldo
    else if vazio (trim motivo)
    then recusada sem_motivo
    else enviada (record { tipo = tipo; valor = suc n; motivo = trim motivo })

unfoldable pub handle_confirmar : TipoMovimentacaoCaixa → ℕ → Formulario → Confirmacao
unfolding valor_numerico confirmar_valor
handle_confirmar tipo saldo f = confirmar_valor tipo saldo f.motivo (valor_numerico f)

abbrev pub com_dinheiro : ℕ → Option ShiftMetrics → Option ShiftMetrics
com_dinheiro d none = none
com_dinheiro d (some m) =
    some (record m { tender_breakdown = record m.tender_breakdown { dinheiro = d } })

-- `handleSubmitMovimentacao`; the service does not fail.
unfoldable pub handle_submit_movimentacao : MovimentacaoCaixaInput → Perfil → Perfil
unfolding registrar_movimentacao
handle_submit_movimentacao dados p = record p {
  metricas = com_dinheiro (registrar_movimentacao dados (saldo_de p.metricas)) p.metricas;
  is_movimentacao_open = false;
  realizadas = dados ∷ p.realizadas;
}

-- What `handleConfirmar` does with its verdict.
unfoldable pub concluir : Confirmacao → Perfil → Perfil
unfolding handle_submit_movimentacao
concluir (recusada e) p = record p { formulario = record p.formulario { erro = some e } }
concluir (enviada dados) p =
    handle_submit_movimentacao dados (record p { formulario = record p.formulario { erro = none } })

-- The form's button, where the form is shown. (It is also disabled for some values, which takes
-- refusals away.)
unfoldable pub confirmar : Perfil → Perfil
unfolding handle_confirmar concluir
confirmar p =
    if p.is_movimentacao_open
    then concluir (handle_confirmar p.tipo_movimentacao (saldo_de p.metricas) p.formulario) p
    else p

abbrev pub mesmo_tipo : TipoMovimentacaoCaixa → TipoMovimentacaoCaixa → Bool
mesmo_tipo suprimento suprimento = true
mesmo_tipo sangria sangria = true
mesmo_tipo _ _ = false

-- `handleAbrirSuprimento` and `handleAbrirSangria`, with the effect that clears the form when it
-- opens or its kind changes.
unfoldable pub abrir : TipoMovimentacaoCaixa → Perfil → Perfil
abrir tipo p = record p {
  tipo_movimentacao = tipo;
  is_movimentacao_open = true;
  formulario =
      if p.is_movimentacao_open && mesmo_tipo p.tipo_movimentacao tipo then p.formulario else limpo;
}

-- What happens to the screen. `carregar` is the effect that runs at the start and whenever the
-- event stream connects or disconnects.
pub data Acao : Type 0 where
  carregar : Acao
  abrir_movimentacao : TipoMovimentacaoCaixa → Acao
  fechar_movimentacao : Acao
  digitar_valor : Texto → Acao
  digitar_motivo : Texto → Acao
  confirmar_movimentacao : Acao
  bloquear_terminal : Acao
  desbloquear_terminal : Acao

unfoldable pub passo : Acao → Perfil → Perfil
unfolding abrir confirmar
passo carregar p = record p { metricas = some obter_metricas_turno }
passo (abrir_movimentacao tipo) p = abrir tipo p
passo fechar_movimentacao p = record p { is_movimentacao_open = false }
passo (digitar_valor t) p = record p {
  formulario = record p.formulario { valor_texto = t; erro = none };
}
passo (digitar_motivo t) p = record p {
  formulario = record p.formulario { motivo = t; erro = none };
}
passo confirmar_movimentacao p = confirmar p
passo bloquear_terminal p = record p { is_bloqueado = true }
passo desbloquear_terminal p = record p { is_bloqueado = false }

unfoldable pub executar : List Acao → Perfil → Perfil
unfolding passo
executar [] p = p
executar (a ∷ acoes) p = executar acoes (passo a p)
