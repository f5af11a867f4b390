-- ===== src/Caixa/Vista.antt =====
-- What the register's screen shows: screens/CaixaScreen.tsx of frontend/features/caixa, its parts
-- components/ContextoOperacionalHeader.tsx, CardFaturamentoTotal.tsx, DistribuicaoPagamentos.tsx and
-- WidgetClimaSessao.tsx, and the dialog components/ModalConfirmarFechamento.tsx with its part
-- ConferenciaGavetaBox.tsx.
use gestao_restaurante.Base.{
  ℕ, Bool, true, false, not, ◌||◌, String, Option, none, some, List, [], ◌∷◌, ◌++◌, length, str_eq,
  if◌then◌else◌,
}
use gestao_restaurante.Base.Text.{Texto, codes}
use gestao_restaurante.Base.Decimal.{digitos}
use gestao_restaurante.Shared.Vista.{
  Elemento, texto, botao, texto_numero, texto_fixed1, com_virgula,
}
use gestao_restaurante.Caixa.{
  MetodoPagamentoResumo, DadosClimaticos, StatusSessaoCaixa, aberta, fechada, SessaoCaixaResumo,
  valor_dinheiro,
}

pub data Acao : Type 0 where
  voltar_ao_painel perfil_do_operador encerrar : Acao
  dispensar fechar_modal confirmar voltar : Acao

abbrev pub is_aberta : StatusSessaoCaixa → Bool
is_aberta aberta = true
is_aberta fechada = false

abbrev escudo : Texto
escudo = 128737 ∷ 65039 ∷ []

abbrev aviso : Texto
aviso = 9888 ∷ 65039 ∷ []

abbrev sol : Texto
sol = 9728 ∷ 65039 ∷ []

-- `ContextoOperacionalHeader`, as the screen uses it: with the way back, and nothing on the avatar.
unfoldable pub contexto_operacional_header : SessaoCaixaResumo → List (Elemento Acao)
contexto_operacional_header s =
    botao false voltar_ao_painel
    ∷ texto (codes "← Painel")
    ∷ texto (codes "🏪")
    ∷ texto (codes "Restaurante Inteligente")
    ∷ texto (codes (if is_aberta s.status then "CAIXA ABERTO" else "CAIXA FECHADO"))
    ∷ botao false perfil_do_operador
    ∷ texto (codes "LV")
    ∷ texto (codes (if is_aberta s.status then "Sessão Aberta" else "Sessão Fechada"))
    ∷ texto (codes s.terminal)
    ∷ texto (codes "🕒 " ++ s.data_hora_formatada)
    ∷ texto (codes "Gestão do Caixa")
    ∷ texto escudo
    ∷ texto s.turno
    ∷ texto (codes "Operador: ")
    ∷ texto s.operador
    ∷ []

-- `CardFaturamentoTotal`; a share of the target is not negative here.
unfoldable pub card_faturamento_total : SessaoCaixaResumo → List (Elemento Acao)
unfolding digitos texto_fixed1 com_virgula
card_faturamento_total s =
    texto (codes "TOTAL APURADO NO TURNO")
    ∷ texto (codes "📈 +" ++ texto_fixed1 s.percentual_meta ++ codes "% vs meta")
    ∷ texto (codes "R$ ")
    ∷ texto (com_virgula s.total_apurado)
    ∷ texto (codes "🧾")
    ∷ texto (codes "Transações")
    ∷ texto (digitos s.total_vendas ++ codes " vendas")
    ∷ texto (codes "📊")
    ∷ texto (codes "Ticket Médio")
    ∷ texto (codes "R$ " ++ com_virgula s.ticket_medio)
    ∷ []

abbrev e_badge : String → Option String → Bool
e_badge b none = false
e_badge b (some c) = str_eq c b

abbrev quando : Bool → Texto → List (Elemento Acao)
quando true t = texto t ∷ []
quando false t = []

abbrev vista_metodo : MetodoPagamentoResumo → List (Elemento Acao)
vista_metodo m =
    texto m.icone
      ∷ texto (codes m.nome)
      ∷ quando (e_badge "Instantâneo" m.badge) (codes "Instantâneo")
    ++ quando (e_badge "Gaveta OK" m.badge) (codes "✓ Gaveta OK")
    ++ texto (codes m.transacoes_texto)
      ∷ texto (codes "R$ " ++ com_virgula m.valor)
      ∷ texto (digitos m.percentual ++ codes "% do volume")
      ∷ []

abbrev pub vista_metodos : List MetodoPagamentoResumo → List (Elemento Acao)
vista_metodos [] = []
vista_metodos (m ∷ ms) = vista_metodo m ++ vista_metodos ms

-- `DistribuicaoPagamentos`, without the proportional bar.
unfoldable pub distribuicao_pagamentos : List MetodoPagamentoResumo → List (Elemento Acao)
unfolding digitos com_virgula
distribuicao_pagamentos ms =
    texto (codes "Entradas por Método de Pagamento")
    ∷ texto (digitos (length ms) ++ codes " modalidades")
    ∷ vista_metodos ms

-- `WidgetClimaSessao`
unfoldable pub widget_clima_sessao : DadosClimaticos → List (Elemento Acao)
unfolding digitos texto_fixed1 texto_numero
widget_clima_sessao c =
    texto sol
    ∷ texto (codes "Contexto Climático da Sessão")
    ∷ texto (codes "Tempo Real")
    ∷ texto (codes "TEMP")
    ∷ texto (texto_numero c.temperatura ++ codes "°C")
    ∷ texto (codes c.condicao)
    ∷ texto (codes "UMIDADE")
    ∷ texto (digitos c.umidade ++ codes "%")
    ∷ texto (codes c.status_umidade)
    ∷ texto (codes "CHUVA")
    ∷ texto (texto_fixed1 c.chuva_mm ++ codes " mm")
    ∷ texto (codes c.status_chuva)
    ∷ texto (codes "🤖")
    ∷ texto (
        codes
          "Variáveis climáticas sincronizadas para inferência de Machine Learning e calibração de demanda de insumos no próximo turno.")
    ∷ []

-- `ConferenciaGavetaBox`
unfoldable pub conferencia_gaveta_box : ℕ → List (Elemento Acao)
unfolding com_virgula
conferencia_gaveta_box valor =
    texto (codes "💵")
    ∷ texto (codes "Conferência Física da Gaveta")
    ∷ texto (
        codes
          "Confira o dinheiro em espécie no caixa antes de prosseguir. O sistema apurou o montante de:")
    ∷ texto (codes "R$ " ++ com_virgula valor ++ codes " em cédulas/moedas")
    ∷ texto aviso
    ∷ texto (codes "Ação Irreversível de Encerramento")
    ∷ texto (
        codes
          "O encerramento fechará a sessão ativa, consolidará as vendas do turno e sincronizará os registros fiscais com a gestão central.")
    ∷ []

abbrev pub legenda_confirmar : Bool → Bool → List (Elemento Acao)
legenda_confirmar true online = []
legenda_confirmar false true =
    texto (codes "🔒") ∷ texto (codes "Confirmar Fechamento e Enviar para IA") ∷ []
legenda_confirmar false false =
    texto (codes "📡") ∷ texto (codes "Servidor Offline - Fechamento Suspenso") ∷ []

-- `ModalConfirmarFechamento`
unfoldable pub modal_confirmar_fechamento : SessaoCaixaResumo → Bool → Bool → List (Elemento Acao)
unfolding valor_dinheiro digitos com_virgula conferencia_gaveta_box
modal_confirmar_fechamento s is_pending is_api_online =
    (botao false dispensar
      ∷ texto (codes "Confirmar Fechamento")
      ∷ texto (s.turno ++ codes " • " ++ codes s.terminal)
      ∷ botao false fechar_modal
      ∷ texto (codes "✕")
      ∷ texto (codes "TOTAL APURADO")
      ∷ texto (codes "R$ " ++ com_virgula s.total_apurado)
      ∷ texto (codes "VENDAS CONSOLIDADAS")
      ∷ texto (digitos s.total_vendas ++ codes " transações")
      ∷ [])
    ++ (conferencia_gaveta_box (valor_dinheiro s)
        ++ (botao (is_pending || not is_api_online) confirmar
            ∷ (legenda_confirmar is_pending is_api_online
                ++ (botao is_pending voltar ∷ texto (codes "Voltar e Manter Caixa Aberto") ∷ []))))

-- `CaixaScreen` without its dialog.
unfoldable pub caixa_screen : SessaoCaixaResumo → List (Elemento Acao)
unfolding contexto_operacional_header card_faturamento_total distribuicao_pagamentos
    widget_clima_sessao
caixa_screen s =
    contexto_operacional_header s
    ++ (card_faturamento_total s
        ++ (distribuicao_pagamentos s.pagamentos
            ++ (widget_clima_sessao s.clima
                ++ (botao (not (is_aberta s.status)) encerrar
                    ∷ texto (codes "🔄")
                    ∷ texto (
                        codes (
                          if is_aberta s.status
                          then "Encerrar Sessão e Fechar Caixa"
                          else "Caixa do Turno Encerrado"))
                    ∷ texto (
                        codes
                          "O encerramento consolida o histórico de vendas e dispara o processamento preditivo de inteligência artificial.")
                    ∷ []))))
