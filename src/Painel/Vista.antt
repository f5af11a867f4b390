-- ===== src/Painel/Vista.antt =====
-- What the executive panel shows: screens/DashboardScreen.tsx of frontend/features/dashboard without
-- its dialogs, its parts components/HeaderGestorBoasVindas.tsx, KpisFaturamentoCard.tsx,
-- AlertaEstoqueCriticoCard.tsx, PrevisaoDemandaIaCard.tsx and AtalhosOperacionaisGrid.tsx, and the
-- chip of frontend/features/assinatura/components/TrialBadgeHeader.tsx.
pub mod Oferta
use gestao_restaurante.Base.{
  ℕ, ◌+◌, ◌*◌, ◌/◌, ◌%◌, ◌==◌, Bool, true, false, not, String, Option, none, some, List, [], ◌∷◌,
  ◌++◌, length, ltb, if◌then◌else◌,
}
use gestao_restaurante.Base.Text.{Texto, codes, same, vazio}
use gestao_restaurante.Base.Decimal.{digitos}
use gestao_restaurante.Shared.Formatters.{formatar_quantidade}
use gestao_restaurante.Shared.Vista.{
  Elemento, texto, botao, texto_numero, texto_fixed1, com_virgula,
}
use gestao_restaurante.Administracao.{AssinaturaStatus}
use gestao_restaurante.Perfil.Turno.{ou_texto}
use gestao_restaurante.Painel.{
  KpisFaturamento, InsumoCriticoResumo, PrevisaoIaResumo, StatusLoja, aberta, fechada,
  DashboardExecutivoData, iniciais_gestor,
}

pub data Acao : Type 0 where
  abrir_paywall abrir_ordem_compra : Acao
  navegar_estoque navegar_caixa navegar_previsoes abrir_pdv_teste : Acao

-- `TrialBadgeHeader` as a chip.
unfoldable pub trial_chip : AssinaturaStatus → List (Elemento Acao)
unfolding digitos same
trial_chip a =
    if same a.status (codes "TRIAL")
    then botao false abrir_paywall
      ∷ texto (codes (if ltb 3 a.dias_restantes_trial then "⚡" else "⏳"))
      ∷ texto (
          if ltb 0 a.dias_restantes_trial
          then digitos a.dias_restantes_trial ++ codes "d"
          else codes "Expirado")
      ∷ []
    else []

abbrev pub texto_loja : StatusLoja → Texto
texto_loja aberta = codes "Operação Ativa"
texto_loja fechada = codes "Loja Fechada"

-- `HeaderGestorBoasVindas`
unfoldable pub header_gestor_boas_vindas :
    Texto → Texto → Bool → AssinaturaStatus → DashboardExecutivoData → List (Elemento Acao)
unfolding trial_chip iniciais_gestor
header_gestor_boas_vindas gestor restaurante is_sse_active a d =
    (texto (ou_texto restaurante (codes "Restaurante Inteligente"))
      ∷ texto (
          ou_texto (codes d.turno_atual) (codes "Turno Ativo")
          ++ codes " • "
          ++ texto_loja d.status_loja)
      ∷ [])
    ++ (trial_chip a
        ++ (texto (codes (if is_sse_active then "Live" else "Sync"))
            ∷ botao false abrir_paywall
            ∷ texto (iniciais_gestor gestor)
            ∷ []))

-- `KpisFaturamentoCard`; the share of the target, in tenths, is not negative here.
unfoldable pub kpis_faturamento_card : KpisFaturamento → List (Elemento Acao)
unfolding digitos com_virgula texto_fixed1
kpis_faturamento_card k =
    texto (codes "FATURAMENTO DO DIA (CONSOLIDADO)")
    ∷ texto (codes "📈 +" ++ texto_fixed1 (100 * k.percentual_meta) ++ codes "% vs meta")
    ∷ texto (codes "R$")
    ∷ texto (com_virgula k.total_faturado_dia)
    ∷ texto (codes "PEDIDOS HOJE")
    ∷ texto (digitos k.quantidade_pedidos ++ codes " vendas")
    ∷ texto (codes "TICKET MÉDIO")
    ∷ texto (codes "R$ " ++ com_virgula k.ticket_medio)
    ∷ texto (codes "ONTEM")
    ∷ texto (codes "R$ " ++ com_virgula k.faturamento_ontem)
    ∷ []

unfoldable pub vista_insumos : List InsumoCriticoResumo → List (Elemento Acao)
unfolding formatar_quantidade
vista_insumos [] = []
vista_insumos (i ∷ is) =
    texto (codes i.nome)
    ∷ texto (
        codes "Mínimo exigido: "
        ++ formatar_quantidade (some i.quantidade_minima) (codes i.unidade_medida))
    ∷ texto (formatar_quantidade (some i.quantidade_atual) (codes i.unidade_medida))
    ∷ vista_insumos is

-- `AlertaEstoqueCriticoCard`, as the screen uses it: with the way to the order.
unfoldable pub alerta_estoque_critico_card : List InsumoCriticoResumo → List (Elemento Acao)
unfolding digitos vista_insumos
alerta_estoque_critico_card [] =
    texto (codes "✅")
    ∷ texto (codes "Estoque em Nível Seguro")
    ∷ texto (codes "Nenhum insumo está abaixo da margem mínima operacional.")
    ∷ []
alerta_estoque_critico_card (i ∷ is) =
    (texto ((9888 ∷ 65039 ∷ []))
      ∷ texto (
          codes "Atenção: "
          ++ digitos (length (i ∷ is))
          ++ codes (if length (i ∷ is) == 1 then " Insumo Crítico" else " Insumos Críticos"))
      ∷ botao false navegar_estoque
      ∷ texto (codes "Ver Estoque →")
      ∷ texto (codes "Itens abaixo do estoque mínimo de segurança em tempo real:")
      ∷ [])
    ++ (vista_insumos (i ∷ is)
        ++ (botao false abrir_ordem_compra
            ∷ texto (codes "📋 Gerar Pedido de Compra (" ++ digitos (length (i ∷ is)) ++ codes ")")
            ∷ []))

-- `PrevisaoDemandaIaCard`; the variation is in tenths.
unfoldable pub previsao_demanda_ia_card : PrevisaoIaResumo → List (Elemento Acao)
unfolding digitos texto_numero
previsao_demanda_ia_card p =
    texto (codes "🤖")
    ∷ texto (codes "Inteligência Preditiva de Demanda")
    ∷ texto (codes "IA Preditiva de Vendas • " ++ codes p.data_alvo_formatada)
    ∷ botao false navegar_previsoes
    ∷ texto (codes "Detalhes →")
    ∷ texto (codes "VOLUME TOTAL ESPERADO")
    ∷ texto (codes "~" ++ digitos p.total_itens_previstos ++ codes " pratos")
    ∷ texto (codes "+" ++ texto_numero (100 * p.variacao_percentual) ++ codes "%")
    ∷ texto (codes "ITEM MAIS DEMANDADO")
    ∷ texto (codes "🍔 " ++ codes p.produto_destaque)
    ∷ texto (codes "Clima: " ++ codes p.condicao_clima_prevista)
    ∷ []

-- `AtalhosOperacionaisGrid`
unfoldable pub atalhos_operacionais_grid : List (Elemento Acao)
atalhos_operacionais_grid =
    texto (codes "ACESSO RÁPIDO OPERACIONAL")
    ∷ botao false navegar_estoque
    ∷ texto (codes "📦")
    ∷ texto (codes "Estoque & Ficha")
    ∷ texto (codes "Saldo e baixas BOM")
    ∷ botao false navegar_caixa
    ∷ texto (codes "🔒")
    ∷ texto (codes "Auditoria de Caixa")
    ∷ texto (codes "Conferência e turno")
    ∷ botao false navegar_previsoes
    ∷ texto (codes "🤖")
    ∷ texto (codes "Previsões com IA")
    ∷ texto (codes "Sugestões de compra")
    ∷ botao false abrir_pdv_teste
    ∷ texto (codes "🛒")
    ∷ texto (codes "Simulador PDV")
    ∷ texto (codes "Testar venda balcão")
    ∷ []

-- `DashboardScreen`, below its header.
unfoldable pub dashboard_screen : DashboardExecutivoData → List (Elemento Acao)
unfolding kpis_faturamento_card alerta_estoque_critico_card previsao_demanda_ia_card
    atalhos_operacionais_grid
dashboard_screen d =
    kpis_faturamento_card d.kpis
    ++ (alerta_estoque_critico_card d.insumos_criticos
        ++ (previsao_demanda_ia_card d.previsao_ia ++ atalhos_operacionais_grid))
