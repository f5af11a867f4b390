-- ===== src/Previsoes/Vista.antt =====
-- What the screen of the forecasts shows: screens/PrevisoesScreen.tsx of
-- frontend/features/previsoes without its dialogs, and its parts components/PrevisoesHeader.tsx,
-- GargaloCriticoCard.tsx, ProjecaoProdutoCard.tsx, SugestaoReposicaoCard.tsx and
-- ContextoMeteorologicoBox.tsx. The demands are whole numbers, so that Math.round keeps them.
pub mod Dialogos
pub mod Oferta
use gestao_restaurante.Base.{
  ℕ, zero, suc, ◌+◌, ◌-◌, ◌*◌, ◌/◌, ◌==◌, Bool, true, false, not, ◌&&◌, String, Option, none, some,
  List, [], ◌∷◌, ◌++◌, any, ltb, leb, if◌then◌else◌,
}
use gestao_restaurante.Base.Text.{Texto, codes}
use gestao_restaurante.Base.Decimal.{digitos}
use gestao_restaurante.Shared.Formatters.{formatar_moeda}
use gestao_restaurante.Shared.Vista.{Elemento, texto, botao, texto_numero, texto_fixed1}
use gestao_restaurante.Previsoes.{
  ItemCapacidadeProducao, SugestaoReposicaoInsumo, ContextoClimatico, contexto_padrao,
  RelatorioCapacidadeProducao, metricas, ou_zero,
}

pub data Acao : Type 0 where
  select_data : String → Acao
  sugerir_pedido : Option String → Acao
  select_produto : ItemCapacidadeProducao → Acao
  gerar_ordem_compra : Acao

-- `DataOpcaoFiltro`
pub record DataOpcaoFiltro : Type 0 where
  pub label : String
  pub sublabel : String
  pub data_alvo : String

abbrev pub vista_datas : List DataOpcaoFiltro → List (Elemento Acao)
vista_datas [] = []
vista_datas (d ∷ ds) =
    botao false (select_data d.data_alvo)
    ∷ texto (codes d.label ++ codes " " ++ codes d.sublabel)
    ∷ vista_datas ds

-- `PrevisoesHeader`
unfoldable pub previsoes_header : List DataOpcaoFiltro → List (Elemento Acao)
previsoes_header ds =
    texto (codes "Previsões de Demanda")
    ∷ texto (codes "IA SINCRONIZADA")
    ∷ texto (codes "IA CALIBRADA")
    ∷ texto (codes "Projeção de consumo e capacidade de estoque baseada em machine learning")
    ∷ vista_datas ds

-- `Math.round(((d - a) / d) * 100)`, printed: a half is rounded upward, below zero too.
abbrev percentual_negativo : ℕ → Texto
percentual_negativo n = if n == 0 then codes "0" else codes "-" ++ digitos n

unfoldable pub percentual_impacto : ItemCapacidadeProducao → Texto
unfolding digitos
percentual_impacto g =
    let d = g.demanda_prevista in
    let a = g.demanda_atendivel in
    if d == 0
    then codes "0"
    else if leb a d
    then digitos ((200 * (d - a) + d) / (2 * d))
    else percentual_negativo ((200 * (a - d) + d - 1) / (2 * d))

-- `GargaloCriticoCard`
unfoldable pub gargalo_critico_card : Option ItemCapacidadeProducao → ℕ → List (Elemento Acao)
unfolding digitos percentual_impacto formatar_moeda
gargalo_critico_card none perda =
    texto (codes "✓ CAPACIDADE 100% ATENDIDA")
    ∷ texto (
        codes
          "Estoque perfeitamente equilibrado para toda a demanda projetada. Sem gargalos detectados!")
    ∷ []
gargalo_critico_card (some g) perda =
    texto ((9888 ∷ 65039 ∷ []))
    ∷ texto (codes "Gargalo Crítico")
    ∷ texto (codes "-" ++ percentual_impacto g ++ codes "% pedidos")
    ∷ texto (codes "Insumo limitante: " ++ codes g.insumo_gargalo_nome)
    ∷ texto (
        codes "Déficit de "
        ++ digitos g.deficit_unidades
        ++ codes " un em "
        ++ codes g.nome_produto)
    ∷ texto (codes "Demanda Prevista")
    ∷ texto (digitos g.demanda_prevista ++ codes " un")
    ∷ texto (codes "Capacidade Atual")
    ∷ texto (digitos g.capacidade_maxima_producao ++ codes " un")
    ∷ texto (
        ((9888 ∷ 65039 ∷ []) ++ codes " Estimativa de ")
        ++ formatar_moeda (some perda)
        ++ codes " em vendas perdidas")
    ∷ botao false (sugerir_pedido g.insumo_gargalo_id)
    ∷ texto (codes "🛒 Sugerir Pedido (+9.0 kg)")
    ∷ []

-- An item of `ProjecaoProdutoCard`, without its bar.
unfoldable pub vista_item : ItemCapacidadeProducao → List (Elemento Acao)
unfolding digitos formatar_moeda
vista_item i =
    texto (codes i.nome_produto)
    ∷ texto (
        digitos i.demanda_atendivel
        ++ codes " atendíveis de "
        ++ digitos i.demanda_prevista
        ++ codes " demandados")
    ∷ texto (
        if i.risco_rutura
        then codes "Perda -" ++ formatar_moeda (some (ou_zero i.perda_estimada_receita))
        else codes "✓ Plena")
    ∷ botao false (select_produto i)
    ∷ texto (codes "Ver detalhes >")
    ∷ []

unfoldable pub vista_itens : List ItemCapacidadeProducao → List (Elemento Acao)
unfolding vista_item
vista_itens [] = []
vista_itens (i ∷ is) = vista_item i ++ vista_itens is

-- `ProjecaoProdutoCard`, as the screen uses it.
unfoldable pub projecao_produto_card : List ItemCapacidadeProducao → List (Elemento Acao)
unfolding vista_itens
projecao_produto_card is =
    texto (codes "Projeção por Produto (D+1)")
    ∷ texto (codes "Atendível")
    ∷ texto (codes "Ruptura")
    ∷ vista_itens is

abbrev pub precisa_comprar : SugestaoReposicaoInsumo → Bool
precisa_comprar s = ltb 0 s.quantidade_comprar

unfoldable pub vista_sugestoes : List SugestaoReposicaoInsumo → List (Elemento Acao)
unfolding texto_numero
vista_sugestoes [] = []
vista_sugestoes (s ∷ ss) =
    texto (codes s.nome_insumo)
    ∷ texto (
        if precisa_comprar s
        then codes "Atual "
          ++ texto_numero s.stock_atual
          ++ codes " "
          ++ codes s.unidade_medida
          ++ codes " / Necessário "
          ++ texto_numero s.stock_necessario
          ++ codes " "
          ++ codes s.unidade_medida
        else codes "Estoque Suficiente (Cobre demanda projetada)")
    ∷ texto (
        if precisa_comprar s
        then codes "+" ++ texto_numero s.quantidade_comprar ++ codes " " ++ codes s.unidade_medida
        else codes "✓ OK")
    ∷ vista_sugestoes ss

abbrev pub consolidar : Bool → List (Elemento Acao)
consolidar false = []
consolidar true =
    botao false gerar_ordem_compra ∷ texto (codes "📋 Consolidar Pedido de Compras") ∷ []

-- `SugestaoReposicaoCard`
unfoldable pub sugestao_reposicao_card : List SugestaoReposicaoInsumo → List (Elemento Acao)
unfolding vista_sugestoes
sugestao_reposicao_card ss =
    texto (codes "Sugestão de Reposição")
    ∷ texto (codes "Para garantir 100% dos pedidos previstos")
    ∷ (vista_sugestoes ss ++ consolidar (any precisa_comprar ss))

-- The context of the report, whose parts have the defaults of `ContextoMeteorologicoBox`.
abbrev pub contexto_de : Option RelatorioCapacidadeProducao → ContextoClimatico
contexto_de none = contexto_padrao
contexto_de (some r) = elim r.contexto_climatico [ none ↦ contexto_padrao | some c ↦ c ]

-- `ContextoMeteorologicoBox`
unfoldable pub contexto_meteorologico_box : ContextoClimatico → List (Elemento Acao)
unfolding texto_numero texto_fixed1
contexto_meteorologico_box c =
    texto (codes "⛅")
    ∷ texto (codes "Contexto Meteorológico")
    ∷ texto (codes "IA Telemetria")
    ∷ texto (
        codes "Previsão: "
        ++ texto_numero c.temperatura
        ++ codes "°C | "
        ++ codes c.condicao
        ++ codes " ("
        ++ texto_fixed1 c.precipitacao_mm
        ++ codes " mm)")
    ∷ texto (codes "💡")
    ∷ texto (codes c.impacto_descricao)
    ∷ []

abbrev pub itens_de : Option RelatorioCapacidadeProducao → List ItemCapacidadeProducao
itens_de none = []
itens_de (some r) = r.itens_capacidade

abbrev pub sugestoes_de : Option RelatorioCapacidadeProducao → List SugestaoReposicaoInsumo
sugestoes_de none = []
sugestoes_de (some r) = r.sugestoes_reposicao

abbrev pub carregando : Bool → Option RelatorioCapacidadeProducao → Bool
carregando is_loading none = is_loading
carregando is_loading (some r) = false

-- `PrevisoesScreen`
unfoldable pub previsoes_screen :
    List DataOpcaoFiltro → Bool → Option RelatorioCapacidadeProducao → List (Elemento Acao)
unfolding previsoes_header gargalo_critico_card projecao_produto_card sugestao_reposicao_card
    contexto_meteorologico_box metricas
previsoes_screen ds is_loading r =
    previsoes_header ds
    ++ (if carregando is_loading r
        then texto (codes "Consultando modelo de Machine Learning e estoque...") ∷ []
        else gargalo_critico_card (metricas r).gargalo_principal (metricas r).perda_total_estimada
          ++ (projecao_produto_card (itens_de r)
              ++ (sugestao_reposicao_card (sugestoes_de r)
                  ++ contexto_meteorologico_box (contexto_de r))))
