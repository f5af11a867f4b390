-- ===== src/Previsoes/Vista/Dialogos.antt =====
-- The dialogs of the forecasts: components/OrdemCompraModal.tsx with OrdemCompraItemRow.tsx, and
-- components/FichaTecnicaModal.tsx with FichaTecnicaItemCard.tsx, of frontend/features/previsoes.
use gestao_restaurante.Base.{
  ℕ, ◌+◌, ◌-◌, ◌*◌, ◌/◌, ◌==◌, Bool, true, false, ◌||◌, String, Option, none, some, List, [], ◌∷◌,
  ◌++◌, find, ltb, if◌then◌else◌,
}
use gestao_restaurante.Base.Text.{codes}
use gestao_restaurante.Base.Decimal.{digitos, texto_fixed2}
use gestao_restaurante.Shared.Formatters.{
  formatar_moeda, formatar_quantidade, formatar_porcao_gastronomica,
}
use gestao_restaurante.Shared.Vista.{Elemento, texto, botao, texto_numero, com_virgula}
use gestao_restaurante.Previsoes.{ItemCapacidadeProducao, SugestaoReposicaoInsumo}
use gestao_restaurante.Previsoes.OrdemCompra.{
  Selecionados, itens_para_comprar, preco_ou_padrao, custo, valor_total,
}
use gestao_restaurante.Previsoes.Tela.{FichaTecnicaIngrediente}

pub data Acao : Type 0 where
  toggle : String → Acao
  fechar confirmar : Acao
  repor : String → Acao

-- A product of two amounts, as an amount: in thousandths, rounded to the cent.
abbrev pub em_milesimos : ℕ → ℕ
em_milesimos v = 10 * ((v + 5000) / 10000)

abbrev pub marca_de : Bool → List (Elemento Acao)
marca_de true = texto (codes "✓") ∷ []
marca_de false = []

-- `OrdemCompraItemRow`
unfoldable pub ordem_compra_item_row : Bool → SugestaoReposicaoInsumo → List (Elemento Acao)
unfolding texto_numero com_virgula texto_fixed2
ordem_compra_item_row is_checked i =
    botao false (toggle i.insumo_id)
    ∷ (marca_de is_checked
        ++ (texto (codes i.nome_insumo)
            ∷ texto (
                codes "Qtd Sugerida: +"
                ++ texto_numero i.quantidade_comprar
                ++ codes " "
                ++ codes i.unidade_medida
                ++ codes " (Atual: "
                ++ texto_numero i.stock_atual
                ++ codes " "
                ++ codes i.unidade_medida
                ++ codes ")")
            ∷ texto (codes "R$ " ++ com_virgula (em_milesimos (custo i)))
            ∷ texto (
                codes "R$ "
                ++ texto_fixed2 (preco_ou_padrao i.preco_estimado_unitario)
                ++ codes "/"
                ++ codes i.unidade_medida)
            ∷ []))

abbrev pub linhas : Selecionados → List SugestaoReposicaoInsumo → List (Elemento Acao)
linhas m [] = []
linhas m (i ∷ is) = ordem_compra_item_row (m i.insumo_id) i ++ linhas m is

abbrev pub legenda_envio : Bool → List (Elemento Acao)
legenda_envio true = []
legenda_envio false = texto (codes "Confirmar Envio") ∷ []

-- `OrdemCompraModal`
unfoldable pub ordem_compra_modal :
    Selecionados → Bool → List SugestaoReposicaoInsumo → List (Elemento Acao)
unfolding ordem_compra_item_row itens_para_comprar valor_total formatar_moeda
ordem_compra_modal m is_enviando sugestoes =
    let itens = itens_para_comprar sugestoes in
    (texto (codes "Ordem de Compra Sugerida")
      ∷ texto (codes "Reposição preditiva calculada para eliminar risco de ruptura (D+1)")
      ∷ texto (codes "Insumos Deficitários")
      ∷ [])
    ++ (linhas m itens
        ++ (texto (codes "Fornecedor Homologado:")
            ∷ texto (codes "Distribuidora Prime Carnes & Panificação Express")
            ∷ texto (codes "Prazo estimado de entrega: D+0 até às 18:00")
            ∷ texto (codes "Custo Total Estimado:")
            ∷ texto (formatar_moeda (some (em_milesimos (valor_total m itens))))
            ∷ botao is_enviando fechar
            ∷ texto (codes "Voltar")
            ∷ botao (is_enviando || (valor_total m itens == 0)) confirmar
            ∷ legenda_envio is_enviando))

-- `Math.max(0, estoqueNecessario - estoqueAtual)`
abbrev pub deficit_de : FichaTecnicaIngrediente → ℕ
deficit_de i = i.estoque_necessario - i.estoque_atual

unfoldable pub aviso_gargalo : FichaTecnicaIngrediente → List (Elemento Acao)
unfolding digitos formatar_quantidade
aviso_gargalo i =
    if i.is_gargalo
    then texto (
        ((9888 ∷ 65039 ∷ []) ++ codes " Este insumo limita a produção a ")
        ++ digitos i.capacidade_max_item
        ++ codes " un. Faltam ~"
        ++ formatar_quantidade (some (deficit_de i)) (codes i.unidade_medida)
        ++ codes " para cobrir a demanda prevista.")
      ∷ []
    else []

-- `FichaTecnicaItemCard`
unfoldable pub ficha_tecnica_item_card : FichaTecnicaIngrediente → List (Elemento Acao)
unfolding formatar_quantidade formatar_porcao_gastronomica aviso_gargalo
ficha_tecnica_item_card i =
    texto (codes i.nome_insumo)
    ∷ texto (if i.is_gargalo then codes "🔴 GARGALO LIMITANTE" else codes "✓ OK")
    ∷ texto (codes "Por Porção")
    ∷ texto (formatar_porcao_gastronomica (some i.quantidade_por_porcao) (codes i.unidade_medida))
    ∷ texto (codes "Estoque Atual")
    ∷ texto (formatar_quantidade (some i.estoque_atual) (codes i.unidade_medida))
    ∷ texto (codes "Teto Produção")
    ∷ texto (formatar_quantidade (some (1000 * i.capacidade_max_item)) (codes "un"))
    ∷ aviso_gargalo i

abbrev pub fichas : List FichaTecnicaIngrediente → List (Elemento Acao)
fichas [] = []
fichas (i ∷ is) = ficha_tecnica_item_card i ++ fichas is

abbrev pub fichas_ou_aviso : List FichaTecnicaIngrediente → List (Elemento Acao)
fichas_ou_aviso [] = texto (codes "Carregando especificações de engenharia de cardápio...") ∷ []
fichas_ou_aviso (i ∷ is) = fichas (i ∷ is)

unfoldable pub botao_repor : Option FichaTecnicaIngrediente → List (Elemento Acao)
unfolding formatar_quantidade
botao_repor none = []
botao_repor (some i) =
    if ltb 0 (deficit_de i)
    then botao false (repor i.insumo_id)
      ∷ texto (
          codes "🛒 Repor "
          ++ codes i.nome_insumo
          ++ codes " (+"
          ++ formatar_quantidade (some (deficit_de i)) (codes i.unidade_medida)
          ++ codes ")")
      ∷ []
    else []

-- `FichaTecnicaModal`, as the screen uses it: with the way to the order.
unfoldable pub ficha_tecnica_modal :
    Option ItemCapacidadeProducao → List FichaTecnicaIngrediente → List (Elemento Acao)
unfolding digitos ficha_tecnica_item_card botao_repor
ficha_tecnica_modal none is = []
ficha_tecnica_modal (some p) is =
    (texto (codes "Ficha Técnica do Prato")
      ∷ texto (codes p.nome_produto)
      ∷ texto (
          codes "Demanda Prevista: "
          ++ digitos p.demanda_prevista
          ++ codes " un | Capacidade Máxima: "
          ++ digitos p.capacidade_maxima_producao
          ++ codes " un")
      ∷ texto (codes "Composição de Insumos por Porção")
      ∷ [])
    ++ (fichas_ou_aviso is
        ++ (botao_repor (find (λ i. i.is_gargalo) is)
            ++ (botao false fechar ∷ texto (codes "Entendido / Fechar") ∷ [])))
