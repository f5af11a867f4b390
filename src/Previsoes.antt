-- ===== src/Previsoes.antt =====
-- frontend/features/previsoes: the report of the production capacity. services/previsoesService.ts
-- with its fallback, and the figures of hooks/useCapacidadeProducao.ts. Stock and prices are in
-- thousandths; the deficits are counts.
pub mod Gargalo
pub mod OrdemCompra
pub mod Tela
pub mod Vista
mod Tests
use gestao_restaurante.Base.{
  ℕ, Bool, true, false, ◌+◌, String, Option, none, some, List, [], ◌∷◌, filter, sum_from, ltb,
  if◌then◌else◌,
}

pub record ItemCapacidadeProducao : Type 0 where
  pub produto_id : String
  pub nome_produto : String
  pub demanda_prevista : ℕ
  pub capacidade_maxima_producao : ℕ
  pub demanda_atendivel : ℕ
  pub risco_rutura : Bool
  pub insumo_gargalo_id : Option String
  pub insumo_gargalo_nome : String
  pub deficit_unidades : ℕ
  pub preco_venda_unitario : Option ℕ
  pub perda_estimada_receita : Option ℕ

pub record SugestaoReposicaoInsumo : Type 0 where
  pub insumo_id : String
  pub nome_insumo : String
  pub unidade_medida : String
  pub stock_atual : ℕ
  pub stock_necessario : ℕ
  pub quantidade_comprar : ℕ
  pub preco_estimado_unitario : Option ℕ

pub record ContextoClimatico : Type 0 where
  pub temperatura : ℕ
  pub condicao : String
  pub precipitacao_mm : ℕ
  pub impacto_descricao : String

pub record RelatorioCapacidadeProducao : Type 0 where
  pub data_referencia : String
  pub itens_capacidade : List ItemCapacidadeProducao
  pub sugestoes_reposicao : List SugestaoReposicaoInsumo
  pub contexto_climatico : Option ContextoClimatico

abbrev pub contexto_padrao : ContextoClimatico
contexto_padrao = record {
  temperatura = 26000;
  condicao = "Céu claro a parc. chuva";
  precipitacao_mm = 1200;
  impacto_descricao =
      "Alta temperatura combinada a garoa pontual eleva a demanda de bebidas geladas (+12%) e fluxo em balcão (+8%).";
}

-- `DADOS_PREVISAO_PADRAO`
abbrev pub dados_previsao_padrao : RelatorioCapacidadeProducao
dados_previsao_padrao = record {
  data_referencia = "2026-09-28";
  itens_capacidade =
      record {
        produto_id = "prod-smash-duplo";
        nome_produto = "Smash Burger Duplo";
        demanda_prevista = 128;
        capacidade_maxima_producao = 90;
        demanda_atendivel = 90;
        risco_rutura = true;
        insumo_gargalo_id = some "ins-carne-smash";
        insumo_gargalo_nome = "Carne Bovina Smash";
        deficit_unidades = 38;
        preco_venda_unitario = some 34900;
        perda_estimada_receita = some 1326200;
      }
      ∷ record {
        produto_id = "prod-batata-rustica";
        nome_produto = "Batata Rústica Trufada";
        demanda_prevista = 95;
        capacidade_maxima_producao = 85;
        demanda_atendivel = 85;
        risco_rutura = true;
        insumo_gargalo_id = some "ins-azeite-trufado";
        insumo_gargalo_nome = "Azeite Trufado";
        deficit_unidades = 10;
        preco_venda_unitario = some 26000;
        perda_estimada_receita = some 260000;
      }
      ∷ record {
        produto_id = "prod-suco-laranja";
        nome_produto = "Suco Laranja 500ml";
        demanda_prevista = 60;
        capacidade_maxima_producao = 60;
        demanda_atendivel = 60;
        risco_rutura = false;
        insumo_gargalo_id = none;
        insumo_gargalo_nome = "Nenhum";
        deficit_unidades = 0;
        preco_venda_unitario = some 14000;
        perda_estimada_receita = some 0;
      }
      ∷ [];
  sugestoes_reposicao =
      record {
        insumo_id = "ins-carne-smash";
        nome_insumo = "Carne Bovina Smash";
        unidade_medida = "kg";
        stock_atual = 16200;
        stock_necessario = 25200;
        quantidade_comprar = 9000;
        preco_estimado_unitario = some 38500;
      }
      ∷ record {
        insumo_id = "ins-pao-brioche";
        nome_insumo = "Pão Brioche Tradicional";
        unidade_medida = "un";
        stock_atual = 108000;
        stock_necessario = 128000;
        quantidade_comprar = 20000;
        preco_estimado_unitario = some 3300;
      }
      ∷ record {
        insumo_id = "ins-batata-congelada";
        nome_insumo = "Batata Pré-Frita Congelada";
        unidade_medida = "kg";
        stock_atual = 35000;
        stock_necessario = 30000;
        quantidade_comprar = 0;
        preco_estimado_unitario = some 14000;
      }
      ∷ [];
  contexto_climatico = some contexto_padrao;
}

-- `dataAlvo || d`
abbrev pub ou : Option String → String → String
ou none d = d
ou (some String.[]) d = d
ou (some (String.◌∷◌ c s)) d = String.◌∷◌ c s

-- `obterCapacidadeProducao`, with the data of the response, or `none` where the request failed.
unfoldable pub obter_capacidade_producao :
    Option String → Option RelatorioCapacidadeProducao → RelatorioCapacidadeProducao
obter_capacidade_producao data_alvo (some r) = record r {
  contexto_climatico = dados_previsao_padrao.contexto_climatico;
}
obter_capacidade_producao data_alvo none = record dados_previsao_padrao {
  data_referencia = ou data_alvo dados_previsao_padrao.data_referencia;
}

-- `xs.sort((a, b) => b.deficitUnidades - a.deficitUnidades)`, which is stable.
unfoldable pub inserir :
    ItemCapacidadeProducao → List ItemCapacidadeProducao → List ItemCapacidadeProducao
inserir x [] = x ∷ []
inserir x (y ∷ ys) =
    let rest = inserir x ys in
    if ltb x.deficit_unidades y.deficit_unidades then y ∷ rest else x ∷ y ∷ ys

unfoldable pub ordenar : List ItemCapacidadeProducao → List ItemCapacidadeProducao
unfolding inserir
ordenar [] = []
ordenar (x ∷ xs) = inserir x (ordenar xs)

-- `xs[0] || null`
abbrev pub primeiro : List ItemCapacidadeProducao → Option ItemCapacidadeProducao
primeiro [] = none
primeiro (x ∷ xs) = some x

unfoldable pub item_com_maior_deficit : List ItemCapacidadeProducao → Option ItemCapacidadeProducao
unfolding ordenar
item_com_maior_deficit itens = primeiro (ordenar (filter (λ i. i.risco_rutura) itens))

-- `v || 0`
abbrev pub ou_zero : Option ℕ → ℕ
ou_zero none = 0
ou_zero (some v) = v

unfoldable pub perda_total : List ItemCapacidadeProducao → ℕ
perda_total = sum_from (λ i. ou_zero i.perda_estimada_receita) 0

unfoldable pub deficit_total : List ItemCapacidadeProducao → ℕ
deficit_total = sum_from (λ i. i.deficit_unidades) 0

-- `gargaloPrincipal`, `perdaTotalEstimada` and `totalDeficitUnidades`; `none` while nothing is loaded.
pub record Metricas : Type 0 where
  pub gargalo_principal : Option ItemCapacidadeProducao
  pub perda_total_estimada : ℕ
  pub total_deficit_unidades : ℕ

unfoldable pub metricas : Option RelatorioCapacidadeProducao → Metricas
unfolding item_com_maior_deficit perda_total deficit_total
metricas none = record {
  gargalo_principal = none;
  perda_total_estimada = 0;
  total_deficit_unidades = 0;
}
metricas (some r) = record {
  gargalo_principal = item_com_maior_deficit r.itens_capacidade;
  perda_total_estimada = perda_total r.itens_capacidade;
  total_deficit_unidades = deficit_total r.itens_capacidade;
}
