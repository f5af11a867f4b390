-- ===== src/Vendas/NovoProduto/Tests.antt =====
-- Two ingredients, one of which is taken out and added again.
use gestao_restaurante.Base.{◌≡◌, refl, none, String, List, [], ◌∷◌, ◌++◌}
use gestao_restaurante.Base.Text.{codes}
use gestao_restaurante.Estoque.{InsumoEstoque, normal}
use gestao_restaurante.Vendas.NovoProduto.{
  inicial, ids, adicionar_linha_ingrediente, sem_indice, cadastrado, Acao, carregar, digitar_nome,
  digitar_preco, adicionar_linha, remover_linha, salvar, passo, executar,
}
use gestao_restaurante.Vendas.NovoProduto.Receita.{IsValid, executar-inicial-NoRepeat}

abbrev insumo : String → InsumoEstoque
insumo id = record {
  id = id;
  nome = codes "x";
  sku = codes "x";
  categoria = codes "x";
  localizacao = none;
  saldo_atual = 3200;
  estoque_minimo = 1000;
  estoque_ideal = none;
  unidade_medida = codes "kg";
  status_nivel = normal;
  percentual_capacidade = 100000;
  deficit_quantidade = none;
  deficit_percentual = none;
  lead_time_horas = none;
  observacao_consumo = none;
  custo_unitario_medio = none;
}

abbrev montagem : List Acao
montagem =
    carregar (insumo "pao" ∷ insumo "carne" ∷ [])
    ∷ adicionar_linha
    ∷ adicionar_linha
    ∷ remover_linha 0
    ∷ adicionar_linha
    ∷ adicionar_linha
    ∷ []

duas : ids (executar montagem inicial).ingredientes ≡ "carne" ∷ "pao" ∷ []
unfolding executar passo adicionar_linha_ingrediente sem_indice
duas = refl

abbrev gravacao : List Acao
gravacao = digitar_nome (codes "Burger") ∷ digitar_preco (codes "38,00") ∷ salvar cadastrado ∷ []

executar-inicial-NoRepeat_example : IsValid (executar (montagem ++ gravacao) inicial)
executar-inicial-NoRepeat_example = executar-inicial-NoRepeat (montagem ++ gravacao)
