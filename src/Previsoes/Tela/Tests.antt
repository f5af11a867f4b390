-- ===== src/Previsoes/Tela/Tests.antt =====
-- The sheet of the smash burger, and an order.
use gestao_restaurante.Base.{◌≡◌, refl, true, some, none, List, [], ◌∷◌, map}
use gestao_restaurante.Previsoes.{ItemCapacidadeProducao}
use gestao_restaurante.Previsoes.Tela.{
  obter_ficha_tecnica, procurar, Acao, abrir_ficha_tecnica, fechar_ficha_tecnica,
  abrir_ordem_compra, ordem_enviada,
}

capacidades :
    map (λ i. i.capacidade_max_item) (obter_ficha_tecnica "prod-smash-duplo") ≡ 90 ∷ 108 ∷ 212 ∷ []
unfolding obter_ficha_tecnica procurar
capacidades = refl

abbrev smash : ItemCapacidadeProducao
smash = record {
  produto_id = "prod-smash-duplo";
  nome_produto = "Smash Burger Duplo";
  demanda_prevista = 128;
  capacidade_maxima_producao = 90;
  demanda_atendivel = 90;
  risco_rutura = true;
  insumo_gargalo_id = none;
  insumo_gargalo_nome = "Carne Bovina Smash";
  deficit_unidades = 38;
  preco_venda_unitario = none;
  perda_estimada_receita = none;
}

abbrev uso : List Acao
uso =
    abrir_ficha_tecnica smash
    ∷ abrir_ordem_compra (some "ins-carne-smash")
    ∷ fechar_ficha_tecnica
    ∷ ordem_enviada
    ∷ []
