-- ===== src/Previsoes/Tests.antt =====
-- The report that the application falls back to.
use gestao_restaurante.Base.{◌≡◌, refl, true, false, none, some, List}
use gestao_restaurante.Previsoes.{
  SugestaoReposicaoInsumo, dados_previsao_padrao, obter_capacidade_producao, item_com_maior_deficit,
  perda_total, deficit_total, metricas,
}
use gestao_restaurante.Base.Text.{codes, replace_first}
use gestao_restaurante.Base.Decimal.{digitos, texto_fixed2}
use gestao_restaurante.Shared.Vista.{oferece, texto_numero, texto_fixed1, com_virgula}
use gestao_restaurante.Previsoes.Vista.Dialogos.{ordem_compra_modal}
use gestao_restaurante.Previsoes.Vista.Oferta.{e_confirmar, ao_abrir-ordem}
use gestao_restaurante.Previsoes.Gargalo.{IsGargalo, item_com_maior_deficit-IsGargalo}
use gestao_restaurante.Previsoes.OrdemCompra.{
  itens_para_comprar, marcar, ao_abrir, escolhidos, valor_total, handle_confirmar,
}

figuras :
    ((metricas (some (obter_capacidade_producao none none))).perda_total_estimada ≡ 1586200)
    × ((metricas (some (obter_capacidade_producao none none))).total_deficit_unidades ≡ 48)
unfolding metricas obter_capacidade_producao perda_total deficit_total
figuras = (refl, refl)

item_com_maior_deficit-IsGargalo_example :
    IsGargalo dados_previsao_padrao.itens_capacidade
      (item_com_maior_deficit dados_previsao_padrao.itens_capacidade)
item_com_maior_deficit-IsGargalo_example =
    item_com_maior_deficit-IsGargalo dados_previsao_padrao.itens_capacidade

abbrev compras : List SugestaoReposicaoInsumo
compras = itens_para_comprar dados_previsao_padrao.sugestoes_reposicao

ordem_inicial :
    (handle_confirmar (ao_abrir (some "ins-pao-brioche") compras) compras).valor_total ≡ 66000000
unfolding handle_confirmar ao_abrir marcar escolhidos valor_total itens_para_comprar
ordem_inicial = refl

-- The numbers as the cards print them.
numeros :
    (texto_numero 26000 ≡ codes "26")
    × (texto_numero 1250 ≡ codes "1.25")
    × (texto_fixed1 1250 ≡ codes "1.3")
    × (com_virgula 53350 ≡ codes "53,35")
unfolding texto_numero texto_fixed1 com_virgula digitos texto_fixed2 replace_first
numeros = (refl, refl, refl, refl)

-- A form with a mark for everything that is to be bought can be sent.
enviavel :
    (oferece e_confirmar
        (ordem_compra_modal (ao_abrir none compras) false dados_previsao_padrao.sugestoes_reposicao)
      ≡ true)
enviavel = (ao_abrir-ordem dados_previsao_padrao.sugestoes_reposicao).0 refl
