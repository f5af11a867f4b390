-- ===== src/Estoque/Tests.antt =====
-- A delivery with an invoice, a write-off and a new ingredient.
use gestao_restaurante.Base.{◌≡◌, refl, true, none, some, List, [], ◌∷◌}
use gestao_restaurante.Base.Number.{pos}
use gestao_restaurante.Base.Text.{codes, trim, trim_start, replace_first, remove_all}
use gestao_restaurante.Base.Decimal.{digitos, parse_int, parse_float}
use gestao_restaurante.Shared.Formatters.{
  formatar_moeda_input, moeda_de_digitos, centavos_pt_br, agrupar, agrupar_fuel,
}
use gestao_restaurante.Shared.Formatters.Moeda.{ler_moeda}
use gestao_restaurante.Estoque.{InsumoEstoque, normal, avaria}
use gestao_restaurante.Estoque.Movimentos.{
  ler_numero, anotacao, FormularioBaixa, texto_do_custo, preparar_entrada, custo_valido, custo_lido,
  entrar_lido, confirmar_entrada,
}
use gestao_restaurante.Estoque.Novo.{FormularioNovo}
use gestao_restaurante.Estoque.Tela.{
  entrada, Tela, inicial, Acao, recarregar, abrir_entrada, digitar_entrada, digitar_custo,
  enviar_entrada, abrir_baixa, digitar_baixa, enviar_entrada_de, concluir_entrada,
  handle_confirmar_entrada, passo, executar,
}
use gestao_restaurante.Estoque.Tela.Envios.{IsValid, executar-inicial-IsValid}
use gestao_restaurante.Estoque.Tela.Recarga.{recarregar-enviar_entrada}

abbrev carne : InsumoEstoque
carne = record {
  id = "carne";
  nome = codes "Carne";
  sku = codes "#INS-1";
  categoria = codes "Carnes";
  localizacao = none;
  saldo_atual = 3200;
  estoque_minimo = 1000;
  estoque_ideal = none;
  unidade_medida = codes "kg";
  status_nivel = normal;
  percentual_capacidade = 100000;
  deficit_quantidade = none;
  deficit_percentual = none;
  lead_time_horas = none;
  observacao_consumo = none;
  custo_unitario_medio = some 8000;
}

abbrev recebida : List Acao
recebida =
    recarregar (carne ∷ [])
    ∷ abrir_entrada (some carne)
    ∷ digitar_entrada (codes "2,5")
    ∷ digitar_custo (codes "123456")
    ∷ enviar_entrada true none
    ∷ []

-- A cost of R$ 1.234,56 is sent as such.
enviada :
    (executar recebida inicial).pedidos
    ≡ entrada (record {
      insumo_id = "carne";
      quantidade = 2500;
      custo_unitario = some (pos 1234560);
      observacao = none;
    })
      ∷ []
unfolding executar passo enviar_entrada_de concluir_entrada handle_confirmar_entrada
    confirmar_entrada entrar_lido ler_numero anotacao trim trim_start replace_first remove_all
    parse_float custo_lido custo_valido ler_moeda formatar_moeda_input moeda_de_digitos parse_int
    centavos_pt_br agrupar agrupar_fuel digitos preparar_entrada texto_do_custo
enviada = refl

executar-inicial-IsValid_example : IsValid (executar recebida inicial)
executar-inicial-IsValid_example = executar-inicial-IsValid recebida

abbrev aberta : Tela
aberta = executar (abrir_entrada (some carne) ∷ digitar_entrada (codes "2,5") ∷ []) inicial

recarregar-enviar_entrada_example :
    (executar (recarregar (carne ∷ []) ∷ enviar_entrada true none ∷ []) aberta).pedidos
    ≡ aberta.pedidos
unfolding executar passo
recarregar-enviar_entrada_example = recarregar-enviar_entrada (carne ∷ []) true none aberta refl

abbrev baixando : Tela
baixando = executar (abrir_baixa carne ∷ digitar_baixa (codes "3,2") ∷ []) inicial

abbrev perda : FormularioBaixa
perda = record { motivo_selecionado = avaria; quantidade_texto = codes "3,2"; observacao = [] }

tres_e_duzentos : ler_numero (codes "3,2") ≡ some (pos 3200)
unfolding ler_numero replace_first parse_float trim_start
tres_e_duzentos = refl

abbrev tomate : FormularioNovo
tomate = record {
  nome = codes "Tomate";
  categoria = "Hortifrúti";
  unidade_medida = "KG";
  custo_texto = codes "3,2";
  minimo_texto = codes "3,2";
  saldo_inicial_texto = [];
}
