-- ===== src/Estoque.antt =====
-- frontend/features/estoque: the stock. types/index.ts, services/estoqueService.ts with what it
-- shows when the server gives nothing, and the filters of hooks/useInsumosEstoque.ts. Quantities
-- and money are in thousandths.
pub mod Movimentos
pub mod Novo
pub mod Tela
pub mod Vista
mod Tests
use gestao_restaurante.Base.{
  ℕ, ◌-◌, Bool, true, false, ◌&&◌, ◌||◌, leb, String, Option, none, some, List, [], ◌∷◌, ◌++◌, map,
  filter, take, if◌then◌else◌,
}
use gestao_restaurante.Base.Text.{Texto, codes, vazio, trim, includes, to_lower_case}
use gestao_restaurante.Base.Number.{ℤ}
use gestao_restaurante.Shared.Formatters.{ou_padrao}

pub data AbaEstoqueAtiva : Type 0 where
  insumos fichas : AbaEstoqueAtiva

pub data StatusNivelEstoque : Type 0 where
  critico atencao normal : StatusNivelEstoque

pub record InsumoEstoque : Type 0 where
  pub id : String
  pub nome : Texto
  pub sku : Texto
  pub categoria : Texto
  pub localizacao : Option Texto
  pub saldo_atual : ℕ
  pub estoque_minimo : ℕ
  pub estoque_ideal : Option ℕ
  pub unidade_medida : Texto
  pub status_nivel : StatusNivelEstoque
  pub percentual_capacidade : ℕ
  pub deficit_quantidade : Option ℕ
  pub deficit_percentual : Option ℕ
  pub lead_time_horas : Option ℕ
  pub observacao_consumo : Option Texto
  pub custo_unitario_medio : Option ℕ

pub record IngredienteFicha : Type 0 where
  pub insumo_id : String
  pub nome : Texto
  pub quantidade : Texto
  pub is_gargalo : Option Bool

pub record FichaTecnicaItem : Type 0 where
  pub id : Texto
  pub produto_id : Texto
  pub nome_produto : Texto
  pub sku : Texto
  pub versao_bom : Option Texto
  pub tempo_preparo_min : Option ℕ
  pub imagem_url : Option Texto
  pub ingredientes : List IngredienteFicha
  pub custo_insumos : ℕ
  pub preco_balcao : ℕ
  pub margem_bruta_percentual : ℕ
  pub capacidade_turno_porcoes : ℕ
  pub insumo_limitante_nome : Option Texto

pub record EntradaEstoqueInput : Type 0 where
  pub insumo_id : String
  pub quantidade : ℕ
  pub custo_unitario : Option ℤ
  pub observacao : Option Texto

pub record EntradaEstoqueResponse : Type 0 where
  pub id : String
  pub insumo_id : String
  pub quantidade_adicionada : ℕ
  pub novo_saldo : ℕ
  pub data_hora : String
  pub protocolo_ledger : Texto

pub record CadastrarInsumoInput : Type 0 where
  pub nome : Texto
  pub unidade_medida : String
  pub estoque_minimo : ℕ
  pub custo_unitario : ℕ
  pub saldo_inicial : Option ℕ
  pub categoria : Option String

pub data MotivoBaixaEstoque : Type 0 where
  avaria validade inventario : MotivoBaixaEstoque

pub record BaixaEstoqueInput : Type 0 where
  pub insumo_id : String
  pub quantidade : ℕ
  pub motivo : MotivoBaixaEstoque
  pub observacao : Option Texto

abbrev insumo_inicial : String → Texto → Texto → Texto → Texto → ℕ → ℕ → InsumoEstoque
insumo_inicial id nome sku categoria localizacao saldo custo = record {
  id = id;
  nome = nome;
  sku = sku;
  categoria = categoria;
  localizacao = some localizacao;
  saldo_atual = saldo;
  estoque_minimo = 10000;
  estoque_ideal = some 20000;
  unidade_medida = codes "un";
  status_nivel = normal;
  percentual_capacidade = 100000;
  deficit_quantidade = none;
  deficit_percentual = none;
  lead_time_horas = none;
  observacao_consumo = none;
  custo_unitario_medio = some custo;
}

-- `INSUMOS_MOCK_INICIAL`
abbrev pub insumos_mock_inicial : List InsumoEstoque
insumos_mock_inicial =
    insumo_inicial "22222222-2222-2222-2222-222222222222" (codes "Pão Brioche Artesanal")
      (codes "#INS-2222") (codes "Panificação") (codes "Estoque Seco") 56000 2500
    ∷ insumo_inicial "33333333-3333-3333-3333-333333333333" (codes "Hambúrguer de Carne Angus 180g")
        (codes "#INS-3333") (codes "Proteínas / Carnes") (codes "Câmara Fria 01") 46000 8000
    ∷ insumo_inicial "44444444-4444-4444-4444-444444444444" (codes "Queijo Cheddar Fatiado")
        (codes "#INS-4444") (codes "Laticínios") (codes "Refrigerador 02") 46000 1500
    ∷ []

abbrev um : String → Texto → IngredienteFicha
um id nome = record { insumo_id = id; nome = nome; quantidade = codes "1 un"; is_gargalo = none }

-- `FICHAS_TECNICAS_MOCK_INICIAL`
abbrev pub fichas_tecnicas_mock_inicial : List FichaTecnicaItem
fichas_tecnicas_mock_inicial =
    record {
      id = codes "55555555-5555-5555-5555-555555555555";
      produto_id = codes "55555555-5555-5555-5555-555555555555";
      nome_produto = codes "Hambúrguer Artesanal Supremo";
      sku = codes "#BOM-5555";
      versao_bom = some (codes "v1.0 (Ativa)");
      tempo_preparo_min = some 14;
      imagem_url = none;
      ingredientes =
          um "22222222-2222-2222-2222-222222222222" (codes "Pão Brioche Artesanal")
          ∷ um "33333333-3333-3333-3333-333333333333" (codes "Carne Angus 180g")
          ∷ um "44444444-4444-4444-4444-444444444444" (codes "Queijo Cheddar Fatiado")
          ∷ [];
      custo_insumos = 12000;
      preco_balcao = 38000;
      margem_bruta_percentual = 68400;
      capacidade_turno_porcoes = 46;
      insumo_limitante_nome = none;
    }
    ∷ []

-- What a request for a list gives: an error, a body that is no array, or an array.
pub data Resposta {ℓ} (A : Type ℓ) : Type ℓ where
  falha : Resposta A
  sem_lista : Resposta A
  lista : List A → Resposta A

-- `obterInsumos()`
unfoldable pub obter_insumos : Resposta InsumoEstoque → List InsumoEstoque
obter_insumos falha = insumos_mock_inicial
obter_insumos sem_lista = insumos_mock_inicial
obter_insumos (lista []) = insumos_mock_inicial
obter_insumos (lista (x ∷ xs)) = x ∷ xs

-- What the server tells of a product's recipe.
pub record FichaApi : Type 0 where
  pub id : Texto
  pub nome : Texto
  pub categoria : Texto
  pub imagem_url : Option Texto
  pub ingredientes : List IngredienteFicha
  pub custo_insumos : ℕ
  pub preco_balcao : ℕ
  pub margem_bruta_percentual : ℕ
  pub capacidade_turno_porcoes : ℕ

-- `s.toUpperCase()` over ASCII, which the identifiers are written in.
abbrev upper : ℕ → ℕ
upper c = if leb b'a' c && leb c b'z' then c - 32 else c

abbrev sem_gargalo : IngredienteFicha → IngredienteFicha
sem_gargalo i = record i { is_gargalo = none }

unfoldable pub ficha_de : FichaApi → FichaTecnicaItem
ficha_de f = record {
  id = f.id;
  produto_id = f.id;
  nome_produto = f.nome;
  sku = codes "#BOM-" ++ map upper (take 4 f.id);
  versao_bom = some (codes "v1.0 (Ativa)");
  tempo_preparo_min = some 12;
  imagem_url = f.imagem_url;
  ingredientes = map sem_gargalo f.ingredientes;
  custo_insumos = f.custo_insumos;
  preco_balcao = f.preco_balcao;
  margem_bruta_percentual = f.margem_bruta_percentual;
  capacidade_turno_porcoes = f.capacidade_turno_porcoes;
  insumo_limitante_nome = none;
}

-- `obterFichasTecnicas()`
unfoldable pub obter_fichas_tecnicas : Resposta FichaApi → List FichaTecnicaItem
unfolding ficha_de
obter_fichas_tecnicas falha = fichas_tecnicas_mock_inicial
obter_fichas_tecnicas sem_lista = fichas_tecnicas_mock_inicial
obter_fichas_tecnicas (lista []) = fichas_tecnicas_mock_inicial
obter_fichas_tecnicas (lista (f ∷ fs)) = map ficha_de (f ∷ fs)

abbrev pub origem_de : MotivoBaixaEstoque → ℕ
origem_de avaria = 3
origem_de validade = 3
origem_de inventario = 2

abbrev pub nome_do_motivo : MotivoBaixaEstoque → Texto
nome_do_motivo avaria = codes "Avaria"
nome_do_motivo validade = codes "Validade"
nome_do_motivo inventario = codes "Inventario"

-- The body of the request of `registrarBaixaEstoque`.
pub record PedidoBaixa : Type 0 where
  pub itens : List (String × ℕ)
  pub origem : ℕ
  pub observacao : Texto

unfoldable pub registrar_baixa_estoque : BaixaEstoqueInput → PedidoBaixa
unfolding ou_padrao trim
registrar_baixa_estoque dados = record {
  itens = (dados.insumo_id, dados.quantidade) ∷ [];
  origem = origem_de dados.motivo;
  observacao = trim (
      b'[' ∷ nome_do_motivo dados.motivo
      ++ codes "] "
      ++ ou_padrao dados.observacao (codes "Baixa manual registrada pelo gestor"));
}

-- The words that a search looks through.
abbrev pub insumo_contem : Texto → InsumoEstoque → Bool
insumo_contem termo item =
    includes (to_lower_case item.nome) termo
    || includes (to_lower_case item.sku) termo
    || includes (to_lower_case item.categoria) termo

abbrev pub ficha_contem : Texto → FichaTecnicaItem → Bool
ficha_contem termo f =
    includes (to_lower_case f.nome_produto) termo || includes (to_lower_case f.sku) termo

unfoldable pub insumos_filtrados : Texto → List InsumoEstoque → List InsumoEstoque
unfolding trim includes to_lower_case
insumos_filtrados busca xs =
    if vazio (trim busca) then xs else filter (insumo_contem (to_lower_case busca)) xs

unfoldable pub fichas_filtradas : Texto → List FichaTecnicaItem → List FichaTecnicaItem
unfolding trim includes to_lower_case
fichas_filtradas busca fs =
    if vazio (trim busca) then fs else filter (ficha_contem (to_lower_case busca)) fs

-- The state of `useInsumosEstoque`.
pub record InsumosEstoque : Type 0 where
  pub aba_ativa : AbaEstoqueAtiva
  pub busca : Texto
  pub insumo_selecionado : Option InsumoEstoque
  pub is_modal_entrada_open : Bool

abbrev pub inicial : InsumosEstoque
inicial = record {
  aba_ativa = insumos;
  busca = [];
  insumo_selecionado = none;
  is_modal_entrada_open = false;
}

abbrev pub abrir_modal_entrada : Option InsumoEstoque → InsumosEstoque → InsumosEstoque
abrir_modal_entrada insumo e = record e {
  insumo_selecionado = insumo;
  is_modal_entrada_open = true;
}

abbrev pub fechar_modal_entrada : InsumosEstoque → InsumosEstoque
fechar_modal_entrada e = record e { is_modal_entrada_open = false; insumo_selecionado = none }
