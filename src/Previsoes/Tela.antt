-- ===== src/Previsoes/Tela.antt =====
-- frontend/features/previsoes: the state of the screen, hooks/useCapacidadeProducao.ts, with the
-- technical sheets of services/previsoesService.ts. A sheet is there at once, so that opening it is
-- one step. Quantities are in thousandths.
pub mod Coerencia
mod Tests
use gestao_restaurante.Base.{
  ℕ, Bool, true, false, String, Option, none, some, List, [], ◌∷◌, str_eq, if◌then◌else◌,
}
use gestao_restaurante.Previsoes.{ItemCapacidadeProducao}

pub record FichaTecnicaIngrediente : Type 0 where
  pub insumo_id : String
  pub nome_insumo : String
  pub quantidade_por_porcao : ℕ
  pub unidade_medida : String
  pub estoque_atual : ℕ
  pub estoque_necessario : ℕ
  pub capacidade_max_item : ℕ
  pub is_gargalo : Bool

-- `FICHAS_TECNICAS_MOCK`
abbrev pub fichas_tecnicas_mock : List (String × List FichaTecnicaIngrediente)
fichas_tecnicas_mock =
    (
      "prod-smash-duplo",
      record {
        insumo_id = "ins-carne-smash";
        nome_insumo = "Carne Bovina Smash (Blend)";
        quantidade_por_porcao = 180;
        unidade_medida = "kg";
        estoque_atual = 16200;
        estoque_necessario = 23040;
        capacidade_max_item = 90;
        is_gargalo = true;
      }
          ∷ record {
            insumo_id = "ins-pao-brioche";
            nome_insumo = "Pão Brioche Artesanal";
            quantidade_por_porcao = 1000;
            unidade_medida = "un";
            estoque_atual = 108000;
            estoque_necessario = 128000;
            capacidade_max_item = 108;
            is_gargalo = false;
          }
          ∷ record {
            insumo_id = "ins-queijo-cheddar";
            nome_insumo = "Queijo Cheddar Fatiado";
            quantidade_por_porcao = 40;
            unidade_medida = "kg";
            estoque_atual = 8500;
            estoque_necessario = 5120;
            capacidade_max_item = 212;
            is_gargalo = false;
          }
          ∷ [],
    )
    ∷ (
      "prod-batata-rustica",
      record {
        insumo_id = "ins-azeite-trufado";
        nome_insumo = "Azeite Trufado Importado";
        quantidade_por_porcao = 15;
        unidade_medida = "L";
        estoque_atual = 1270;
        estoque_necessario = 1420;
        capacidade_max_item = 85;
        is_gargalo = true;
      }
          ∷ record {
            insumo_id = "ins-batata-congelada";
            nome_insumo = "Batata Rústica Especial";
            quantidade_por_porcao = 250;
            unidade_medida = "kg";
            estoque_atual = 35000;
            estoque_necessario = 23750;
            capacidade_max_item = 140;
            is_gargalo = false;
          }
          ∷ [],
    )
    ∷ (
      "prod-suco-laranja",
      record {
        insumo_id = "ins-laranja-pera";
        nome_insumo = "Laranja Pêra Fresca";
        quantidade_por_porcao = 600;
        unidade_medida = "kg";
        estoque_atual = 60000;
        estoque_necessario = 36000;
        capacidade_max_item = 100;
        is_gargalo = false;
      }
          ∷ [],
    )
    ∷ []

-- `fichas[id] || []`
unfoldable pub procurar :
    String → List (String × List FichaTecnicaIngrediente) → List FichaTecnicaIngrediente
procurar id [] = []
procurar id ((k, f) ∷ fs) = if str_eq k id then f else procurar id fs

unfoldable pub obter_ficha_tecnica : String → List FichaTecnicaIngrediente
unfolding procurar
obter_ficha_tecnica id = procurar id fichas_tecnicas_mock

pub record Tela : Type 0 where
  pub data_alvo : String
  pub produto_ficha : Option ItemCapacidadeProducao
  pub ficha_ingredientes : List FichaTecnicaIngrediente
  pub is_ficha_modal_open : Bool
  pub is_ordem_compra_open : Bool
  pub insumo_foco_id : Option String

abbrev pub inicial : Tela
inicial = record {
  data_alvo = "2026-09-28";
  produto_ficha = none;
  ficha_ingredientes = [];
  is_ficha_modal_open = false;
  is_ordem_compra_open = false;
  insumo_foco_id = none;
}

-- `insumoId || null`
abbrev pub ou_nulo : Option String → Option String
ou_nulo none = none
ou_nulo (some String.[]) = none
ou_nulo (some (String.◌∷◌ c s)) = some (String.◌∷◌ c s)

-- What the user does; `ordem_enviada` is the success of the order's mutation.
pub data Acao : Type 0 where
  escolher_data : String → Acao
  abrir_ficha_tecnica : ItemCapacidadeProducao → Acao
  fechar_ficha_tecnica : Acao
  abrir_ordem_compra : Option String → Acao
  fechar_ordem_compra : Acao
  ordem_enviada : Acao

unfoldable pub passo : Acao → Tela → Tela
unfolding obter_ficha_tecnica
passo (escolher_data d) t = record t { data_alvo = d }
passo (abrir_ficha_tecnica p) t = record t {
  produto_ficha = some p;
  ficha_ingredientes = obter_ficha_tecnica p.produto_id;
  is_ficha_modal_open = true;
}
passo fechar_ficha_tecnica t = record t {
  is_ficha_modal_open = false;
  produto_ficha = none;
  ficha_ingredientes = [];
}
passo (abrir_ordem_compra id) t = record t {
  insumo_foco_id = ou_nulo id;
  is_ordem_compra_open = true;
}
passo fechar_ordem_compra t = record t { is_ordem_compra_open = false; insumo_foco_id = none }
passo ordem_enviada t = record t { is_ordem_compra_open = false; insumo_foco_id = none }

unfoldable pub executar : List Acao → Tela → Tela
unfolding passo
executar [] t = t
executar (a ∷ acoes) t = executar acoes (passo a t)
