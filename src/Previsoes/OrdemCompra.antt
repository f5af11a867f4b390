-- ===== src/Previsoes/OrdemCompra.antt =====
-- frontend/features/previsoes/components/OrdemCompraModal.tsx: the selection of the ingredients that
-- an order is made of. An amount is in thousandths times thousandths.
pub mod Selecao
use gestao_restaurante.Base.{
  ℕ, ◌+◌, ◌*◌, Bool, true, false, not, String, Option, none, some, List, [], ◌∷◌, map, filter, any,
  sum_from, ltb, str_eq, if◌then◌else◌,
}
use gestao_restaurante.Previsoes.{SugestaoReposicaoInsumo}

-- `Record<string, boolean>`, where a key that is missing reads as false.
abbrev pub Selecionados : Type 0
Selecionados = String → Bool

abbrev pub nenhum : Selecionados
nenhum k = false

unfoldable pub itens_para_comprar : List SugestaoReposicaoInsumo → List SugestaoReposicaoInsumo
itens_para_comprar = filter (λ s. ltb 0 s.quantidade_comprar)

-- `itens.forEach((i) => { m[i.insumoId] = f(i.insumoId); })`
unfoldable pub marcar : (String → Bool) → List SugestaoReposicaoInsumo → Selecionados → Selecionados
marcar f [] m = m
marcar f (i ∷ is) m = marcar f is (λ k. if str_eq k i.insumo_id then f i.insumo_id else m k)

-- An empty focus is none.
abbrev pub foco_de : Option String → Option String
foco_de none = none
foco_de (some String.[]) = none
foco_de (some (String.◌∷◌ c s)) = some (String.◌∷◌ c s)

abbrev pub foco_existe : String → List SugestaoReposicaoInsumo → Bool
foco_existe foco = any (λ i. str_eq i.insumo_id foco)

-- What the effect marks an id with.
abbrev pub marca : Option String → List SugestaoReposicaoInsumo → String → Bool
marca none is id = true
marca (some foco) is id = if foco_existe foco is then str_eq id foco else true

-- The effect, when the modal becomes visible.
unfoldable pub ao_abrir : Option String → List SugestaoReposicaoInsumo → Selecionados
unfolding marcar
ao_abrir foco is = marcar (marca (foco_de foco) is) is nenhum

unfoldable pub toggle_item : String → Selecionados → Selecionados
toggle_item id m k = if str_eq k id then not (m id) else m k

-- `itensParaComprar.filter((i) => itensSelecionados[i.insumoId])`
unfoldable pub escolhidos :
    Selecionados → List SugestaoReposicaoInsumo → List SugestaoReposicaoInsumo
escolhidos m = filter (λ i. m i.insumo_id)

-- `precoEstimadoUnitario || 35.0`
abbrev pub preco_ou_padrao : Option ℕ → ℕ
preco_ou_padrao none = 35000
preco_ou_padrao (some p) = elim (ltb 0 p) [ true ↦ p | false ↦ 35000 ]

abbrev pub custo : SugestaoReposicaoInsumo → ℕ
custo i = i.quantidade_comprar * preco_ou_padrao i.preco_estimado_unitario

unfoldable pub valor_total : Selecionados → List SugestaoReposicaoInsumo → ℕ
unfolding escolhidos
valor_total m is = sum_from custo 0 (escolhidos m is)

pub record InsumoPedido : Type 0 where
  pub insumo_id : String
  pub nome_insumo : String
  pub quantidade : ℕ
  pub unidade_medida : String

pub record Pedido : Type 0 where
  pub insumos : List InsumoPedido
  pub valor_total : ℕ

abbrev pub insumo_pedido : SugestaoReposicaoInsumo → InsumoPedido
insumo_pedido i = record {
  insumo_id = i.insumo_id;
  nome_insumo = i.nome_insumo;
  quantidade = i.quantidade_comprar;
  unidade_medida = i.unidade_medida;
}

-- `handleConfirmar`: the order that is sent.
unfoldable pub handle_confirmar : Selecionados → List SugestaoReposicaoInsumo → Pedido
unfolding escolhidos valor_total
handle_confirmar m is = record {
  insumos = map insumo_pedido (escolhidos m is);
  valor_total = valor_total m is;
}
