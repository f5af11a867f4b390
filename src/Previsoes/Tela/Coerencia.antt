-- ===== src/Previsoes/Tela/Coerencia.antt =====
-- What the two modals of the screen show.
use gestao_restaurante.Base.{
  ◌≡◌, refl, Bool, true, false, String, Option, none, some, List, [], ◌∷◌,
}
use gestao_restaurante.Previsoes.{ItemCapacidadeProducao}
use gestao_restaurante.Previsoes.Tela.{
  FichaTecnicaIngrediente, obter_ficha_tecnica, Tela, inicial, Acao, escolher_data,
  abrir_ficha_tecnica, fechar_ficha_tecnica, abrir_ordem_compra, fechar_ordem_compra, ordem_enviada,
  passo, executar,
}

-- The sheet of a product, or none.
abbrev pub ficha_de : Option ItemCapacidadeProducao → List FichaTecnicaIngrediente
ficha_de none = []
ficha_de (some p) = obter_ficha_tecnica p.produto_id

abbrev pub presente : Option ItemCapacidadeProducao → Bool
presente none = false
presente (some p) = true

-- No focus while the order is closed.
abbrev pub IsFocused : Bool → Option String → Type 0
IsFocused true f = Unit {0}
IsFocused false f = f ≡ none

-- The sheet is that of the product, which is there exactly while the sheet is open.
pub record IsCoherent (t : Tela) : Type 0 where
  pub sheet : t.ficha_ingredientes ≡ ficha_de t.produto_ficha
  pub product : presente t.produto_ficha ≡ t.is_ficha_modal_open
  pub focus : IsFocused t.is_ordem_compra_open t.insumo_foco_id

passo-IsCoherent : (a : Acao) (t : Tela) → IsCoherent t → IsCoherent (passo a t)
unfolding passo
passo-IsCoherent (escolher_data d) t h = record {
  sheet = h.sheet;
  product = h.product;
  focus = h.focus;
}
passo-IsCoherent (abrir_ficha_tecnica p) t h = record {
  sheet = refl;
  product = refl;
  focus = h.focus;
}
passo-IsCoherent fechar_ficha_tecnica t h = record { sheet = refl; product = refl; focus = h.focus }
passo-IsCoherent (abrir_ordem_compra id) t h = record {
  sheet = h.sheet;
  product = h.product;
  focus = tt;
}
passo-IsCoherent fechar_ordem_compra t h = record {
  sheet = h.sheet;
  product = h.product;
  focus = refl;
}
passo-IsCoherent ordem_enviada t h = record { sheet = h.sheet; product = h.product; focus = refl }

executar_lem : (acoes : List Acao) (t : Tela) → IsCoherent t → IsCoherent (executar acoes t)
unfolding executar
executar_lem [] t h = h
executar_lem (a ∷ acoes) t h = executar_lem acoes (passo a t) (passo-IsCoherent a t h)

-- Whatever the user opens, closes and sends, from the start on: the ingredients shown are those of
-- the product shown, a product is held exactly while its sheet is open, and no ingredient stays in
-- focus once the order is closed.
pub executar-inicial-IsCoherent : (acoes : List Acao) → IsCoherent (executar acoes inicial)
executar-inicial-IsCoherent acoes =
    executar_lem acoes inicial (record { sheet = refl; product = refl; focus = refl })
