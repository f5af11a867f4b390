-- ===== src/Estoque/Vista/Oferta.antt =====
-- The movements that the stock's screen offers.
use gestao_restaurante.Base.{
  ◌≡◌, refl, ap, ◌∙◌, inl, inr, Bool, true, false, List, [], ◌∷◌, ◌++◌, append_assoc, append-nil,
  if◌then◌else◌, Bool-cases,
}
use gestao_restaurante.Base.Text.{vazio}
use gestao_restaurante.Shared.Vista.{Elemento, toques}
use gestao_restaurante.Estoque.{
  AbaEstoqueAtiva, insumos, fichas, InsumoEstoque, IngredienteFicha, FichaTecnicaItem,
  insumos_filtrados, fichas_filtradas, InsumosEstoque,
}
use gestao_restaurante.Estoque.Vista.{
  Acao, registrar_entrada, registrar_baixa, positivo, ou_nada, rodape, insumo_saldo_card,
  cards_insumos, pilulas, ficha_tecnica_ingredientes_pills, ficha_tecnica_finance_grid, card_ficha,
  cards_fichas, fichas_tecnicas_list, carregando, vista_aba, estoque_header,
  segmented_estoque_control, estoque_screen,
}

-- The ingredients of which these actions enter or write off a quantity, in order.
abbrev pub movimentos : List Acao → List (Bool × InsumoEstoque)
movimentos [] = []
movimentos (registrar_baixa i ∷ acoes) = (false, i) ∷ movimentos acoes
movimentos (registrar_entrada i ∷ acoes) = (true, i) ∷ movimentos acoes
movimentos (_ ∷ acoes) = movimentos acoes

-- A write-off and an entry of each.
abbrev pub dois_de_cada : List InsumoEstoque → List (Bool × InsumoEstoque)
dois_de_cada [] = []
dois_de_cada (i ∷ is) = (false, i) ∷ (true, i) ∷ dois_de_cada is

rodape-toques : (i : InsumoEstoque) (v : List (Elemento Acao)) → toques (rodape i ++ v) ≡ toques v
unfolding rodape
rodape-toques i v = either (positivo i.deficit_quantidade) _ _ refl (
    either (positivo i.lead_time_horas) _ _ refl
      (either (vazio (ou_nada i.observacao_consumo)) _ _ refl refl))
  where
    either :
        (b : Bool) (x y : List (Elemento Acao))
        → toques (x ++ v) ≡ toques v
        → toques (y ++ v) ≡ toques v
        → toques ((if b then x else y) ++ v) ≡ toques v
    either true x y h k = h
    either false x y h k = k

insumo_saldo_card-movimentos :
    (i : InsumoEstoque) (v : List (Elemento Acao))
    → movimentos (toques (insumo_saldo_card i ++ v))
      ≡ (false, i) ∷ (true, i) ∷ movimentos (toques v)
unfolding insumo_saldo_card
insumo_saldo_card-movimentos i v =
    ap (λ l. movimentos (toques l)) (append_assoc (rodape i) _ v)
    ∙ ap movimentos (rodape-toques i _)

cards_insumos-movimentos :
    (is : List InsumoEstoque) (v : List (Elemento Acao))
    → movimentos (toques (cards_insumos is ++ v)) ≡ dois_de_cada is ++ movimentos (toques v)
unfolding cards_insumos
cards_insumos-movimentos [] v = refl
cards_insumos-movimentos (i ∷ is) v =
    ap (λ l. movimentos (toques l)) (append_assoc (insumo_saldo_card i) (cards_insumos is) v)
    ∙ insumo_saldo_card-movimentos i (cards_insumos is ++ v)
    ∙ ap (λ l. (false, i) ∷ (true, i) ∷ l) (cards_insumos-movimentos is v)

-- A recipe only shows.
pilulas-toques :
    (is : List IngredienteFicha) (v : List (Elemento Acao)) → toques (pilulas is ++ v) ≡ toques v
pilulas-toques [] v = refl
pilulas-toques (i ∷ is) v = pilulas-toques is v

card_ficha-toques :
    (f : FichaTecnicaItem) (v : List (Elemento Acao)) → toques (card_ficha f ++ v) ≡ toques v
unfolding card_ficha ficha_tecnica_ingredientes_pills ficha_tecnica_finance_grid
card_ficha-toques f v =
    ap toques (append_assoc (pilulas f.ingredientes) _ v) ∙ pilulas-toques f.ingredientes _

cards_fichas-toques :
    (fs : List FichaTecnicaItem) (v : List (Elemento Acao))
    → toques (cards_fichas fs ++ v) ≡ toques v
unfolding cards_fichas
cards_fichas-toques [] v = refl
cards_fichas-toques (f ∷ fs) v =
    ap toques (append_assoc (card_ficha f) (cards_fichas fs) v)
    ∙ card_ficha-toques f (cards_fichas fs ++ v)
    ∙ cards_fichas-toques fs v

-- The ingredients that a tab lists.
abbrev pub listados : AbaEstoqueAtiva → List InsumoEstoque → List InsumoEstoque
listados insumos is = is
listados fichas is = []

vista_aba-movimentos :
    (aba : AbaEstoqueAtiva) (is : List InsumoEstoque) (fs : List FichaTecnicaItem)
    (v : List (Elemento Acao))
    → movimentos (toques v) ≡ []
    → movimentos (toques (vista_aba aba is fs ++ v)) ≡ dois_de_cada (listados aba is)
unfolding fichas_tecnicas_list
vista_aba-movimentos insumos [] fs v h = h
vista_aba-movimentos insumos (i ∷ is) fs v h =
    cards_insumos-movimentos (i ∷ is) v ∙ rw h (append-nil (dois_de_cada (i ∷ is)))
vista_aba-movimentos fichas is [] v h = h
vista_aba-movimentos fichas is (f ∷ fs) v h = ap movimentos (cards_fichas-toques (f ∷ fs) v) ∙ h

-- The screen offers a write-off and an entry of each ingredient that the search finds, in the order
-- of the list, while its tab is the ingredients' one; on the recipes' tab, and while nothing is
-- loaded, it offers none.
pub estoque_screen-movimentos :
    (e : InsumosEstoque) (is_loading : Bool) (is : List InsumoEstoque) (fs : List FichaTecnicaItem)
    → movimentos (toques (estoque_screen e is_loading is fs)) ≡ (
        if carregando is_loading is
        then []
        else dois_de_cada (listados e.aba_ativa (insumos_filtrados e.busca is)))
unfolding estoque_screen estoque_header segmented_estoque_control
estoque_screen-movimentos e is_loading is fs = elim (Bool-cases (carregando is_loading is)) [
  | inl l ↦ rw l refl
  | inr l ↦ rw l (
      vista_aba-movimentos e.aba_ativa (insumos_filtrados e.busca is) (fichas_filtradas e.busca fs)
        _ refl)
]
