-- ===== src/Vendas/Catalogo.antt =====
-- frontend/features/vendas/hooks/useCatalogoProdutos.ts and services/vendasService.ts: the
-- catalogue, from the server or from the application, and its search.
pub mod Categorias
mod Tests
use gestao_restaurante.Base.{
  ℕ, zero, suc, Bool, true, false, not, ◌&&◌, ◌||◌, String, Option, none, some, List, [], ◌∷◌, ◌++◌,
  map, filter, length, ltb, if◌then◌else◌,
}
use gestao_restaurante.Base.Text.{Texto, codes, includes, to_lower_case}
use gestao_restaurante.Vendas.{
  CategoriaProduto, todos, hamburgueres, porcoes, bebidas, sobremesas, Produto,
}

pub record ProdutoApiResponse : Type 0 where
  pub id : String
  pub nome : Texto
  pub descricao : Option Texto
  pub preco : ℕ
  pub ativo : Bool

-- `descricao || ''`
abbrev pub ou_vazio : Option Texto → Texto
ou_vazio none = []
ou_vazio (some t) = t

-- Whether a text has one of the words.
abbrev pub tem : Texto → List Texto → Bool
tem t [] = false
tem t (p ∷ ps) = includes t p || tem t ps

abbrev pub palavras_hamburguer : List Texto
palavras_hamburguer = codes "burger" ∷ codes "hambúrguer" ∷ codes "smash" ∷ codes "blend" ∷ []

abbrev pub palavras_porcao : List Texto
palavras_porcao =
    codes "batata" ∷ codes "onion" ∷ codes "porção" ∷ codes "anéis" ∷ codes "frita" ∷ []

abbrev pub palavras_bebida : List Texto
palavras_bebida =
    codes "refrigerante"
    ∷ codes "suco"
    ∷ codes "coca"
    ∷ codes "lata"
    ∷ codes "água"
    ∷ codes "bebida"
    ∷ []

abbrev pub palavras_sobremesa : List Texto
palavras_sobremesa =
    codes "pudim" ∷ codes "brownie" ∷ codes "sorvete" ∷ codes "torta" ∷ codes "sobremesa" ∷ []

unfoldable pub categorizar_produto : Texto → Option Texto → CategoriaProduto
categorizar_produto nome descricao =
    let texto = to_lower_case (nome ++ (32 ∷ ou_vazio descricao)) in
    if tem texto palavras_hamburguer
    then hamburgueres
    else if tem texto palavras_porcao
    then porcoes
    else if tem texto palavras_bebida
    then bebidas
    else if tem texto palavras_sobremesa
    then sobremesas
    else hamburgueres

unfoldable pub produto_de : ProdutoApiResponse → Produto
unfolding categorizar_produto
produto_de p = record {
  id = p.id;
  nome = p.nome;
  descricao = p.descricao;
  preco = p.preco;
  categoria = categorizar_produto p.nome p.descricao;
  imagem_url = none;
  estoque_restante = none;
  ativo = p.ativo;
}

-- `obterProdutos()` on the data of its response.
unfoldable pub obter_produtos : List ProdutoApiResponse → List Produto
unfolding produto_de
obter_produtos dados = map produto_de dados

pub record ItemFichaTecnicaInput : Type 0 where
  pub insumo_id : String
  pub quantidade : ℕ

pub record CriarProdutoInput : Type 0 where
  pub nome : Texto
  pub preco : ℕ
  pub categoria : CategoriaProduto
  pub descricao : Option Texto
  pub ficha_tecnica : Option (List ItemFichaTecnicaInput)

-- `criarProduto` on the data of its response: the category is the one that was entered.
unfoldable pub criar_produto : CriarProdutoInput → ProdutoApiResponse → Produto
unfolding produto_de
criar_produto dto p = record (produto_de p) { categoria = dto.categoria }

abbrev item_inicial : String → Texto → Texto → ℕ → CategoriaProduto → ℕ → Produto
item_inicial id nome descricao preco categoria estoque = record {
  id = id;
  nome = nome;
  descricao = some descricao;
  preco = preco;
  categoria = categoria;
  imagem_url = none;
  estoque_restante = some estoque;
  ativo = true;
}

-- `PRODUTOS_CATALOGO_INICIAL`
abbrev pub produtos_catalogo_inicial : List Produto
produtos_catalogo_inicial =
    item_inicial "55555555-5555-5555-5555-555555555555" (codes "Hambúrguer Artesanal Supremo")
      (codes
        "Delicioso hambúrguer artesanal com blend angus, pão brioche e queijo cheddar derretido.")
      38000 hamburgueres 10
    ∷ item_inicial "55555555-5555-5555-5555-555555555552" (codes "Double Smash Bacon")
        (codes "2x blend smash 90g, muito bacon crocante e queijo prato.") 42000 hamburgueres 8
    ∷ item_inicial "55555555-5555-5555-5555-555555555553" (codes "Batata Rústica Trufada")
        (codes "Batatas crocantes com azeite trufado e queijo parmesão ralado.") 26500 porcoes 15
    ∷ item_inicial "55555555-5555-5555-5555-555555555554" (codes "Onion Rings Crocantes")
        (codes "Anéis de cebola empanados acompanhados de molho barbecue.") 22000 porcoes 12
    ∷ item_inicial "55555555-5555-5555-5555-555555555556" (codes "Refrigerante Lata 350ml")
        (codes "Coca-Cola, Guaraná Antarctica ou Água Tônica.") 7500 bebidas 50
    ∷ item_inicial "55555555-5555-5555-5555-555555555557" (codes "Suco de Laranja Natural")
        (codes "Suco integral 400ml preparado na hora.") 12000 bebidas 20
    ∷ item_inicial "55555555-5555-5555-5555-555555555558" (codes "Pudim de Leite Artesanal")
        (codes "Fatia individual de pudim tradicional com calda de caramelo.") 14000 sobremesas 6
    ∷ item_inicial "55555555-5555-5555-5555-555555555559" (codes "Brownie com Sorvete")
        (codes "Brownie de chocolate belga aquecido com sorvete de creme.") 18900 sobremesas 3
    ∷ []

-- The query: the server's products, or those of the application where there are none or where the
-- request failed (`none`).
unfoldable pub catalogo : Option (List ProdutoApiResponse) → List Produto
unfolding obter_produtos
catalogo none = produtos_catalogo_inicial
catalogo (some []) = produtos_catalogo_inicial
catalogo (some (p ∷ ps)) = obter_produtos (p ∷ ps)

abbrev pub mesma_categoria : CategoriaProduto → CategoriaProduto → Bool
mesma_categoria todos todos = true
mesma_categoria hamburgueres hamburgueres = true
mesma_categoria porcoes porcoes = true
mesma_categoria bebidas bebidas = true
mesma_categoria sobremesas sobremesas = true
mesma_categoria _ _ = false

abbrev pub atende_categoria : CategoriaProduto → Produto → Bool
atende_categoria c p = mesma_categoria c todos || mesma_categoria p.categoria c

abbrev pub na_descricao : Texto → Option Texto → Bool
na_descricao t none = false
na_descricao t (some d) = includes (to_lower_case d) t

-- An empty description counts as none.
abbrev pub descrita : Option Texto → Option Texto
descrita none = none
descrita (some []) = none
descrita (some (c ∷ t)) = some (c ∷ t)

abbrev pub atende_busca : Texto → Produto → Bool
atende_busca [] p = true
atende_busca (c ∷ t) p =
    includes (to_lower_case p.nome) (to_lower_case (c ∷ t))
    || na_descricao (to_lower_case (c ∷ t)) (descrita p.descricao)

unfoldable pub produtos_filtrados : CategoriaProduto → Texto → List Produto → List Produto
produtos_filtrados categoria termo =
    filter (λ p. atende_categoria categoria p && atende_busca termo p && p.ativo)
