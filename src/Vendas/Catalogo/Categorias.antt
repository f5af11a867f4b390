-- ===== src/Vendas/Catalogo/Categorias.antt =====
-- The categories divide the catalogue, and the search does not mind the case.
use gestao_restaurante.Base.{
  ℕ, ◌+◌, ◌≡◌, refl, ap, inl, inr, Bool, false, ◌&&◌, ◌||◌, Option, none, some, List, [], ◌∷◌,
  filter, length, if◌then◌else◌, All, Bool-cases, arith,
}
use gestao_restaurante.Base.Text.{Texto, lower, to_lower_case}
use gestao_restaurante.Vendas.{
  CategoriaProduto, todos, hamburgueres, porcoes, bebidas, sobremesas, Produto,
}
use gestao_restaurante.Vendas.Catalogo.{
  ProdutoApiResponse, categorizar_produto, produto_de, obter_produtos, catalogo, mesma_categoria,
  atende_categoria, atende_busca, produtos_filtrados,
}

-- A product has a category of its own.
abbrev pub IsSorted : Produto → Type 0
IsSorted p = mesma_categoria p.categoria todos ≡ false

produto_de-IsSorted : (p : ProdutoApiResponse) → IsSorted (produto_de p)
unfolding produto_de categorizar_produto
produto_de-IsSorted p = ground arith

obter_produtos-IsSorted : (ps : List ProdutoApiResponse) → All IsSorted (obter_produtos ps)
unfolding obter_produtos
obter_produtos-IsSorted [] = tt
obter_produtos-IsSorted (p ∷ ps) = (produto_de-IsSorted p, obter_produtos-IsSorted ps)

catalogo-IsSorted : (r : Option (List ProdutoApiResponse)) → All IsSorted (catalogo r)
unfolding catalogo
catalogo-IsSorted none = (refl, (refl, (refl, (refl, (refl, (refl, (refl, (refl, tt))))))))
catalogo-IsSorted (some []) = (refl, (refl, (refl, (refl, (refl, (refl, (refl, (refl, tt))))))))
catalogo-IsSorted (some (p ∷ ps)) = obter_produtos-IsSorted (p ∷ ps)

-- How many products a choice of category shows.
abbrev pub mostrados : CategoriaProduto → Texto → List Produto → ℕ
mostrados c t ps = length (produtos_filtrados c t ps)

-- One where the product is shown under the category, else none.
abbrev um : CategoriaProduto → Texto → Produto → ℕ
um c t p = if atende_categoria c p && atende_busca t p && p.ativo then 1 else 0

mostrados-cons :
    (c : CategoriaProduto) (t : Texto) (p : Produto) (ps : List Produto)
    → mostrados c t (p ∷ ps) ≡ um c t p + mostrados c t ps
unfolding produtos_filtrados
mostrados-cons c t p ps = elim (Bool-cases (atende_categoria c p && atende_busca t p && p.ativo)) [
  | inl e ↦ rw e (omega arith)
  | inr e ↦ rw e (omega arith)
]

um_lem :
    (k : CategoriaProduto) (b a : Bool)
    → mesma_categoria k todos ≡ false
    → (if (mesma_categoria todos todos || mesma_categoria k todos) && b && a then 1 else 0)
      ≡ (if (mesma_categoria hamburgueres todos || mesma_categoria k hamburgueres) && b && a
          then 1
          else 0)
        + (if (mesma_categoria porcoes todos || mesma_categoria k porcoes) && b && a then 1 else 0)
        + (if (mesma_categoria bebidas todos || mesma_categoria k bebidas) && b && a then 1 else 0)
        + (if (mesma_categoria sobremesas todos || mesma_categoria k sobremesas) && b && a
            then 1
            else 0)
um_lem k b a h = ground (arith, h)

mostrados_sum :
    (t : Texto) (ps : List Produto)
    → All IsSorted ps
    → mostrados todos t ps
      ≡ mostrados hamburgueres t ps
        + mostrados porcoes t ps
        + mostrados bebidas t ps
        + mostrados sobremesas t ps
unfolding produtos_filtrados
mostrados_sum t [] h = refl
mostrados_sum t (p ∷ ps) (h, hs) = omega (
  arith,
  mostrados-cons todos t p ps,
  mostrados-cons hamburgueres t p ps,
  mostrados-cons porcoes t p ps,
  mostrados-cons bebidas t p ps,
  mostrados-cons sobremesas t p ps,
  um_lem p.categoria (atende_busca t p) p.ativo h,
  mostrados_sum t ps hs,
)

-- Whatever the server answers or fails to answer, and whatever is searched: the numbers of products
-- shown under the four categories add up to the number shown under "Todos".
pub catalogo-mostrados :
    (r : Option (List ProdutoApiResponse)) (t : Texto)
    → mostrados todos t (catalogo r)
      ≡ mostrados hamburgueres t (catalogo r)
        + mostrados porcoes t (catalogo r)
        + mostrados bebidas t (catalogo r)
        + mostrados sobremesas t (catalogo r)
catalogo-mostrados r t = mostrados_sum t (catalogo r) (catalogo-IsSorted r)

lower-lower : (c : ℕ) → lower (lower c) ≡ lower c
lower-lower c = ground arith

to_lower_case-to_lower_case : (t : Texto) → to_lower_case (to_lower_case t) ≡ to_lower_case t
unfolding to_lower_case
to_lower_case-to_lower_case [] = refl
to_lower_case-to_lower_case (c ∷ t) = rw (lower-lower c, to_lower_case-to_lower_case t)

filter-same :
    (p q : Produto → Bool) (xs : List Produto)
    → ((x : Produto) → p x ≡ q x)
    → filter p xs ≡ filter q xs
filter-same p q [] h = refl
filter-same p q (x ∷ xs) h = rw (h x, filter-same p q xs h)

atende_busca-to_lower_case :
    (t : Texto) (p : Produto) → atende_busca (to_lower_case t) p ≡ atende_busca t p
unfolding to_lower_case
atende_busca-to_lower_case [] p = refl
atende_busca-to_lower_case (c ∷ t) p = rw (lower-lower c, to_lower_case-to_lower_case t) refl

-- A search finds the same in lower case.
pub produtos_filtrados-to_lower_case :
    (c : CategoriaProduto) (t : Texto) (ps : List Produto)
    → produtos_filtrados c (to_lower_case t) ps ≡ produtos_filtrados c t ps
unfolding produtos_filtrados
produtos_filtrados-to_lower_case c t ps =
    filter-same (λ p. atende_categoria c p && atende_busca (to_lower_case t) p && p.ativo)
      (λ p. atende_categoria c p && atende_busca t p && p.ativo) ps
      (λ p. ap (λ b. atende_categoria c p && b && p.ativo) (atende_busca-to_lower_case t p))
