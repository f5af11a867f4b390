-- ===== src/Vendas/Catalogo/Tests.antt =====
-- The catalogue of the application, and a search of it.
use gestao_restaurante.Base.{◌≡◌, refl, none, some, map, [], ◌∷◌}
use gestao_restaurante.Base.Text.{codes, includes, starts_with, to_lower_case}
use gestao_restaurante.Vendas.{todos, hamburgueres, porcoes, bebidas}
use gestao_restaurante.Vendas.Catalogo.{categorizar_produto, catalogo, produtos_filtrados}

categorias :
    (categorizar_produto (codes "Suco de Laranja") none ≡ bebidas)
    × (categorizar_produto (codes "Batata Rústica") (some (codes "Com BLEND")) ≡ hamburgueres)
    × (categorizar_produto (codes "PORÇÃO") none ≡ porcoes)
unfolding categorizar_produto to_lower_case includes starts_with
categorias = (refl, refl, refl)

busca : map (λ p. p.preco) (produtos_filtrados todos (codes "SORVETE") (catalogo none)) ≡ 18900 ∷ []
unfolding produtos_filtrados catalogo to_lower_case includes starts_with
busca = refl
