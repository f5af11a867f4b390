-- ===== src/Painel/Reposicao.antt =====
-- The figures that the panel shows, what it suggests to buy, and what its form orders.
use gestao_restaurante.Base.{
  ℕ, ◌+◌, ◌≤◌, ◌<◌, ◌≡◌, ◌↔◌, refl, ap, ◌∙◌, Bool, true, String, none, some, List, ◌∷◌, map,
  sum_from, ◌⊎◌, ◌*◌, [], str_eq, if◌then◌else◌, arith,
}
use gestao_restaurante.Previsoes.{SugestaoReposicaoInsumo}
use gestao_restaurante.Previsoes.OrdemCompra.{
  ao_abrir, custo, valor_total, insumo_pedido, InsumoPedido, Pedido, handle_confirmar,
}
use gestao_restaurante.Previsoes.OrdemCompra.Selecao.{escolhidos-ao_abrir}
use gestao_restaurante.Painel.{
  InsumoCriticoResumo, aberta, obter_resumo_executivo, Painel, itens, renderizar,
  confirmar_ordem_compra, renderizado, passo,
}

-- Where the server answers with the state of the register, the panel says that it is open exactly
-- when the server does, but it shows the server's sales and their number only where these are not
-- zero: before the first sale it shows the built-in figures.
pub obter_resumo_executivo-zero :
    (status : String) (total vendas : ℕ)
    → let d = obter_resumo_executivo (
        some (record {
          status = status;
          total_vendas = some total;
          quantidade_vendas = some vendas;
        })) in
      ((d.status_loja ≡ aberta) ↔ (str_eq status "ABERTO" ≡ true))
      × ((d.kpis.total_faturado_dia ≡ total) ↔ (0 < total))
      × ((d.kpis.quantidade_pedidos ≡ vendas) ↔ (0 < vendas))
unfolding obter_resumo_executivo
obter_resumo_executivo-zero status total vendas = (ground arith, ground arith, ground arith)

-- All of the order's lines.
abbrev pub tudo : List SugestaoReposicaoInsumo → Pedido
tudo is = record { insumos = map insumo_pedido is; valor_total = sum_from custo 0 is }

handle_confirmar-ao_abrir :
    (is : List SugestaoReposicaoInsumo) → handle_confirmar (ao_abrir none is) is ≡ tudo is
unfolding handle_confirmar valor_total
handle_confirmar-ao_abrir is = ap tudo (escolhidos-ao_abrir none is)

chosen : {b : Bool} (x y : Painel) → b ≡ true → (if b then x else y) ≡ x
chosen x y e = rw e refl

-- When the panel is rendered while the order's form is open, whatever was unmarked before is lost:
-- the order that the form hands on then has every suggestion, at the cost of all.
pub confirmar-renderizar :
    (p : Painel)
    → p.is_ordem_compra_open ≡ true
    → (passo confirmar_ordem_compra (passo renderizar p)).pedidos ≡ tudo (itens p) ∷ p.pedidos
unfolding passo renderizado
confirmar-renderizar p visible =
    let marked = record p { selecionados = ao_abrir none (itens p) } in
    let rendered : passo renderizar p ≡ marked = chosen marked p visible in
    ap (λ q. (passo confirmar_ordem_compra q).pedidos) rendered
    ∙ ap (λ q. q.pedidos) (chosen _ marked visible)
    ∙ ap (λ o. o ∷ p.pedidos) (handle_confirmar-ao_abrir (itens p))

-- A line of the order for a critical ingredient: the least amount that is at least the ingredient's
-- minimum and with which its stock reaches twice the minimum.
abbrev pub Repoe : InsumoCriticoResumo → InsumoPedido → Type 0
Repoe i o =
    (o.insumo_id ≡ i.id)
    × (o.nome_insumo ≡ i.nome)
    × (o.unidade_medida ≡ i.unidade_medida)
    × (i.quantidade_minima ≤ o.quantidade)
    × (2 * i.quantidade_minima ≤ i.quantidade_atual + o.quantidade)
    × ((o.quantidade ≡ i.quantidade_minima)
        ⊎ (i.quantidade_atual + o.quantidade ≡ 2 * i.quantidade_minima))

-- One line for each ingredient, in order.
abbrev pub RepoeTodos : List InsumoCriticoResumo → List InsumoPedido → Type 0
RepoeTodos [] [] = Unit {0}
RepoeTodos (i ∷ is) (o ∷ os) = Repoe i o × RepoeTodos is os
RepoeTodos _ _ = ⊥
