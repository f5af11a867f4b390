-- ===== src/Painel/Vista/Oferta.antt =====
-- The order that the executive panel offers, and the form that it opens.
use gestao_restaurante.Base.{
  ◌<◌, ◌≡◌, ◌↔◌, refl, sym, ◌∙◌, Bool, true, false, ◌||◌, List, [], ◌∷◌, ◌++◌, map, any, All, arith,
}
use gestao_restaurante.Shared.Vista.{Elemento, oferece, oferece-append}
use gestao_restaurante.Previsoes.Vista.{precisa_comprar}
use gestao_restaurante.Previsoes.Vista.Dialogos.{ordem_compra_modal}
use gestao_restaurante.Previsoes.Vista.Oferta.{e_confirmar, ao_abrir-ordem}
use gestao_restaurante.Painel.{
  InsumoCriticoResumo, DashboardExecutivoData, Painel, sugestao_de, sugestoes_compra, dashboard,
  renderizado, passo,
}
use gestao_restaurante.Painel
use gestao_restaurante.Painel.Vista.{
  Acao, abrir_ordem_compra, vista_insumos, alerta_estoque_critico_card, kpis_faturamento_card,
  previsao_demanda_ia_card, atalhos_operacionais_grid, dashboard_screen,
}

abbrev pub e_ordem : Acao → Bool
e_ordem abrir_ordem_compra = true
e_ordem _ = false

insumos-ordem :
    (is : List InsumoCriticoResumo) (v : List (Elemento Acao))
    → oferece e_ordem (vista_insumos is ++ v) ≡ oferece e_ordem v
unfolding vista_insumos
insumos-ordem [] v = refl
insumos-ordem (i ∷ is) v = insumos-ordem is v

abbrev pub tem : List InsumoCriticoResumo → Bool
tem [] = false
tem (i ∷ is) = true

alerta_estoque_critico_card-ordem :
    (is : List InsumoCriticoResumo) → oferece e_ordem (alerta_estoque_critico_card is) ≡ tem is
unfolding alerta_estoque_critico_card
alerta_estoque_critico_card-ordem [] = refl
alerta_estoque_critico_card-ordem (i ∷ is) = insumos-ordem (i ∷ is) _

or_false : (b : Bool) → (b || false) ≡ b
or_false true = refl
or_false false = refl

dashboard_screen-ordem :
    (d : DashboardExecutivoData) → oferece e_ordem (dashboard_screen d) ≡ tem d.insumos_criticos
unfolding dashboard_screen kpis_faturamento_card previsao_demanda_ia_card atalhos_operacionais_grid
dashboard_screen-ordem d =
    oferece-append e_ordem (alerta_estoque_critico_card d.insumos_criticos) _
    ∙ rw (alerta_estoque_critico_card-ordem d.insumos_criticos) (or_false (tem d.insumos_criticos))

-- An ingredient with a minimum has something to buy.
sugestoes_compra-precisa :
    (is : List InsumoCriticoResumo)
    → All (λ i. 0 < i.quantidade_minima) is
    → any precisa_comprar (map sugestao_de is) ≡ tem is
unfolding sugestao_de
sugestoes_compra-precisa [] h = refl
sugestoes_compra-precisa (i ∷ is) (h, hs) = ground (arith, h)

-- Where every critical ingredient has a minimum, and the form of the order is closed: the panel
-- offers an order exactly when the form that a press opens can be confirmed as it opens.
pub dashboard_screen_iff :
    (p : Painel)
    → p.is_ordem_compra_open ≡ false
    → All (λ i. 0 < i.quantidade_minima) (dashboard p.relatorio).insumos_criticos
    → (oferece e_ordem (dashboard_screen (dashboard p.relatorio)) ≡ true) ↔ (
        oferece e_confirmar (
          ordem_compra_modal
            (passo Painel.abrir_ordem_compra p).selecionados
            false
            (sugestoes_compra (dashboard p.relatorio)))
        ≡ true)
unfolding passo renderizado sugestoes_compra
dashboard_screen_iff p closed h =
    rw
      (
        dashboard_screen-ordem (dashboard p.relatorio),
        sym (sugestoes_compra-precisa (dashboard p.relatorio).insumos_criticos h),
        closed,
      )
      (ao_abrir-ordem (sugestoes_compra (dashboard p.relatorio)))
