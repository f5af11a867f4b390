-- ===== src/Painel/Tests.antt =====
-- A critical ingredient, and an order whose form is rendered again.
use gestao_restaurante.Base.{◌≡◌, ◌↔◌, refl, true, false, [], ◌∷◌, arith}
use gestao_restaurante.Base.Text.{codes}
use gestao_restaurante.Auth.Resposta.{
  partes, partes_from, juntar, iniciais_login, iniciais_cadastro,
}
use gestao_restaurante.Painel.{
  InsumoCriticoResumo, sugestao_de, Painel, inicial, itens, abrir_ordem_compra, marcar_item,
  renderizar, confirmar_ordem_compra, passo, executar, renderizado, iniciais_gestor, dashboard,
  sugestoes_compra,
}
use gestao_restaurante.Shared.Vista.{oferece}
use gestao_restaurante.Previsoes.Vista.Dialogos.{ordem_compra_modal}
use gestao_restaurante.Previsoes.Vista.Oferta.{e_confirmar}
use gestao_restaurante.Painel.Vista.{dashboard_screen}
use gestao_restaurante.Painel.Vista.Oferta.{e_ordem, dashboard_screen_iff}
use gestao_restaurante.Painel.Reposicao.{tudo, confirmar-renderizar}

abbrev carne : InsumoCriticoResumo
carne = record {
  id = "ins-01";
  nome = "Carne Bovina Moída (Blend)";
  quantidade_atual = 3200;
  quantidade_minima = 5000;
  unidade_medida = "kg";
}

comprar : (sugestao_de carne).quantidade_comprar ≡ 6800
unfolding sugestao_de
comprar = refl

-- The form is open and the first suggestion is unmarked.
abbrev desmarcado : Painel
desmarcado = executar (abrir_ordem_compra ∷ marcar_item "ins-01" ∷ []) inicial

visible : desmarcado.is_ordem_compra_open ≡ true
unfolding executar passo renderizado
visible = refl

confirmar-renderizar_example :
    (passo confirmar_ordem_compra (passo renderizar desmarcado)).pedidos
    ≡ tudo (itens desmarcado) ∷ desmarcado.pedidos
confirmar-renderizar_example = confirmar-renderizar desmarcado visible

-- A second blank in a name: the registration drops the second letter, the login does not.
duas_letras : iniciais_login (codes "ana  silva") ≡ codes "AS"
unfolding iniciais_login partes partes_from juntar
duas_letras = refl

uma_letra : iniciais_cadastro (codes "ana  silva") ≡ codes "A"
unfolding iniciais_cadastro partes partes_from juntar
uma_letra = refl

cabecalho : iniciais_gestor (codes "ana  silva") ≡ codes "AS"
unfolding iniciais_gestor partes partes_from juntar
cabecalho = refl

dashboard_screen_iff_example :
    (oferece e_ordem (dashboard_screen (dashboard inicial.relatorio)) ≡ true) ↔ (
      oferece e_confirmar (
        ordem_compra_modal
          (passo abrir_ordem_compra inicial).selecionados
          false
          (sugestoes_compra (dashboard inicial.relatorio)))
      ≡ true)
dashboard_screen_iff_example = dashboard_screen_iff inicial refl (omega arith, (omega arith, tt))
