-- ===== src/Painel.antt =====
-- frontend/features/dashboard: the executive panel. services/dashboardService.ts with its built-in
-- report, hooks/useDashboardExecutivo.ts, the suggestions and the dialogs of
-- screens/DashboardScreen.tsx, and the manager's initials of components/HeaderGestorBoasVindas.tsx.
-- Quantities and money are in thousandths, percentages in tenths.
pub mod Reposicao
pub mod Iniciais
pub mod Vista
mod Tests
use gestao_restaurante.Base.{
  ℕ, ◌+◌, ◌-◌, ◌*◌, Bool, true, false, not, String, Option, none, some, List, [], ◌∷◌, map, filter,
  take, ltb, str_eq, if◌then◌else◌,
}
use gestao_restaurante.Base.Text.{Texto, codes, vazio}
use gestao_restaurante.Auth.Resposta.{partes, upper, primeira, juntar, ou_texto}
use gestao_restaurante.Previsoes.{SugestaoReposicaoInsumo}
use gestao_restaurante.Previsoes.OrdemCompra.{
  Selecionados, ao_abrir, toggle_item, itens_para_comprar, Pedido, handle_confirmar,
}

pub record KpisFaturamento : Type 0 where
  pub total_faturado_dia : ℕ
  pub quantidade_pedidos : ℕ
  pub ticket_medio : ℕ
  pub percentual_meta : ℕ
  pub faturamento_ontem : ℕ

pub record InsumoCriticoResumo : Type 0 where
  pub id : String
  pub nome : String
  pub quantidade_atual : ℕ
  pub quantidade_minima : ℕ
  pub unidade_medida : String

pub record PrevisaoIaResumo : Type 0 where
  pub data_alvo_formatada : String
  pub total_itens_previstos : ℕ
  pub variacao_percentual : ℕ
  pub condicao_clima_prevista : String
  pub produto_destaque : String

pub data StatusLoja : Type 0 where
  aberta fechada : StatusLoja

pub record DashboardExecutivoData : Type 0 where
  pub status_loja : StatusLoja
  pub turno_atual : String
  pub kpis : KpisFaturamento
  pub insumos_criticos : List InsumoCriticoResumo
  pub previsao_ia : PrevisaoIaResumo

-- `DADOS_DASHBOARD_PADRAO`
abbrev pub dados_dashboard_padrao : DashboardExecutivoData
dados_dashboard_padrao = record {
  status_loja = aberta;
  turno_atual = "Turno Almoço • Terminal Principal";
  kpis = record {
    total_faturado_dia = 2480500;
    quantidade_pedidos = 38;
    ticket_medio = 65270;
    percentual_meta = 184;
    faturamento_ontem = 2095000;
  };
  insumos_criticos =
      record {
        id = "ins-01";
        nome = "Carne Bovina Moída (Blend)";
        quantidade_atual = 3200;
        quantidade_minima = 5000;
        unidade_medida = "kg";
      }
      ∷ record {
        id = "ins-02";
        nome = "Pão de Hambúrguer Brioche";
        quantidade_atual = 18000;
        quantidade_minima = 30000;
        unidade_medida = "un";
      }
      ∷ [];
  previsao_ia = record {
    data_alvo_formatada = "Amanhã • Próximo Turno";
    total_itens_previstos = 52;
    variacao_percentual = 145;
    condicao_clima_prevista = "26°C • Sol entre Nuvens";
    produto_destaque = "Smash Burger Especial";
  };
}

-- What the request for the register's status gives: an error or an empty body, or the body.
pub record StatusCaixa : Type 0 where
  pub status : String
  pub total_vendas : Option ℕ
  pub quantidade_vendas : Option ℕ

-- `v || d` for a number that may be missing.
abbrev pub ou_numero : Option ℕ → ℕ → ℕ
ou_numero none d = d
ou_numero (some v) d = if ltb 0 v then v else d

-- `obterResumoExecutivo()`
unfoldable pub obter_resumo_executivo : Option StatusCaixa → DashboardExecutivoData
obter_resumo_executivo none = dados_dashboard_padrao
obter_resumo_executivo (some r) = record dados_dashboard_padrao {
  status_loja = if str_eq r.status "ABERTO" then aberta else fechada;
  kpis = record dados_dashboard_padrao.kpis {
    total_faturado_dia = ou_numero r.total_vendas dados_dashboard_padrao.kpis.total_faturado_dia;
    quantidade_pedidos =
        ou_numero r.quantidade_vendas dados_dashboard_padrao.kpis.quantidade_pedidos;
  };
}

-- `useDashboardExecutivo`: the report, where the query has given one.
abbrev pub dashboard : Option DashboardExecutivoData → DashboardExecutivoData
dashboard none = dados_dashboard_padrao
dashboard (some d) = d

-- `Math.max(a, b)`
abbrev pub max : ℕ → ℕ → ℕ
max a b = if ltb a b then b else a

-- An entry of `sugestoesCompra`: `Math.max(minima * 2 - atual, minima)`, where a difference below 0
-- gives way to the minimum as 0 does.
unfoldable pub sugestao_de : InsumoCriticoResumo → SugestaoReposicaoInsumo
sugestao_de i = record {
  insumo_id = i.id;
  nome_insumo = i.nome;
  unidade_medida = i.unidade_medida;
  stock_atual = i.quantidade_atual;
  stock_necessario = i.quantidade_minima * 2;
  quantidade_comprar = max (i.quantidade_minima * 2 - i.quantidade_atual) i.quantidade_minima;
  preco_estimado_unitario = some 25000;
}

unfoldable pub sugestoes_compra : DashboardExecutivoData → List SugestaoReposicaoInsumo
unfolding sugestao_de
sugestoes_compra d = map sugestao_de d.insumos_criticos

-- The state of the screen: the report of the query, the dialogs, the marks of the order's form, and
-- the refetches that were asked for; `pedidos` are the orders that the form has handed to the
-- screen's `onConfirmar`, newest first, which drops them.
pub record Painel : Type 0 where
  pub relatorio : Option DashboardExecutivoData
  pub is_paywall_open : Bool
  pub is_ordem_compra_open : Bool
  pub selecionados : Selecionados
  pub refetches : ℕ
  pub pedidos : List Pedido

abbrev pub inicial : Painel
inicial = record {
  relatorio = none;
  is_paywall_open = false;
  is_ordem_compra_open = false;
  selecionados = λ k. false;
  refetches = 0;
  pedidos = [];
}

abbrev pub itens : Painel → List SugestaoReposicaoInsumo
itens p = itens_para_comprar (sugestoes_compra (dashboard p.relatorio))

-- What happens to the screen; `renderizar` is a render for another reason, such as the state of a
-- query or of the subscription.
pub data Acao : Type 0 where
  receber : Option StatusCaixa → Acao
  renderizar : Acao
  abrir_paywall fechar_paywall : Acao
  abrir_ordem_compra fechar_ordem_compra confirmar_ordem_compra : Acao
  marcar_item : String → Acao

-- A render makes a new list of suggestions, on which the effect of the open form marks every item.
unfoldable pub renderizado : Painel → Painel
unfolding sugestoes_compra ao_abrir itens_para_comprar
renderizado p =
    if p.is_ordem_compra_open then record p { selecionados = ao_abrir none (itens p) } else p

unfoldable pub passo : Acao → Painel → Painel
unfolding obter_resumo_executivo renderizado toggle_item handle_confirmar
passo (receber r) p = renderizado (record p { relatorio = some (obter_resumo_executivo r) })
passo renderizar p = renderizado p
passo abrir_paywall p =
    if p.is_paywall_open then p else renderizado (record p { is_paywall_open = true })
passo fechar_paywall p =
    if p.is_paywall_open then renderizado (record p { is_paywall_open = false }) else p
passo abrir_ordem_compra p =
    if p.is_ordem_compra_open then p else renderizado (record p { is_ordem_compra_open = true })
passo fechar_ordem_compra p = record p { is_ordem_compra_open = false }
passo confirmar_ordem_compra p =
    if p.is_ordem_compra_open
    then record p {
      is_ordem_compra_open = false;
      refetches = p.refetches + 1;
      pedidos = handle_confirmar p.selecionados (itens p) ∷ p.pedidos;
    }
    else p
passo (marcar_item id) p =
    if p.is_ordem_compra_open then record p { selecionados = toggle_item id p.selecionados } else p

unfoldable pub executar : List Acao → Painel → Painel
unfolding passo
executar [] p = p
executar (a ∷ acoes) p = executar acoes (passo a p)

-- `p[0].toUpperCase()` of a piece that is not empty.
abbrev pub letra : Texto → Option ℕ
letra [] = none
letra (c ∷ s) = some (upper c)

-- `iniciais` of the header.
unfoldable pub iniciais_gestor : Texto → Texto
unfolding partes juntar
iniciais_gestor nome =
    ou_texto
      (some (
        juntar (
          map letra (
            take 2
              (filter (λ p. not (vazio p)) (partes (ou_texto (some nome) (codes "Gestor"))))))))
      (codes "GR")
