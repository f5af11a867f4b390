-- ===== src/Perfil/Vista/Oferta.antt =====
-- What the profile's screen and its dialogs offer to press: perfil_screen, the dialog of a movement
-- and that of the closing.
use gestao_restaurante.Base.{
  ℕ, zero, suc, ◌≡◌, ◌≢◌, ◌↔◌, refl, ◌∙◌, Bool, true, false, not, ◌||◌, Option, none, some, List,
  ◌∷◌, ◌++◌, All, arith,
}
use gestao_restaurante.Base.Number.{ℤ, pos, negsuc}
use gestao_restaurante.Base.Text.{Texto, codes}
use gestao_restaurante.Shared.Vista.{Elemento, texto, botao, oferece}
use gestao_restaurante.Auth.{Json, RestauranteTenant, OperadorRecente}
use gestao_restaurante.Auth.Requests.{Acao, executar, novo}
use gestao_restaurante.Auth.Resposta.{backoffice_visivel}
use gestao_restaurante.Auth.Resposta.Papel.{
  AddsNoRole, IsAuthentic, executar-novo-backoffice_visivel,
}
use gestao_restaurante.Caixa.{SessaoCaixaResumo}
use gestao_restaurante.Caixa.Vista.{conferencia_gaveta_box, modal_confirmar_fechamento}
use gestao_restaurante.Caixa.Vista as CaixaVista
use gestao_restaurante.Perfil.{
  ShiftMetrics, TipoMovimentacaoCaixa, suprimento, sangria, Formulario, Erro, valor_zero,
  valor_acima_do_saldo, is_suprimento, recusada, confirmar_valor, handle_confirmar, valor_numerico,
}
use gestao_restaurante.Perfil.Turno.{Turno, TerminalStatus, handle_confirmar_fechamento_turno}
use gestao_restaurante.Perfil.Vista.{
  abrir_backoffice, perfil_screen, tempo_real, acesso_backoffice, perfil_header, operator_hero_card,
  tenant_branch_card, shift_metrics_section, terminal_status_card, operational_actions_section,
}
use gestao_restaurante.Perfil.Vista
use gestao_restaurante.Perfil.Vista.Dialogos.{
  valor_recusado, aviso_erro, legenda_confirmar, modal_movimentacao_caixa,
}
use gestao_restaurante.Perfil.Vista.Dialogos

abbrev pub e_backoffice : Vista.Acao → Bool
e_backoffice abrir_backoffice = true
e_backoffice _ = false

acesso_backoffice_lem : (b : Bool) → oferece e_backoffice (acesso_backoffice b) ≡ b
acesso_backoffice_lem true = refl
acesso_backoffice_lem false = refl

perfil_screen-backoffice :
    (o : Option OperadorRecente) (t : Option RestauranteTenant) (is_sse_connected : Bool)
    (m : Option ShiftMetrics) (s : Option TerminalStatus)
    → oferece e_backoffice (perfil_screen o t is_sse_connected m s) ≡ backoffice_visivel o
unfolding perfil_screen perfil_header operator_hero_card tenant_branch_card shift_metrics_section
    terminal_status_card operational_actions_section
perfil_screen-backoffice o t true m s = acesso_backoffice_lem (backoffice_visivel o)
perfil_screen-backoffice o t false m s = acesso_backoffice_lem (backoffice_visivel o)

-- Whatever happens to a new installation, where the sessions are those of logins and registrations,
-- the roles that the server answers included: no control of the profile's screen leads to the
-- administration. (The format of the storage adds no role to an operator without one.)
pub executar-novo-perfil_screen :
    (json : Json) (api_id : Option Texto) (acoes : List Acao) (t : Option RestauranteTenant)
    (is_sse_connected : Bool) (m : Option ShiftMetrics) (s : Option TerminalStatus)
    → AddsNoRole json
    → All IsAuthentic acoes
    → oferece e_backoffice
        (perfil_screen (executar json api_id acoes novo).auth.operador t is_sse_connected m s)
      ≡ false
executar-novo-perfil_screen json api_id acoes t is_sse_connected m s law all =
    perfil_screen-backoffice (executar json api_id acoes novo).auth.operador t is_sse_connected m s
    ∙ executar-novo-backoffice_visivel json api_id acoes law all

abbrev pub e_confirmar : Dialogos.Acao → Bool
e_confirmar Dialogos.confirmar = true
e_confirmar _ = false

-- The button refuses the values that the handler refuses.
valor_recusado_iff :
    (tipo : TipoMovimentacaoCaixa) (saldo : ℕ) (motivo : Texto) (v : ℤ)
    → (valor_recusado tipo saldo v ≡ false) ↔ (
        (confirmar_valor tipo saldo motivo v ≢ recusada valor_zero)
        × (confirmar_valor tipo saldo motivo v ≢ recusada valor_acima_do_saldo))
unfolding valor_recusado confirmar_valor
valor_recusado_iff tipo saldo motivo (negsuc n) = ground arith
valor_recusado_iff tipo saldo motivo (pos zero) = ground arith
valor_recusado_iff suprimento saldo motivo (pos (suc n)) = ground arith
valor_recusado_iff sangria saldo motivo (pos (suc n)) = ground arith

legenda-oferta :
    (d a b : Bool)
    → oferece e_confirmar (botao d Dialogos.confirmar ∷ legenda_confirmar a b) ≡ not d
legenda-oferta true true b = refl
legenda-oferta true false b = refl
legenda-oferta false a b = refl

modal_movimentacao_caixa-confirmar :
    (tipo : TipoMovimentacaoCaixa) (saldo : ℕ) (is_submitting : Bool) (f : Formulario)
    → oferece e_confirmar (modal_movimentacao_caixa tipo saldo is_submitting f)
      ≡ not (is_submitting || valor_recusado tipo saldo (valor_numerico f))
unfolding modal_movimentacao_caixa aviso_erro
modal_movimentacao_caixa-confirmar tipo saldo is_submitting f = after f.erro is_submitting
  where
    entrada : Bool
    entrada = is_suprimento tipo

    recusado : Bool
    recusado = valor_recusado tipo saldo (valor_numerico f)

    rest : Bool → List (Elemento Dialogos.Acao)
    rest b = botao (b || recusado) Dialogos.confirmar ∷ legenda_confirmar b entrada

    after :
        (e : Option Erro) (b : Bool)
        → oferece e_confirmar
            (aviso_erro saldo e ++ (botao b Dialogos.fechar ∷ texto (codes "Cancelar") ∷ rest b))
          ≡ not (b || recusado)
    after none true = legenda-oferta true true entrada
    after none false = legenda-oferta recusado false entrada
    after (some e) true = legenda-oferta true true entrada
    after (some e) false = legenda-oferta recusado false entrada

-- The confirmation of a supply or a withdrawal can be pressed exactly when none is being sent and
-- the handler refuses neither the value nor the balance: what it can still refuse then is a missing
-- reason.
pub modal_movimentacao_caixa_iff :
    (tipo : TipoMovimentacaoCaixa) (saldo : ℕ) (is_submitting : Bool) (f : Formulario)
    → (oferece e_confirmar (modal_movimentacao_caixa tipo saldo is_submitting f) ≡ true) ↔ (
        (is_submitting ≡ false)
        × (handle_confirmar tipo saldo f ≢ recusada valor_zero)
        × (handle_confirmar tipo saldo f ≢ recusada valor_acima_do_saldo))
unfolding handle_confirmar
modal_movimentacao_caixa_iff tipo saldo is_submitting f =
    let law = valor_recusado_iff tipo saldo f.motivo (valor_numerico f) in
    rw (modal_movimentacao_caixa-confirmar tipo saldo is_submitting f) (ground (arith, law))

abbrev pub e_fechamento : CaixaVista.Acao → Bool
e_fechamento CaixaVista.confirmar = true
e_fechamento _ = false

abbrev pub e_voltar : CaixaVista.Acao → Bool
e_voltar CaixaVista.voltar = true
e_voltar _ = false

modal_confirmar_fechamento-toques :
    (s : SessaoCaixaResumo) (p o : Bool)
    → (oferece e_fechamento (modal_confirmar_fechamento s p o) ≡ not (p || not o))
      × (oferece e_voltar (modal_confirmar_fechamento s p o) ≡ not p)
unfolding modal_confirmar_fechamento conferencia_gaveta_box
modal_confirmar_fechamento-toques s true true = (refl, refl)
modal_confirmar_fechamento-toques s true false = (refl, refl)
modal_confirmar_fechamento-toques s false true = (refl, refl)
modal_confirmar_fechamento-toques s false false = (refl, refl)

-- While the closing's dialog is open, its confirmation can be pressed exactly when the handler then
-- begins one more closing; and the way back can be pressed exactly when none is in flight.
pub modal_confirmar_fechamento_iff :
    (s : SessaoCaixaResumo) (x : Turno)
    → x.is_confirmar_fechamento_open ≡ true
    → ((oferece e_fechamento (modal_confirmar_fechamento s x.is_fechando_caixa x.is_api_online)
          ≡ true)
        ↔ ((handle_confirmar_fechamento_turno x).esperas ≡ suc x.esperas))
      × ((oferece e_voltar (modal_confirmar_fechamento s x.is_fechando_caixa x.is_api_online)
            ≡ true)
          ↔ (x.is_fechando_caixa ≡ false))
unfolding handle_confirmar_fechamento_turno
modal_confirmar_fechamento_iff s x is_open =
    let (e, f) = modal_confirmar_fechamento-toques s x.is_fechando_caixa x.is_api_online in
    (rw e (ground (arith, is_open)), rw f (ground arith))
