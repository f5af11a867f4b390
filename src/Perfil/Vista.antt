-- ===== src/Perfil/Vista.antt =====
-- What the profile's screen shows: screens/PerfilScreen.tsx of frontend/features/perfil without its
-- dialogs, and its parts components/PerfilHeader.tsx, OperatorHeroCard.tsx, TenantBranchCard.tsx,
-- ShiftMetricsSection.tsx, TerminalStatusCard.tsx and OperationalActionsSection.tsx.
pub mod Dialogos
pub mod Oferta
use gestao_restaurante.Base.{
  ℕ, ◌+◌, ◌/◌, Bool, true, false, not, ◌&&◌, String, Option, none, some, List, [], ◌∷◌, ◌++◌, drop,
  map, if◌then◌else◌,
}
use gestao_restaurante.Base.Text.{
  Texto, codes, vazio, is_digit, trim_start, starts_with, to_lower_case,
}
use gestao_restaurante.Base.Decimal.{digitos}
use gestao_restaurante.Shared.Formatters.{agrupar, arredondar}
use gestao_restaurante.Shared.Vista.{Elemento, texto, botao, com_virgula}
use gestao_restaurante.Auth.{OperadorRecente, RestauranteTenant}
use gestao_restaurante.Auth.Resposta.{iniciais_login, backoffice_visivel}
use gestao_restaurante.Auth.Resposta
use gestao_restaurante.Perfil.{ShiftMetrics}
use gestao_restaurante.Perfil.Turno.{
  ImpressoraStatus, pronta, atencao, offline, TerminalStatus, ou_texto, nome_de,
}

pub data Acao : Type 0 where
  trocar_filial abrir_suprimento abrir_sangria bloquear_terminal encerrar_turno : Acao
  abrir_backoffice : Acao

-- `PerfilHeader`
unfoldable pub perfil_header : Texto → List (Elemento Acao)
perfil_header iniciais =
    texto (codes "RESTAURANTE INTELIGENTE")
    ∷ texto (codes "Perfil do Operador")
    ∷ texto (codes "📶")
    ∷ texto iniciais
    ∷ []

abbrev pub email_de : Option OperadorRecente → Texto
email_de none = codes "operador@restaurante.com"
email_de (some o) = ou_texto o.email (codes "operador@restaurante.com")

abbrev pub matricula_de : Option OperadorRecente → Texto
matricula_de none = codes "05829"
matricula_de (some o) = ou_texto o.matricula (codes "05829")

abbrev pub iniciais_de : Option OperadorRecente → Option Texto
iniciais_de none = none
iniciais_de (some o) = o.iniciais

-- `OperatorHeroCard`
unfoldable pub operator_hero_card : Option OperadorRecente → List (Elemento Acao)
unfolding iniciais_login
operator_hero_card o =
    texto (Resposta.ou_texto (iniciais_de o) (iniciais_login (nome_de o)))
    ∷ texto (codes "✓")
    ∷ texto (nome_de o)
    ∷ texto (codes "🪪")
    ∷ texto (codes "💳 Operador de Caixa & Balcão")
    ∷ texto (codes "MATRÍCULA:")
    ∷ texto (codes "#" ++ matricula_de o)
    ∷ texto ((9993 ∷ 65039 ∷ []))
    ∷ texto (email_de o)
    ∷ texto ((128737 ∷ 65039 ∷ []))
    ∷ texto (codes "Nível: Balcão & Sangria")
    ∷ texto (codes "Sessão Ativa")
    ∷ []

abbrev pub do_tenant : (RestauranteTenant → Texto) → Texto → Option RestauranteTenant → Texto
do_tenant f d none = d
do_tenant f d (some t) = ou_texto (f t) d

-- `TenantBranchCard`
unfoldable pub tenant_branch_card : Option RestauranteTenant → List (Elemento Acao)
tenant_branch_card t =
    texto (codes "🏪")
    ∷ texto (do_tenant (λ x. x.nome) (codes "Restaurante Teste E2E") t)
    ∷ texto (do_tenant (λ x. x.filial_numero) (codes "FILIAL #01") t)
    ∷ texto (codes "CNPJ: " ++ do_tenant (λ x. x.cnpj) (codes "12.345.678/0001-90") t)
    ∷ botao false trocar_filial
    ∷ texto (codes "Trocar")
    ∷ texto (codes "⇄")
    ∷ []

-- `metricas?.campo || d` for a text, and `metricas?.campo ?? d` for a number.
abbrev pub texto_de : (ShiftMetrics → String) → Texto → Option ShiftMetrics → Texto
texto_de f d none = d
texto_de f d (some m) = ou_texto (codes (f m)) d

abbrev pub numero_de : (ShiftMetrics → ℕ) → ℕ → Option ShiftMetrics → ℕ
numero_de f d none = d
numero_de f d (some m) = f m

-- `ShiftMetricsSection`
unfoldable pub shift_metrics_section : Option ShiftMetrics → List (Elemento Acao)
unfolding digitos agrupar com_virgula
shift_metrics_section m =
    texto (codes "RESUMO DO TURNO ATUAL")
    ∷ texto (codes "🕒 Turno " ++ texto_de (λ x. x.turno_numero) (codes "#108") m)
    ∷ texto (codes "INÍCIO")
    ∷ texto ((9201 ∷ 65039 ∷ []))
    ∷ texto (texto_de (λ x. x.inicio_turno) (codes "08:30") m)
    ∷ texto (texto_de (λ x. x.tempo_decorrido) (codes "Há 3h 15m") m)
    ∷ texto (codes "VENDAS")
    ∷ texto (codes "🧾")
    ∷ texto (digitos (numero_de (λ x. x.total_vendas) 24 m) ++ codes " un")
    ∷ texto (codes "TM R$ " ++ com_virgula (numero_de (λ x. x.ticket_medio) 53350 m))
    ∷ texto (codes "VOLUME")
    ∷ texto (codes "💳")
    ∷ texto (codes "R$ " ++ agrupar (arredondar (numero_de (λ x. x.volume_total) 1280000 m)))
    ∷ texto (codes "📈 +18%")
    ∷ texto (codes "PIX: R$ " ++ com_virgula (numero_de (λ x. x.tender_breakdown.pix) 720000 m))
    ∷ texto
        (codes "Cartão: R$ " ++ com_virgula (numero_de (λ x. x.tender_breakdown.cartao) 440500 m))
    ∷ texto (
        codes "Dinheiro: R$ "
        ++ com_virgula (numero_de (λ x. x.tender_breakdown.dinheiro) 120000 m))
    ∷ []

-- What follows `Expo SDK \d+ •\s*` at the start of a text, whatever the case of its letters.
abbrev sem_digitos : Texto → Texto
sem_digitos [] = []
sem_digitos (c ∷ s) = if is_digit c then sem_digitos s else c ∷ s

abbrev comeca_com_digito : Texto → Bool
comeca_com_digito [] = false
comeca_com_digito (c ∷ s) = is_digit c

unfoldable pub depois_do_expo : Texto → Option Texto
unfolding starts_with to_lower_case trim_start
depois_do_expo t =
    let r = drop 9 t in
    if starts_with (to_lower_case t) (codes "expo sdk ")
      && comeca_com_digito r
      && starts_with (sem_digitos r) (codes " •")
    then some (trim_start (drop 2 (sem_digitos r)))
    else none

-- `versao.replace(/Expo SDK \d+ •\s*/i, '')`
abbrev ou_resto : ℕ → Texto → Option Texto → Texto
ou_resto c s none = c ∷ s
ou_resto c s (some t) = t

unfoldable pub sem_expo : Texto → Texto
unfolding depois_do_expo
sem_expo [] = []
sem_expo (c ∷ s) = let rest = sem_expo s in ou_resto c rest (depois_do_expo (c ∷ s))

abbrev pub do_terminal : (TerminalStatus → Texto) → Texto → Option TerminalStatus → Texto
do_terminal f d none = d
do_terminal f d (some s) = ou_texto (f s) d

abbrev pub texto_impressora : ImpressoraStatus → Texto
texto_impressora pronta = codes "Pronta"
texto_impressora atencao = codes "Atenção"
texto_impressora offline = codes "Offline"

-- `TerminalStatusCard`
unfoldable pub terminal_status_card : Option TerminalStatus → Bool → List (Elemento Acao)
unfolding sem_expo
terminal_status_card s is_sse_connected =
    texto (codes "STATUS DO TERMINAL & DISPOSITIVOS")
    ∷ texto (codes "🔄")
    ∷ texto (codes "Sincronização SSE")
    ∷ texto (codes "Canais de pedidos & cozinha")
    ∷ texto (codes (if is_sse_connected then "Online" else "Offline"))
    ∷ texto ((128424 ∷ 65039 ∷ []))
    ∷ texto (codes "Impressora Térmica")
    ∷ texto (do_terminal (λ x. codes x.impressora_nome) (codes "Bluetooth 80mm • Bobina 75%") s)
    ∷ texto (codes "⚡")
    ∷ texto (do_terminal (λ x. texto_impressora x.impressora_status) (codes "Pronta") s)
    ∷ texto (codes "💻")
    ∷ texto (codes "Versão do Sistema")
    ∷ texto (do_terminal (λ x. sem_expo (codes x.versao_app)) (codes "Versão 1.0.0") s)
    ∷ texto (do_terminal (λ x. codes x.build_numero) (codes "Build 104") s)
    ∷ []

-- `OperationalActionsSection`
unfoldable pub operational_actions_section : List (Elemento Acao)
operational_actions_section =
    botao false abrir_suprimento
    ∷ texto (codes "➕")
    ∷ texto (codes "Suprimento")
    ∷ botao false abrir_sangria
    ∷ texto (codes "➖")
    ∷ texto (codes "Sangria Caixa")
    ∷ botao false bloquear_terminal
    ∷ texto (codes "🔒")
    ∷ texto (codes "Bloquear Terminal (Manter Caixa Aberto)")
    ∷ botao false encerrar_turno
    ∷ texto (codes "⏻")
    ∷ texto (codes "Fechar Caixa & Encerrar Turno")
    ∷ texto ((128737 ∷ 65039 ∷ []))
    ∷ texto (codes "O encerramento confere a gaveta física e consolida as vendas do turno.")
    ∷ []

-- The banner of the connection, and the way to the administration.
abbrev pub tempo_real : Bool → List (Elemento Acao)
tempo_real true =
    texto (codes "Tempo Real Conectado") ∷ texto (codes "⚡") ∷ texto (codes "18ms") ∷ []
tempo_real false = texto (codes "Reconectando ao Servidor...") ∷ []

abbrev pub acesso_backoffice : Bool → List (Elemento Acao)
acesso_backoffice false = []
acesso_backoffice true =
    botao false abrir_backoffice
    ∷ texto ((128737 ∷ 65039 ∷ []))
    ∷ texto (codes "Backoffice SuperAdmin SaaS")
    ∷ texto (codes "Gestão visual de inquilinos, trials e assinaturas sem CLI")
    ∷ []

-- `PerfilScreen`
unfoldable pub perfil_screen :
    Option OperadorRecente
    → Option RestauranteTenant
    → Bool
    → Option ShiftMetrics
    → Option TerminalStatus
    → List (Elemento Acao)
unfolding perfil_header operator_hero_card tenant_branch_card shift_metrics_section
    terminal_status_card operational_actions_section backoffice_visivel
perfil_screen o t is_sse_connected m s =
    perfil_header (Resposta.ou_texto (iniciais_de o) (codes "OH"))
    ++ (tempo_real is_sse_connected
        ++ (operator_hero_card o
            ++ (tenant_branch_card t
                ++ (shift_metrics_section m
                    ++ (terminal_status_card s is_sse_connected
                        ++ (operational_actions_section
                            ++ acesso_backoffice (backoffice_visivel o)))))))
