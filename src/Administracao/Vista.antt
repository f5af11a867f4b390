-- ===== src/Administracao/Vista.antt =====
-- What the administrator's list and the paywall show: screens/AdminBackofficeScreen.tsx and
-- components/CardTenantAdmin.tsx of frontend/features/admin, and
-- frontend/features/assinatura/components/ModalPaywall.tsx.
pub mod Oferta
use gestao_restaurante.Base.{
  ℕ, ◌+◌, ◌==◌, Bool, true, false, not, ◌||◌, String, Option, none, some, List, [], ◌∷◌, ◌++◌,
  length, filter, ltb, str_eq, if◌then◌else◌,
}
use gestao_restaurante.Base.Text.{Texto, codes, same, includes, to_lower_case}
use gestao_restaurante.Base.Decimal.{digitos}
use gestao_restaurante.Shared.Vista.{Elemento, texto, botao, campo, com_virgula}
use gestao_restaurante.Administracao.{
  TenantAdminItem, PlanoItem, AssinaturaStatus, Paywall, plano_ativo,
}

pub data Acao : Type 0 where
  voltar : Acao
  buscar : Texto → Acao
  estender_trial : String → ℕ → Acao
  alterar_status : String → Texto → Acao
  fechar : Acao
  selecionar_plano : String → Acao
  confirmar : String → Acao

abbrev pub com_status : Texto → TenantAdminItem → Bool
unfolding same
com_status s t = same t.status_assinatura s

-- `CardTenantAdmin`
unfoldable pub card_tenant_admin : Bool → TenantAdminItem → List (Elemento Acao)
unfolding digitos com_virgula
card_tenant_admin is_processando t =
    texto (codes "🏪 " ++ t.nome_restaurante)
    ∷ texto (codes "CNPJ: " ++ t.cnpj ++ codes " • " ++ t.cidade ++ codes "/" ++ t.estado)
    ∷ texto (
        if com_status (codes "TRIAL") t
        then codes "TRIAL (" ++ digitos t.dias_restantes_trial ++ codes "d)"
        else t.status_assinatura)
    ∷ texto (codes "Gestor:")
    ∷ texto (t.gestor_nome ++ codes " (" ++ t.gestor_email ++ codes ")")
    ∷ texto (codes "Plano Vigente:")
    ∷ texto (
        t.plano_nome
        ++ codes " "
        ++ (if ltb 0 t.preco_mensal
            then codes "(R$ " ++ com_virgula t.preco_mensal ++ codes "/mês)"
            else []))
    ∷ texto (codes "AÇÕES RÁPIDAS SUPERADMIN:")
    ∷ botao is_processando (estender_trial t.restaurante_id 14)
    ∷ texto (codes "+14d Trial")
    ∷ botao is_processando (alterar_status t.restaurante_id (codes "ATIVA"))
    ∷ texto (codes "✓ Ativar Pro")
    ∷ botao is_processando (alterar_status t.restaurante_id (codes "EXPIRADA"))
    ∷ texto (codes "✕ Suspender")
    ∷ []

unfoldable pub cartoes : Bool → List TenantAdminItem → List (Elemento Acao)
unfolding card_tenant_admin
cartoes is_processando [] = []
cartoes is_processando (t ∷ ts) = card_tenant_admin is_processando t ++ cartoes is_processando ts

-- `tenantsFiltrados`
abbrev pub encontrado : Texto → TenantAdminItem → Bool
unfolding includes to_lower_case
encontrado busca t =
    includes (to_lower_case t.nome_restaurante) (to_lower_case busca)
    || includes t.cnpj busca
    || includes (to_lower_case t.gestor_email) (to_lower_case busca)

unfoldable pub tenants_filtrados : Texto → List TenantAdminItem → List TenantAdminItem
tenants_filtrados busca = filter (encontrado busca)

abbrev pub vista_vazia : List TenantAdminItem → List (Elemento Acao)
vista_vazia (t ∷ ts) = []
vista_vazia [] =
    texto (codes "🔍")
    ∷ texto (codes "Nenhum restaurante localizado")
    ∷ texto (codes "Tente outros termos de busca para filtrar inquilinos.")
    ∷ []

-- `AdminBackofficeScreen`, as the profile uses it: with its cross.
unfoldable pub admin_backoffice_screen : Texto → Bool → List TenantAdminItem → List (Elemento Acao)
unfolding digitos cartoes tenants_filtrados
admin_backoffice_screen busca is_processando ts =
    (texto (((128737 ∷ 65039 ∷ []) ++ codes " SUPERADMIN"))
      ∷ botao false voltar
      ∷ texto (codes "✕")
      ∷ texto (codes "Backoffice SaaS da Plataforma")
      ∷ texto
          (codes "Gerencie inquilinos, estenda testes e altere planos com cliques sem usar CLI.")
      ∷ texto (codes "TOTAL INQUILINOS")
      ∷ texto (digitos (length ts) ++ codes " lojas")
      ∷ texto (codes "EM DEGUSTAÇÃO")
      ∷ texto (digitos (length (filter (com_status (codes "TRIAL")) ts)) ++ codes " trials")
      ∷ texto (codes "ASSINATURAS ATIVAS")
      ∷ texto (digitos (length (filter (com_status (codes "ATIVA")) ts)) ++ codes " ativas")
      ∷ campo busca buscar
      ∷ [])
    ++ (cartoes is_processando (tenants_filtrados busca ts)
        ++ vista_vazia (tenants_filtrados busca ts))

abbrev destaque : Bool → List (Elemento Acao)
destaque false = []
destaque true = texto (codes "★ MAIS POPULAR & INTELIGENTE") ∷ []

abbrev vantagens_ia : Bool → List (Elemento Acao)
vantagens_ia false = []
vantagens_ia true =
    texto (codes "⚡")
    ∷ texto (codes "IA Preditiva de Vendas e Reposição Inteligente")
    ∷ texto (codes "⚡")
    ∷ texto (codes "Estoque Crítico em Tempo Real com Ação Imediata")
    ∷ []

-- The card of a plan.
unfoldable pub card_plano : PlanoItem → List (Elemento Acao)
unfolding com_virgula
card_plano p =
    botao false (selecionar_plano p.id)
    ∷ (destaque p.possui_modulo_ia
        ++ ((texto p.nome
              ∷ texto (codes "R$ " ++ com_virgula p.preco_mensal)
              ∷ texto (codes "/mês")
              ∷ texto p.descricao
              ∷ texto (codes "✓")
              ∷ texto (codes "Estoque blindado contra erros e divergências")
              ∷ texto (codes "✓")
              ∷ texto (codes "Auditoria de caixa cego contra divergências por turno")
              ∷ [])
            ++ vantagens_ia p.possui_modulo_ia))

unfoldable pub cards_planos : List PlanoItem → List (Elemento Acao)
unfolding card_plano
cards_planos [] = []
cards_planos (p ∷ ps) = card_plano p ++ cards_planos ps

-- Where no plan is active, its name and its price are undefined.
abbrev pub legenda_assinar : Bool → Option PlanoItem → List (Elemento Acao)
legenda_assinar true p = []
legenda_assinar false none = texto (codes "Assinar  (R$ )") ∷ []
legenda_assinar false (some p) =
    texto (codes "Assinar " ++ p.nome ++ codes " (R$ " ++ com_virgula p.preco_mensal ++ codes ")")
    ∷ []

-- `ModalPaywall`
unfoldable pub modal_paywall : Bool → AssinaturaStatus → Paywall → List (Elemento Acao)
unfolding digitos cards_planos plano_ativo
modal_paywall is_assinando a p =
    (botao false fechar
      ∷ texto (codes "ESCALABILIDADE SAAS")
      ∷ texto (codes "Escolha o Plano do seu Restaurante")
      ∷ texto (
          if ltb 0 a.dias_restantes_trial
          then codes "Você ainda possui "
            ++ digitos a.dias_restantes_trial
            ++ codes
                " dias de teste grátis. Ao assinar agora, você garante continuidade sem interrupções."
          else codes
              "Seu período de degustação encerrou. Assine para continuar tendo controle total do seu negócio.")
      ∷ [])
    ++ (cards_planos a.planos_disponiveis
        ++ (botao (is_assinando || str_eq p.plano_selecionado_id "")
              (confirmar p.plano_selecionado_id)
            ∷ (legenda_assinar is_assinando
                  (plano_ativo a.planos_disponiveis p.plano_selecionado_id)
                ++ (botao is_assinando fechar
                    ∷ texto (codes "Continuar usando o período de teste")
                    ∷ []))))
