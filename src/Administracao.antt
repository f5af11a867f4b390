-- ===== src/Administracao.antt =====
-- frontend/features/admin and frontend/features/assinatura: the administrator's list of restaurants
-- and the subscription of one. The hooks useAdminTenants.ts and useAssinatura.ts over their services,
-- and the choice of a plan in components/ModalPaywall.tsx. The server's answers are arguments; dates
-- are texts, those of the built-in data given by the clock.
pub mod Lista
pub mod Plano
pub mod Vista
mod Tests
use gestao_restaurante.Base.{
  ℕ, Bool, true, false, String, Option, none, some, List, [], ◌∷◌, map, find, str_eq, if◌then◌else◌,
}
use gestao_restaurante.Base.Text.{Texto, codes}
use gestao_restaurante.Shared.Formatters.{ou_padrao}

pub record TenantAdminItem : Type 0 where
  pub restaurante_id : String
  pub nome_restaurante : Texto
  pub cnpj : Texto
  pub cidade : Texto
  pub estado : Texto
  pub data_cadastro : Texto
  pub gestor_nome : Texto
  pub gestor_email : Texto
  pub status_assinatura : Texto
  pub dias_restantes_trial : ℕ
  pub data_fim_trial : Texto
  pub data_expiracao : Option Texto
  pub plano_nome : Texto
  pub preco_mensal : ℕ

-- The day that lies some days after or before now.
pub record Relogio : Type 0 where
  pub daqui_a : ℕ → Texto
  pub ha : ℕ → Texto

-- `TENANTS_ADMIN_PADRAO`
abbrev pub tenants_admin_padrao : Relogio → List TenantAdminItem
tenants_admin_padrao r =
    record {
      restaurante_id = "11111111-1111-1111-1111-111111111111";
      nome_restaurante = codes "Restaurante Teste E2E (Matriz)";
      cnpj = codes "12.345.678/0001-90";
      cidade = codes "São Paulo";
      estado = codes "SP";
      data_cadastro = r.daqui_a 0;
      gestor_nome = codes "Lucas Vicente";
      gestor_email = codes "operador@restaurante.com";
      status_assinatura = codes "TRIAL";
      dias_restantes_trial = 14;
      data_fim_trial = r.daqui_a 14;
      data_expiracao = none;
      plano_nome = codes "Plano Pro Inteligente (IA)";
      preco_mensal = 189000;
    }
    ∷ record {
      restaurante_id = "22222222-2222-2222-2222-222222222222";
      nome_restaurante = codes "Burger Prime Jardins";
      cnpj = codes "98.765.432/0001-10";
      cidade = codes "São Paulo";
      estado = codes "SP";
      data_cadastro = r.ha 20;
      gestor_nome = codes "Mariana Lima";
      gestor_email = codes "mariana@burgerprime.com";
      status_assinatura = codes "ATIVA";
      dias_restantes_trial = 0;
      data_fim_trial = r.ha 6;
      data_expiracao = some (r.daqui_a 24);
      plano_nome = codes "Plano Starter";
      preco_mensal = 99000;
    }
    ∷ []

-- `listarTenants()`; `none` is a failure, and a missing list is an empty one.
unfoldable pub listar_tenants : Relogio → Option (List TenantAdminItem) → List TenantAdminItem
listar_tenants r none = tenants_admin_padrao r
listar_tenants r (some []) = tenants_admin_padrao r
listar_tenants r (some (t ∷ ts)) = t ∷ ts

-- The answer to a change: the restaurant as it is now, or the text of the error, if there is one.
pub data Resposta : Type 0 where
  alterado : TenantAdminItem → Resposta
  falhou : Option Texto → Resposta

pub data Operacao : Type 0 where
  estender_trial : Operacao
  alterar_status : Operacao

-- The message that the service throws.
unfoldable pub mensagem_de : Operacao → Option Texto → Texto
unfolding ou_padrao
mensagem_de estender_trial corpo = ou_padrao corpo (codes "Falha ao estender dias de trial.")
mensagem_de alterar_status corpo = ou_padrao corpo (codes "Falha ao alterar status de assinatura.")

-- `old.map((t) => (t.restauranteId === updated.restauranteId ? updated : t))`
abbrev pub trocado : TenantAdminItem → TenantAdminItem → TenantAdminItem
trocado updated t = if str_eq t.restaurante_id updated.restaurante_id then updated else t

unfoldable pub atualizar : TenantAdminItem → List TenantAdminItem → List TenantAdminItem
atualizar updated old = map (trocado updated) old

pub data Dialogo : Type 0 where
  trial_estendido : Texto → ℕ → Dialogo
  status_atualizado : Texto → Texto → Dialogo
  erro : Texto → Dialogo

-- The cached list, if the query has one, and the dialogs shown, newest first.
pub record AdminTenants : Type 0 where
  pub tenants : Option (List TenantAdminItem)
  pub dialogos : List Dialogo

-- `data: tenants = TENANTS_ADMIN_PADRAO`
abbrev pub mostrados : Relogio → AdminTenants → List TenantAdminItem
mostrados r a = elim a.tenants [ none ↦ tenants_admin_padrao r | some ts ↦ ts ]

abbrev pub dialogo_de : Operacao → TenantAdminItem → Dialogo
dialogo_de estender_trial u = trial_estendido u.nome_restaurante u.dias_restantes_trial
dialogo_de alterar_status u = status_atualizado u.nome_restaurante u.status_assinatura

-- `(old = []) => …`
abbrev pub ou_vazia : Option (List TenantAdminItem) → List TenantAdminItem
ou_vazia none = []
ou_vazia (some ts) = ts

-- `onSuccess` and `onError` of the two mutations.
unfoldable pub responder : Operacao → Resposta → AdminTenants → AdminTenants
unfolding atualizar mensagem_de
responder op (alterado u) a = record a {
  tenants = some (atualizar u (ou_vazia a.tenants));
  dialogos = dialogo_de op u ∷ a.dialogos;
}
responder op (falhou corpo) a = record a { dialogos = erro (mensagem_de op corpo) ∷ a.dialogos }

pub record PlanoItem : Type 0 where
  pub id : String
  pub nome : Texto
  pub descricao : Texto
  pub preco_mensal : ℕ
  pub possui_modulo_ia : Bool

pub record AssinaturaStatus : Type 0 where
  pub restaurante_id : String
  pub status : Texto
  pub data_inicio : Texto
  pub data_fim_trial : Texto
  pub data_expiracao : Option Texto
  pub dias_restantes_trial : ℕ
  pub esta_vigente : Bool
  pub plano_atual : Option PlanoItem
  pub planos_disponiveis : List PlanoItem

-- `ASSINATURA_PADRAO`
abbrev pub assinatura_padrao : Relogio → AssinaturaStatus
assinatura_padrao r = record {
  restaurante_id = "11111111-1111-1111-1111-111111111111";
  status = codes "TRIAL";
  data_inicio = r.daqui_a 0;
  data_fim_trial = r.daqui_a 14;
  data_expiracao = none;
  dias_restantes_trial = 14;
  esta_vigente = true;
  plano_atual = none;
  planos_disponiveis =
      record {
        id = "11111111-1111-1111-1111-111111111111";
        nome = codes "Plano Starter";
        descricao = codes "Gestão completa de estoque, caixa e faturamento financeiro.";
        preco_mensal = 99000;
        possui_modulo_ia = false;
      }
      ∷ record {
        id = "22222222-2222-2222-2222-222222222222";
        nome = codes "Plano Pro Inteligente (IA)";
        descricao =
            codes
              "Tudo do Starter + IA Preditiva de Vendas, impacto climático e estoque crítico em tempo real.";
        preco_mensal = 189000;
        possui_modulo_ia = true;
      }
      ∷ [];
}

-- `obterStatus()`; `none` is a failure.
unfoldable pub obter_status : Relogio → Option AssinaturaStatus → AssinaturaStatus
obter_status r none = assinatura_padrao r
obter_status r (some s) = s

abbrev pub primeiro : List PlanoItem → Option PlanoItem
primeiro [] = none
primeiro (p ∷ ps) = some p

abbrev pub id_ou : Option PlanoItem → String → String
id_ou none padrao = padrao
id_ou (some p) padrao = if str_eq p.id "" then padrao else p.id

-- `planoProPadrao` of ModalPaywall, with which its selection starts.
unfoldable pub plano_pro_padrao : List PlanoItem → String
plano_pro_padrao planos = id_ou (find (λ p. p.possui_modulo_ia) planos) (id_ou (primeiro planos) "")

abbrev pub ou : Option PlanoItem → Option PlanoItem → Option PlanoItem
ou none q = q
ou (some p) q = some p

-- `planoAtivo` of ModalPaywall.
unfoldable pub plano_ativo : List PlanoItem → String → Option PlanoItem
plano_ativo planos selecionado = ou (find (λ p. str_eq p.id selecionado) planos) (primeiro planos)

-- The paywall: its selection, and the button, which prints the active plan and sends the selection.
pub record Paywall : Type 0 where
  pub plano_selecionado_id : String

abbrev pub abrir_paywall : List PlanoItem → Paywall
abrir_paywall planos = record { plano_selecionado_id = plano_pro_padrao planos }

-- The plan that the button names, and the identifier that it sends, if it is enabled.
unfoldable pub assinar : List PlanoItem → Paywall → Option PlanoItem × Option String
unfolding plano_ativo
assinar planos p = (
  plano_ativo planos p.plano_selecionado_id,
  if str_eq p.plano_selecionado_id "" then none else some p.plano_selecionado_id,
)
