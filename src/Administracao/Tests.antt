-- ===== src/Administracao/Tests.antt =====
-- A trial is extended, and a paywall outlives its list of plans.
use gestao_restaurante.Base.{false, some, none, List, [], ◌∷◌}
use gestao_restaurante.Base.Text.{codes}
use gestao_restaurante.Administracao.{
  TenantAdminItem, Relogio, tenants_admin_padrao, AdminTenants, PlanoItem, assinatura_padrao,
}

abbrev relogio : Relogio
relogio = record { daqui_a = λ d. d ∷ []; ha = λ d. d ∷ [] }

abbrev lista : List TenantAdminItem
lista = tenants_admin_padrao relogio

abbrev estendido : TenantAdminItem
estendido = record {
  restaurante_id = "22222222-2222-2222-2222-222222222222";
  nome_restaurante = codes "Burger Prime Jardins";
  cnpj = codes "98.765.432/0001-10";
  cidade = codes "São Paulo";
  estado = codes "SP";
  data_cadastro = [];
  gestor_nome = codes "Mariana Lima";
  gestor_email = codes "mariana@burgerprime.com";
  status_assinatura = codes "TRIAL";
  dias_restantes_trial = 7;
  data_fim_trial = [];
  data_expiracao = none;
  plano_nome = codes "Plano Starter";
  preco_mensal = 99000;
}

abbrev carregada : AdminTenants
carregada = record { tenants = some lista; dialogos = [] }

abbrev do_servidor : PlanoItem
do_servidor = record {
  id = "starter";
  nome = codes "Starter";
  descricao = [];
  preco_mensal = 99000;
  possui_modulo_ia = false;
}

abbrev embutidos : List PlanoItem
embutidos = (assinatura_padrao relogio).planos_disponiveis
