-- ===== src/Auth/Resposta/Tests.antt =====
-- A login whose answer names another restaurant, and a super administrator who logs in.
use gestao_restaurante.Base.{◌≡◌, ◌≢◌, refl, true, false, none, some, List, [], ◌∷◌, arith}
use gestao_restaurante.Base.Text.{codes, trim, trim_start, starts_with}
use gestao_restaurante.Auth.{Json, Sessao, tenant_padrao, get_string}
use gestao_restaurante.Auth.Login.{LoginInput, active_tenant}
use gestao_restaurante.Auth.Entrada.{LoginScreen, enviado, handle_acessar_painel}
use gestao_restaurante.Auth.Entrada
use gestao_restaurante.Auth.Requests.{
  requisitar, novo, Acao, abrir, entrar, requerer, passo, executar,
}
use gestao_restaurante.Auth.Session.{nao_vazio-text}
use gestao_restaurante.Auth.Resposta.{
  RespostaLogin, ler_login, tenant_de, tenant_id_de, operador_do_login, sessao_do_login,
}
use gestao_restaurante.Shared.Vista.{oferece}
use gestao_restaurante.Perfil.Vista.{perfil_screen}
use gestao_restaurante.Perfil.Vista.Oferta.{e_backoffice, executar-novo-perfil_screen}
use gestao_restaurante.Auth.Resposta.Vinculo.{KeepsId, IsRealAnswer, sessao_do_login-tenant}
use gestao_restaurante.Auth.Resposta.Papel.{FromServer, login, AddsNoRole}

-- A format that writes a restaurant's identifier after a brace, and nothing of an operator.
abbrev formato : Json
formato = record {
  stringify_tenant = λ t. b'{' ∷ t.id;
  stringify_operador = λ o. b'{' ∷ [];
  parse_tenant = λ t. elim t [ [] ↦ none | c ∷ i ↦ some (some (record tenant_padrao { id = i })) ];
  parse_operador = λ t. none;
}

keeps : KeepsId formato
keeps u named = nao_vazio-text u.id named

abbrev tela : LoginScreen
tela = Entrada.inicial (tenant_padrao ∷ [])

abbrev pedido : LoginInput
pedido = record {
  identificador = codes "gestor@restaurante.com";
  palavra_passe = codes "123456";
  restaurante_id = tenant_padrao.id;
}

-- The server's user belongs to another restaurant, as its super administrator.
abbrev resposta : RespostaLogin
resposta = record {
  token = codes "eyJ";
  refresh_token = codes "r1";
  expires_at = none;
  user_id = some "7";
  nome = some (codes "Ana Lima");
  email = none;
  role = some "SuperAdmin";
  restaurante_id = some (codes "22222222-2222-2222-2222-222222222222");
}

pedida : handle_acessar_painel (some tenant_padrao) tela ≡ enviado pedido
unfolding handle_acessar_painel trim trim_start
pedida = refl

full : codes "eyJ" ≢ []
full = ground arith

genuine : IsRealAnswer resposta
unfolding starts_with
genuine = record { token = full; real = refl; real_refresh = refl }

sessao_do_login-tenant_example :
    (sessao : Sessao) × (sessao_do_login
        (ler_login "08:15" pedido resposta)
        pedido
        (some tenant_padrao)
      ≡ some sessao)
    × (sessao.tenant.id ≡ tenant_padrao.id)
    × ((requisitar formato none (passo formato none (entrar sessao) novo).storage).1.x_tenant_id
        ≡ some tenant_padrao.id)
sessao_do_login-tenant_example =
    sessao_do_login-tenant formato none "08:15" tenant_padrao tela pedido resposta novo keeps refl
      pedida genuine

abbrev sessao_ana : Sessao
sessao_ana = record {
  token = codes "eyJ";
  refresh_token = codes "r1";
  tenant = tenant_padrao;
  operador = operador_do_login (ler_login "08:15" pedido resposta) pedido;
}

from_server : FromServer sessao_ana
unfolding sessao_do_login active_tenant ler_login tenant_de tenant_id_de
from_server = login "08:15" pedido resposta (some tenant_padrao) refl

adds_no_role : AddsNoRole formato
unfolding get_string
adds_no_role o h = refl

abbrev historia : List Acao
historia = entrar sessao_ana ∷ requerer ∷ abrir ∷ []

executar-novo-perfil_screen_example :
    oferece e_backoffice
      (perfil_screen (executar formato none historia novo).auth.operador none true none none)
    ≡ false
executar-novo-perfil_screen_example =
    executar-novo-perfil_screen formato none historia none true none none adds_no_role
      (from_server, (tt, (tt, tt)))
