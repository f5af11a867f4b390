-- ===== src/Auth/Tests.antt =====
-- A login, a restart, a change of restaurant, and the ends of a session.
use gestao_restaurante.Base.{◌≡◌, ◌≢◌, refl, true, false, none, some, [], ◌∷◌, arith}
use gestao_restaurante.Base.Text.{Texto, codes, starts_with}
use gestao_restaurante.Auth.{
  RestauranteTenant, OperadorRecente, Json, active_tenant, get_string, tenant_padrao, Sessao,
}
use gestao_restaurante.Auth.Requests.{
  requisitar, App, novo, Falha, abrir, entrar, sair, requerer, responder, falhar, passo, executar,
}
use gestao_restaurante.Auth.Session.{
  IsStored, IsStoredOperador, IsReal, entrar-abrir, sair-forgets, falhar-401,
}
use gestao_restaurante.Auth.Credentials.{IsWhole, executar-novo-IsWhole}

abbrev ana : OperadorRecente
ana = record {
  id = "9";
  nome = codes "Ana";
  matricula = codes "05829";
  foto_url = none;
  email = codes "ana@restaurante.com";
  iniciais = some (codes "A");
  cargo = none;
  role = none;
  restaurantes_vinculados = none;
}

abbrev filial : RestauranteTenant
filial = record tenant_padrao { id = codes "2" }

-- A format that writes a tenant's id after a brace, where the rest is that of `tenant_padrao`.
abbrev formato : Json
formato = record {
  stringify_tenant = λ t. b'{' ∷ t.id;
  stringify_operador = λ o. b'{' ∷ [];
  parse_tenant = λ t. elim t [ [] ↦ none | c ∷ i ↦ some (some (record tenant_padrao { id = i })) ];
  parse_operador = λ t. some (some ana);
}

abbrev sessao : Sessao
sessao = record {
  token = codes "eyJ";
  refresh_token = codes "r1";
  tenant = tenant_padrao;
  operador = ana;
}

brace : {t : Texto} → ◌∷◌ b'{' t ≢ []
brace = ground arith

tenant-IsStored : IsStored formato tenant_padrao
tenant-IsStored = record { parses = refl; text = brace }

filial-IsStored : IsStored formato filial
filial-IsStored = record { parses = refl; text = brace }

ana-IsStored : IsStoredOperador formato ana
ana-IsStored = record { parses = refl; text = brace }

sessao-IsReal : IsReal sessao
unfolding starts_with
sessao-IsReal = record { token = ground arith; real = refl; real_refresh = refl }

entrar-abrir_example :
    (passo formato none abrir (passo formato none (entrar sessao) novo)).auth
    ≡ (passo formato none (entrar sessao) novo).auth
entrar-abrir_example =
    entrar-abrir formato none sessao novo tenant-IsStored ana-IsStored sessao-IsReal

abbrev logado : App
logado = passo formato none (entrar sessao) novo

autenticado : (passo formato none abrir logado).auth.is_authenticated ≡ true
unfolding passo starts_with
autenticado = refl

sair-forgets_example :
    ((passo formato none sair logado).auth.is_authenticated ≡ false)
    × ((requisitar formato none (passo formato none sair logado).storage).1.authorization ≡ none)
    × ((passo formato none abrir (passo formato none sair logado)).auth.is_authenticated ≡ false)
    × ((passo formato none sair logado).auth.tenant ≡ logado.auth.tenant)
    × (get_string active_tenant (passo formato none sair logado).storage
        ≡ get_string active_tenant logado.storage)
sair-forgets_example = sair-forgets formato none logado

abbrev expirada : Falha
expirada = record { response_status = some 401; code = []; message = [] }

falhar-401_example :
    ((passo formato none (falhar expirada 7) logado).auth ≡ logado.auth)
    × ((requisitar formato none
          (passo formato none (falhar expirada 7) logado).storage).1.authorization
        ≡ none)
    × ((passo formato none abrir
          (passo formato none (falhar expirada 7) logado)).auth.is_authenticated
        ≡ false)
falhar-401_example = falhar-401 formato none expirada 7 logado refl

executar-novo-IsWhole_example :
    IsWhole
      (executar formato none
        (abrir ∷ entrar sessao ∷ requerer ∷ falhar expirada 7 ∷ responder 8 ∷ abrir ∷ [])
        novo).storage
executar-novo-IsWhole_example =
    executar-novo-IsWhole formato none
      (abrir ∷ entrar sessao ∷ requerer ∷ falhar expirada 7 ∷ responder 8 ∷ abrir ∷ [])
