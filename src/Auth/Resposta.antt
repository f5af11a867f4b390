-- ===== src/Auth/Resposta.antt =====
-- frontend/features/auth: what becomes of the server's answers. `login` and `cadastrarRestaurante` of
-- services/authService.ts, the sessions that hooks/useLoginMutation.ts and
-- hooks/useCadastroRestauranteMutation.ts set, and what the profile's screen reads of them
-- (features/perfil/hooks/usePerfil.ts and screens/PerfilScreen.tsx).
pub mod Vinculo
pub mod Papel
mod Tests
use gestao_restaurante.Base.{
  ℕ, ◌-◌, Bool, true, false, not, ◌&&◌, ◌||◌, String, Option, none, some, List, [], ◌∷◌, ◌++◌, map,
  filter, find, take, leb, ◌==◌, str_eq, if◌then◌else◌,
}
use gestao_restaurante.Base.Text.{Texto, codes, vazio, same, includes, is_digit}
use gestao_restaurante.Auth.{RestauranteTenant, OperadorRecente, Sessao, tenant_padrao}
use gestao_restaurante.Auth.Login.{LoginInput, LoginResponse, active_tenant}

-- `s.toUpperCase()` over ASCII and the Latin-1 letters that have one capital; any other code unit
-- stays.
abbrev pub upper : ℕ → ℕ
upper c =
    if (leb b'a' c && leb c b'z') || (leb 224 c && leb c 254 && not (c == 247)) then c - 32 else c

-- `s.split(' ')`, from the piece that is being read, in order.
unfoldable pub partes_from : Texto → Texto → List Texto
partes_from p [] = p ∷ []
partes_from p (c ∷ s) = if c == 32 then p ∷ partes_from [] s else partes_from (p ++ (c ∷ [])) s

unfoldable pub partes : Texto → List Texto
unfolding partes_from
partes s = partes_from [] s

-- `n[0]`, which is undefined for an empty piece.
abbrev pub primeira : Texto → Option ℕ
primeira [] = none
primeira (c ∷ s) = some c

-- `xs.join('')`, where what is undefined prints nothing.
unfoldable pub juntar : List (Option ℕ) → Texto
juntar [] = []
juntar (none ∷ xs) = juntar xs
juntar (some c ∷ xs) = c ∷ juntar xs

-- The initials that a login gives: two letters of the joined ones.
unfoldable pub iniciais_login : Texto → Texto
unfolding partes juntar
iniciais_login nome = map upper (take 2 (juntar (map primeira (partes nome))))

-- The initials that a registration gives: the letters of two pieces.
unfoldable pub iniciais_cadastro : Texto → Texto
unfolding partes juntar
iniciais_cadastro nome = map upper (juntar (take 2 (map primeira (partes nome))))

-- `v || d` for a text that may be missing.
abbrev pub ou_texto : Option Texto → Texto → Texto
ou_texto none d = d
ou_texto (some []) d = d
ou_texto (some (c ∷ t)) d = c ∷ t

-- The body of the server's answer to a login.
pub record RespostaLogin : Type 0 where
  pub token : Texto
  pub refresh_token : Texto
  pub expires_at : Option String
  pub user_id : Option String
  pub nome : Option Texto
  pub email : Option Texto
  pub role : Option String
  pub restaurante_id : Option Texto

-- `v || d` for the texts that are only passed on.
abbrev pub ou_string : Option String → String → String
ou_string none d = d
ou_string (some v) d = if str_eq v "" then d else v

abbrev pub tem_papel : String → Option String → Bool
tem_papel p none = false
tem_papel p (some r) = str_eq r p

abbrev pub cargo_de : Option String → String
cargo_de role =
    if tem_papel "Owner" role || tem_papel "Manager" role
    then "Gestor & Dono"
    else if tem_papel "SuperAdmin" role
    then "Super Administrador SaaS"
    else "Operador de Balcão & Caixa"

abbrev pub contem_admin : Option Texto → Bool
contem_admin none = false
contem_admin (some e) = includes e (codes "admin")

abbrev pub ou_tenant : Option RestauranteTenant → RestauranteTenant → RestauranteTenant
ou_tenant none t = t
ou_tenant (some t) u = t

-- The restaurant of the answer: the server's, else the one that was asked for.
unfoldable pub tenant_id_de : LoginInput → RespostaLogin → Texto
tenant_id_de x r =
    ou_texto r.restaurante_id
      (ou_texto (some x.restaurante_id) (codes "11111111-1111-1111-1111-111111111111"))

unfoldable pub tenant_de : LoginInput → RespostaLogin → RestauranteTenant
unfolding tenant_id_de same
tenant_de x r =
    ou_tenant (find (λ t. same t.id (tenant_id_de x r)) (tenant_padrao ∷ []))
      (record tenant_padrao { id = tenant_id_de x r })

-- `identificador.split('@')[0]`
unfoldable pub antes_da_arroba : Texto → Texto
antes_da_arroba [] = []
antes_da_arroba (c ∷ s) = let rest = antes_da_arroba s in if c == b'@' then [] else c ∷ rest

abbrev pub tem_arroba : Texto → Bool
tem_arroba t = includes t (codes "@")

-- `login`, where the server answers; `validade` is the time in fifteen minutes.
unfoldable pub ler_login : String → LoginInput → RespostaLogin → LoginResponse
unfolding tenant_de includes antes_da_arroba
ler_login validade x r = record {
  token = r.token;
  refresh_token = r.refresh_token;
  expiracao = ou_string r.expires_at validade;
  operador = record {
    id = ou_string r.user_id "99999999-9999-9999-9999-999999999999";
    nome = ou_texto r.nome (
        if tem_arroba x.identificador
        then antes_da_arroba x.identificador
        else codes "Gestor do Restaurante");
    email = if tem_arroba x.identificador then x.identificador else codes "gestor@restaurante.com";
    cargo = cargo_de r.role;
    role = some (ou_string r.role (if contem_admin r.email then "SuperAdmin" else "Cashier"));
    restaurantes_vinculados = tenant_de x r ∷ [];
  };
}

-- The operator that a login stores.
unfoldable pub operador_do_login : LoginResponse → LoginInput → OperadorRecente
unfolding iniciais_login
operador_do_login r x = record {
  id = r.operador.id;
  nome = r.operador.nome;
  matricula = ou_texto (some (filter is_digit x.identificador)) (codes "05829");
  foto_url = none;
  email = r.operador.email;
  iniciais = some (iniciais_login r.operador.nome);
  cargo = none;
  role = none;
  restaurantes_vinculados = none;
}

-- `onSuccess` of a login: the session that is set. (Without any restaurant there would be none.)
abbrev pub com_tenant : LoginResponse → LoginInput → Option RestauranteTenant → Option Sessao
com_tenant r x none = none
com_tenant r x (some t) = some (record {
  token = r.token;
  refresh_token = r.refresh_token;
  tenant = t;
  operador = operador_do_login r x;
})

unfoldable pub sessao_do_login :
    LoginResponse → LoginInput → Option RestauranteTenant → Option Sessao
unfolding operador_do_login active_tenant
sessao_do_login r x current = com_tenant r x (active_tenant r x current)

-- The body of the server's answer to a registration.
pub record RespostaCadastro : Type 0 where
  pub token : Texto
  pub refresh_token : Texto
  pub usuario_id : String
  pub nome_gestor : Texto
  pub email : Texto
  pub restaurante_id : Texto
  pub nome_restaurante : Texto

-- `cadastrarRestaurante`, where the server answers.
unfoldable pub tenant_do_cadastro : Texto → RespostaCadastro → RestauranteTenant
tenant_do_cadastro cnpj r = record {
  id = r.restaurante_id;
  nome = r.nome_restaurante;
  cnpj = cnpj;
  filial_numero = codes "Matriz (Trial 14d)";
  ativo = true;
}

-- `onSuccess` of a registration.
unfoldable pub sessao_do_cadastro : Texto → RespostaCadastro → Sessao
unfolding tenant_do_cadastro iniciais_cadastro
sessao_do_cadastro cnpj r = record {
  token = r.token;
  refresh_token = r.refresh_token;
  tenant = tenant_do_cadastro cnpj r;
  operador = record {
    id = r.usuario_id;
    nome = r.nome_gestor;
    matricula = codes "OWNER-01";
    foto_url = none;
    email = r.email;
    iniciais = some (iniciais_cadastro r.nome_gestor);
    cargo = none;
    role = none;
    restaurantes_vinculados = some (tenant_do_cadastro cnpj r ∷ []);
  };
}

-- `operador?.role`
abbrev pub papel : Option OperadorRecente → Option String
papel none = none
papel (some o) = o.role

-- `operador?.role === 'SuperAdmin'`, for which the profile's screen offers the administration.
unfoldable pub backoffice_visivel : Option OperadorRecente → Bool
backoffice_visivel o = tem_papel "SuperAdmin" (papel o)

-- `availableTenants` of the profile's screen.
abbrev vinculados_ou_padrao : Option (List RestauranteTenant) → List RestauranteTenant
vinculados_ou_padrao none = tenant_padrao ∷ []
vinculados_ou_padrao (some []) = tenant_padrao ∷ []
vinculados_ou_padrao (some (t ∷ ts)) = t ∷ ts

unfoldable pub available_tenants : Option OperadorRecente → List RestauranteTenant
available_tenants none = tenant_padrao ∷ []
available_tenants (some o) = vinculados_ou_padrao o.restaurantes_vinculados
