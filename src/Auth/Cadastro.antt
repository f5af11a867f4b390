-- ===== src/Auth/Cadastro.antt =====
-- frontend/features/auth: the registration of a restaurant. The form of
-- components/ModalCadastroRestaurante.tsx and `cadastrarRestaurante` of services/authService.ts.
use gestao_restaurante.Base.{
  ℕ, ◌≤◌, ◌≡◌, ◌↔◌, refl, Bool, true, false, not, ◌||◌, List, [], ◌∷◌, length, ltb, if◌then◌else◌,
  arith,
}
use gestao_restaurante.Base.Text.{Texto, codes, vazio, trim, includes, to_lower_case}
use gestao_restaurante.Auth.Cnpj.{mascarar_cnpj, desmascarar_cnpj, is_cnpj_formato_valido}

-- The state of the form.
pub record Formulario : Type 0 where
  pub nome_restaurante : Texto
  pub cnpj : Texto
  pub cidade : Texto
  pub estado : Texto
  pub nome_gestor : Texto
  pub email_gestor : Texto
  pub senha_gestor : Texto

abbrev pub inicial : Formulario
inicial = record {
  nome_restaurante = [];
  cnpj = [];
  cidade = codes "São Paulo";
  estado = codes "SP";
  nome_gestor = [];
  email_gestor = [];
  senha_gestor = [];
}

pub record CadastrarRestauranteInput : Type 0 where
  pub nome_restaurante : Texto
  pub cnpj : Texto
  pub cidade : Texto
  pub estado : Texto
  pub nome_gestor : Texto
  pub email_gestor : Texto
  pub senha_gestor : Texto

pub data Aviso : Type 0 where
  sem_nome cnpj_incompleto sem_gestor email_invalido senha_curta : Aviso

pub data Verdicto : Type 0 where
  recusado : Aviso → Verdicto
  enviado : CadastrarRestauranteInput → Verdicto

-- The tests of `handleSubmeter`, each true where its warning is shown.
unfoldable pub cnpj_ruim : Texto → Bool
unfolding trim is_cnpj_formato_valido
cnpj_ruim t = vazio (trim t) || not (is_cnpj_formato_valido t)

unfoldable pub email_ruim : Texto → Bool
unfolding trim includes
email_ruim t = vazio (trim t) || not (includes t (codes "@"))

unfoldable pub senha_ruim : Texto → Bool
unfolding trim
senha_ruim t = vazio (trim t) || ltb (length t) 6

abbrev pub dados_de : Formulario → CadastrarRestauranteInput
dados_de f = record {
  nome_restaurante = trim f.nome_restaurante;
  cnpj = trim f.cnpj;
  cidade = trim f.cidade;
  estado = trim f.estado;
  nome_gestor = trim f.nome_gestor;
  email_gestor = to_lower_case (trim f.email_gestor);
  senha_gestor = trim f.senha_gestor;
}

-- `handleSubmeter`
unfoldable pub handle_submeter : Formulario → Verdicto
unfolding trim to_lower_case cnpj_ruim email_ruim senha_ruim
handle_submeter f =
    if vazio (trim f.nome_restaurante)
    then recusado sem_nome
    else if cnpj_ruim f.cnpj
    then recusado cnpj_incompleto
    else if vazio (trim f.nome_gestor)
    then recusado sem_gestor
    else if email_ruim f.email_gestor
    then recusado email_invalido
    else if senha_ruim f.senha_gestor
    then recusado senha_curta
    else enviado (dados_de f)

-- The body of the request: the coordinates are in millionths of a degree, west and south.
pub record CorpoCadastro : Type 0 where
  pub nome_restaurante : Texto
  pub cnpj : Texto
  pub cidade : Texto
  pub estado : Texto
  pub latitude_sul : ℕ
  pub longitude_oeste : ℕ
  pub nome_gestor : Texto
  pub email_gestor : Texto
  pub senha_gestor : Texto

-- `t || padrao`
abbrev ou : Texto → Texto → Texto
ou t padrao = if vazio t then padrao else t

-- The request of `cadastrarRestaurante`.
unfoldable pub cadastrar_restaurante : CadastrarRestauranteInput → CorpoCadastro
unfolding trim to_lower_case
cadastrar_restaurante x = record {
  nome_restaurante = trim x.nome_restaurante;
  cnpj = trim x.cnpj;
  cidade = ou (trim x.cidade) (codes "São Paulo");
  estado = ou (trim x.estado) (codes "SP");
  latitude_sul = 23550500;
  longitude_oeste = 46633300;
  nome_gestor = trim x.nome_gestor;
  email_gestor = to_lower_case (trim x.email_gestor);
  senha_gestor = x.senha_gestor;
}

-- What the user does to the form; the field of the CNPJ masks what is typed.
pub data Acao : Type 0 where
  digitar_nome digitar_cnpj digitar_cidade escolher_estado digitar_gestor : Texto → Acao
  digitar_email digitar_senha : Texto → Acao

unfoldable pub passo : Acao → Formulario → Formulario
unfolding mascarar_cnpj
passo (digitar_nome t) f = record f { nome_restaurante = t }
passo (digitar_cnpj t) f = record f { cnpj = mascarar_cnpj t }
passo (digitar_cidade t) f = record f { cidade = t }
passo (escolher_estado t) f = record f { estado = t }
passo (digitar_gestor t) f = record f { nome_gestor = t }
passo (digitar_email t) f = record f { email_gestor = t }
passo (digitar_senha t) f = record f { senha_gestor = t }

unfoldable pub executar : List Acao → Formulario → Formulario
unfolding passo
executar [] f = f
executar (a ∷ acoes) f = executar acoes (passo a f)

passou :
    (b : Bool) (a : Aviso) (v : Verdicto) (d : CadastrarRestauranteInput)
    → (if b then recusado a else v) ≡ enviado d
    → (b ≡ false) × (v ≡ enviado d)
passou true a v d h = cc
passou false a v d h = (refl, h)

lt-false : (n : ℕ) → 6 ≤ n → ltb n 6 ≡ false
lt-false n h = ground arith

nenhum_dos_dois : (a b : Bool) → (a || b) ≡ false → (a ≡ false) × (b ≡ false)
nenhum_dos_dois a b h = ground (arith, h)

-- The form sends a registration exactly when both names are not blank, the CNPJ has fourteen digits
-- and is not blank, the e-mail is not blank and has an at sign, and the password is not blank and
-- has six characters, blanks at its ends counted; what it sends is trimmed, the password too.
pub handle_submeter_iff :
    (f : Formulario)
    → (handle_submeter f ≡ enviado (dados_de f)) ↔ (
        (vazio (trim f.nome_restaurante) ≡ false)
        × (vazio (trim f.cnpj) ≡ false)
        × (length (desmascarar_cnpj f.cnpj) ≡ 14)
        × (vazio (trim f.nome_gestor) ≡ false)
        × (vazio (trim f.email_gestor) ≡ false)
        × (includes f.email_gestor (codes "@") ≡ true)
        × (vazio (trim f.senha_gestor) ≡ false)
        × (6 ≤ length f.senha_gestor))
unfolding handle_submeter cnpj_ruim email_ruim senha_ruim is_cnpj_formato_valido
handle_submeter_iff f = (
  λ h.
      let (named, h1) = passou (vazio (trim f.nome_restaurante)) sem_nome _ (dados_de f) h in
      let (c, h2) = passou (cnpj_ruim f.cnpj) cnpj_incompleto _ (dados_de f) h1 in
      let (g, h3) = passou (vazio (trim f.nome_gestor)) sem_gestor _ (dados_de f) h2 in
      let (e, h4) = passou (email_ruim f.email_gestor) email_invalido _ (dados_de f) h3 in
      let (s, h5) = passou (senha_ruim f.senha_gestor) senha_curta _ (dados_de f) h4 in
      let (c1, c2) =
        nenhum_dos_dois (vazio (trim f.cnpj)) (not (is_cnpj_formato_valido f.cnpj)) c in
      let (e1, e2) =
        nenhum_dos_dois (vazio (trim f.email_gestor)) (not (includes f.email_gestor (codes "@")))
          e in
      let (s1, s2) =
        nenhum_dos_dois (vazio (trim f.senha_gestor)) (ltb (length f.senha_gestor) 6) s in
      (named, c1, ground (arith, c2), g, e1, ground (arith, e2), s1, ground (arith, s2)),
  λ (named, c1, c2, g, e1, e2, s1, s2).
      let t = lt-false (length f.senha_gestor) s2 in rw (named, c1, c2, g, e1, e2, s1, t) refl,
)
