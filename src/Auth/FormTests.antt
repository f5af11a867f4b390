-- ===== src/Auth/FormTests.antt =====
-- A registration and a login by registration number.
use gestao_restaurante.Base.{◌≡◌, refl, false}
use gestao_restaurante.Base.Text.{codes, vazio, trim, trim_start, includes, starts_with}
use gestao_restaurante.Auth.Cadastro.{Formulario}
use gestao_restaurante.Auth.Entrada.{tem_arroba}

abbrev cadastro : Formulario
cadastro = record {
  nome_restaurante = codes "Bistrô";
  cnpj = codes "12.345.678/0001-90";
  cidade = codes "Recife";
  estado = codes "PE";
  nome_gestor = codes "Ana";
  email_gestor = codes "Ana@bistro.com";
  senha_gestor = codes " abc  ";
}

named_05829 : vazio (trim (codes "05829")) ≡ false
unfolding trim trim_start
named_05829 = refl

named_ana : vazio (trim (codes " ana ")) ≡ false
unfolding trim trim_start
named_ana = refl

plain_05829 : tem_arroba (trim (codes "05829")) ≡ false
unfolding trim trim_start includes starts_with
plain_05829 = refl

plain_ana : tem_arroba (trim (codes " ana ")) ≡ false
unfolding trim trim_start includes starts_with
plain_ana = refl
