-- ===== src/Auth/Cnpj/Tests.antt =====
-- A CNPJ as it is typed.
use gestao_restaurante.Base.{◌≡◌, refl}
use gestao_restaurante.Base.Text.{Texto, codes}
use gestao_restaurante.Auth.Cnpj.{desmascarar_cnpj, com_mascara, mascarar_cnpj}

abbrev digitado : Texto
digitado = codes "12345678 0001-909"

mascarado : mascarar_cnpj digitado ≡ codes "12.345.678/0001-90"
unfolding mascarar_cnpj com_mascara desmascarar_cnpj
mascarado = refl
