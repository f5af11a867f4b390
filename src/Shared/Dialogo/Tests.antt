-- ===== src/Shared/Dialogo/Tests.antt =====
-- A confirmation that is pressed twice, and the kind of an alert.
use gestao_restaurante.Base.{◌≡◌, refl, some, none}
use gestao_restaurante.Base.Text.{codes, includes, starts_with, to_lower_case}
use gestao_restaurante.Shared.Dialogo.{
  success, DialogOptions, dialogo_confirm, tipo_do_alerta, confirmar, retorno_de,
}

abbrev encerrar : DialogOptions
encerrar = dialogo_confirm (codes "Sair") (codes "Deseja sair?") 7 none (codes "Sim") (codes "Não")

-- A message of failure that speaks of success is shown as one.
alerta_misto : tipo_do_alerta (codes "Erro") (some (codes "Não concluído com sucesso")) ≡ success
unfolding tipo_do_alerta includes starts_with to_lower_case
alerta_misto = refl

tem_retorno : retorno_de confirmar encerrar ≡ some (some 7)
unfolding retorno_de
tem_retorno = refl
