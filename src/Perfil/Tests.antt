-- ===== src/Perfil/Tests.antt =====
-- A withdrawal from the drawer.
use gestao_restaurante.Base.{◌≡◌, refl, List, [], ◌∷◌, some, none}
use gestao_restaurante.Base.Number.{pos}
use gestao_restaurante.Base.Text.{codes, trim, trim_start, replace_first}
use gestao_restaurante.Base.Decimal.{parse_float}
use gestao_restaurante.Perfil.{
  sangria, registrar_movimentacao, Formulario, Perfil, inicial, saldo_de, valor_numerico,
  confirmar_valor, handle_confirmar, handle_submit_movimentacao, concluir, confirmar, abrir, Acao,
  abrir_movimentacao, digitar_valor, digitar_motivo, confirmar_movimentacao, passo, executar,
  obter_metricas_turno,
}

abbrev retirada : List Acao
retirada =
    abrir_movimentacao sangria
    ∷ digitar_valor (codes "50,00")
    ∷ digitar_motivo (codes " cofre ")
    ∷ confirmar_movimentacao
    ∷ []

abbrev carregado : Perfil
carregado = record inicial { metricas = some obter_metricas_turno }

retirar : saldo_de (executar retirada carregado).metricas ≡ 70000
unfolding executar passo abrir confirmar handle_confirmar confirmar_valor valor_numerico
    handle_submit_movimentacao concluir registrar_movimentacao replace_first parse_float trim
    trim_start
retirar = refl

abbrev retirado : Perfil
retirado = executar retirada carregado

abbrev preenchido : Formulario
preenchido = record { valor_texto = codes "50,00"; motivo = codes " cofre "; erro = none }

cinquenta : valor_numerico preenchido ≡ pos 50000
unfolding valor_numerico replace_first parse_float trim trim_start
cinquenta = refl
