-- ===== src/Shared/Formatters/Tests.antt =====
-- The examples of the repository's own formatters.test.ts.
use gestao_restaurante.Base.{◌≡◌, ◌*◌, refl, ◌++◌, some}
use gestao_restaurante.Base.Number.{pos}
use gestao_restaurante.Base.Text.{codes, trim, trim_start, same, to_lower_case}
use gestao_restaurante.Base.Decimal.{digitos, parse_int}
use gestao_restaurante.Shared.Formatters.{
  agrupar_fuel, agrupar, centavos_pt_br, milesimos_pt_br, unidade_normal, formatar_quantidade,
  moeda_de_digitos, formatar_moeda_input, formatar_porcao_gastronomica,
}
use gestao_restaurante.Shared.Formatters.Moeda.{
  ler_moeda, ler_moeda-formatar_moeda_input, formatar_moeda_input-append,
}

mil_e_cinquenta : formatar_moeda_input (codes "100050") ≡ codes "1.000,50"
unfolding formatar_moeda_input moeda_de_digitos parse_int centavos_pt_br agrupar agrupar_fuel
    digitos
mil_e_cinquenta = refl

quilos : formatar_quantidade (some 3200) (codes "kg") ≡ codes "3,2 kg"
unfolding formatar_quantidade unidade_normal trim trim_start same to_lower_case milesimos_pt_br
    agrupar agrupar_fuel digitos
quilos = refl

unidades : formatar_quantidade (some 56000) (codes "un") ≡ codes "56 un"
unfolding formatar_quantidade unidade_normal trim trim_start same to_lower_case digitos
unidades = refl

gramas : formatar_porcao_gastronomica (some 180) (codes "kg") ≡ codes "180 g"
unfolding formatar_porcao_gastronomica unidade_normal trim trim_start same to_lower_case digitos
gramas = refl

ler_moeda-formatar_moeda_input_example :
    ler_moeda (formatar_moeda_input (codes "R$ 12.3456"))
    ≡ some (pos (parse_int (codes "123456") * 10))
ler_moeda-formatar_moeda_input_example =
    ler_moeda-formatar_moeda_input (codes "R$ 12.3456") b'1' (codes "23456") refl

formatar_moeda_input-append_example :
    formatar_moeda_input (formatar_moeda_input (codes "1234") ++ codes "5")
    ≡ formatar_moeda_input (codes "1234" ++ codes "5")
formatar_moeda_input-append_example = formatar_moeda_input-append (codes "1234") (codes "5")
