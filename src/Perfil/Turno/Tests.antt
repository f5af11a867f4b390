-- ===== src/Perfil/Turno/Tests.antt =====
-- An emptied drawer, a dismissed closing, and a search by name.
use gestao_restaurante.Base.{◌+◌, ◌<◌, ◌≡◌, ◌↔◌, refl, true, false, none, some, List, [], ◌∷◌}
use gestao_restaurante.Base.Text.{codes, trim, trim_start, to_lower_case, starts_with}
use gestao_restaurante.Auth.{RestauranteTenant, Json, tenant_padrao, vazia, auth_token, get_string}
use gestao_restaurante.Auth
use gestao_restaurante.Caixa.{valor_dinheiro}
use gestao_restaurante.Perfil.{Perfil, saldo_de, obter_metricas_turno}
use gestao_restaurante.Perfil
use gestao_restaurante.Perfil.Turno.{
  sessao_fechamento, Turno, inicial, filiais_filtradas, so_digitos, confirmar_fechamento,
  dispensar_fechamento, fim_da_espera, executar,
}
use gestao_restaurante.Perfil.Vista.{sem_expo, depois_do_expo}
use gestao_restaurante.Perfil.Turno.Fim.{
  valor_dinheiro-sessao_fechamento, dispensar_fechamento-sair,
}
use gestao_restaurante.Perfil.Turno.Filiais.{filiais_filtradas-no_digit}

-- The drawer after its money was withdrawn.
abbrev esvaziada : Perfil
esvaziada = record Perfil.inicial {
  metricas = some (record obter_metricas_turno {
    tender_breakdown = record obter_metricas_turno.tender_breakdown { dinheiro = 0 };
  });
}

valor_dinheiro-sessao_fechamento_example :
    (valor_dinheiro (sessao_fechamento esvaziada.metricas none) ≡ saldo_de esvaziada.metricas)
    ↔ (0 < saldo_de esvaziada.metricas)
valor_dinheiro-sessao_fechamento_example = valor_dinheiro-sessao_fechamento esvaziada none refl

cento_e_vinte : valor_dinheiro (sessao_fechamento esvaziada.metricas none) ≡ 120000
unfolding valor_dinheiro sessao_fechamento
cento_e_vinte = refl

abbrev formato : Json
formato = record {
  stringify_tenant = λ t. t.id;
  stringify_operador = λ o. [];
  parse_tenant = λ t. none;
  parse_operador = λ t. none;
}

abbrev aberto : Turno
aberto = record (inicial (vazia, record Auth.inicial { is_authenticated = true })) {
  is_confirmar_fechamento_open = true;
}

dispensar_fechamento-sair_example :
    let y =
      executar formato (confirmar_fechamento ∷ dispensar_fechamento ∷ fim_da_espera ∷ []) aberto in
    (y.sessao.1.is_authenticated ≡ false)
    × (get_string auth_token y.sessao.0 ≡ none)
    × (y.saidas ≡ aberto.saidas + 1)
dispensar_fechamento-sair_example = dispensar_fechamento-sair formato aberto refl refl refl

abbrev filiais : List RestauranteTenant
filiais =
    record tenant_padrao { nome = codes "Centro" }
    ∷ record tenant_padrao { nome = codes "Praia" }
    ∷ []

no_digit : so_digitos (to_lower_case (trim (codes " Centro "))) ≡ []
unfolding trim trim_start to_lower_case
no_digit = refl

filiais_filtradas-no_digit_example : filiais_filtradas (codes " Centro ") filiais ≡ filiais
filiais_filtradas-no_digit_example = filiais_filtradas-no_digit (codes " Centro ") filiais no_digit

-- The version that the terminal's card prints.
versao : sem_expo (codes "App Expo SDK 54 •  Versão 1.0.0") ≡ codes "App Versão 1.0.0"
unfolding sem_expo depois_do_expo starts_with to_lower_case trim_start
versao = refl

versao_sem_expo : sem_expo (codes "Expo SDK • 1.0") ≡ codes "Expo SDK • 1.0"
unfolding sem_expo depois_do_expo starts_with to_lower_case trim_start
versao_sem_expo = refl
