-- ===== src/Shared/Conexao/Tests.antt =====
-- An outage and the recovery from it.
use gestao_restaurante.Base.{ℕ, ◌≡◌, refl, true, false, none, some, List, [], ◌∷◌}
use gestao_restaurante.Base.Text.{Texto, codes}
use gestao_restaurante.Shared.Conexao.{
  ConnectionState, inicial, set_api_online, check_connection, status, concluir, Evento, informar,
  sondar, timer, terminar, passo, executar,
}
use gestao_restaurante.Shared.Conexao.Probing.{IsConsistent, executar-inicial-IsConsistent}

abbrev texto_de : ℕ → Texto
texto_de n = codes "Status HTTP"

abbrev queda : List (Evento × ℕ)
queda = (informar false none, 1) ∷ (timer, 2) ∷ (sondar, 3) ∷ (terminar (status 503), 4) ∷ []

abbrev parado : ConnectionState
parado = record {
  is_api_online = false;
  is_checking = false;
  last_checked = some 4;
  last_error_message = some (codes "Status HTTP");
  auto_reconnect_timer = true;
  sondagens = 0;
}

cair : executar texto_de queda inicial ≡ parado
unfolding executar passo concluir check_connection set_api_online
cair = refl

executar-inicial-IsConsistent_example : IsConsistent (executar texto_de queda inicial)
executar-inicial-IsConsistent_example = executar-inicial-IsConsistent texto_de queda

parado-IsConsistent : IsConsistent parado
parado-IsConsistent = record { polls = refl; told = refl; one_probe = refl }
