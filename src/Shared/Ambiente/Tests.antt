-- ===== src/Shared/Ambiente/Tests.antt =====
-- The address of the environment, and one that is only slashes.
use gestao_restaurante.Base.{◌≡◌, refl, true, false, none, some, []}
use gestao_restaurante.Base.Text.{codes, trim, trim_start, same}
use gestao_restaurante.Shared.Formatters.{ou_padrao}
use gestao_restaurante.Shared.Ambiente.{
  AppEnvConfig, Ambiente, antes_de_dois_pontos, get_dynamic_host_url, sem_barras, sem_barras_finais,
  load_env_config,
}

abbrev ambiente : Ambiente
ambiente = record {
  expo_public_api_url = some (codes " http://api// ");
  expo_public_api_id = some (codes " ");
  node_env = none;
  dev = true;
  host_uri = some (codes "10.0.0.2:8081");
}

abbrev esperada : AppEnvConfig
esperada = record {
  api_url = codes "http://api";
  api_id = none;
  is_development = true;
  is_production = false;
}

carregada : load_env_config none none ambiente ≡ some esperada
unfolding load_env_config sem_barras_finais sem_barras trim trim_start same ou_padrao
carregada = refl

-- An address of slashes passes the check and is left empty.
so_barras :
    load_env_config (some (codes "///")) none ambiente ≡ some (record esperada { api_url = [] })
unfolding load_env_config sem_barras_finais sem_barras trim trim_start same ou_padrao
so_barras = refl

do_host :
    get_dynamic_host_url (some (codes "10.0.0.2:8081")) ≡ some (codes "http://10.0.0.2:5287/api/v1")
unfolding get_dynamic_host_url antes_de_dois_pontos trim trim_start
do_host = refl
