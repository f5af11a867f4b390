-- ===== src/Shared/Ambiente.antt =====
-- frontend/shared/config/env.ts: the loader of the configuration. What the environment and the host
-- give are arguments; `none` is a value that is missing.
pub mod Barras
mod Tests
use gestao_restaurante.Base.{
  ℕ, Bool, true, false, Option, none, some, List, [], ◌∷◌, ◌++◌, reverse, ◌==◌, if◌then◌else◌,
}
use gestao_restaurante.Base.Text.{Texto, codes, vazio, trim, same}
use gestao_restaurante.Shared.Formatters.{ou_padrao}

pub record AppEnvConfig : Type 0 where
  pub api_url : Texto
  pub api_id : Option Texto
  pub is_development : Bool
  pub is_production : Bool

-- `process.env`, whether the bundle is one for development, and the host that expo-constants knows.
pub record Ambiente : Type 0 where
  pub expo_public_api_url : Option Texto
  pub expo_public_api_id : Option Texto
  pub node_env : Option Texto
  pub dev : Bool
  pub host_uri : Option Texto

-- `a ?? b`
abbrev pub ou_se_falta : Option Texto → Option Texto → Option Texto
ou_se_falta none b = b
ou_se_falta (some t) b = some t

-- `s.split(':')[0]`
unfoldable pub antes_de_dois_pontos : Texto → Texto
antes_de_dois_pontos [] = []
antes_de_dois_pontos (c ∷ s) =
    let rest = antes_de_dois_pontos s in if c == b':' then [] else c ∷ rest

abbrev pub url_do_host : Texto → Option Texto
url_do_host host =
    if vazio (trim host) then none else some (codes "http://" ++ host ++ codes ":5287/api/v1")

unfoldable pub get_dynamic_host_url : Option Texto → Option Texto
unfolding antes_de_dois_pontos trim
get_dynamic_host_url none = none
get_dynamic_host_url (some uri) = url_do_host (antes_de_dois_pontos uri)

unfoldable pub sem_barras : Texto → Texto
sem_barras [] = []
sem_barras (c ∷ s) = let rest = sem_barras s in if c == b'/' then rest else c ∷ s

-- `t.replace(/\/+$/, '')`
unfoldable pub sem_barras_finais : Texto → Texto
unfolding sem_barras
sem_barras_finais t = reverse (sem_barras (reverse t))

-- The identifier, trimmed, if it is not blank.
abbrev pub api_id_de : Option Texto → Option Texto
api_id_de none = none
api_id_de (some t) = if vazio (trim t) then none else some (trim t)

abbrev pub configurado : Ambiente → Option Texto → Texto → AppEnvConfig
configurado a custom_api_id url =
    let node_env = ou_padrao a.node_env (codes "development") in
    record {
      api_url = sem_barras_finais (trim url);
      api_id = api_id_de (ou_se_falta custom_api_id a.expo_public_api_id);
      is_development = same node_env (codes "development");
      is_production = same node_env (codes "production");
    }

-- The rest of the loader, from the address that was found; `none` is the exception.
abbrev pub com_url : Ambiente → Option Texto → Option Texto → Option AppEnvConfig
com_url a custom_api_id none = none
com_url a custom_api_id (some url) =
    if vazio (trim url) then none else some (configurado a custom_api_id url)

-- `apiUrl`
abbrev pub url_de : Ambiente → Option Texto → Option Texto
url_de a custom_api_url =
    ou_se_falta custom_api_url
      (ou_se_falta a.expo_public_api_url (if a.dev then get_dynamic_host_url a.host_uri else none))

unfoldable pub load_env_config : Option Texto → Option Texto → Ambiente → Option AppEnvConfig
unfolding get_dynamic_host_url sem_barras_finais trim same ou_padrao
load_env_config custom_api_url custom_api_id a = com_url a custom_api_id (url_de a custom_api_url)
