-- ===== src/Shared/Ambiente/Barras.antt =====
-- When the loader fails, and what its address ends in.
use gestao_restaurante.Base.{
  ◌≡◌, ◌↔◌, ◌⊎◌, refl, ap, ◌∙◌, Bool, true, false, Option, none, some, [], ◌∷◌, reverse,
  reverse-reverse, ◌==◌, Bool-cases, inl, inr,
}
use gestao_restaurante.Base.Text.{Texto, vazio, trim}
use gestao_restaurante.Shared.Ambiente.{
  AppEnvConfig, Ambiente, sem_barras, sem_barras_finais, configurado, com_url, url_de,
  load_env_config,
}

abbrev comeca_em_barra : Texto → Bool
comeca_em_barra [] = false
comeca_em_barra (c ∷ s) = c == b'/'

sem_barras-stops : (s : Texto) → comeca_em_barra (sem_barras s) ≡ false
unfolding sem_barras
sem_barras-stops [] = refl
sem_barras-stops (c ∷ s) = elim (Bool-cases (c == b'/')) [
  | inl e ↦ rw e (sem_barras-stops s)
  | inr e ↦ rw e e
]

abbrev pub termina_em_barra : Texto → Bool
termina_em_barra t = comeca_em_barra (reverse t)

sem_barras_finais-stops : (t : Texto) → termina_em_barra (sem_barras_finais t) ≡ false
unfolding sem_barras_finais
sem_barras_finais-stops t =
    ap comeca_em_barra (reverse-reverse (sem_barras (reverse t))) ∙ sem_barras-stops (reverse t)

-- A configuration, if there is one, with an address that does not end in a slash.
abbrev Normal : Option AppEnvConfig → Type 0
Normal none = Unit {0}
Normal (some c) = termina_em_barra c.api_url ≡ false

com_url-Normal : (a : Ambiente) (id o : Option Texto) → Normal (com_url a id o)
com_url-Normal a id none = tt
com_url-Normal a id (some url) = elim (Bool-cases (vazio (trim url))) [
  | inl e ↦ rw e tt
  | inr e ↦ rw e (sem_barras_finais-stops (trim url))
]

-- Whatever the loader is given, a configuration that it returns has an address that does not end in
-- a slash, so that a path can be put after it.
pub load_env_config-url :
    (custom_api_url custom_api_id : Option Texto) (a : Ambiente) (c : AppEnvConfig)
    → load_env_config custom_api_url custom_api_id a ≡ some c
    → termina_em_barra c.api_url ≡ false
unfolding load_env_config
load_env_config-url custom_api_url custom_api_id a c e =
    let normal : Normal (some c) =
      rw e at (com_url-Normal a custom_api_id (url_de a custom_api_url)) in
    normal

blank :
    (a : Ambiente) (id : Option Texto) (url : Texto)
    → vazio (trim url) ≡ false
    → (some url ≡ none) ⊎ ((u : Texto) × (some url ≡ some u) × (vazio (trim u) ≡ true))
    → some (configurado a id url) ≡ none
blank a id url e (inl h) = cc
blank a id url e (inr (u, h, b)) = cc

com_url_iff :
    (a : Ambiente) (id o : Option Texto)
    → (com_url a id o ≡ none)
      ↔ ((o ≡ none) ⊎ ((u : Texto) × (o ≡ some u) × (vazio (trim u) ≡ true)))
com_url_iff a id none = (λ h. inl refl, λ h. refl)
com_url_iff a id (some url) = elim (Bool-cases (vazio (trim url))) [
  | inl e ↦ rw e (λ h. inr (url, refl, e), λ h. refl)
  | inr e ↦ rw e (λ h. cc, λ h. blank a id url e h)
]

-- The loader raises its exception exactly when no address is given or the one that is found is
-- blank.
pub load_env_config_fails_iff :
    (custom_api_url custom_api_id : Option Texto) (a : Ambiente)
    → (load_env_config custom_api_url custom_api_id a ≡ none) ↔ (
        (url_de a custom_api_url ≡ none)
        ⊎ ((u : Texto) × (url_de a custom_api_url ≡ some u) × (vazio (trim u) ≡ true)))
unfolding load_env_config
load_env_config_fails_iff custom_api_url custom_api_id a =
    com_url_iff a custom_api_id (url_de a custom_api_url)
