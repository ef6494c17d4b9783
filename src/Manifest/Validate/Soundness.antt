-- ===== src/Manifest/Validate/Soundness.antt =====
-- `Validate` against a description of a valid manifest.
use poor_man_stack.Base.{
  ℕ, Text, codes, ◌==◌, text_eq, text_beq_iff, true, false, not, ◌≡◌, refl, ◌≢◌, ◌↔◌, ◌⊎◌, Option,
  none, some, List, [], ◌∷◌, nat_eq, nat_beq_iff, ok, require, map_err, each_ok, each_indexed,
  each_ok_iff, each_indexed_iff, require_iff, leb, length, any, All, Any, any-Any_iff, arith,
}
use poor_man_stack.Base.Int.{is_negative, within}
use poor_man_stack.Manifest.Dsl.{App, Service, Expose, Healthcheck, Update}
use poor_man_stack.Manifest.Validate.{
  validate_healthcheck, validate_env, validate_alias, validate_expose, validate_health,
  validate_update, validate_volume, validate_service, validate_entry, validate, is_set_negative,
  env, in_service, healthcheck, volume, empty_secret, ServiceProblem,
}
use poor_man_stack.Manifest.Validate.Names.{IsName, is_name_iff, IsHostname, is_hostname_iff}
use poor_man_stack.Manifest.Validate.Values.{
  IsHealthcheck, validate_healthcheck_iff, IsEnvValue, validate_env_iff, map_err_iff,
}

abbrev pub IsAlias : Text → Type 0
IsAlias alias = IsHostname alias

validate_alias_iff : (i : ℕ) (alias : Text) → (validate_alias i alias ≡ ok tt) ↔ IsAlias alias
unfolding validate_alias
validate_alias_iff i [] = ground arith
validate_alias_iff i (c ∷ s) = ground (arith, is_hostname_iff (c ∷ s))

-- A port, a host name and host names for the aliases.
abbrev pub IsExpose : Option Expose → Type 0
IsExpose none = Unit
IsExpose (some e) = (within 1 65535 e.port ≡ true) × IsHostname e.host × All IsHostname e.aliases

validate_expose_iff : (o : Option Expose) → (validate_expose o ≡ ok tt) ↔ IsExpose o
unfolding validate_expose
validate_expose_iff none = ground arith
validate_expose_iff (some e) = ground (
  arith,
  text_beq_iff e.host [],
  is_hostname_iff e.host,
  each_indexed_iff IsHostname validate_alias validate_alias_iff 0 e.aliases,
)

abbrev pub IsHealth : Option Healthcheck → Type 0
IsHealth none = Unit
IsHealth (some h) = IsHealthcheck h

validate_health_iff : (o : Option Healthcheck) → (validate_health o ≡ ok tt) ↔ IsHealth o
validate_health_iff none = (λ h. tt, λ h. refl)
validate_health_iff (some h) =
    ground (arith, map_err_iff healthcheck (validate_healthcheck h), validate_healthcheck_iff h)

abbrev pub IsUpdate : Option Update → Type 0
IsUpdate none = Unit
IsUpdate (some u) =
    ((u.order ≡ []) ⊎ ((u.order ≡ codes "start-first") ⊎ (u.order ≡ codes "stop-first")))
    × (is_negative u.parallelism ≡ false)

validate_update_iff : (o : Option Update) → (validate_update o ≡ ok tt) ↔ IsUpdate o
unfolding validate_update
validate_update_iff none = ground arith
validate_update_iff (some u) = ground (
  arith,
  text_beq_iff u.order [],
  text_beq_iff u.order (codes "start-first"),
  text_beq_iff u.order (codes "stop-first"),
)

pub record IsService (s : Service) : Type 0 where
  pub image : s.image ≢ []
  pub replicas : is_set_negative s.replicas ≡ false
  pub once : (s.run_once ≡ true) → s.replicas ≡ none
  pub placement :
      (s.placement ≡ []) ⊎ ((s.placement ≡ codes "manager") ⊎ (s.placement ≡ codes "worker"))
  pub volumes : All (λ v. Any (λ c. c ≡ b':') v) s.volumes
  pub env : All (λ (e : Text × Text). IsEnvValue s.secrets e.1) s.env
  pub expose : IsExpose s.expose
  pub health : IsHealth s.healthcheck
  pub update : IsUpdate s.update

validate_volumes_iff :
    (vs : List Text)
    → (each_indexed validate_volume 0 vs ≡ ok tt) ↔ All (λ v. Any (λ c. c ≡ b':') v) vs
validate_volumes_iff vs =
    each_indexed_iff (λ v. Any (λ c. c ≡ b':') v) validate_volume
      (λ i v. ground (
        arith,
        require_iff {E = ServiceProblem} (any (λ c. c == b':') v) (volume i),
        any-Any_iff (λ c. c ≡ b':') (λ c. c == b':') (λ c. nat_beq_iff c b':') v,
      ))
      0 vs

validate_envs_iff :
    (mounted : List Text) (es : List (Text × Text))
    → (each_ok (λ (e : Text × Text). map_err (env e.0) (validate_env mounted e.1)) es ≡ ok tt)
      ↔ All (λ (e : Text × Text). IsEnvValue mounted e.1) es
validate_envs_iff mounted es =
    each_ok_iff (λ (e : Text × Text). IsEnvValue mounted e.1)
      (λ e. map_err (env e.0) (validate_env mounted e.1))
      (λ e.
        ground
          (arith, map_err_iff (env e.0) (validate_env mounted e.1), validate_env_iff mounted e.1))
      es

validate_service_iff : (s : Service) → (validate_service s ≡ ok tt) ↔ IsService s
unfolding validate_service
validate_service_iff s = ground (
  arith,
  text_beq_iff s.image [],
  text_beq_iff s.placement [],
  text_beq_iff s.placement (codes "manager"),
  text_beq_iff s.placement (codes "worker"),
  validate_volumes_iff s.volumes,
  validate_envs_iff s.secrets s.env,
  validate_expose_iff s.expose,
  validate_health_iff s.healthcheck,
  validate_update_iff s.update,
)

abbrev pub IsEntry : Text × Service → Type 0
IsEntry (name, s) = IsName name × IsService s

validate_entry_iff : (e : Text × Service) → (validate_entry e ≡ ok tt) ↔ IsEntry e
unfolding validate_entry
validate_entry_iff (name, s) = ground (
  arith,
  is_name_iff name,
  map_err_iff (in_service name) (validate_service s),
  validate_service_iff s,
)

pub record IsApp (app : App) : Type 0 where
  pub name : IsName app.name
  pub env : app.env ≢ []
  pub domain : app.domain ≢ []
  pub some_service : app.services ≢ []
  pub services : All IsEntry app.services
  pub secrets : All (λ name. name ≢ []) app.secrets

validate_secrets_iff :
    (names : List Text)
    → (each_indexed (λ i (name : Text). require (not (name == [])) (empty_secret i)) 0 names
        ≡ ok tt)
      ↔ All (λ name. name ≢ []) names
validate_secrets_iff names =
    each_indexed_iff (λ name. name ≢ []) (λ i name. require (not (name == [])) (empty_secret i))
      (λ i name. ground (arith, text_beq_iff name [])) 0 names

length-pos_iff {ℓ} : {A : Type ℓ} (xs : List A) → (leb 1 (length xs) ≡ true) ↔ (xs ≢ [])
length-pos_iff [] = ground arith
length-pos_iff (x ∷ xs) = ground arith

pub validate-iff_IsApp : (app : App) → (validate app ≡ ok tt) ↔ IsApp app
unfolding validate
validate-iff_IsApp app = ground (
  arith,
  is_name_iff app.name,
  text_beq_iff app.env [],
  text_beq_iff app.domain [],
  length-pos_iff app.services,
  each_ok_iff IsEntry validate_entry validate_entry_iff app.services,
  validate_secrets_iff app.secrets,
)
