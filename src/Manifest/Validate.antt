-- ===== src/Manifest/Validate.antt =====
-- `pmcluster/internal/manifest/validate.go`. The two regular expressions are matchers by recursion.
pub mod Names
pub mod Values
pub mod Soundness
use poor_man_stack.Base.{
  ℕ, ◌+◌, ◌≤◌, Text, codes, ◌==◌, text_eq, nat_eq, Bool, true, false, not, ◌&&◌, ◌||◌, Option, none,
  some, List, [], ◌∷◌, Result, ok, err, require, ◌>>◌, ◌>>=◌, map_err, each_ok, each_indexed,
  if◌then◌else◌, leb, ltb, length, all, any, is_some, is_empty,
}
use poor_man_stack.Base.Int.{ℤ, pos, negsuc, is_negative, is_zero, within}
use poor_man_stack.Manifest.Dsl.{App, Service, Expose, Healthcheck, Update}
use poor_man_stack.Manifest.Refs.{
  RefKind, config, secrets, EnvRef, parse_env_ref, malformed_env_ref,
}

pub data HealthProblem : Type 0 where
  test_required test_with_shorthand unknown_type : HealthProblem

pub data EnvProblem : Type 0 where
  malformed_reference empty_reference not_mounted : EnvProblem

pub data ServiceProblem : Type 0 where
  image_required replicas_negative replicas_and_run_once unknown_placement : ServiceProblem
  volume : ℕ → ServiceProblem
  env : Text → EnvProblem → ServiceProblem
  expose_port host_required invalid_host : ServiceProblem
  empty_alias invalid_alias : ℕ → ServiceProblem
  healthcheck : HealthProblem → ServiceProblem
  update_order update_parallelism : ServiceProblem

pub data Invalid : Type 0 where
  app_name env_required domain_required no_services : Invalid
  service_name : Text → Invalid
  in_service : Text → ServiceProblem → Invalid
  empty_secret : ℕ → Invalid

abbrev pub is_lower_letter : ℕ → Bool
is_lower_letter c = leb b'a' c && leb c b'z'

abbrev pub is_letter : ℕ → Bool
is_letter c = is_lower_letter c || (leb b'A' c && leb c b'Z')

abbrev pub is_decimal : ℕ → Bool
is_decimal c = leb b'0' c && leb c b'9'

abbrev pub is_name_char : ℕ → Bool
is_name_char c = is_lower_letter c || is_decimal c || c == b'_' || c == b'-'

-- `^[a-z][a-z0-9_-]{0,62}$`.
unfoldable pub is_name : Text → Bool
is_name [] = false
is_name (c ∷ s) = is_lower_letter c && all is_name_char s && leb (length s) 62

-- `[a-zA-Z]{2,}$`.
abbrev pub is_top_domain : Text → Bool
is_top_domain s = all is_letter s && leb 2 (length s)

abbrev pub is_host_char : ℕ → Bool
is_host_char c = is_letter c || is_decimal c || c == b'.' || c == b'-'

-- `[a-zA-Z0-9.-]*\.[a-zA-Z]{2,}$`.
unfoldable pub ends_in_domain : Text → Bool
ends_in_domain [] = false
ends_in_domain (c ∷ s) = (c == b'.' && is_top_domain s) || (is_host_char c && ends_in_domain s)

-- `^[a-zA-Z0-9*](…)?$`.
unfoldable pub is_hostname : Text → Bool
unfolding ends_in_domain
is_hostname [] = false
is_hostname (c ∷ s) = (is_letter c || is_decimal c || c == b'*') && (s == [] || ends_in_domain s)

unfoldable pub validate_healthcheck : Healthcheck → Result HealthProblem (Unit {0})
validate_healthcheck h =
    if h.type == []
    then require
        (not (
          is_empty h.test
          && (not (h.interval == []) || not (h.timeout == []) || not (is_zero h.retries))))
        test_required
    else if h.type == codes "pg_isready" || h.type == codes "http"
    then require (is_empty h.test) test_with_shorthand
    else err unknown_type

unfoldable pub validate_env_ref : List Text → EnvRef → Result EnvProblem (Unit {0})
validate_env_ref mounted ref = do
  require (not (ref.name == [])) empty_reference
  elim ref.kind [
    | config ↦ ok tt
    | secrets ↦ require (any (λ s. s == ref.name) mounted) not_mounted
  ]

-- One entry of the environment of a service that mounts these secrets.
unfoldable pub validate_env : List Text → Text → Result EnvProblem (Unit {0})
unfolding validate_env_ref
validate_env mounted v = do
  require (not (malformed_env_ref v)) malformed_reference
  elim (parse_env_ref v) [ none ↦ ok tt | some ref ↦ validate_env_ref mounted ref ]

unfoldable pub validate_alias : ℕ → Text → Result ServiceProblem (Unit {0})
validate_alias i alias = do
  require (not (alias == [])) (empty_alias i)
  require (is_hostname alias) (invalid_alias i)

unfoldable pub validate_expose : Option Expose → Result ServiceProblem (Unit {0})
validate_expose none = ok tt
validate_expose (some e) = do
  require (within 1 65535 e.port) expose_port
  require (not (e.host == [])) host_required
  require (is_hostname e.host) invalid_host
  each_indexed validate_alias 0 e.aliases

abbrev pub validate_health : Option Healthcheck → Result ServiceProblem (Unit {0})
validate_health none = ok tt
validate_health (some h) = map_err healthcheck (validate_healthcheck h)

unfoldable pub validate_update : Option Update → Result ServiceProblem (Unit {0})
validate_update none = ok tt
validate_update (some u) = do
  require (u.order == [] || u.order == codes "start-first" || u.order == codes "stop-first")
      update_order
  require (not (is_negative u.parallelism)) update_parallelism

abbrev pub is_set_negative : Option ℤ → Bool
is_set_negative none = false
is_set_negative (some n) = is_negative n

abbrev pub validate_volume : ℕ → Text → Result ServiceProblem (Unit {0})
validate_volume i v = require (any (λ c. c == b':') v) (volume i)

unfoldable pub validate_service : Service → Result ServiceProblem (Unit {0})
validate_service s = do
  require (not (s.image == [])) image_required
  require (not (is_set_negative s.replicas)) replicas_negative
  require (not (s.run_once && is_some s.replicas)) replicas_and_run_once
  require (s.placement == [] || s.placement == codes "manager" || s.placement == codes "worker")
      unknown_placement
  each_indexed validate_volume 0 s.volumes
  each_ok (λ (e : Text × Text). map_err (env e.0) (validate_env s.secrets e.1)) s.env
  validate_expose s.expose
  validate_health s.healthcheck
  validate_update s.update

unfoldable pub validate_entry : Text × Service → Result Invalid (Unit {0})
validate_entry (name, s) = do
  require (is_name name) (service_name name)
  map_err (in_service name) (validate_service s)

unfoldable pub validate : App → Result Invalid (Unit {0})
validate app = do
  require (is_name app.name) app_name
  require (not (app.env == [])) env_required
  require (not (app.domain == [])) domain_required
  require (leb 1 (length app.services)) no_services
  each_ok validate_entry app.services
  each_indexed (λ i name. require (not (name == [])) (empty_secret i)) 0 app.secrets
