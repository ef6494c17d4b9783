-- ===== src/Manifest/Translate.antt =====
-- `pmcluster/internal/manifest/translate.go`: `BuildIR` and what it calls. The resolver of config
-- references is a parameter, absent where the code passes nil. Each of the three loops over the
-- services may visit them in an order of its own; here it is one order.
pub mod Resolving
pub mod Totality
pub mod Complete
pub mod Services
pub mod Collected
use poor_man_stack.Base.{
  ℕ, Text, codes, ◌==◌, text_eq, nat_eq, Bool, not, ◌||◌, Option, none, some, List, [], ◌∷◌, ◌++◌,
  Result, ok, err, require, ◌>>◌, ◌>>=◌, map_err, each_map, if◌then◌else◌, any, is_some, cut_at,
  cut_prefix,
}
use poor_man_stack.Base.Int.{ℤ, pos, is_zero}
use poor_man_stack.Manifest.Dsl.{App, Service, Expose, Healthcheck, Update}
use poor_man_stack.Manifest.Ir.{Ir, IrService, IrExpose, IrHealthcheck, IrUpdate}
use poor_man_stack.Manifest.Refs.{config, secrets, EnvRef, parse_env_ref, secret_mount_path}

-- `EnvResolver.ResolveConfig`: the content of a config, or an error.
abbrev pub Resolver : Type 0
Resolver = Text → Result Text Text

pub data EnvFailure : Type 0 where
  no_secret_name : EnvFailure
  no_resolver : Text → EnvFailure
  unresolved : Text → Text → EnvFailure
  has_newlines : Text → EnvFailure

-- The service and the variable at which the translation stopped.
pub data TranslateFailure : Type 0 where
  in_env : Text → Text → EnvFailure → TranslateFailure

abbrev pub is_newline : ℕ → Bool
is_newline c = c == 10 || c == 13

unfoldable pub resolve_config : Option Resolver → Text → Result EnvFailure Text
resolve_config none name = err (no_resolver name)
resolve_config (some resolver) name = do
  content ← map_err (unresolved name) (resolver name)
  require (not (any is_newline content)) (has_newlines name)
  ok content

unfoldable pub resolve_ref : Option Resolver → EnvRef → Result EnvFailure Text
unfolding resolve_config
resolve_ref resolver ref = elim ref.kind [
  | secrets ↦ if ref.name == [] then err no_secret_name else ok (secret_mount_path ref.name)
  | config ↦ resolve_config resolver ref.name
]

unfoldable pub resolve_value : Option Resolver → Text → Result EnvFailure Text
unfolding resolve_ref
resolve_value resolver v = elim (parse_env_ref v) [
  | none ↦ ok v
  | some ref ↦ resolve_ref resolver ref
]

-- One variable of the environment of the service of this name.
unfoldable pub resolve_entry :
    Option Resolver → Text → Text × Text → Result TranslateFailure (Text × Text)
resolve_entry resolver service (key, v) = do
  value ← map_err (in_env service key) (resolve_value resolver v)
  ok (key, value)

unfoldable pub resolve_service_env :
    Option Resolver → Text → List (Text × Text) → Result TranslateFailure (List (Text × Text))
resolve_service_env resolver service env = each_map (resolve_entry resolver service) env

unfoldable pub translate_healthcheck : Option Healthcheck → Option IrHealthcheck
translate_healthcheck none = none
translate_healthcheck (some h) =
    if h.type == codes "pg_isready"
    then some (record {
      type = codes "pg_isready";
      path = [];
      test = [];
      interval = codes "10s";
      timeout = codes "5s";
      retries = pos 5;
    })
    else if h.type == codes "http"
    then some (record {
      type = codes "http";
      path = if h.path == [] then codes "/" else h.path;
      test = [];
      interval = codes "10s";
      timeout = codes "5s";
      retries = pos 5;
    })
    else some (record {
      type = [];
      path = [];
      test = h.test;
      interval = h.interval;
      timeout = h.timeout;
      retries = h.retries;
    })

unfoldable pub translate_expose : Option Expose → Option IrExpose
translate_expose none = none
translate_expose (some e) =
    some (record {
      port = e.port;
      host = e.host;
      aliases = e.aliases;
      cors_disabled = e.cors_disabled;
    })

unfoldable pub translate_rollout : Option Update → Option IrUpdate
translate_rollout none = none
translate_rollout (some u) = some (record {
  parallelism = if is_zero u.parallelism then pos 1 else u.parallelism;
  delay = if u.delay == [] then codes "10s" else u.delay;
  order = if u.order == [] then codes "start-first" else u.order;
})

abbrev pub replicas_or_one : Option ℤ → ℤ
replicas_or_one none = pos 1
replicas_or_one (some n) = n

-- The service once its environment is resolved.
unfoldable pub ir_service : Text → Service → List (Text × Text) → IrService
unfolding translate_healthcheck translate_expose translate_rollout
ir_service name s env = record {
  name = name;
  image = s.image;
  command = s.command;
  entrypoint = s.entrypoint;
  env = env;
  volumes = s.volumes;
  secrets = s.secrets;
  expose = translate_expose s.expose;
  healthcheck = translate_healthcheck s.healthcheck;
  run_once = s.run_once;
  replicas = if s.run_once then pos 0 else replicas_or_one s.replicas;
  placement = s.placement;
  update = if s.run_once then none else translate_rollout s.update;
  skip_filelog = s.skip_filelog;
}

unfoldable pub translate_service :
    Option Resolver → Text × Service → Result TranslateFailure IrService
unfolding ir_service resolve_service_env
translate_service resolver (name, s) = do
  env ← resolve_service_env resolver name s.env
  ok (ir_service name s env)

-- The part before the first ":", or the whole text.
abbrev pub mount_source : Text → Text
mount_source v = elim (cut_at b':' v) [ none ↦ v | some (src, rest) ↦ src ]

-- The volume that a mount names, unless it mounts a path of the host.
unfoldable pub named_volume : Text → List Text
named_volume v =
    let src = mount_source v in
    if src == [] || is_some (cut_prefix (codes "/") src) then [] else src ∷ []

-- A key that is set in a map whose values are empty structs.
unfoldable pub include : Text → List Text → List Text
include x set = if any (λ y. y == x) set then set else set ++ x ∷ []

unfoldable pub include_all : List Text → List Text → List Text
include_all [] set = set
include_all (x ∷ xs) set = include_all xs (include x set)

unfoldable pub named_volumes : List Text → List Text
named_volumes [] = []
named_volumes (v ∷ vs) = named_volume v ++ named_volumes vs

unfoldable pub union_of : (Service → List Text) → List (Text × Service) → List Text → List Text
unfolding include_all
union_of pick [] set = set
union_of pick ((name, s) ∷ services) set = union_of pick services (include_all (pick s) set)

unfoldable pub build_ir : Option Resolver → App → Result TranslateFailure Ir
unfolding translate_service
build_ir resolver app = do
  services ← each_map (translate_service resolver) app.services
  ok (record {
    name = app.name;
    env = app.env;
    version = app.version;
    services = services;
    volumes = union_of (λ (s : Service). named_volumes s.volumes) app.services [];
    secrets = include_all app.secrets (union_of (λ (s : Service). s.secrets) app.services []);
  })
