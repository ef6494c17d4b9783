-- ===== src/Tests/ManifestRuns.antt =====
-- A manifest with one service, compiled with one config at hand.
use poor_man_stack.Base.{
  Text, codes, ◌==◌, text_eq, nat_eq, true, false, ◌≡◌, refl, ◌↔◌, inr, none, some, [], ◌∷◌, ok,
  err, if◌then◌else◌, All, Pairs, each_ok, each_indexed, each_map, cut_prefix, cut_at, trim_space,
  trim_left, is_space, lookup, insert, insert_all, path_base, trim_char,
}
use poor_man_stack.Base.Int.{pos}
use poor_man_stack.Manifest.Dsl.{App, Service}
use poor_man_stack.Manifest.Ir.{Ir}
use poor_man_stack.Manifest.Compose.{ComposeService}
use poor_man_stack.Manifest.Refs.{
  inside_parens, as_ref, parse_env_ref, malformed_env_ref, secret_mount_path,
}
use poor_man_stack.Manifest.Validate.{
  is_name, ends_in_domain, is_hostname, validate_healthcheck, validate_env_ref, validate_env,
  validate_alias, validate_expose, validate_update, validate_service, validate_entry, validate,
}
use poor_man_stack.Manifest.Translate.{
  Resolver, resolve_config, resolve_ref, resolve_value, resolve_entry, resolve_service_env,
  translate_healthcheck, translate_expose, translate_rollout, ir_service, translate_service,
  named_volume, named_volumes, include, include_all, union_of, build_ir,
}
use poor_man_stack.Manifest.Translate.Services.{IsTranslated, build_ir-IsTranslated}
use poor_man_stack.Manifest.Translate.Totality.{HasConfigs, build_ir-total_iff}
use poor_man_stack.Manifest.Writer.{
  relocate_volume, relocate_volumes, compose_service, write_services, compose_file,
}
use poor_man_stack.Manifest.Writer.Closed.{IsClosed, compose_file-IsClosed}

abbrev pub web : Service
web = record {
  image = codes "shop/web:1";
  replicas = some (pos 2);
  run_once = false;
  skip_filelog = false;
  placement = codes "worker";
  command = [];
  entrypoint = [];
  env =
      (codes "PASS", codes "secrets( db )")
      ∷ (codes "MODE", codes "config(mode)")
      ∷ (codes "PLAIN", codes "x")
      ∷ [];
  volumes = codes "data:/var/lib" ∷ codes "/etc/shop/:/conf" ∷ [];
  secrets = codes "db" ∷ [];
  expose = some (record {
    port = pos 8080;
    host = codes "shop.example.com";
    aliases = codes "shop.org" ∷ [];
    cors_disabled = false;
  });
  healthcheck = some (record {
    type = codes "http";
    path = [];
    test = [];
    interval = [];
    timeout = [];
    retries = pos 0;
  });
  update = none;
}

abbrev pub shop : App
shop = record {
  name = codes "shop";
  env = codes "prod";
  domain = codes "example.com";
  version = codes "1";
  registry = [];
  repo_url = [];
  env_file = [];
  secrets = codes "key" ∷ [];
  services = (codes "web", web) ∷ [];
  backup_before_deploy = false;
  strict_backup = false;
}

abbrev modes : Resolver
modes name = if name == codes "mode" then ok (codes "fast") else err (codes "unknown")

unfoldable pub compiler : Unit {0}
unfolding is_name ends_in_domain is_hostname validate_healthcheck validate_env_ref validate_env
    validate_alias validate_expose validate_update validate_service validate_entry validate each_ok
    each_indexed each_map inside_parens as_ref parse_env_ref malformed_env_ref secret_mount_path
    cut_prefix cut_at trim_space trim_left is_space resolve_config resolve_ref resolve_value
    resolve_entry resolve_service_env translate_healthcheck translate_expose translate_rollout
    ir_service translate_service named_volume named_volumes include include_all union_of build_ir
    relocate_volume relocate_volumes compose_service write_services compose_file lookup insert
    insert_all path_base trim_char
compiler = tt

validate_run : validate shop ≡ ok tt
unfolding compiler
validate_run = refl

abbrev shop_ir : Ir
unfolding compiler
shop_ir = elim (build_ir (some modes) shop) [
  | ok ir ↦ ir
  | err e ↦ record { name = []; env = []; version = []; services = []; volumes = []; secrets = [] }
]

build_run : build_ir (some modes) shop ≡ ok shop_ir
unfolding compiler
build_run = refl

secrets_run : shop_ir.secrets ≡ codes "db" ∷ codes "key" ∷ []
unfolding compiler
secrets_run = refl

mounts_run :
    relocate_volumes (codes "/data") (codes "shop") web.volumes
    ≡ codes "data:/var/lib" ∷ codes "/data/shop/shop:/conf" ∷ []
unfolding compiler
mounts_run = refl

zero_replicas_run :
    validate (record shop { services = (codes "web", record web { replicas = some (pos 0) }) ∷ [] })
    ≡ ok tt
unfolding compiler
zero_replicas_run = refl

-- A hostname without a dot, of one character.
dotless_run : is_hostname (codes "a") ≡ true
unfolding compiler
dotless_run = refl

build_ir-IsTranslated_example : Pairs (IsTranslated (some modes)) shop.services shop_ir.services
build_ir-IsTranslated_example =
    build_ir-IsTranslated (some modes) shop shop_ir validate_run build_run

build_ir-total_iff_example :
    ((ir : Ir) × (build_ir (some modes) shop ≡ ok ir)) ↔ All (HasConfigs (some modes)) shop.services
build_ir-total_iff_example = build_ir-total_iff (some modes) shop validate_run

compose_file-IsClosed_example :
    All
      (λ (e : Text × ComposeService). IsClosed (compose_file (codes "/data") shop_ir) e.1)
      (compose_file (codes "/data") shop_ir).services
compose_file-IsClosed_example =
    compose_file-IsClosed (some modes) shop shop_ir (codes "/data") build_run
      (inr (codes "data", refl))
