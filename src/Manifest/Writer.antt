-- ===== src/Manifest/Writer.antt =====
-- `pmcluster/internal/manifest/compose_writer.go`: `ComposeWriter.Write`, up to `yaml.Marshal`,
-- which is a parameter.
pub mod Mounts
pub mod Closed
use poor_man_stack.Base.{
  Text, codes, ◌==◌, text_eq, Bool, true, false, ◌||◌, List, [], ◌∷◌, ◌++◌, Map, insert, insert_all,
  if◌then◌else◌, decimal_text, path_base, cut_at, cut_prefix, is_some, Option, none, some, Result,
}
use poor_man_stack.Base.Int.{ℤ, pos, is_zero}
use poor_man_stack.Manifest.Ir.{Ir, IrService, IrExpose, IrHealthcheck, IrUpdate}
use poor_man_stack.Manifest.Compose.{
  ComposeFile, ComposeService, ComposeDeploy, ComposeHealthcheck, ComposeUpdate, ComposeVolume,
  ComposeNetwork, ComposeSecret,
}
use poor_man_stack.Manifest.Labels.{IrApp, standard_labels, add_traefik_labels}

abbrev pub traefik_net : Text
traefik_net = codes "traefik-net"

abbrev pub monitoring_net : Text
monitoring_net = codes "monitoring-net"

abbrev pub default_volume_root : Text
default_volume_root = codes "/var/stack/data"

-- One mount: a path of the host moves under the root, a named volume stays.
unfoldable pub relocate_volume : Text → Text → Text → Text
relocate_volume root app v = elim (cut_at b':' v) [
  | none ↦ v
  | some (src, rest) ↦
      if is_some (cut_prefix (codes "/") src)
      then root ++ codes "/" ++ app ++ codes "/" ++ path_base src ++ codes ":" ++ rest
      else v
]

unfoldable pub relocate_volumes : Text → Text → List Text → List Text
unfolding relocate_volume
relocate_volumes root app [] = []
relocate_volumes root app (v ∷ vs) = relocate_volume root app v ∷ relocate_volumes root app vs

abbrev pub port_or_zero : Option IrExpose → ℤ
port_or_zero none = pos 0
port_or_zero (some e) = e.port

abbrev pub shell_probe : Text → ComposeHealthcheck
shell_probe test = record {
  test = codes "CMD-SHELL" ∷ test ∷ [];
  interval = codes "10s";
  timeout = codes "5s";
  retries = pos 5;
}

unfoldable pub compose_healthcheck :
    Option IrExpose → Option IrHealthcheck → Option ComposeHealthcheck
compose_healthcheck expose none = none
compose_healthcheck expose (some h) = some (
    if h.type == codes "pg_isready"
    then shell_probe (codes "pg_isready -U $$POSTGRES_USER -d $$POSTGRES_DB")
    else if h.type == codes "http"
    then shell_probe (
        codes "wget -q --spider http://127.0.0.1:"
        ++ decimal_text (port_or_zero expose)
        ++ (if h.path == [] then codes "/" else h.path))
    else record { test = h.test; interval = h.interval; timeout = h.timeout; retries = h.retries })

unfoldable pub translate_update : Option IrUpdate → ComposeUpdate
translate_update none = record {
  parallelism = pos 1;
  delay = codes "10s";
  order = codes "start-first";
}
translate_update (some u) = record {
  parallelism = if is_zero u.parallelism then pos 1 else u.parallelism;
  delay = if u.delay == [] then codes "10s" else u.delay;
  order = if u.order == [] then codes "start-first" else u.order;
}

abbrev pub placement_of : Text → Option (List Text)
placement_of placement =
    if placement == codes "manager"
    then some (codes "node.role == manager" ∷ [])
    else if placement == codes "worker"
    then some (codes "node.role == worker" ∷ [])
    else none

abbrev pub exposed_labels : Map Text → IrApp → Text → Option IrExpose → Map Text
exposed_labels labels app service none = labels
exposed_labels labels app service (some exp) = add_traefik_labels labels app service exp

unfoldable pub deploy_labels : IrApp → IrService → Map Text
deploy_labels app s =
    let labels = exposed_labels (standard_labels app s.name) app s.name s.expose in
    if s.skip_filelog
    then insert (codes "io.pmcluster.skip_filelog") (codes "true") labels
    else labels

unfoldable pub compose_deploy : IrApp → IrService → ComposeDeploy
unfolding deploy_labels translate_update
compose_deploy app s = record {
  replicas = if s.run_once then none else some (if is_zero s.replicas then pos 1 else s.replicas);
  labels = deploy_labels app s;
  placement = placement_of s.placement;
  restart_condition = if s.run_once then codes "none" else codes "on-failure";
  update_config = if s.run_once then none else some (translate_update s.update);
}

unfoldable pub compose_service : IrApp → Text → Text → IrService → ComposeService
unfolding relocate_volumes compose_healthcheck compose_deploy
compose_service app private_net root s = record {
  image = s.image;
  command = s.command;
  entrypoint = s.entrypoint;
  environment = s.env;
  volumes = relocate_volumes root app.name s.volumes;
  networks = private_net ∷ (if is_some s.expose then traefik_net ∷ monitoring_net ∷ [] else []);
  secrets = s.secrets;
  healthcheck = compose_healthcheck s.expose s.healthcheck;
  deploy = compose_deploy app s;
}

-- The services written so far, and the two networks that `Write` tracks.
pub record Progress : Type 0 where
  pub written : Map ComposeService
  pub uses_traefik_net : Bool
  pub uses_monitoring_net : Bool

unfoldable pub write_services : IrApp → Text → Text → List IrService → Progress → Progress
unfolding compose_service
write_services app private_net root [] p = p
write_services app private_net root (s ∷ ss) p = write_services app private_net root ss (record {
  written = insert s.name (compose_service app private_net root s) p.written;
  uses_traefik_net = p.uses_traefik_net || is_some s.expose;
  uses_monitoring_net = p.uses_monitoring_net || is_some s.expose;
})

unfoldable pub volume_under : Text → Text → Text → ComposeVolume
volume_under root app v = record {
  driver = codes "local";
  external = false;
  driver_opts =
      (codes "type", codes "none")
      ∷ (codes "o", codes "bind")
      ∷ (codes "device", root ++ codes "/" ++ app ++ codes "/" ++ v)
      ∷ [];
}

abbrev pub external_secret : Text → ComposeSecret
external_secret name = record { external = true }

abbrev pub with_network : Bool → Text → Map ComposeNetwork → Map ComposeNetwork
with_network used name networks =
    if used then insert name (record { driver = []; external = true }) networks else networks

abbrev pub root_or_default : Text → Text
root_or_default root = if root == [] then default_volume_root else root

unfoldable pub compose_file : Text → Ir → ComposeFile
unfolding write_services volume_under
compose_file volume_root ir =
    let root = root_or_default volume_root in
    let private_net = ir.name ++ codes "-net" in
    let app : IrApp = record { name = ir.name; env = ir.env; version = ir.version } in
    let start : Progress = record {
      written = [];
      uses_traefik_net = false;
      uses_monitoring_net = false;
    } in
    let done = write_services app private_net root ir.services start in
    record {
      version = codes "3.9";
      services = done.written;
      volumes = insert_all (volume_under root ir.name) ir.volumes [];
      networks = with_network done.uses_monitoring_net monitoring_net (
          with_network done.uses_traefik_net traefik_net
            ((private_net, record { driver = codes "overlay"; external = false }) ∷ []));
      secrets = insert_all external_secret ir.secrets [];
    }

-- `Write`, with the function that marshals the document.
unfoldable pub write {ℓ} : {E : Type ℓ} → (ComposeFile → Result E Text) → Text → Ir → Result E Text
unfolding compose_file
write marshal volume_root ir = marshal (compose_file volume_root ir)
