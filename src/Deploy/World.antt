-- ===== src/Deploy/World.antt =====
-- What the steps act on, and what they call that is not part of the store.
use poor_man_stack.Base.{ℕ, Text, Bool, Option, List, Result}
use poor_man_stack.Manifest.Dsl.{App}
use poor_man_stack.Store.Configs.{ConfigTables}
use poor_man_stack.Store.Stacks.{Tables, StackError}
use poor_man_stack.Store.Backups.{Backup}

pub record Payload : Type 0 where
  pub app_name : Text
  pub repo_url : Text
  pub file : Text
  pub version : Text
  pub manifest : Text

-- The `Result` of a deploy, a sync or a rollback.
pub record Deployed : Type 0 where
  pub stack_name : Text
  pub revision : ℕ
  pub rendered_yaml : Text
  pub changed : Bool

-- The clean-up calls on the Docker API, for a service that has a client.
pub record DockerClient (Swarm : Type 0) : Type 0 where
  pub stack_secret_names : Text → Swarm → Result Text (List Text)
  pub volume_list : Text → Swarm → Result Text (List Text)
  pub volume_remove : Text → Swarm → Swarm
  pub secret_remove : Text → Swarm → Swarm

-- A call gives the swarm behind it, and the error if it failed.
pub record Platform : Type 1 where
  pub Swarm : Type 0
  pub deploy_stack : Text → Text → Swarm → Swarm × Option Text
  pub remove_stack : Text → Swarm → Swarm × Option Text
  pub prune_stale_containers : Text → Swarm → Swarm
  pub docker : Option (DockerClient Swarm)
  -- The archive paths, beside the error.
  pub backup : Option (Swarm → Swarm × List Text × Option Text)

-- The stages of `pmcluster/internal/manifest` as the deploy calls them, with the renderings of JSON
-- and the hash.
pub record Compiler : Type 0 where
  pub parse : Text → Result Text App
  pub interpolate : App → Result Text App
  pub validate : App → Result Text (Unit {0})
  pub translate : ConfigTables → App → Result Text Text
  pub sha : Text → Text
  pub marshal_payload : Payload → List Text → Text
  pub marshal_rollback : ℕ → Option Text → Text

pub record World (platform : Platform) : Type 0 where
  pub tables : Tables
  pub backups : List Backup
  pub swarm : platform.Swarm

pub data BackupFault : Type 0 where
  no_trigger : BackupFault
  trigger_failed : Text → BackupFault

pub data Fault : Type 0 where
  manifest_required no_revisions : Fault
  parse_manifest interpolate_failed validate_failed translate_failed : Text → Fault
  assign_revision record_failed load_failed delete_record : StackError → Fault
  backup_failed : BackupFault → Fault
  docker_deploy docker_remove collect_secrets collect_volumes : Text → Fault
