-- ===== src/Tests/DeployRuns.antt =====
-- A deploy on a swarm that is the list of the stacks it was given, with a manifest that is a name.
use poor_man_stack.Base.{
  false, err, ℕ, ◌+◌, Text, codes, ◌==◌, text_eq, nat_eq, true, ◌≡◌, refl, ◌⊎◌, none, some, List,
  [], ◌∷◌, ok, leb, if◌then◌else◌,
}
use poor_man_stack.Base.Rows.{select, sort_desc, insert_desc, find, update}
use poor_man_stack.Store.Stacks.{
  stack_not_found, list_revisions, record_deploy, free_from, next_free_revision, insert_revision,
  insert_stack, point_stack, get_stack, get_revision,
}
use poor_man_stack.Workflow.{Step, run, step_names}
use poor_man_stack.Workflow.Runs.{Completes, EndsAt, run_lem}
use poor_man_stack.Deploy.World.{load_failed, Payload, Platform, Compiler, World}
use poor_man_stack.Deploy.Pipeline.{
  sync, sync_from, retranslate, no_app, deploy, parse_step, validate_step, translate_step,
  record_step, deploy_step, deploy_now, deploy_steps, start, override, pre_deploy_backup,
  after_backup, revision_row,
}
use poor_man_stack.Deploy.Rollback.{
  rollback, rollback_steps, load_step, rollback_record_step, rollback_row, redeploy_step,
}
use poor_man_stack.Deploy.Rollback.Restoring.{IsRolledBack, rollback_lem}
use poor_man_stack.Deploy.Undeploy.{undeploy}
use poor_man_stack.Deploy.Undeploy.Removal.{IsKeptOrGone, undeploy_lem}
use poor_man_stack.Deploy.Atomicity.{IsDeployed, deploy_lem}

abbrev pub swarm_of_names : Platform
swarm_of_names = record {
  Swarm = List Text;
  deploy_stack = λ name yaml swarm. (name ∷ swarm, none);
  remove_stack = λ name swarm. (swarm, none);
  prune_stale_containers = λ name swarm. swarm;
  docker = none;
  backup = none;
}

abbrev name_only : Compiler
name_only = record {
  parse = λ manifest. ok (record no_app { name = manifest });
  interpolate = λ app. ok app;
  validate = λ app. if app.name == [] then err (codes "name: required") else ok tt;
  translate = λ configs app. ok (codes "services:");
  sha = λ t. t;
  marshal_payload = λ p steps. [];
  marshal_rollback = λ source payload. [];
}

abbrev pub empty_world : World swarm_of_names
empty_world = record {
  tables = record {
    stacks = [];
    revisions = [];
    configs = record { configs = []; versions = [] };
    secrets = [];
  };
  backups = [];
  swarm = [];
}

abbrev payload : Payload
payload = record {
  app_name = codes "web";
  repo_url = codes "git@host:web";
  file = codes "stack.yml";
  version = [];
  manifest = codes "w";
}

unfoldable pub deploying : Unit {0}
unfolding rollback rollback_steps load_step rollback_record_step rollback_row redeploy_step sync
    sync_from retranslate list_revisions select sort_desc insert_desc deploy run step_names
    parse_step validate_step translate_step record_step deploy_step deploy_now deploy_steps start
    override pre_deploy_backup after_backup revision_row record_deploy free_from next_free_revision
    insert_revision insert_stack point_stack get_stack get_revision find update
deploying = tt

deploy_run :
    (deploy swarm_of_names name_only 100 payload empty_world).1
    ≡ ok (record {
      stack_name = codes "web";
      revision = 100;
      rendered_yaml = codes "services:";
      changed = true;
    })
unfolding deploying
deploy_run = refl

deploy_lem_example :
    IsDeployed swarm_of_names name_only 100 payload empty_world
      (deploy swarm_of_names name_only 100 payload empty_world).0
      (deploy swarm_of_names name_only 100 payload empty_world).1
deploy_lem_example = deploy_lem swarm_of_names name_only 100 payload empty_world

abbrev deployed_world : World swarm_of_names
deployed_world = (deploy swarm_of_names name_only 100 payload empty_world).0

-- A sync behind the deploy changes nothing.
sync_run : sync swarm_of_names name_only 200 (codes "web") deployed_world ≡ (
  deployed_world,
  ok (record {
    stack_name = codes "web";
    revision = 100;
    rendered_yaml = codes "services:";
    changed = false;
  }),
)
unfolding deploying
sync_run = refl

-- A rollback to the only revision.
rollback_lem_example :
    IsRolledBack swarm_of_names name_only 300
      (codes "web")
      100
      deployed_world
      (rollback swarm_of_names name_only 300 (codes "web") 100 deployed_world).0
      (rollback swarm_of_names name_only 300 (codes "web") 100 deployed_world).1
rollback_lem_example = rollback_lem swarm_of_names name_only 300 (codes "web") 100 deployed_world

rollback_run :
    (rollback swarm_of_names name_only 300 (codes "web") 100 deployed_world).1
    ≡ ok (record {
      stack_name = codes "web";
      revision = 300;
      rendered_yaml = codes "services:";
      changed = true;
    })
unfolding deploying
rollback_run = refl

undeploy_lem_example :
    ((get_stack (codes "web") deployed_world.tables ≡ err stack_not_found)
      × (undeploy swarm_of_names (codes "web") deployed_world
          ≡ (deployed_world, some (load_failed stack_not_found))))
    ⊎ IsKeptOrGone swarm_of_names
        (codes "web")
        deployed_world
        (undeploy swarm_of_names (codes "web") deployed_world)
undeploy_lem_example = undeploy_lem swarm_of_names (codes "web") deployed_world

-- A counter, and a step that fails at three.
abbrev count_up : Step ℕ Text
count_up = record {
  name = codes "count";
  run = λ n. (n + 1, if leb 3 n then some (codes "full") else none);
}

run_lem_example :
    Completes (count_up ∷ count_up ∷ count_up ∷ []) 2 (run (count_up ∷ count_up ∷ count_up ∷ []) 2)
    ⊎ EndsAt (count_up ∷ count_up ∷ count_up ∷ []) 2 (run (count_up ∷ count_up ∷ count_up ∷ []) 2)
run_lem_example = run_lem (count_up ∷ count_up ∷ count_up ∷ []) 2
