-- ===== src/Deploy/Rollback.antt =====
-- `Rollback`: a stored revision, applied again as a new one.
pub mod Restoring
use poor_man_stack.Base.{ℕ, Text, codes, true, Option, none, some, List, [], ◌∷◌, Result, ok, err}
use poor_man_stack.Store.Stacks.{StackRevision, next_free_revision, record_deploy, get_revision}
use poor_man_stack.Workflow.{Step, run}
use poor_man_stack.Deploy.World.{
  Deployed, Platform, Compiler, World, Fault, assign_revision, record_failed, load_failed,
  docker_deploy,
}

-- The variables that the steps share; `row` is nil before it is loaded, and no step reads it then.
pub record RollbackState (platform : Platform) : Type 0 where
  pub row : StackRevision
  pub revision : ℕ
  pub world : World platform

abbrev pub no_row : StackRevision
no_row = record {
  stack_name = [];
  revision = 0;
  source_yaml = [];
  rendered_yaml = [];
  rendered_hash = [];
  source_file = [];
  payload_json = none;
  created_at = 0;
}

module _ (platform : Platform) (compiler : Compiler) (now : ℕ) (stack_name : Text)
    (source : ℕ) where
  open platform use {deploy_stack}
  open compiler use {marshal_rollback}

  -- "Loading source revision".
  unfoldable pub load_step : RollbackState platform → RollbackState platform × Option Fault
  load_step d = elim (get_revision stack_name source d.world.tables) [
    | err e ↦ (d, some (load_failed e))
    | ok row ↦ (record d { row = row }, none)
  ]

  unfoldable pub rollback_row : StackRevision → ℕ → StackRevision
  rollback_row row revision = record {
    stack_name = stack_name;
    revision = revision;
    source_yaml = row.source_yaml;
    rendered_yaml = row.rendered_yaml;
    rendered_hash = row.rendered_hash;
    source_file = [];
    payload_json = some (marshal_rollback source row.payload_json);
    created_at = 0;
  }

  -- "Recording rollback revision".
  unfoldable pub rollback_record_step :
      RollbackState platform → RollbackState platform × Option Fault
  rollback_record_step d = elim (next_free_revision stack_name now d.world.tables) [
    | err e ↦ (d, some (assign_revision e))
    | ok next ↦ elim (record_deploy now (rollback_row d.row next) [] d.world.tables) [
      | err e ↦ (record d { revision = next }, some (record_failed e))
      | ok tables ↦ (record d { revision = next; world = record d.world { tables = tables } }, none)
    ]
  ]

  -- "Re-deploying stack from stored YAML".
  unfoldable pub redeploy_step : RollbackState platform → RollbackState platform × Option Fault
  redeploy_step d =
      let (swarm, failed) = deploy_stack stack_name d.row.rendered_yaml d.world.swarm in
      elim failed [
        | some e ↦ (record d { world = record d.world { swarm = swarm } }, some (docker_deploy e))
        | none ↦ (record d { world = record d.world { swarm = swarm } }, none)
      ]

  unfoldable pub rollback_steps : List (Step (RollbackState platform) Fault)
  rollback_steps =
      record { name = codes "Loading source revision"; run = load_step }
      ∷ record { name = codes "Recording rollback revision"; run = rollback_record_step }
      ∷ record { name = codes "Re-deploying stack from stored YAML"; run = redeploy_step }
      ∷ []

  unfoldable pub rollback : World platform → World platform × Result Fault Deployed
  rollback w =
      let o = run rollback_steps (record { row = no_row; revision = 0; world = w }) in
      (
        o.state.world,
        elim o.failure [
          | some f ↦ err f.cause
          | none ↦ ok (record {
            stack_name = stack_name;
            revision = o.state.revision;
            rendered_yaml = o.state.row.rendered_yaml;
            changed = true;
          })
        ],
      )
