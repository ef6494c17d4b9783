-- ===== src/Deploy/Undeploy.antt =====
-- `Undeploy`: the stack's services, its volumes and secrets in the swarm, then its record.
pub mod Removal
use poor_man_stack.Base.{Text, codes, Option, none, some, List, [], ◌∷◌, ok, err}
use poor_man_stack.Store.Stacks.{get_stack, delete_stack}
use poor_man_stack.Workflow.{Step, run}
use poor_man_stack.Deploy.World.{
  Platform, World, Fault, load_failed, delete_record, docker_remove, collect_secrets,
  collect_volumes,
}

pub record UndeployState (platform : Platform) : Type 0 where
  pub volumes : List Text
  pub secret_names : List Text
  pub world : World platform

-- A loop of calls whose errors are ignored.
unfoldable pub each {ℓ} : {S : Type ℓ} → (Text → S → S) → List Text → S → S
each call [] s = s
each call (n ∷ ns) s = each call ns (call n s)

module _ (platform : Platform) (stack_name : Text) where
  open platform use {remove_stack, docker}

  -- "Collecting stack secrets and volumes".
  unfoldable pub collect_step : UndeployState platform → UndeployState platform × Option Fault
  collect_step d = elim docker [
    | none ↦ (d, none)
    | some client ↦ elim (client.stack_secret_names stack_name d.world.swarm) [
      | err e ↦ (d, some (collect_secrets e))
      | ok names ↦ elim (client.volume_list stack_name d.world.swarm) [
        | err e ↦ (d, some (collect_volumes e))
        | ok volumes ↦ (record d { volumes = volumes; secret_names = names }, none)
      ]
    ]
  ]

  unfoldable pub clean_up : UndeployState platform → platform.Swarm → platform.Swarm
  clean_up d swarm = elim docker [
    | none ↦ swarm
    | some client ↦
        each client.secret_remove d.secret_names (each client.volume_remove d.volumes swarm)
  ]

  -- "Removing stack services and swarm assets".
  unfoldable pub remove_step : UndeployState platform → UndeployState platform × Option Fault
  unfolding clean_up
  remove_step d =
      let (swarm, failed) = remove_stack stack_name d.world.swarm in
      elim failed [
        | some e ↦ (record d { world = record d.world { swarm = swarm } }, some (docker_remove e))
        | none ↦ (record d { world = record d.world { swarm = clean_up d swarm } }, none)
      ]

  -- "Deleting stack record".
  unfoldable pub delete_step : UndeployState platform → UndeployState platform × Option Fault
  delete_step d =
      let (tables, result) = delete_stack stack_name d.world.tables in
      elim result [
        | err e ↦ (record d { world = record d.world { tables = tables } }, some (delete_record e))
        | ok _ ↦ (record d { world = record d.world { tables = tables } }, none)
      ]

  unfoldable pub undeploy_steps : List (Step (UndeployState platform) Fault)
  undeploy_steps =
      record { name = codes "Collecting stack secrets and volumes"; run = collect_step }
      ∷ record { name = codes "Removing stack services and swarm assets"; run = remove_step }
      ∷ record { name = codes "Deleting stack record"; run = delete_step }
      ∷ []

  unfoldable pub undeploy : World platform → World platform × Option Fault
  undeploy w =
      let o = run undeploy_steps (record { volumes = []; secret_names = []; world = w }) in
      elim (get_stack stack_name w.tables) [
        | err e ↦ (w, some (load_failed e))
        | ok _ ↦ (o.state.world, elim o.failure [ none ↦ none | some f ↦ some f.cause ])
      ]
