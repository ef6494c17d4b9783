-- ===== src/Deploy/Pipeline.antt =====
-- `Deploy`, `Sync` and `runPreDeployBackup`.
use poor_man_stack.Base.{
  ℕ, Text, codes, ◌==◌, text_eq, true, false, not, ◌&&◌, Option, none, some, List, [], ◌∷◌, ◌++◌,
  Result, ok, err, ◌>>=◌, ◌>>◌, if◌then◌else◌,
}
use poor_man_stack.Manifest.Dsl.{App}
use poor_man_stack.Store.Backups.{create_backup, finish_backup}
use poor_man_stack.Store.Stacks.{StackRevision, next_free_revision, record_deploy, list_revisions}
use poor_man_stack.Workflow.{Step, step_names, run}
use poor_man_stack.Deploy.World.{
  Payload, Deployed, Platform, Compiler, World, BackupFault, no_trigger, trigger_failed, Fault,
  manifest_required, no_revisions, parse_manifest, interpolate_failed, validate_failed,
  translate_failed, assign_revision, record_failed, backup_failed, docker_deploy,
}

-- The variables that the steps of `Deploy` share.
pub record DeployState (platform : Platform) : Type 0 where
  pub app : App
  pub rendered : Text
  pub revision : ℕ
  pub world : World platform

-- `app` before it is assigned; no step reads it then.
abbrev pub no_app : App
no_app = record {
  name = [];
  env = [];
  domain = [];
  version = [];
  registry = [];
  repo_url = [];
  env_file = [];
  secrets = [];
  services = [];
  backup_before_deploy = false;
  strict_backup = false;
}

-- `strings.Join(paths, ",")`.
unfoldable pub join_paths : List Text → Text
join_paths [] = []
join_paths (p ∷ []) = p
join_paths (p ∷ q ∷ ps) = p ++ b',' ∷ join_paths (q ∷ ps)

-- What the payload overrides in the parsed manifest.
unfoldable pub override : Payload → App → App
override p app =
    let app' = if p.app_name == [] then app else record app { name = p.app_name } in
    if p.version == [] then app' else record app' { version = p.version }

-- An error of a stage, under the name that the step gives it.
abbrev pub wrap {ℓ} : {A : Type ℓ} → (Text → Fault) → Result Text A → Result Fault A
wrap name (ok a) = ok a
wrap name (err e) = err (name e)

module _ (platform : Platform) (compiler : Compiler) (now : ℕ) where
  open platform use {deploy_stack, prune_stale_containers, backup}
  open compiler use {parse, interpolate, validate, translate, sha, marshal_payload}

  unfoldable pub pre_deploy_backup : Text → ℕ → World platform → World platform × Option BackupFault
  pre_deploy_backup stack_name revision w =
      let (id, rows) = create_backup now stack_name revision w.backups in
      elim backup [
        | none ↦ (
          record w {
            backups =
                finish_backup now id (codes "failed") []
                  (codes "no BackupTrigger configured (stacks.Service.Backup is nil)") rows;
          },
          some no_trigger,
        )
        | some trigger ↦
            let (swarm, paths, failed) = trigger w.swarm in
            elim failed [
              | some e ↦ (
                record w {
                  backups = finish_backup now id (codes "failed") (join_paths paths) e rows;
                  swarm = swarm;
                },
                some (trigger_failed e),
              )
              | none ↦ (
                record w {
                  backups = finish_backup now id (codes "succeeded") (join_paths paths) [] rows;
                  swarm = swarm;
                },
                none,
              )
            ]
      ]

  -- "Parsing manifest (DSL)".
  unfoldable pub parse_step : Payload → DeployState platform → DeployState platform × Option Fault
  parse_step p d = elim (parse p.manifest) [
    | err e ↦ (d, some (parse_manifest e))
    | ok parsed ↦ (record d { app = override p parsed }, none)
  ]

  -- "Interpolating and validating manifest".
  unfoldable pub validate_step : DeployState platform → DeployState platform × Option Fault
  validate_step d = elim (interpolate d.app) [
    | err e ↦ (d, some (interpolate_failed e))
    | ok app ↦ elim (validate app) [
      | err e ↦ (record d { app = app }, some (validate_failed e))
      | ok _ ↦ (record d { app = app }, none)
    ]
  ]

  -- "Translating to Compose (resolving configs/secrets)".
  unfoldable pub translate_step : DeployState platform → DeployState platform × Option Fault
  translate_step d = elim (translate d.world.tables.configs d.app) [
    | err e ↦ (d, some (translate_failed e))
    | ok y ↦ (record d { rendered = y }, none)
  ]

  -- The revision that `Deploy` records.
  unfoldable pub revision_row : Payload → List Text → App → Text → ℕ → StackRevision
  revision_row p steps app rendered revision = record {
    stack_name = app.name;
    revision = revision;
    source_yaml = p.manifest;
    rendered_yaml = rendered;
    rendered_hash = sha rendered;
    source_file = p.file;
    payload_json = some (marshal_payload p steps);
    created_at = 0;
  }

  -- "Recording revision".
  unfoldable pub record_step :
      Payload → List Text → DeployState platform → DeployState platform × Option Fault
  record_step p steps d = elim (next_free_revision d.app.name now d.world.tables) [
    | err e ↦ (d, some (assign_revision e))
    | ok next ↦
        elim (record_deploy now (revision_row p steps d.app d.rendered next) p.repo_url
          d.world.tables) [
            | err e ↦ (record d { revision = next }, some (record_failed e))
            | ok tables ↦
                (record d { revision = next; world = record d.world { tables = tables } }, none)
          ]
  ]

  -- The call of Docker, and the clean-up whose error is ignored.
  unfoldable pub deploy_now : DeployState platform → DeployState platform × Option Fault
  deploy_now d =
      let (swarm, failed) = deploy_stack d.app.name d.rendered d.world.swarm in
      elim failed [
        | some e ↦ (record d { world = record d.world { swarm = swarm } }, some (docker_deploy e))
        | none ↦ (
          record d { world = record d.world { swarm = prune_stale_containers d.app.name swarm } },
          none,
        )
      ]

  -- `if app.BackupBeforeDeploy { … }` behind the backup: a failure counts under `StrictBackup`.
  unfoldable pub after_backup :
      DeployState platform
      → World platform × Option BackupFault
      → DeployState platform × Option Fault
  after_backup d (w, none) = deploy_now (record d { world = w })
  after_backup d (w, some fault) =
      if d.app.strict_backup
      then (record d { world = w }, some (backup_failed fault))
      else deploy_now (record d { world = w })

  -- "Deploying stack to the swarm".
  unfoldable pub deploy_step : DeployState platform → DeployState platform × Option Fault
  unfolding after_backup
  deploy_step d =
      if d.app.backup_before_deploy
      then after_backup d (pre_deploy_backup d.app.name d.revision d.world)
      else deploy_now d

  unfoldable pub deploy_steps : Payload → List Text → List (Step (DeployState platform) Fault)
  deploy_steps p steps =
      record { name = codes "Parsing manifest (DSL)"; run = parse_step p }
      ∷ record { name = codes "Interpolating and validating manifest"; run = validate_step }
      ∷ record {
        name = codes "Translating to Compose (resolving configs/secrets)";
        run = translate_step;
      }
      ∷ record { name = codes "Recording revision"; run = record_step p steps }
      ∷ record { name = codes "Deploying stack to the swarm"; run = deploy_step }
      ∷ []

  unfoldable pub start : World platform → DeployState platform
  start w = record { app = no_app; rendered = []; revision = 0; world = w }

  unfoldable pub deploy : Payload → World platform → World platform × Result Fault Deployed
  unfolding start
  deploy p w =
      let o = run (deploy_steps p (step_names (deploy_steps p []))) (start w) in
      if p.manifest == [] then (w, err manifest_required) else (
        o.state.world,
        elim o.failure [
          | some f ↦ err f.cause
          | none ↦ ok (record {
            stack_name = o.state.app.name;
            revision = o.state.revision;
            rendered_yaml = o.state.rendered;
            changed = true;
          })
        ],
      )

  -- What `Sync` renders from the stored source.
  unfoldable pub retranslate : Text → Text → World platform → Result Fault Text
  retranslate stack_name source w = do
    parsed ← wrap parse_manifest (parse source)
    app ← wrap interpolate_failed (interpolate (record parsed { name = stack_name }))
    wrap validate_failed (validate app)
    wrap translate_failed (translate w.tables.configs app)

  abbrev pub sync_payload : Text → Text → Payload
  sync_payload stack_name source = record {
    app_name = stack_name;
    repo_url = [];
    file = [];
    version = [];
    manifest = source;
  }

  -- With the latest revision at hand.
  unfoldable pub sync_from :
      Text → StackRevision → World platform → World platform × Result Fault Deployed
  sync_from stack_name latest w = elim (retranslate stack_name latest.source_yaml w) [
    | err _ ↦ deploy (sync_payload stack_name latest.source_yaml) w
    | ok rendered ↦
        if sha rendered == latest.rendered_hash && not (latest.rendered_hash == [])
        then (
          w,
          ok (record {
            stack_name = stack_name;
            revision = latest.revision;
            rendered_yaml = rendered;
            changed = false;
          }),
        )
        else deploy (sync_payload stack_name latest.source_yaml) w
  ]

  unfoldable pub sync : Text → World platform → World platform × Result Fault Deployed
  unfolding sync_from
  sync stack_name w = elim (list_revisions stack_name 1 w.tables) [
    | [] ↦ (w, err no_revisions)
    | latest ∷ _ ↦ sync_from stack_name latest w
  ]
