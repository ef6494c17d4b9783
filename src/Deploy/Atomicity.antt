-- ===== src/Deploy/Atomicity.antt =====
-- What a deploy leaves behind, however it ends.
use poor_man_stack.Base.{
  Result-cases, ℕ, Text, text_eq, ◌==◌, true, false, ◌≡◌, refl, sym, subst, ◌∙◌, ◌≢◌, ◌⊎◌, inl, inr,
  Option, none, some, List, [], ◌∷◌, Result, ok, err, arith, Bool-cases,
}
use poor_man_stack.Base.Rows.{find}
use poor_man_stack.Store.Stacks.{
  Tables, StackRow, StackRevision, is_revision, get_stack, get_revision, next_free_revision,
  record_deploy,
}
use poor_man_stack.Store.Stacks.FreeRevision.{next_free_revision-fresh}
use poor_man_stack.Store.Stacks.Recording.{record_deploy-reads}
use poor_man_stack.Workflow.{Failure, step_names, run}
use poor_man_stack.Workflow.Rule.{Leaves, Leaves-run_cons, Leaves-run-nil}
use poor_man_stack.Deploy.World.{
  Payload, Deployed, Platform, Compiler, World, Fault, manifest_required,
}
use poor_man_stack.Deploy.Pipeline.{
  DeployState, pre_deploy_backup, parse_step, validate_step, translate_step, revision_row,
  record_step, deploy_now, deploy_step, deploy_steps, start, deploy,
}

module _ (platform : Platform) (compiler : Compiler) (now : ℕ) where
  -- The revision is stored under an id that was free, with the source, the rendered text and its
  -- hash, and the stack points at it.
  pub record IsRecorded (p : Payload) (before after : Tables) (name : Text) (revision : ℕ)
      (rendered : Text) : Type 0 where
    pub fresh : find (is_revision name revision) before.revisions ≡ none
    pub row : StackRevision
    pub stored : get_revision name revision after ≡ ok row
    pub source : row.source_yaml ≡ p.manifest
    pub kept : row.rendered_yaml ≡ rendered
    pub hashed : row.rendered_hash ≡ compiler.sha rendered
    pub stack : StackRow
    pub there : get_stack name after ≡ ok stack
    pub points : stack.current_revision ≡ revision

  pub parse_step-world :
      (p : Payload) (d t : DeployState platform) {x : Option Fault}
      → parse_step platform compiler now p d ≡ (t, x)
      → t.world ≡ d.world
  unfolding parse_step
  parse_step-world p d t e = ground arith

  pub validate_step-world :
      (d t : DeployState platform) {x : Option Fault}
      → validate_step platform compiler now d ≡ (t, x)
      → t.world ≡ d.world
  unfolding validate_step
  validate_step-world d t e = ground arith

  pub translate_step-world :
      (d t : DeployState platform) {x : Option Fault}
      → translate_step platform compiler now d ≡ (t, x)
      → t.world ≡ d.world
  unfolding translate_step
  translate_step-world d t e = ground arith

  record_step-failed :
      (p : Payload) (steps : List Text) (d t : DeployState platform) {f : Fault}
      → record_step platform compiler now p steps d ≡ (t, some f)
      → t.world ≡ d.world
  unfolding record_step
  record_step-failed p steps d t e = ground arith

  record_step-IsRecorded :
      (p : Payload) (steps : List Text) (d t : DeployState platform)
      → record_step platform compiler now p steps d ≡ (t, none)
      → IsRecorded p d.world.tables t.world.tables t.app.name t.revision t.rendered
  unfolding record_step revision_row
  record_step-IsRecorded p steps d t e =
      elim (Result-cases (next_free_revision d.app.name now d.world.tables)) [
        | inr (fault, failed) ↦ absurd (ground arith)
        | inl (next, assigned) ↦
            let row = revision_row platform compiler now p steps d.app d.rendered next in
            elim (Result-cases (record_deploy now row p.repo_url d.world.tables)) [
              | inr (fault, failed) ↦ absurd (ground arith)
              | inl (tables, done) ↦
                  let (stack, there, points, stored) =
                    record_deploy-reads now row p.repo_url d.world.tables tables
                      (next_free_revision-fresh d.app.name now d.world.tables next assigned) done in
                  let same : record d {
                    revision = next;
                    world = record d.world { tables = tables };
                  }
                      ≡ t =
                    ground arith in
                  subst
                    (λ x.
                      IsRecorded p d.world.tables x.world.tables x.app.name x.revision x.rendered)
                    same
                    (record {
                      fresh = next_free_revision-fresh d.app.name now d.world.tables next assigned;
                      row = record row { created_at = now };
                      stored = stored;
                      source = refl;
                      kept = refl;
                      hashed = refl;
                      stack = stack;
                      there = there;
                      points = points;
                    })
            ]
      ]

  pub deploy_step-keeps :
      (d t : DeployState platform) {x : Option Fault}
      → deploy_step platform compiler now d ≡ (t, x)
      → (t.world.tables ≡ d.world.tables)
        × (t.app ≡ d.app)
        × (t.revision ≡ d.revision)
        × (t.rendered ≡ d.rendered)
  unfolding deploy_step deploy_now pre_deploy_backup
  deploy_step-keeps d t e = ground arith

  module _ (p : Payload) (w : World platform) where
    -- Either the run failed and changed nothing, or the revision is recorded.
    abbrev AllOrRecorded : DeployState platform → Option (Failure Fault) → Type 0
    AllOrRecorded d f =
        ((f ≢ none) × (d.world ≡ w))
        ⊎ IsRecorded p w.tables d.world.tables d.app.name d.revision d.rendered

    unchanged :
        (d t : DeployState platform) (f : Failure Fault)
        → t.world ≡ d.world
        → d.world ≡ w
        → AllOrRecorded t (some f)
    unchanged d t f same h = inl (λ e. cc e, same ∙ h)

    deploy_step-AllOrRecorded :
        (name : Text) (d : DeployState platform)
        → IsRecorded p w.tables d.world.tables d.app.name d.revision d.rendered
        → Leaves AllOrRecorded
            (run (record { name = name; run = deploy_step platform compiler now } ∷ []) d)
    deploy_step-AllOrRecorded name d r =
        Leaves-run_cons AllOrRecorded
          (record { name = name; run = deploy_step platform compiler now }) [] d
          (λ t e. Leaves-run-nil AllOrRecorded t (inr (moved t e))) (λ t cause e. inr (moved t e))
      where
        moved :
            (t : DeployState platform) {x : Option Fault}
            → deploy_step platform compiler now d ≡ (t, x)
            → IsRecorded p w.tables t.world.tables t.app.name t.revision t.rendered
        moved t e =
            let (tables, app, revision, rendered) = deploy_step-keeps d t e in
            rw (tables, app, revision, rendered) r

    deploy_steps-AllOrRecorded :
        (steps : List Text)
        → Leaves AllOrRecorded
            (run (deploy_steps platform compiler now p steps) (start platform compiler now w))
    unfolding deploy_steps start
    deploy_steps-AllOrRecorded steps =
        Leaves-run_cons AllOrRecorded _ _ _
          (λ d₁ e₁.
            let h₁ = parse_step-world p _ d₁ e₁ in
            Leaves-run_cons AllOrRecorded _ _ d₁
              (λ d₂ e₂.
                let h₂ = validate_step-world d₁ d₂ e₂ ∙ h₁ in
                Leaves-run_cons AllOrRecorded _ _ d₂
                  (λ d₃ e₃.
                    let h₃ = translate_step-world d₂ d₃ e₃ ∙ h₂ in
                    Leaves-run_cons AllOrRecorded _ _ d₃
                      (λ d₄ e₄. deploy_step-AllOrRecorded _ d₄ (
                        subst
                          (λ x.
                            IsRecorded p x.tables d₄.world.tables d₄.app.name d₄.revision
                              d₄.rendered)
                          h₃ (record_step-IsRecorded p steps d₃ d₄ e₄)))
                      (λ t cause e. unchanged d₃ t _ (record_step-failed p steps d₃ t e) h₃))
                  (λ t cause e. unchanged d₂ t _ (translate_step-world d₂ t e) h₂))
              (λ t cause e. unchanged d₁ t _ (validate_step-world d₁ t e) h₁))
          (λ t cause e.
            unchanged (start platform compiler now w) t _
              (parse_step-world p (start platform compiler now w) t e) refl)

    -- What `deploy` leaves and returns: an error and nothing changed, or a recorded revision, which
    -- a success names.
    pub IsDeployed : World platform → Result Fault Deployed → Type 0
    IsDeployed after result =
        (((f : Fault) × (result ≡ err f)) × (after ≡ w))
        ⊎ ((name : Text) × (revision : ℕ) × (rendered : Text) × IsRecorded p w.tables after.tables
              name revision rendered
            × ((done : Deployed)
                → result ≡ ok done
                → done ≡ record {
                  stack_name = name;
                  revision = revision;
                  rendered_yaml = rendered;
                  changed = true;
                }))

    IsDeployed-of_outcome :
        (d : DeployState platform) (f : Option (Failure Fault))
        → AllOrRecorded d f
        → IsDeployed d.world (elim f [
          | some x ↦ err x.cause
          | none ↦ ok (record {
            stack_name = d.app.name;
            revision = d.revision;
            rendered_yaml = d.rendered;
            changed = true;
          })
        ])
    unfolding IsDeployed
    IsDeployed-of_outcome d (some f) (inl (bad, same)) = inl ((f.cause, refl), same)
    IsDeployed-of_outcome d none (inl (bad, same)) = absurd (bad refl)
    IsDeployed-of_outcome d (some f) (inr r) =
        inr (d.app.name, d.revision, d.rendered, r, λ done e. absurd (ground arith))
    IsDeployed-of_outcome d none (inr r) =
        inr (d.app.name, d.revision, d.rendered, r, λ done e. ground arith)

    pub deploy-refused :
        (p.manifest == []) ≡ true → deploy platform compiler now p w ≡ (w, err manifest_required)
    unfolding deploy
    deploy-refused empty = rw empty

    pub deploy-goes :
        (p.manifest == []) ≡ false
        → let o =
            run
              (deploy_steps platform compiler now p
                (step_names (deploy_steps platform compiler now p [])))
              (start platform compiler now w) in
          deploy platform compiler now p w ≡ (
            o.state.world,
            elim o.failure [
              | some f ↦ err f.cause
              | none ↦ ok (record {
                stack_name = o.state.app.name;
                revision = o.state.revision;
                rendered_yaml = o.state.rendered;
                changed = true;
              })
            ],
          )
    unfolding deploy
    deploy-goes full = rw full

    -- Whatever fails, `Deploy` ends in one of two ways. Either it returns an error, and the tables,
    -- the swarm and the backups are as before. Or the stack table points at a new revision, under a
    -- number that the stack never had, that holds the manifest, the rendered text and its hash, and
    -- a success names that stack, that number and that text, with `changed` set.
    pub deploy_lem :
        IsDeployed (deploy platform compiler now p w).0 (deploy platform compiler now p w).1
    unfolding IsDeployed
    deploy_lem = elim (Bool-cases (p.manifest == [])) [
      | inl empty ↦
          subst (λ x. IsDeployed x.0 x.1) (sym (deploy-refused empty))
            (inl ((manifest_required, refl), refl))
      | inr full ↦
          let o =
            run
              (deploy_steps platform compiler now p
                (step_names (deploy_steps platform compiler now p [])))
              (start platform compiler now w) in
          subst (λ x. IsDeployed x.0 x.1) (sym (deploy-goes full))
            (IsDeployed-of_outcome o.state o.failure
              (deploy_steps-AllOrRecorded (step_names (deploy_steps platform compiler now p []))))
    ]
