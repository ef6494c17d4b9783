-- ===== src/Deploy/Rollback/Restoring.antt =====
-- What a rollback leaves behind, however it ends.
use poor_man_stack.Base.{
  ℕ, Text, true, ◌≡◌, refl, subst, ◌∙◌, ◌≢◌, ◌⊎◌, inl, inr, Option, none, some, [], Result, ok, err,
  Result-cases, arith,
}
use poor_man_stack.Base.Rows.{find}
use poor_man_stack.Store.Stacks.{
  Tables, StackRow, StackRevision, is_revision, get_stack, get_revision, next_free_revision,
  record_deploy,
}
use poor_man_stack.Store.Stacks.FreeRevision.{next_free_revision-fresh}
use poor_man_stack.Store.Stacks.Recording.{record_deploy-reads}
use poor_man_stack.Workflow.{Failure, run}
use poor_man_stack.Workflow.Rule.{Leaves, Leaves-run_cons, Leaves-run-nil}
use poor_man_stack.Deploy.World.{Deployed, Platform, Compiler, World, Fault}
use poor_man_stack.Deploy.Rollback.{
  RollbackState, no_row, load_step, rollback_row, rollback_record_step, redeploy_step,
  rollback_steps, rollback,
}

module _ (platform : Platform) (compiler : Compiler) (now : ℕ) (name : Text) (source : ℕ)
    (w : World platform) where
  -- The stack points at a new revision, under a number that was free, with what the source holds.
  pub record IsRestored (row : StackRevision) (after : Tables) (revision : ℕ) : Type 0 where
    pub from : get_revision name source w.tables ≡ ok row
    pub fresh : find (is_revision name revision) w.tables.revisions ≡ none
    pub copy : StackRevision
    pub stored : get_revision name revision after ≡ ok copy
    pub same_source : copy.source_yaml ≡ row.source_yaml
    pub same_text : copy.rendered_yaml ≡ row.rendered_yaml
    pub same_hash : copy.rendered_hash ≡ row.rendered_hash
    pub stack : StackRow
    pub there : get_stack name after ≡ ok stack
    pub points : stack.current_revision ≡ revision

  abbrev initial : RollbackState platform
  initial = record { row = no_row; revision = 0; world = w }

  load_step-failed :
      (d t : RollbackState platform) {f : Fault}
      → load_step platform compiler now name source d ≡ (t, some f)
      → t.world ≡ d.world
  unfolding load_step
  load_step-failed d t e = ground arith

  load_step-loaded :
      (d t : RollbackState platform)
      → load_step platform compiler now name source d ≡ (t, none)
      → (t.world ≡ d.world) × (get_revision name source d.world.tables ≡ ok t.row)
  unfolding load_step
  load_step-loaded d t e = (ground arith, ground arith)

  record_step-failed :
      (d t : RollbackState platform) {f : Fault}
      → rollback_record_step platform compiler now name source d ≡ (t, some f)
      → t.world ≡ d.world
  unfolding rollback_record_step
  record_step-failed d t e = ground arith

  record_step-IsRestored :
      (d t : RollbackState platform)
      → d.world ≡ w
      → get_revision name source w.tables ≡ ok d.row
      → rollback_record_step platform compiler now name source d ≡ (t, none)
      → IsRestored t.row t.world.tables t.revision
  unfolding rollback_record_step rollback_row
  record_step-IsRestored d t here from e =
      elim (Result-cases (next_free_revision name now d.world.tables)) [
        | inr (fault, failed) ↦ absurd (ground arith)
        | inl (next, assigned) ↦
            let row = rollback_row platform compiler now name source d.row next in
            elim (Result-cases (record_deploy now row [] d.world.tables)) [
              | inr (fault, failed) ↦ absurd (ground arith)
              | inl (tables, done) ↦
                  let free = next_free_revision-fresh name now d.world.tables next assigned in
                  let (stack, there, points, stored) =
                    record_deploy-reads now row [] d.world.tables tables free done in
                  let same : record d {
                    revision = next;
                    world = record d.world { tables = tables };
                  }
                      ≡ t =
                    ground arith in
                  subst (λ (x : RollbackState platform). IsRestored x.row x.world.tables x.revision)
                    same
                    (record {
                      from = from;
                      fresh =
                          subst
                            (λ (x : World platform).
                              find (is_revision name next) x.tables.revisions ≡ none)
                            here free;
                      copy = record row { created_at = now };
                      stored = stored;
                      same_source = refl;
                      same_text = refl;
                      same_hash = refl;
                      stack = stack;
                      there = there;
                      points = points;
                    })
            ]
      ]

  redeploy_step-keeps :
      (d t : RollbackState platform) {x : Option Fault}
      → redeploy_step platform compiler now name source d ≡ (t, x)
      → (t.world.tables ≡ d.world.tables) × (t.row ≡ d.row) × (t.revision ≡ d.revision)
  unfolding redeploy_step
  redeploy_step-keeps d t e = ground arith

  abbrev NothingOrRestored : RollbackState platform → Option (Failure Fault) → Type 0
  NothingOrRestored d f = ((f ≢ none) × (d.world ≡ w)) ⊎ IsRestored d.row d.world.tables d.revision

  moved :
      (d t : RollbackState platform) {x : Option Fault}
      → IsRestored d.row d.world.tables d.revision
      → redeploy_step platform compiler now name source d ≡ (t, x)
      → IsRestored t.row t.world.tables t.revision
  moved d t r e =
      let (tables, row, revision) = redeploy_step-keeps d t e in rw (tables, row, revision) r

  rollback_steps-NothingOrRestored :
      Leaves NothingOrRestored (run (rollback_steps platform compiler now name source) initial)
  unfolding rollback_steps
  rollback_steps-NothingOrRestored =
      Leaves-run_cons NothingOrRestored _ _ _
        (λ d₁ e₁.
          let (h₁, from) = load_step-loaded initial d₁ e₁ in
          Leaves-run_cons NothingOrRestored _ _ d₁
            (λ d₂ e₂.
              let r = record_step-IsRestored d₁ d₂ h₁ from e₂ in
              Leaves-run_cons NothingOrRestored _ _ d₂
                (λ t e. Leaves-run-nil NothingOrRestored t (inr (moved d₂ t r e)))
                (λ t cause e. inr (moved d₂ t r e)))
            (λ t cause e. inl (λ x. cc x, record_step-failed d₁ t e ∙ h₁)))
        (λ t cause e. inl (λ x. cc x, load_step-failed initial t e))

  -- What `Rollback` leaves and returns: an error and nothing changed, or a restored revision, which
  -- a success names.
  pub IsRolledBack : World platform → Result Fault Deployed → Type 0
  IsRolledBack after result =
      (((f : Fault) × (result ≡ err f)) × (after ≡ w))
      ⊎ ((row : StackRevision) × (revision : ℕ) × IsRestored row after.tables revision
          × ((done : Deployed)
              → result ≡ ok done
              → done ≡ record {
                stack_name = name;
                revision = revision;
                rendered_yaml = row.rendered_yaml;
                changed = true;
              }))

  IsRolledBack-of_outcome :
      (d : RollbackState platform) (f : Option (Failure Fault))
      → NothingOrRestored d f
      → IsRolledBack d.world (elim f [
        | some x ↦ err x.cause
        | none ↦ ok (record {
          stack_name = name;
          revision = d.revision;
          rendered_yaml = d.row.rendered_yaml;
          changed = true;
        })
      ])
  unfolding IsRolledBack
  IsRolledBack-of_outcome d (some f) (inl (bad, same)) = inl ((f.cause, refl), same)
  IsRolledBack-of_outcome d none (inl (bad, same)) = absurd (bad refl)
  IsRolledBack-of_outcome d (some f) (inr r) =
      inr (d.row, d.revision, r, λ done e. absurd (ground arith))
  IsRolledBack-of_outcome d none (inr r) = inr (d.row, d.revision, r, λ done e. ground arith)

  -- However a rollback ends, it either returns an error and the tables, the swarm and the backups
  -- are as before; or the source revision exists, the stack points at a new revision, under a
  -- number that it never had, with the same manifest, rendered text and hash, and a success names
  -- that number and that text.
  pub rollback_lem :
      IsRolledBack
        (rollback platform compiler now name source w).0
        (rollback platform compiler now name source w).1
  unfolding rollback
  rollback_lem =
      let o = run (rollback_steps platform compiler now name source) initial in
      IsRolledBack-of_outcome o.state o.failure rollback_steps-NothingOrRestored
