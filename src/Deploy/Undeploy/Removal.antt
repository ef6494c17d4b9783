-- ===== src/Deploy/Undeploy/Removal.antt =====
-- What an undeploy leaves of the tables, however it ends.
use poor_man_stack.Base.{
  Text, ◌≡◌, refl, sym, ap, subst, ◌∙◌, ◌≢◌, ◌⊎◌, inl, inr, Option, none, some, [], ok, err,
  Result-cases, arith,
}
use poor_man_stack.Store.Stacks.{StackRow, StackError, get_stack, delete_stack, stack_not_found}
use poor_man_stack.Store.Stacks.Deletion.{delete_stack_lem}
use poor_man_stack.Workflow.{Failure, run}
use poor_man_stack.Workflow.Rule.{Leaves, Leaves-run_cons, Leaves-run-nil}
use poor_man_stack.Deploy.World.{Platform, World, Fault, load_failed}
use poor_man_stack.Deploy.Undeploy.{
  UndeployState, collect_step, remove_step, delete_step, undeploy_steps, undeploy,
}

module _ (platform : Platform) (name : Text) (w : World platform) where
  abbrev initial : UndeployState platform
  initial = record { volumes = []; secret_names = []; world = w }

  collect_step-tables :
      (d t : UndeployState platform) {x : Option Fault}
      → collect_step platform name d ≡ (t, x)
      → t.world.tables ≡ d.world.tables
  unfolding collect_step
  collect_step-tables d t e = ground arith

  remove_step-tables :
      (d t : UndeployState platform) {x : Option Fault}
      → remove_step platform name d ≡ (t, x)
      → t.world.tables ≡ d.world.tables
  unfolding remove_step
  remove_step-tables d t e = ground arith

  delete_step-tables :
      (d t : UndeployState platform) {x : Option Fault}
      → delete_step platform name d ≡ (t, x)
      → t.world.tables ≡ (delete_stack name d.world.tables).0
  unfolding delete_step
  delete_step-tables d t e = ground arith

  delete_step-failed :
      (d t : UndeployState platform) {f : Fault}
      → delete_step platform name d ≡ (t, some f)
      → (delete_stack name d.world.tables).1 ≢ ok tt
  unfolding delete_step
  delete_step-failed d t e h = ground arith

  -- Either the run failed and the tables are as before, or the stack was deleted from them.
  abbrev KeptOrDeleted : UndeployState platform → Option (Failure Fault) → Type 0
  KeptOrDeleted d f =
      ((f ≢ none) × (d.world.tables ≡ w.tables))
      ⊎ ((f ≡ none) × (d.world.tables ≡ (delete_stack name w.tables).0))

  undeploy_steps-KeptOrDeleted :
      (delete_stack name w.tables).1 ≡ ok tt
      → Leaves KeptOrDeleted (run (undeploy_steps platform name) initial)
  unfolding undeploy_steps
  undeploy_steps-KeptOrDeleted deletes =
      Leaves-run_cons KeptOrDeleted _ _ _
        (λ d₁ e₁.
          let h₁ = collect_step-tables initial d₁ e₁ in
          Leaves-run_cons KeptOrDeleted _ _ d₁
            (λ d₂ e₂.
              let h₂ = remove_step-tables d₁ d₂ e₂ ∙ h₁ in
              Leaves-run_cons KeptOrDeleted _ _ d₂
                (λ t e.
                  Leaves-run-nil KeptOrDeleted t
                    (inr (refl, delete_step-tables d₂ t e ∙ ap (λ x. (delete_stack name x).0) h₂)))
                (λ t cause e.
                  absurd
                    (delete_step-failed d₂ t e (ap (λ x. (delete_stack name x).1) h₂ ∙ deletes))))
            (λ t cause e. inl (λ x. cc x, remove_step-tables d₁ t e ∙ h₁)))
        (λ t cause e. inl (λ x. cc x, collect_step-tables initial t e))

  abbrev pub IsKeptOrGone : World platform × Option Fault → Type 0
  IsKeptOrGone out =
      ((out.1 ≢ none) × (out.0.tables ≡ w.tables))
      ⊎ ((out.1 ≡ none)
          × (out.0.tables ≡ (delete_stack name w.tables).0)
          × (get_stack name out.0.tables ≡ err stack_not_found))

  IsKeptOrGone-of_outcome :
      (d : UndeployState platform) (f : Option (Failure Fault))
      → get_stack name (delete_stack name w.tables).0 ≡ err stack_not_found
      → KeptOrDeleted d f
      → IsKeptOrGone (d.world, elim f [ none ↦ none | some x ↦ some x.cause ])
  IsKeptOrGone-of_outcome d none gone (inl (bad, same)) = absurd (bad refl)
  IsKeptOrGone-of_outcome d (some x) gone (inl (bad, same)) = inl (λ e. cc e, same)
  IsKeptOrGone-of_outcome d none gone (inr (fine, same)) = inr (refl, same, rw same gone)
  IsKeptOrGone-of_outcome d (some x) gone (inr (fine, same)) = absurd (ground arith)

  get_stack-missing :
      (e : StackError)
      → get_stack name w.tables ≡ err e
      → get_stack name w.tables ≡ err stack_not_found
  unfolding get_stack
  get_stack-missing e h = ground arith

  undeploy-goes :
      (s : StackRow)
      → get_stack name w.tables ≡ ok s
      → let o = run (undeploy_steps platform name) initial in
        undeploy platform name w
        ≡ (o.state.world, elim o.failure [ none ↦ none | some f ↦ some f.cause ])
  unfolding undeploy
  undeploy-goes s there = rw (there, undeploy) refl

  -- An undeploy ends in one of three ways: the stack is unknown, the error says so and nothing at
  -- all changed; or it fails and the tables are as before; or it succeeds and the tables are those
  -- of a deletion of the stack, which is not found any more.
  pub undeploy_lem :
      ((get_stack name w.tables ≡ err stack_not_found)
        × (undeploy platform name w ≡ (w, some (load_failed stack_not_found))))
      ⊎ IsKeptOrGone (undeploy platform name w)
  undeploy_lem = elim (Result-cases (get_stack name w.tables)) [
    | inr (e, failed) ↦
        let missing = get_stack-missing e failed in
        inl (missing, unfold undeploy in rw (missing, undeploy) refl)
    | inl (s, there) ↦
        let (deletes, gone, _, _, _, _) = delete_stack_lem name w.tables s there in
        let o = run (undeploy_steps platform name) initial in
        inr (
          subst IsKeptOrGone (sym (undeploy-goes s there))
            (IsKeptOrGone-of_outcome o.state o.failure gone (undeploy_steps-KeptOrDeleted deletes)))
  ]
