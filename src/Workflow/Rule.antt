-- ===== src/Workflow/Rule.antt =====
-- A rule for a statement about what a run leaves, one step at a time.
use poor_man_stack.Base.{Option, none, some, List, [], ◌∷◌, ◌≡◌, refl, sym, subst}
use poor_man_stack.Workflow.{Step, Failure, Outcome, run}
use poor_man_stack.Workflow.Runs.{run_cons, run_stop}

module _ {ℓ κ μ} {S : Type ℓ} {E : Type κ} (Q : S → Option (Failure E) → Type μ) where
  abbrev pub Leaves : Outcome S E → Type μ
  Leaves o = Q o.state o.failure

  pub Leaves-run_cons :
      (p : Step S E) (steps : List (Step S E)) (s : S)
      → ((t : S) → p.run s ≡ (t, none) → Leaves (run steps t))
      → ((t : S) (cause : E)
          → p.run s ≡ (t, some cause)
          → Q t (some (record { step = p.name; cause = cause })))
      → Leaves (run (p ∷ steps) s)
  Leaves-run_cons p steps s goes stops = split (p.run s) refl
    where
      split : (r : S × Option E) → p.run s ≡ r → Leaves (run (p ∷ steps) s)
      split (t, none) e = subst Leaves (sym (run_cons p steps s t e)) (goes t e)
      split (t, some cause) e = subst Leaves (sym (run_stop p steps s t cause e)) (stops t cause e)

  pub Leaves-run-nil : (s : S) → Q s none → Leaves (run [] s)
  unfolding run
  Leaves-run-nil s q = q
