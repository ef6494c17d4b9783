-- ===== src/Workflow.antt =====
-- `pmcluster/internal/workflow/workflow.go`. The variables that the closures of a run share, and
-- the world that they act on, are the state `S`; an error of type `E` ends the run.
pub mod Runs
pub mod Rule
use poor_man_stack.Base.{Text, Option, none, some, List, [], ◌∷◌, ◌++◌}

pub record Step {ℓ κ} (S : Type ℓ) (E : Type κ) : Type (ℓ ⊔ κ) where
  pub name : Text
  pub run : S → S × Option E

-- `fmt.Errorf("%s: %w", s.Name, err)`.
pub record Failure {κ} (E : Type κ) : Type κ where
  pub step : Text
  pub cause : E

-- What a run leaves: the state, the names that were printed, and the failure.
pub record Outcome {ℓ κ} (S : Type ℓ) (E : Type κ) : Type (ℓ ⊔ κ) where
  pub state : S
  pub printed : List Text
  pub failure : Option (Failure E)

module _ {ℓ κ} {S : Type ℓ} {E : Type κ} where
  unfoldable pub add : Text → (S → S × Option E) → List (Step S E) → List (Step S E)
  add name body steps = steps ++ record { name = name; run = body } ∷ []

  unfoldable pub step_names : List (Step S E) → List Text
  step_names [] = []
  step_names (s ∷ steps) = s.name ∷ step_names steps

  -- The body of the loop of `Run`, with what the rest of the steps would give.
  unfoldable pub run_step : Step S E → S × Option E → (S → Outcome S E) → Outcome S E
  run_step s (state, some cause) rest = record {
    state = state;
    printed = s.name ∷ [];
    failure = some (record { step = s.name; cause = cause });
  }
  run_step s (state, none) rest =
      let o = rest state in
      record { state = o.state; printed = s.name ∷ o.printed; failure = o.failure }

  unfoldable pub run : List (Step S E) → S → Outcome S E
  unfolding run_step
  run [] state = record { state = state; printed = []; failure = none }
  run (s ∷ steps) state = run_step s (s.run state) (run steps)
