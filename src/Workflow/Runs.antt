-- ===== src/Workflow/Runs.antt =====
-- What a run does with the steps before a failure, and with those behind it.
use poor_man_stack.Base.{Option, none, some, List, [], ◌∷◌, ◌++◌, ◌≡◌, refl, inl, inr, ap, ◌⊎◌}
use poor_man_stack.Workflow.{Step, Outcome, step_names, run_step, run}

module _ {ℓ κ} {S : Type ℓ} {E : Type κ} where
  -- The states that steps without a failure lead through.
  pub data Succeeds : List (Step S E) → S → S → Type (ℓ ⊔ κ) where
    done : {s : S} → Succeeds [] s s
    then_ :
        {p : Step S E} {steps : List (Step S E)} {s t u : S}
        → p.run s ≡ (t, none)
        → Succeeds steps t u
        → Succeeds (p ∷ steps) s u

  -- A run that ends at the step `failing`, with nothing of `behind` done.
  pub record EndsAt (steps : List (Step S E)) (s : S) (o : Outcome S E) : Type (ℓ ⊔ κ) where
    pub before : List (Step S E)
    pub failing : Step S E
    pub behind : List (Step S E)
    pub reached : S
    pub cause : E
    pub parts : steps ≡ before ++ failing ∷ behind
    pub succeeded : Succeeds before s reached
    pub failed : failing.run reached ≡ (o.state, some cause)
    pub printed : o.printed ≡ step_names before ++ failing.name ∷ []
    pub reported : o.failure ≡ some (record { step = failing.name; cause = cause })

  pub record Completes (steps : List (Step S E)) (s : S) (o : Outcome S E) : Type (ℓ ⊔ κ) where
    pub succeeded : Succeeds steps s o.state
    pub printed : o.printed ≡ step_names steps
    pub silent : o.failure ≡ none

  pub run_cons :
      (p : Step S E) (steps : List (Step S E)) (s t : S)
      → p.run s ≡ (t, none)
      → run (p ∷ steps) s ≡ record {
        state = (run steps t).state;
        printed = p.name ∷ (run steps t).printed;
        failure = (run steps t).failure;
      }
  unfolding run
  run_cons p steps s t e = ap (λ r. run_step p r (run steps)) e

  pub run_stop :
      (p : Step S E) (steps : List (Step S E)) (s t : S) (cause : E)
      → p.run s ≡ (t, some cause)
      → run (p ∷ steps) s ≡ record {
        state = t;
        printed = p.name ∷ [];
        failure = some (record { step = p.name; cause = cause });
      }
  unfolding run
  run_stop p steps s t cause e = ap (λ r. run_step p r (run steps)) e

  -- A run either does every step in order and prints every name, or it stops at the first step
  -- that fails: the steps before it have been done, it has been printed last and is named in the
  -- error, and none of the steps behind it has been started.
  pub run_lem :
      (steps : List (Step S E)) (s : S)
      → Completes steps s (run steps s) ⊎ EndsAt steps s (run steps s)
  run_lem [] s =
      inl (unfold run step_names in record { succeeded = done; printed = refl; silent = refl })
  run_lem (p ∷ steps) s = go (run_lem steps) (p.run s) refl
    where
      go :
          ((t : S) → Completes steps t (run steps t) ⊎ EndsAt steps t (run steps t))
          → (r : S × Option E) → p.run s ≡ r
          → Completes (p ∷ steps) s (run (p ∷ steps) s) ⊎ EndsAt (p ∷ steps) s (run (p ∷ steps) s)
      go rest (t, some cause) e = inr (
          rw (run_stop p steps s t cause e) (
            unfold step_names in
            record {
              before = [];
              failing = p;
              behind = steps;
              reached = s;
              cause = cause;
              parts = refl;
              succeeded = done;
              failed = e;
              printed = refl;
              reported = refl;
            }))
      go rest (t, none) e = rw (run_cons p steps s t e) (elim (rest t) [
        | inl c ↦ inl (
            unfold step_names in
            record {
              succeeded = then_ e c.succeeded;
              printed = ap (◌∷◌ p.name) c.printed;
              silent = c.silent;
            })
        | inr f ↦ inr (
            unfold step_names in
            record {
              before = p ∷ f.before;
              failing = f.failing;
              behind = f.behind;
              reached = f.reached;
              cause = f.cause;
              parts = ap (◌∷◌ p) f.parts;
              succeeded = then_ e f.succeeded;
              failed = f.failed;
              printed = ap (◌∷◌ p.name) f.printed;
              reported = f.reported;
            })
      ])
