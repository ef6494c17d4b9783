-- ===== src/Deploy/Published/Stages.antt =====
-- What a successful deploy has gone through, for any stages of the compiler.
use poor_man_stack.Base.{
  ℕ, Text, text_eq, ◌==◌, true, ◌≡◌, refl, sym, ap, subst, ◌∙◌, ◌≢◌, ◌⊎◌, inl, inr, Option, none,
  some, List, [], Result, ok, err, arith, Bool-cases, Result-cases,
}
use poor_man_stack.Manifest.Dsl.{App}
use poor_man_stack.Workflow.{Failure, step_names, run}
use poor_man_stack.Workflow.Rule.{Leaves, Leaves-run_cons, Leaves-run-nil}
use poor_man_stack.Deploy.World.{Payload, Deployed, Platform, Compiler, World, Fault}
use poor_man_stack.Deploy.Pipeline.{
  DeployState, override, parse_step, validate_step, translate_step, record_step, deploy_step,
  deploy_steps, start, deploy,
}
use poor_man_stack.Deploy.Atomicity.{
  parse_step-world, validate_step-world, deploy_step-keeps, deploy-refused, deploy-goes,
}

module _ (platform : Platform) (compiler : Compiler) (now : ℕ) where
  parse_step-parsed :
      (p : Payload) (d t : DeployState platform)
      → parse_step platform compiler now p d ≡ (t, none)
      → (parsed : App) × (compiler.parse p.manifest ≡ ok parsed) × (override p parsed ≡ t.app)
  unfolding parse_step
  parse_step-parsed p d t e = elim (Result-cases (compiler.parse p.manifest)) [
    | inr (bad, failed) ↦ absurd (ground arith)
    | inl (parsed, read) ↦ (parsed, read, ground arith)
  ]

  validate_step-valid :
      (d t : DeployState platform)
      → validate_step platform compiler now d ≡ (t, none)
      → (compiler.interpolate d.app ≡ ok t.app) × (compiler.validate t.app ≡ ok tt)
  unfolding validate_step
  validate_step-valid d t e = elim (Result-cases (compiler.interpolate d.app)) [
    | inr (bad, failed) ↦ absurd (ground arith)
    | inl (app, filled) ↦ elim (Result-cases (compiler.validate app)) [
      | inr (bad, failed) ↦ absurd (ground arith)
      | inl (tt, valid) ↦
          let same : app ≡ t.app = ground arith in
          (filled ∙ ap ok same, subst (λ a. compiler.validate a ≡ ok tt) same valid)
    ]
  ]

  translate_step-rendered :
      (d t : DeployState platform)
      → translate_step platform compiler now d ≡ (t, none)
      → (t.app ≡ d.app) × (compiler.translate d.world.tables.configs d.app ≡ ok t.rendered)
  unfolding translate_step
  translate_step-rendered d t e = ground arith

  record_step-keeps :
      (p : Payload) (steps : List Text) (d t : DeployState platform)
      → record_step platform compiler now p steps d ≡ (t, none)
      → (t.app ≡ d.app) × (t.rendered ≡ d.rendered)
  unfolding record_step
  record_step-keeps p steps d t e = ground arith

  module _ (p : Payload) (w : World platform) where
    -- The manifest of the payload, parsed, overridden and interpolated, is one that the stages
    -- accept and render to this text under this name.
    pub record IsPublished (name rendered : Text) : Type 0 where
      pub source : App
      pub parsed : compiler.parse p.manifest ≡ ok source
      pub app : App
      pub filled : compiler.interpolate (override p source) ≡ ok app
      pub named : app.name ≡ name
      pub valid : compiler.validate app ≡ ok tt
      pub translated : compiler.translate w.tables.configs app ≡ ok rendered

    abbrev FailedOrPublished : DeployState platform → Option (Failure Fault) → Type 0
    FailedOrPublished d f = (f ≢ none) ⊎ IsPublished d.app.name d.rendered

    failed : (t : DeployState platform) (f : Failure Fault) → FailedOrPublished t (some f)
    failed t f = inl (λ e. cc e)

    published :
        (d₁ d₂ d₃ d₄ d₅ : DeployState platform) (steps : List Text)
        → d₂.world ≡ w
        → (source : App) × (compiler.parse p.manifest ≡ ok source) × (override p source ≡ d₁.app)
        → (compiler.interpolate d₁.app ≡ ok d₂.app) × (compiler.validate d₂.app ≡ ok tt)
        → translate_step platform compiler now d₂ ≡ (d₃, none)
        → record_step platform compiler now p steps d₃ ≡ (d₄, none)
        → deploy_step platform compiler now d₄ ≡ (d₅, none)
        → IsPublished d₅.app.name d₅.rendered
    published d₁ d₂ d₃ d₄ d₅ steps same (source, parsed, overridden) (filled, valid) e₃ e₄ e₅ =
        let (app₃, translated) = translate_step-rendered d₂ d₃ e₃ in
        let (app₄, rendered₄) = record_step-keeps p steps d₃ d₄ e₄ in
        let (tables, app₅, revision, rendered₅) =
          deploy_step-keeps platform compiler now d₄ d₅ e₅ in
        record {
          source = source;
          parsed = parsed;
          filled = subst (λ a. compiler.interpolate a ≡ ok d₂.app) (sym overridden) filled;
          app = d₂.app;
          named = sym (ap (λ (a : App). a.name) (app₅ ∙ app₄ ∙ app₃));
          valid = valid;
          translated =
              subst
                (λ (x : World platform).
                  compiler.translate x.tables.configs d₂.app ≡ ok d₅.rendered)
                same (translated ∙ ap ok (sym (rendered₅ ∙ rendered₄)));
        }

    deploy_steps-FailedOrPublished :
        (steps : List Text)
        → Leaves FailedOrPublished
            (run (deploy_steps platform compiler now p steps) (start platform compiler now w))
    unfolding deploy_steps start
    deploy_steps-FailedOrPublished steps =
        Leaves-run_cons FailedOrPublished _ _ _
          (λ d₁ e₁.
            let h₁ = parse_step-world platform compiler now p _ d₁ e₁ in
            let parsed = parse_step-parsed p _ d₁ e₁ in
            Leaves-run_cons FailedOrPublished _ _ d₁
              (λ d₂ e₂.
                let h₂ = validate_step-world platform compiler now d₁ d₂ e₂ ∙ h₁ in
                let valid = validate_step-valid d₁ d₂ e₂ in
                Leaves-run_cons FailedOrPublished _ _ d₂
                  (λ d₃ e₃.
                    Leaves-run_cons FailedOrPublished _ _ d₃
                      (λ d₄ e₄.
                        Leaves-run_cons FailedOrPublished _ _ d₄
                          (λ d₅ e₅.
                            Leaves-run-nil FailedOrPublished d₅
                              (inr (published d₁ d₂ d₃ d₄ d₅ steps h₂ parsed valid e₃ e₄ e₅)))
                          (λ t cause e. failed t _))
                      (λ t cause e. failed t _))
                  (λ t cause e. failed t _))
              (λ t cause e. failed t _))
          (λ t cause e. failed t _)

    abbrev answer : DeployState platform → Option (Failure Fault) → Result Fault Deployed
    answer d f = elim f [
      | some x ↦ err x.cause
      | none ↦ ok (record {
        stack_name = d.app.name;
        revision = d.revision;
        rendered_yaml = d.rendered;
        changed = true;
      })
    ]

    outcome-IsPublished :
        (d : DeployState platform) (f : Option (Failure Fault)) (done : Deployed)
        → FailedOrPublished d f
        → answer d f ≡ ok done
        → IsPublished done.stack_name done.rendered_yaml
    outcome-IsPublished d (some f) done h e = absurd (ground arith)
    outcome-IsPublished d none done (inl bad) e = absurd (bad refl)
    outcome-IsPublished d none done (inr h) e =
        let same : record {
          stack_name = d.app.name;
          revision = d.revision;
          rendered_yaml = d.rendered;
          changed = true;
        }
            ≡ done =
          ground arith in
        subst (λ (x : Deployed). IsPublished x.stack_name x.rendered_yaml) same h

    pub deploy-IsPublished :
        (after : World platform) (done : Deployed)
        → deploy platform compiler now p w ≡ (after, ok done)
        → IsPublished done.stack_name done.rendered_yaml
    deploy-IsPublished after done e = elim (Bool-cases (p.manifest == [])) [
      | inl empty ↦
          let refused = deploy-refused platform compiler now p w empty in absurd (ground arith)
      | inr full ↦
          let o =
            run
              (deploy_steps platform compiler now p
                (step_names (deploy_steps platform compiler now p [])))
              (start platform compiler now w) in
          outcome-IsPublished o.state o.failure done
            (deploy_steps-FailedOrPublished (step_names (deploy_steps platform compiler now p [])))
            (ap (λ (r : World platform × Result Fault Deployed). r.1)
              (sym (deploy-goes platform compiler now p w full) ∙ e))
    ]
