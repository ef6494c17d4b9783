-- ===== src/Deploy/Published.antt =====
-- What text a successful deploy hands to the swarm.
pub mod Stages
use poor_man_stack.Base.{
  ℕ, Text, text_eq, ◌==◌, true, ◌≡◌, refl, sym, ap, subst, ◌∙◌, ◌≢◌, ◌⊎◌, inl, inr, Option, none,
  some, List, [], Result, ok, err, arith, Bool-cases, Result-cases, map_err, All, Pairs,
}
use poor_man_stack.Manifest.Dsl.{App}
use poor_man_stack.Manifest.Ir.{Ir}
use poor_man_stack.Manifest.Compose.{ComposeService}
use poor_man_stack.Manifest.Interpolate.{interpolate}
use poor_man_stack.Manifest.Validate.{validate}
use poor_man_stack.Manifest.Validate.Soundness.{IsApp, validate-iff_IsApp}
use poor_man_stack.Manifest.Translate.{Resolver, build_ir}
use poor_man_stack.Manifest.Writer.{write, compose_file}
use poor_man_stack.Manifest.Writer.Mounts.{IsAbsolute}
use poor_man_stack.Manifest.Writer.Closed.{IsClosed, compose_file-IsClosed}
use poor_man_stack.Workflow.{Failure, step_names, run}
use poor_man_stack.Workflow.Rule.{Leaves, Leaves-run_cons, Leaves-run-nil}
use poor_man_stack.Deploy.World.{Payload, Deployed, Platform, Compiler, World, Fault}
use poor_man_stack.Deploy.Pipeline.{
  DeployState, override, parse_step, validate_step, translate_step, record_step, deploy_step,
  deploy_steps, start, deploy,
}
use poor_man_stack.Deploy.Atomicity.{
  parse_step-world, validate_step-world, deploy_step-keeps, deploy-refused, deploy-goes,
}
use poor_man_stack.Store.Configs.{ConfigTables}
use poor_man_stack.Manifest.Translate.Services.{IsTranslated, build_ir-IsTranslated}
use poor_man_stack.Deploy.Toolchain.{Toolchain, resolve_stored, translate_ir, compiler_of}
use poor_man_stack.Deploy.Published.Stages.{IsPublished, deploy-IsPublished}

-- The resolver of config references in these tables.
abbrev pub stored_configs : Toolchain → ConfigTables → Option Resolver
stored_configs tools tables = some (resolve_stored tools.show_config (some tables))

-- The text is the document that is written for the manifest of this payload: parsed, with the name
-- and the version of the payload, and interpolated, it is valid and has this name; its references
-- are resolved, and its networks, secrets and named volumes are declared.
pub record IsCompiled (tools : Toolchain) (p : Payload) (tables : ConfigTables)
    (name rendered : Text) : Type 0 where
  pub source : App
  pub parsed : tools.parse p.manifest ≡ ok source
  pub app : App
  pub filled : interpolate tools.getenv tools.order (override p source) ≡ ok app
  pub ir : Ir
  pub named : app.name ≡ name
  pub valid : IsApp app
  pub built : build_ir (stored_configs tools tables) app ≡ ok ir
  pub resolved : Pairs (IsTranslated (stored_configs tools tables)) app.services ir.services
  pub marshalled : tools.marshal (compose_file tools.volume_root ir) ≡ ok rendered
  pub closed :
      All
        (λ (e : Text × ComposeService). IsClosed (compose_file tools.volume_root ir) e.1)
        (compose_file tools.volume_root ir).services

map_err-eq-ok {ℓ κ μ} :
    {E : Type ℓ} {F : Type κ} {A : Type μ} (f : E → F) (r : Result E A) (a : A)
    → map_err f r ≡ ok a
    → r ≡ ok a
map_err-eq-ok f (ok b) a e = ground arith
map_err-eq-ok f (err b) a e = absurd (ground arith)

translate_ir-eq-ok :
    (tools : Toolchain) (resolver : Option Resolver) (app : App) (rendered : Text)
    → translate_ir tools resolver app ≡ ok rendered
    → (ir : Ir) × (build_ir resolver app ≡ ok ir)
      × (tools.marshal (compose_file tools.volume_root ir) ≡ ok rendered)
unfolding translate_ir write
translate_ir-eq-ok tools resolver app rendered e = elim (Result-cases (build_ir resolver app)) [
  | inr (bad, failed) ↦ absurd (ground arith)
  | inl (ir, built) ↦ (ir, built, ground arith)
]

IsPublished-IsCompiled :
    (platform : Platform) (tools : Toolchain) (now : ℕ) (p : Payload) (w : World platform)
    (name rendered : Text)
    → ((tools.volume_root ≡ []) ⊎ IsAbsolute tools.volume_root)
    → IsPublished platform (compiler_of tools) now p w name rendered
    → IsCompiled tools p w.tables.configs name rendered
IsPublished-IsCompiled platform tools now p w name rendered abs h =
    let accepted =
      map_err-eq-ok tools.show_invalid (validate h.app) tt (unfold compiler_of in h.valid) in
    let resolver = stored_configs tools w.tables.configs in
    let (ir, built, marshalled) =
      translate_ir-eq-ok tools resolver h.app rendered (unfold compiler_of in h.translated) in
    record {
      source = h.source;
      parsed = unfold compiler_of in h.parsed;
      app = h.app;
      filled =
          map_err-eq-ok tools.show_interpolate
            (interpolate tools.getenv tools.order (override p h.source)) h.app
            (unfold compiler_of in h.filled);
      ir = ir;
      named = h.named;
      valid = (validate-iff_IsApp h.app).0 accepted;
      built = built;
      resolved = build_ir-IsTranslated resolver h.app ir accepted built;
      marshalled = marshalled;
      closed = compose_file-IsClosed resolver h.app ir tools.volume_root built abs;
    }

-- With the stages of the manifest compiler, a volume root that is not set or absolute, and a deploy
-- that succeeds: the manifest of the payload parses, and with the name and the version that the
-- payload sets it interpolates to an app that is valid and has the name of the stack; the text that
-- the deploy names is the document written for that app, every reference in its environments is
-- resolved against the configs that were stored when the deploy began and the secrets that its
-- services mount, and each network, secret and named volume of its services is declared in it.
pub deploy-IsCompiled :
    (platform : Platform) (tools : Toolchain) (now : ℕ) (p : Payload) (w after : World platform)
    (done : Deployed)
    → ((tools.volume_root ≡ []) ⊎ IsAbsolute tools.volume_root)
    → deploy platform (compiler_of tools) now p w ≡ (after, ok done)
    → IsCompiled tools p w.tables.configs done.stack_name done.rendered_yaml
deploy-IsCompiled platform tools now p w after done abs e =
    IsPublished-IsCompiled platform tools now p w done.stack_name done.rendered_yaml abs
      (deploy-IsPublished platform (compiler_of tools) now p w after done e)
