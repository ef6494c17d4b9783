-- ===== src/Manifest/Translate/Services.antt =====
-- The translation of a manifest that `Validate` has accepted.
use poor_man_stack.Base.{
  Text, ◌≡◌, inl, inr, refl, subst, Option, List, [], ok, each_map, each_map-Pairs, All, All-imp,
  Pairs, Pairs-imp, arith, Result-cases,
}
use poor_man_stack.Manifest.Dsl.{App, Service}
use poor_man_stack.Manifest.Ir.{Ir, IrService}
use poor_man_stack.Manifest.Validate.{validate, validate_env}
use poor_man_stack.Manifest.Validate.Values.{validate_env_iff}
use poor_man_stack.Manifest.Validate.Soundness.{IsEntry, validate-iff_IsApp}
use poor_man_stack.Manifest.Translate.{
  Resolver, resolve_value, resolve_entry, resolve_service_env, ir_service, translate_service,
  union_of, include_all, named_volumes, build_ir,
}
use poor_man_stack.Manifest.Translate.Resolving.{IsResolved, resolve_value-IsResolved}

-- Every variable of the service passes `validate_env`.
abbrev pub HasValidEnv : Text × Service → Type 0
HasValidEnv (name, s) = All (λ (e : Text × Text). validate_env s.secrets e.1 ≡ ok tt) s.env

pub validate-env : (app : App) → validate app ≡ ok tt → All HasValidEnv app.services
validate-env app valid =
    All-imp IsEntry HasValidEnv app.services
      (λ (name, s) (named, good).
        All-imp _ (λ (e : Text × Text). validate_env s.secrets e.1 ≡ ok tt) s.env
          (λ (k, v) h. (validate_env_iff s.secrets v).1 h) good.env)
      ((validate-iff_IsApp app).0 valid).services

-- The variable with its value resolved.
abbrev pub IsResolvedEntry : Option Resolver → List Text → Text × Text → Text × Text → Type 0
IsResolvedEntry resolver mounted (key, v) (k, value) =
    (k ≡ key) × IsResolved resolver mounted v value

resolve_entry-IsResolved :
    (resolver : Option Resolver) (service : Text) (mounted : List Text) (e r : Text × Text)
    → validate_env mounted e.1 ≡ ok tt
    → resolve_entry resolver service e ≡ ok r
    → IsResolvedEntry resolver mounted e r
resolve_entry-IsResolved resolver service mounted (key, v) (k, value) valid e =
    elim (Result-cases (resolve_value resolver v)) [
      | inr (bad, failed) ↦ absurd (unfold resolve_entry in ground arith)
      | inl (a, found) ↦
          let same : resolve_value resolver v ≡ ok value = unfold resolve_entry in ground arith in
          (
            unfold resolve_entry in ground arith,
            resolve_value-IsResolved resolver mounted v value valid same,
          )
    ]

-- What the translation of a service keeps and resolves.
pub record IsTranslated (resolver : Option Resolver) (e : Text × Service) (t : IrService)
    : Type 0 where
  pub name : t.name ≡ e.0
  pub secrets : t.secrets ≡ e.1.secrets
  pub volumes : t.volumes ≡ e.1.volumes
  pub env : Pairs (IsResolvedEntry resolver e.1.secrets) e.1.env t.env

pub translate_service-eq-ok :
    (resolver : Option Resolver) (name : Text) (s : Service) (t : IrService)
    → translate_service resolver (name, s) ≡ ok t
    → (env : List (Text × Text)) × (resolve_service_env resolver name s.env ≡ ok env)
      × (ir_service name s env ≡ t)
translate_service-eq-ok resolver name s t e =
    elim (Result-cases (resolve_service_env resolver name s.env)) [
      | inr (bad, failed) ↦ absurd (unfold translate_service in ground arith)
      | inl (env, found) ↦ (env, found, unfold translate_service in ground arith)
    ]

translate_service-IsTranslated :
    (resolver : Option Resolver) (e : Text × Service) (t : IrService)
    → HasValidEnv e
    → translate_service resolver e ≡ ok t
    → IsTranslated resolver e t
translate_service-IsTranslated resolver (name, s) t valid h =
    let (env, found, same) = translate_service-eq-ok resolver name s t h in
    subst (IsTranslated resolver (name, s)) same (
      unfold ir_service in
      record {
        name = refl;
        secrets = refl;
        volumes = refl;
        env =
            Pairs-imp _ _ (IsResolvedEntry resolver s.secrets) s.env env
              (λ x y. resolve_entry-IsResolved resolver name s.secrets x y) valid
              (each_map-Pairs (resolve_entry resolver name) s.env env
                (unfold resolve_service_env in found));
      })

abbrev pub ir_of : App → List IrService → Ir
ir_of app services = record {
  name = app.name;
  env = app.env;
  version = app.version;
  services = services;
  volumes = union_of (λ (s : Service). named_volumes s.volumes) app.services [];
  secrets = include_all app.secrets (union_of (λ (s : Service). s.secrets) app.services []);
}

pub build_ir-eq-ok :
    (resolver : Option Resolver) (app : App) (ir : Ir)
    → build_ir resolver app ≡ ok ir
    → (each_map (translate_service resolver) app.services ≡ ok ir.services)
      × (ir_of app ir.services ≡ ir)
build_ir-eq-ok resolver app ir e =
    elim (Result-cases (each_map (translate_service resolver) app.services)) [
      | inr (bad, failed) ↦ absurd (unfold build_ir in ground arith)
      | inl (services, found) ↦
          let same : ir_of app services ≡ ir = unfold build_ir in ground arith in
          subst
            (λ (r : Ir).
              (each_map (translate_service resolver) app.services ≡ ok r.services)
              × (ir_of app r.services ≡ r))
            same (found, refl)
    ]

-- The services of a valid manifest are translated one by one, in their order, with the same names,
-- secrets and volumes; a variable keeps its value unless that is a reference, and then gets the
-- content of the config, which is one line, or the path of the secret, which the service mounts.
pub build_ir-IsTranslated :
    (resolver : Option Resolver) (app : App) (ir : Ir)
    → validate app ≡ ok tt
    → build_ir resolver app ≡ ok ir
    → Pairs (IsTranslated resolver) app.services ir.services
build_ir-IsTranslated resolver app ir valid e =
    Pairs-imp _ _ (IsTranslated resolver) app.services ir.services
      (λ x y. translate_service-IsTranslated resolver x y) (validate-env app valid)
      (each_map-Pairs (translate_service resolver) app.services ir.services
        (build_ir-eq-ok resolver app ir e).0)
