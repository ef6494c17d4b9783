-- ===== src/Manifest/Translate/Totality.antt =====
-- When the translation of a valid manifest succeeds.
use poor_man_stack.Base.{
  Text, ◌≡◌, inl, inr, Option, List, ok, each_map-total_iff, All, All_iff, arith, Result-cases, ◌↔◌,
}
use poor_man_stack.Manifest.Dsl.{App, Service}
use poor_man_stack.Manifest.Ir.{Ir, IrService}
use poor_man_stack.Manifest.Validate.{validate, validate_env}
use poor_man_stack.Manifest.Translate.{
  Resolver, resolve_value, resolve_entry, resolve_service_env, ir_service, translate_service,
  build_ir,
}
use poor_man_stack.Manifest.Translate.Resolving.{IsResolvable, resolve_value-total_iff}
use poor_man_stack.Manifest.Translate.Services.{
  HasValidEnv, validate-env, translate_service-eq-ok, ir_of, build_ir-eq-ok,
}

resolve_entry-total_iff :
    (resolver : Option Resolver) (service : Text) (mounted : List Text) (e : Text × Text)
    → validate_env mounted e.1 ≡ ok tt
    → ((r : Text × Text) × (resolve_entry resolver service e ≡ ok r)) ↔ IsResolvable resolver e.1
resolve_entry-total_iff resolver service mounted (key, v) valid = (to, from)
  where
    to :
        ((r : Text × Text) × (resolve_entry resolver service (key, v) ≡ ok r))
        → IsResolvable resolver v
    to (r, e) = elim (Result-cases (resolve_value resolver v)) [
      | inr (bad, failed) ↦ absurd (unfold resolve_entry in ground arith)
      | inl (value, found) ↦ (resolve_value-total_iff resolver mounted v valid).0 (value, found)
    ]

    from :
        IsResolvable resolver v
        → (r : Text × Text) × (resolve_entry resolver service (key, v) ≡ ok r)
    from all =
        let (value, found) = (resolve_value-total_iff resolver mounted v valid).1 all in
        ((key, value), unfold resolve_entry in ground arith)

abbrev pub HasConfigs : Option Resolver → Text × Service → Type 0
HasConfigs resolver (name, s) = All (λ (e : Text × Text). IsResolvable resolver e.1) s.env

translate_service-total_iff :
    (resolver : Option Resolver) (e : Text × Service)
    → HasValidEnv e
    → ((t : IrService) × (translate_service resolver e ≡ ok t)) ↔ HasConfigs resolver e
translate_service-total_iff resolver (name, s) valid = (to, from)
  where
    each :
        All (λ e. (r : Text × Text) × (resolve_entry resolver name e ≡ ok r)) s.env
        ↔ HasConfigs resolver (name, s)
    each =
        All_iff _ _ (λ (e : Text × Text). IsResolvable resolver e.1) s.env
          (λ e. resolve_entry-total_iff resolver name s.secrets e) valid

    to :
        ((t : IrService) × (translate_service resolver (name, s) ≡ ok t))
        → HasConfigs resolver (name, s)
    to (t, e) =
        let (env, found, same) = translate_service-eq-ok resolver name s t e in
        each.0 (
          (each_map-total_iff (resolve_entry resolver name) s.env).0
            (env, (unfold resolve_service_env in found)))

    from :
        HasConfigs resolver (name, s)
        → (t : IrService) × (translate_service resolver (name, s) ≡ ok t)
    from all =
        let (env, e) = (each_map-total_iff (resolve_entry resolver name) s.env).1 (each.1 all) in
        let found : resolve_service_env resolver name s.env ≡ ok env =
          unfold resolve_service_env in e in
        (ir_service name s env, unfold translate_service in ground arith)

-- A valid manifest is translated exactly when every config that a variable of a service refers to is
-- known to a resolver that is there, with a content of one line.
pub build_ir-total_iff :
    (resolver : Option Resolver) (app : App)
    → validate app ≡ ok tt
    → ((ir : Ir) × (build_ir resolver app ≡ ok ir)) ↔ All (HasConfigs resolver) app.services
build_ir-total_iff resolver app valid = (to, from)
  where
    each :
        All (λ e. (t : IrService) × (translate_service resolver e ≡ ok t)) app.services
        ↔ All (HasConfigs resolver) app.services
    each =
        All_iff _ _ (HasConfigs resolver) app.services (λ e. translate_service-total_iff resolver e)
          (validate-env app valid)

    to : ((ir : Ir) × (build_ir resolver app ≡ ok ir)) → All (HasConfigs resolver) app.services
    to (ir, e) = each.0 (
        (each_map-total_iff (translate_service resolver) app.services).0
          (ir.services, (build_ir-eq-ok resolver app ir e).0))

    from : All (HasConfigs resolver) app.services → (ir : Ir) × (build_ir resolver app ≡ ok ir)
    from all =
        let (services, found) =
          (each_map-total_iff (translate_service resolver) app.services).1 (each.1 all) in
        (ir_of app services, unfold build_ir in ground arith)
