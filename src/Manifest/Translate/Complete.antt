-- ===== src/Manifest/Translate/Complete.antt =====
-- The secrets and the volumes of the whole are those of the services.
use poor_man_stack.Base.{
  Text, ◌≡◌, inl, inr, refl, subst, Option, List, [], ◌∷◌, ok, each_map-Pairs, All, Any, Has, Pairs,
}
use poor_man_stack.Manifest.Dsl.{App, Service}
use poor_man_stack.Manifest.Ir.{Ir, IrService}
use poor_man_stack.Manifest.Translate.{
  Resolver, ir_service, translate_service, named_volumes, build_ir,
}
use poor_man_stack.Manifest.Translate.Collected.{include_all-Has_iff, union_of-Has_iff}
use poor_man_stack.Manifest.Translate.Services.{translate_service-eq-ok, build_ir-eq-ok}

-- Every secret and every named volume of a service is among those of the whole.
abbrev pub IsListed : Ir → IrService → Type 0
IsListed ir t =
    ((x : Text) → Has x t.secrets → Has x ir.secrets)
    × ((x : Text) → Has x (named_volumes t.volumes) → Has x ir.volumes)

-- A list of the source service is the list of its translation.
translate_service-same :
    (resolver : Option Resolver) (e : Text × Service) (t : IrService)
    → translate_service resolver e ≡ ok t
    → (t.secrets ≡ e.1.secrets) × (t.volumes ≡ e.1.volumes)
translate_service-same resolver (name, s) t h =
    let (env, found, same) = translate_service-eq-ok resolver name s t h in
    subst (λ (r : IrService). (r.secrets ≡ s.secrets) × (r.volumes ≡ s.volumes)) same
      (unfold ir_service in (refl, refl))

each-IsListed :
    (resolver : Option Resolver) (ir : Ir) (es : List (Text × Service)) (ts : List IrService)
    → ((x : Text) → Any (λ (e : Text × Service). Has x e.1.secrets) es → Has x ir.secrets)
    → ((x : Text)
        → Any (λ (e : Text × Service). Has x (named_volumes e.1.volumes)) es
        → Has x ir.volumes)
    → Pairs (λ e t. translate_service resolver e ≡ ok t) es ts
    → All (IsListed ir) ts
each-IsListed resolver ir [] [] hs hv h = tt
each-IsListed resolver ir [] (t ∷ ts) hs hv h = absurd h
each-IsListed resolver ir (e ∷ es) [] hs hv h = absurd h
each-IsListed resolver ir (e ∷ es) (t ∷ ts) hs hv (p, h) =
    let (secrets, volumes) = translate_service-same resolver e t p in
    (
      (
        λ x i. hs x (inl (subst (Has x) secrets i)),
        λ x i. hv x (inl (subst (λ vs. Has x (named_volumes vs)) volumes i)),
      ),
      each-IsListed resolver ir es ts (λ x i. hs x (inr i)) (λ x i. hv x (inr i)) h,
    )

pub build_ir-IsListed :
    (resolver : Option Resolver) (app : App) (ir : Ir)
    → build_ir resolver app ≡ ok ir
    → All (IsListed ir) ir.services
build_ir-IsListed resolver app ir e =
    let (done, same) = build_ir-eq-ok resolver app ir e in
    each-IsListed resolver ir app.services ir.services
      (λ x i.
        subst (λ (r : Ir). Has x r.secrets) same
          ((include_all-Has_iff app.secrets _ x).1
            (inr ((union_of-Has_iff (λ (s : Service). s.secrets) app.services [] x).1 (inl i)))))
      (λ x i.
        subst (λ (r : Ir). Has x r.volumes) same
          ((union_of-Has_iff (λ (s : Service). named_volumes s.volumes) app.services [] x).1
            (inl i)))
      (each_map-Pairs (translate_service resolver) app.services ir.services done)
