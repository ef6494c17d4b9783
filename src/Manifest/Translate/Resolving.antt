-- ===== src/Manifest/Translate/Resolving.antt =====
-- What the value of a variable becomes.
use poor_man_stack.Base.{
  Text, text_eq, text_beq_iff, false, ◌≡◌, ◌⊎◌, inl, inr, refl, sym, ap, ◌∙◌, subst, Option, none,
  some, List, [], ok, any, Any, arith, Option-cases, Result-cases, Bool-cases, ◌↔◌,
}
use poor_man_stack.Manifest.Refs.{
  RefKind, config, secrets, EnvRef, parse_env_ref, secret_mount_path,
}
use poor_man_stack.Manifest.Refs.Reading.{IsReference, parse_env_ref-iff_IsReference}
use poor_man_stack.Manifest.Validate.{validate_env}
use poor_man_stack.Manifest.Validate.Values.{IsRead, validate_env-read, validate_env_ref_iff}
use poor_man_stack.Manifest.Translate.{
  Resolver, is_newline, resolve_config, resolve_ref, resolve_value,
}

-- The resolver is present, knows the config, and its content is one line.
pub record IsConfig (resolver : Option Resolver) (name content : Text) : Type 0 where
  pub read : Resolver
  pub present : resolver ≡ some read
  pub found : read name ≡ ok content
  pub line : any is_newline content ≡ false

resolve_config-ok :
    (resolver : Option Resolver) (name content : Text)
    → resolve_config resolver name ≡ ok content
    → IsConfig resolver name content
resolve_config-ok none name content e = absurd (unfold resolve_config in ground arith)
resolve_config-ok (some r) name content e = elim (Result-cases (r name)) [
  | inr (bad, failed) ↦ absurd (unfold resolve_config in ground arith)
  | inl (text, found) ↦ elim (Bool-cases (any is_newline text)) [
    | inl lines ↦ absurd (unfold resolve_config in ground arith)
    | inr line ↦
        let same : text ≡ content = unfold resolve_config in ground arith in
        subst (IsConfig (some r) name) same
          (record { read = r; present = refl; found = found; line = line })
  ]
]

resolve_config-IsConfig :
    (resolver : Option Resolver) (name content : Text)
    → IsConfig resolver name content
    → resolve_config resolver name ≡ ok content
resolve_config-IsConfig resolver name content c =
    let found = c.found in
    let line = c.line in
    ap (λ r. resolve_config r name) c.present ∙ (unfold resolve_config in ground arith)

-- A plain value is kept; a reference to a secret is the path at which the service that mounts these
-- secrets finds it; a reference to a config is the config's content.
abbrev pub Denotes : Option Resolver → List Text → RefKind → Text → Text → Type 0
Denotes resolver mounted secrets name value =
    Any (λ s. s ≡ name) mounted × (value ≡ secret_mount_path name)
Denotes resolver mounted config name value = IsConfig resolver name value

abbrev pub IsResolved : Option Resolver → List Text → Text → Text → Type 0
IsResolved resolver mounted v value =
    ((value ≡ v) × ((ref : EnvRef) → ¬ IsReference ref v))
    ⊎ ((ref : EnvRef) × IsReference ref v × Denotes resolver mounted ref.kind ref.name value)

resolve_ref-Denotes :
    (resolver : Option Resolver) (mounted : List Text) (kind : RefKind) (name value : Text)
    → IsRead mounted (record { kind = kind; name = name })
    → resolve_ref resolver (record { kind = kind; name = name }) ≡ ok value
    → Denotes resolver mounted kind name value
unfolding resolve_ref
resolve_ref-Denotes resolver mounted config name value h e = resolve_config-ok resolver name value e
resolve_ref-Denotes resolver mounted secrets name value (ne, h) e =
    (h refl, ground (arith, text_beq_iff name []))

pub resolve_value-IsResolved :
    (resolver : Option Resolver) (mounted : List Text) (v value : Text)
    → validate_env mounted v ≡ ok tt
    → resolve_value resolver v ≡ ok value
    → IsResolved resolver mounted v value
resolve_value-IsResolved resolver mounted v value valid e = elim (Option-cases (parse_env_ref v)) [
  | inl plain ↦ inl (
    unfold resolve_value in ground arith,
    λ ref r. let found = (parse_env_ref-iff_IsReference v ref).1 r in ground arith,
  )
  | inr (ref, found) ↦
      let readable =
        (validate_env_ref_iff mounted ref).0
          (sym (validate_env-read mounted v ref found) ∙ valid) in
      let same : resolve_ref resolver ref ≡ ok value = unfold resolve_value in ground arith in
      inr (
        ref,
        (parse_env_ref-iff_IsReference v ref).0 found,
        resolve_ref-Denotes resolver mounted ref.kind ref.name value readable same,
      )
]

-- Every config that the value refers to is there.
abbrev pub IsResolvable : Option Resolver → Text → Type 0
IsResolvable resolver v =
    (name : Text)
    → IsReference (record { kind = config; name = name }) v
    → (content : Text) × IsConfig resolver name content

resolve_ref-total :
    (resolver : Option Resolver) (mounted : List Text) (kind : RefKind) (name v : Text)
    → IsRead mounted (record { kind = kind; name = name })
    → IsReference (record { kind = kind; name = name }) v
    → IsResolvable resolver v
    → (value : Text) × (resolve_ref resolver (record { kind = kind; name = name }) ≡ ok value)
unfolding resolve_ref
resolve_ref-total resolver mounted config name v h r all =
    let (content, c) = all name r in (content, resolve_config-IsConfig resolver name content c)
resolve_ref-total resolver mounted secrets name v (ne, h) r all =
    (secret_mount_path name, ground (arith, text_beq_iff name []))

resolve_ref-IsConfig :
    (resolver : Option Resolver) (ref : EnvRef) (name value : Text)
    → ref ≡ record { kind = config; name = name }
    → resolve_ref resolver ref ≡ ok value
    → IsConfig resolver name value
resolve_ref-IsConfig resolver ref name value same e =
    resolve_config-ok resolver name value
      (unfold resolve_ref in (sym (ap (resolve_ref resolver) same) ∙ e))

pub resolve_value-total_iff :
    (resolver : Option Resolver) (mounted : List Text) (v : Text)
    → validate_env mounted v ≡ ok tt
    → ((value : Text) × (resolve_value resolver v ≡ ok value)) ↔ IsResolvable resolver v
resolve_value-total_iff resolver mounted v valid = elim (Option-cases (parse_env_ref v)) [
  | inl plain ↦ (
    λ _ name r.
        let found = (parse_env_ref-iff_IsReference v (record { kind = config; name = name })).1 r in
        absurd (ground arith),
    λ _. (v, unfold resolve_value in ground arith),
  )
  | inr (ref, found) ↦
      let readable =
        (validate_env_ref_iff mounted ref).0
          (sym (validate_env-read mounted v ref found) ∙ valid) in
      let same : resolve_value resolver v ≡ resolve_ref resolver ref =
        unfold resolve_value in ground arith in
      (
        λ done name r.
            let again =
              (parse_env_ref-iff_IsReference v (record { kind = config; name = name })).1 r in
            (
              done.0,
              resolve_ref-IsConfig resolver ref name done.0 (ground arith) (sym same ∙ done.1),
            ),
        λ all.
            let (value, e) =
              resolve_ref-total resolver mounted ref.kind ref.name v readable
                ((parse_env_ref-iff_IsReference v ref).0 found) all in
            (value, same ∙ e),
      )
]
