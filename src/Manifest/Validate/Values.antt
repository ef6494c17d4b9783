-- ===== src/Manifest/Validate/Values.antt =====
-- The healthchecks and the values of an environment that `Validate` admits.
use poor_man_stack.Base.{
  sym, ◌∙◌, subst, Text, codes, ◌==◌, text_eq, text_beq_iff, nat_eq, true, ◌≡◌, refl, ◌≢◌, ◌↔◌, ◌⊎◌,
  inl, inr, none, some, List, [], ◌∷◌, Result, ok, err, map_err, is_empty, Any, any-Any_iff,
  cut_prefix, arith, Option-cases,
}
use poor_man_stack.Base.Int.{ℤ, pos, negsuc, is_zero}
use poor_man_stack.Manifest.Dsl.{Healthcheck}
use poor_man_stack.Manifest.Refs.Reading.{IsReference, parse_env_ref-iff_IsReference}
use poor_man_stack.Manifest.Refs.{
  RefKind, config, secrets, EnvRef, parse_env_ref, malformed_env_ref,
}
use poor_man_stack.Manifest.Validate.{validate_healthcheck, validate_env_ref, validate_env}

pub map_err_iff {ℓ κ} :
    {E : Type ℓ} {F : Type κ} (f : E → F) (r : Result E (Unit {0}))
    → (map_err f r ≡ ok tt) ↔ (r ≡ ok tt)
map_err_iff f (ok tt) = (λ _. refl, λ _. refl)
map_err_iff f (err e) = (λ h. cc, λ h. cc)

-- A healthcheck is written out, or a shorthand with no test of its own.
abbrev pub IsHealthcheck : Healthcheck → Type 0
IsHealthcheck h =
    ((h.type ≡ []) × ((h.test ≢ []) ⊎ ((h.interval ≡ []) × (h.timeout ≡ []) × (h.retries ≡ pos 0))))
    ⊎ (((h.type ≡ codes "pg_isready") ⊎ (h.type ≡ codes "http")) × (h.test ≡ []))

is_empty_iff {ℓ} : {A : Type ℓ} (xs : List A) → (is_empty xs ≡ true) ↔ (xs ≡ [])
is_empty_iff [] = (λ _. refl, λ _. refl)
is_empty_iff (x ∷ xs) = (λ h. cc, λ h. cc)

is_zero_iff : (n : ℤ) → (is_zero n ≡ true) ↔ (n ≡ pos 0)
is_zero_iff (pos n) = ground arith
is_zero_iff (negsuc n) = ground arith

pub validate_healthcheck_iff :
    (h : Healthcheck) → (validate_healthcheck h ≡ ok tt) ↔ IsHealthcheck h
unfolding validate_healthcheck
validate_healthcheck_iff h = ground (
  arith,
  text_beq_iff h.type [],
  text_beq_iff h.type (codes "pg_isready"),
  text_beq_iff h.type (codes "http"),
  text_beq_iff h.interval [],
  text_beq_iff h.timeout [],
  is_empty_iff h.test,
  is_zero_iff h.retries,
)

-- A reference has a name, which is that of a mounted secret if it is to a secret.
abbrev pub IsRead : List Text → EnvRef → Type 0
IsRead mounted ref = (ref.name ≢ []) × (ref.kind ≡ secrets → Any (λ s. s ≡ ref.name) mounted)

-- A value of the environment of a service that mounts these secrets: one that does not begin like
-- a reference, or a good reference.
abbrev pub IsEnvValue : List Text → Text → Type 0
IsEnvValue mounted v =
    ((cut_prefix (codes "config(") v ≡ none) × (cut_prefix (codes "secrets(") v ≡ none))
    ⊎ ((ref : EnvRef) × IsReference ref v × IsRead mounted ref)

pub validate_env_ref_iff :
    (mounted : List Text) (ref : EnvRef)
    → (validate_env_ref mounted ref ≡ ok tt) ↔ IsRead mounted ref
validate_env_ref_iff mounted ref = go ref.kind ref.name
  where
    go :
        (k : RefKind) (name : Text)
        → (validate_env_ref mounted (record { kind = k; name = name }) ≡ ok tt)
          ↔ IsRead mounted (record { kind = k; name = name })
    go config name = unfold validate_env_ref in ground (arith, text_beq_iff name [])
    go secrets name =
        unfold validate_env_ref in
        ground (
          arith,
          text_beq_iff name [],
          any-Any_iff (λ s. s ≡ name) (λ s. s == name) (λ s. text_beq_iff s name) mounted,
        )

validate_env-plain :
    (mounted : List Text) (v : Text)
    → parse_env_ref v ≡ none
    → (validate_env mounted v ≡ ok tt)
      ↔ ((cut_prefix (codes "config(") v ≡ none) × (cut_prefix (codes "secrets(") v ≡ none))
unfolding validate_env malformed_env_ref
validate_env-plain mounted v e = ground arith

pub validate_env-read :
    (mounted : List Text) (v : Text) (ref : EnvRef)
    → parse_env_ref v ≡ some ref
    → validate_env mounted v ≡ validate_env_ref mounted ref
unfolding validate_env malformed_env_ref
validate_env-read mounted v ref e = ground arith

parse_env_ref-none :
    (v : Text)
    → cut_prefix (codes "config(") v ≡ none
    → cut_prefix (codes "secrets(") v ≡ none
    → parse_env_ref v ≡ none
unfolding parse_env_ref
parse_env_ref-none v e f = ground arith

pub validate_env_iff :
    (mounted : List Text) (v : Text) → (validate_env mounted v ≡ ok tt) ↔ IsEnvValue mounted v
validate_env_iff mounted v = elim (Option-cases (parse_env_ref v)) [
  | inl missing ↦ (λ e. inl ((validate_env-plain mounted v missing).0 e), back missing)
  | inr (ref, found) ↦
      let h = validate_env-read mounted v ref found in
      (
        λ e. inr (
          ref,
          (parse_env_ref-iff_IsReference v ref).0 found,
          (validate_env_ref_iff mounted ref).0 (sym h ∙ e),
        ),
        λ w. h ∙ read ref found w,
      )
]
  where
    back : parse_env_ref v ≡ none → IsEnvValue mounted v → validate_env mounted v ≡ ok tt
    back missing (inl p) = (validate_env-plain mounted v missing).1 p
    back missing (inr (ref, r, k)) =
        let found = (parse_env_ref-iff_IsReference v ref).1 r in absurd (ground arith)

    read :
        (ref : EnvRef)
        → parse_env_ref v ≡ some ref
        → IsEnvValue mounted v
        → validate_env_ref mounted ref ≡ ok tt
    read ref found (inl (p, q)) = let missing = parse_env_ref-none v p q in absurd (ground arith)
    read ref found (inr (other, r, k)) =
        let again = (parse_env_ref-iff_IsReference v other).1 r in
        let same : other ≡ ref = ground arith in
        subst (λ x. validate_env_ref mounted x ≡ ok tt) same
          ((validate_env_ref_iff mounted other).1 k)
