-- ===== src/Manifest/Writer/Mounts.antt =====
-- Where the mounts of a service end up.
use poor_man_stack.Base.{
  Text, codes, text_eq, nat_eq, ◌≡◌, ◌⊎◌, inl, inr, refl, subst, ap, ◌∙◌, List, [], ◌∷◌, ◌++◌,
  cut_at, cut_prefix, is_some, Any-append, Has, arith, Bool-cases, Option-cases, path_base,
}
use poor_man_stack.Manifest.Translate.{named_volume, named_volumes}
use poor_man_stack.Manifest.Writer.{relocate_volume, relocate_volumes, root_or_default}

abbrev pub IsAbsolute : Text → Type 0
IsAbsolute root = (rest : Text) × (root ≡ b'/' ∷ rest)

-- A mount of a path of the host names no volume.
named_volume-absolute : (t : Text) → named_volume (b'/' ∷ t) ≡ []
named_volume-absolute t = elim (Option-cases (cut_at b':' t)) [
  | inl missing ↦ unfold named_volume cut_at cut_prefix in rw missing refl
  | inr ((src, rest), found) ↦ unfold named_volume cut_at cut_prefix in rw found refl
]

relocate_volume-kept :
    (root app v : Text)
    → IsAbsolute root
    → (relocate_volume root app v ≡ v) ⊎ (named_volume (relocate_volume root app v) ≡ [])
relocate_volume-kept root app v (r, e) = elim (Option-cases (cut_at b':' v)) [
  | inl missing ↦ inl (unfold relocate_volume in ground arith)
  | inr ((src, rest), found) ↦ elim (Bool-cases (is_some (cut_prefix (codes "/") src))) [
    | inr named ↦ inl (unfold relocate_volume in ground arith)
    | inl host ↦
        let under : Text → Text =
          λ x. x ++ codes "/" ++ app ++ codes "/" ++ path_base src ++ codes ":" ++ rest in
        let moved : relocate_volume root app v ≡ under root =
          unfold relocate_volume in ground arith in
        inr (ap named_volume (moved ∙ ap under e) ∙ named_volume-absolute (under r))
  ]
]

-- Under a root that is an absolute path no volume is named but those that were named before.
pub relocate_volumes-Has :
    (root app : Text) (vs : List Text) (x : Text)
    → IsAbsolute root
    → Has x (named_volumes (relocate_volumes root app vs))
    → Has x (named_volumes vs)
unfolding named_volumes relocate_volumes
relocate_volumes-Has root app [] x abs h = h
relocate_volumes-Has root app (v ∷ vs) x abs h =
    let later = relocate_volumes-Has root app vs x abs in
    elim ((Any-append (λ y. y ≡ x) (named_volume (relocate_volume root app v)) _).0 h) [
      | inr i ↦ (Any-append (λ y. y ≡ x) (named_volume v) _).1 (inr (later i))
      | inl i ↦ elim (relocate_volume-kept root app v abs) [
        | inl same ↦
            (Any-append (λ y. y ≡ x) (named_volume v) _).1
              (inl (subst (λ w. Has x (named_volume w)) same i))
        | inr none_left ↦ absurd (subst (Has x) none_left i)
      ]
    ]

pub root_or_default-IsAbsolute :
    (root : Text) → ((root ≡ []) ⊎ IsAbsolute root) → IsAbsolute (root_or_default root)
root_or_default-IsAbsolute [] h = (codes "var/stack/data", refl)
root_or_default-IsAbsolute (c ∷ root) (inl e) = absurd (ground arith)
root_or_default-IsAbsolute (c ∷ root) (inr abs) = abs
