-- ===== src/Manifest/Refs/Reading.antt =====
-- What `ParseEnvRef` recognises, written as the text that it reads.
use poor_man_stack.Base.{
  cut_at-eq-some, cut_at-append, cut_prefix-eq-some, subst, Text, codes, text_eq, nat_eq, ◌≡◌, refl,
  ◌≢◌, ◌↔◌, sym, ◌∙◌, ap, none, some, [], ◌∷◌, ◌++◌, cut_prefix, cut_prefix-append, cut_at,
  trim_space, All, arith, Option-cases, inl, inr,
}
use poor_man_stack.Manifest.Refs.{
  RefKind, config, secrets, EnvRef, inside_parens, as_ref, parse_env_ref,
}

abbrev pub keyword : RefKind → Text
keyword config = codes "config("
keyword secrets = codes "secrets("

-- The text of a reference, with what stands between the parentheses.
pub record IsReference (ref : EnvRef) (v : Text) : Type 0 where
  pub body : Text
  pub written : v ≡ keyword ref.kind ++ (body ++ b')' ∷ [])
  pub filled : body ≢ []
  pub flat : All (λ c. c ≢ b')') body
  pub named : ref.name ≡ trim_space body

inside_parens-written :
    (body : Text)
    → body ≢ []
    → cut_at b')' (body ++ b')' ∷ []) ≡ some (body, [])
    → inside_parens (body ++ b')' ∷ []) ≡ some body
inside_parens-written [] ne found = absurd (ne refl)
inside_parens-written (c ∷ body) ne found = unfold inside_parens in rw (found, inside_parens) refl

inside_parens_iff :
    (s body : Text)
    → (inside_parens s ≡ some body)
      ↔ ((s ≡ body ++ b')' ∷ []) × (body ≢ []) × All (λ c. c ≢ b')') body)
inside_parens_iff s body = (to, from)
  where
    to :
        inside_parens s ≡ some body
        → (s ≡ body ++ b')' ∷ []) × (body ≢ []) × All (λ c. c ≢ b')') body
    to e = elim (Option-cases (cut_at b')' s)) [
      | inl missing ↦ absurd (unfold inside_parens in ground arith)
      | inr (([], a), found) ↦ absurd (unfold inside_parens in ground arith)
      | inr ((c ∷ b, d ∷ a), found) ↦ absurd (unfold inside_parens in ground arith)
      | inr ((c ∷ b, []), found) ↦
          let (parts, flat) = cut_at-eq-some b')' s (c ∷ b) [] found in
          let same : c ∷ b ≡ body = unfold inside_parens in ground arith in
          subst (λ x. (s ≡ x ++ b')' ∷ []) × (x ≢ []) × All (λ c. c ≢ b')') x) same
            (parts, λ x. cc, flat)
    ]

    from :
        (s ≡ body ++ b')' ∷ []) × (body ≢ []) × All (λ c. c ≢ b')') body
        → inside_parens s ≡ some body
    from (e, ne, flat) = rw e (inside_parens-written body ne (cut_at-append b')' body [] flat))

-- What follows the keyword, and the reference that is read from it.
as_ref-eq-some :
    (kind : RefKind) (v rest : Text) (ref : EnvRef)
    → v ≡ keyword kind ++ rest
    → as_ref kind (inside_parens rest) ≡ some ref
    → IsReference ref v
as_ref-eq-some kind v rest ref e h = elim (Option-cases (inside_parens rest)) [
  | inl missing ↦ absurd (unfold as_ref in ground arith)
  | inr (body, found) ↦
      let same : record { kind = kind; name = trim_space body } ≡ ref =
        unfold as_ref in ground arith in
      let (parts, ne, flat) = (inside_parens_iff rest body).0 found in
      subst (λ (r : EnvRef). IsReference r v) same
        (record {
          body = body;
          written = e ∙ ap (λ x. keyword kind ++ x) parts;
          filled = ne;
          flat = flat;
          named = refl;
        })
]

parse_env_ref-keyword :
    (kind : RefKind) (rest : Text)
    → parse_env_ref (keyword kind ++ rest) ≡ as_ref kind (inside_parens rest)
unfolding parse_env_ref
parse_env_ref-keyword config rest =
    rw (cut_prefix-append (codes "config(") rest, parse_env_ref) refl
parse_env_ref-keyword secrets rest =
    let other : cut_prefix (codes "config(") (codes "secrets(" ++ rest) ≡ none =
      unfold cut_prefix in refl in
    rw (other, cut_prefix-append (codes "secrets(") rest, parse_env_ref) refl

-- A value is read as a reference exactly when it is the keyword, a text that is not empty and has
-- no ")", and a ")"; the name is that text without the space around it.
pub parse_env_ref-iff_IsReference :
    (v : Text) (ref : EnvRef) → (parse_env_ref v ≡ some ref) ↔ IsReference ref v
parse_env_ref-iff_IsReference v ref = (to, from)
  where
    to : parse_env_ref v ≡ some ref → IsReference ref v
    to e = elim (Option-cases (cut_prefix (codes "config(") v)) [
      | inr (rest, found) ↦
          as_ref-eq-some config v rest ref (cut_prefix-eq-some (codes "config(") v found)
            (unfold parse_env_ref in ground arith)
      | inl missing ↦ elim (Option-cases (cut_prefix (codes "secrets(") v)) [
        | inr (rest, found) ↦
            as_ref-eq-some secrets v rest ref (cut_prefix-eq-some (codes "secrets(") v found)
              (unfold parse_env_ref in ground arith)
        | inl nothing ↦ absurd (unfold parse_env_ref in ground arith)
      ]
    ]

    from : IsReference ref v → parse_env_ref v ≡ some ref
    from r =
        let read : inside_parens (r.body ++ b')' ∷ []) ≡ some r.body =
          (inside_parens_iff (r.body ++ b')' ∷ []) r.body).1 (refl, r.filled, r.flat) in
        ap parse_env_ref r.written
        ∙ parse_env_ref-keyword ref.kind (r.body ++ b')' ∷ [])
        ∙ ap (as_ref ref.kind) read
        ∙ unfold as_ref in ap (λ n. some (record { kind = ref.kind; name = n })) (sym r.named)
