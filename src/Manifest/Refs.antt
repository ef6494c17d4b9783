-- ===== src/Manifest/Refs.antt =====
-- `pmcluster/internal/refs/envref.go`: references in the values of an environment.
pub mod Reading
use poor_man_stack.Base.{
  ℕ, Text, codes, ◌==◌, text_eq, Bool, true, false, not, ◌&&◌, ◌||◌, Option, none, some, List, [],
  ◌∷◌, ◌++◌, is_some, cut_prefix, cut_at, trim_space,
}

pub data RefKind : Type 0 where
  config secrets : RefKind

pub record EnvRef : Type 0 where
  pub kind : RefKind
  pub name : Text

-- `([^)]+)\)$`: the text up to the first ")", which is not empty and behind which nothing stands.
unfoldable pub inside_parens : Text → Option Text
inside_parens s = elim (cut_at b')' s) [
  | none ↦ none
  | some ([], after) ↦ none
  | some (c ∷ body, []) ↦ some (c ∷ body)
  | some (c ∷ body, d ∷ after) ↦ none
]

unfoldable pub as_ref : RefKind → Option Text → Option EnvRef
as_ref kind none = none
as_ref kind (some body) = some (record { kind = kind; name = trim_space body })

unfoldable pub parse_env_ref : Text → Option EnvRef
unfolding inside_parens as_ref
parse_env_ref v = elim (cut_prefix (codes "config(") v) [
  | some rest ↦ as_ref config (inside_parens rest)
  | none ↦ elim (cut_prefix (codes "secrets(") v) [
    | some rest ↦ as_ref secrets (inside_parens rest)
    | none ↦ none
  ]
]

unfoldable pub malformed_env_ref : Text → Bool
malformed_env_ref v =
    (is_some (cut_prefix (codes "config(") v) || is_some (cut_prefix (codes "secrets(") v))
    && not (is_some (parse_env_ref v))

unfoldable pub secret_mount_path : Text → Text
secret_mount_path name = codes "/run/secrets/" ++ name
