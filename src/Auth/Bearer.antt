-- ===== src/Auth/Bearer.antt =====
-- The middleware of `pmcluster/internal/auth/middleware.go`.
use poor_man_stack.Base.{
  ℕ, ◌+◌, Text, codes, ◌==◌, text_eq, nat_eq, ◌&&◌, Option, none, some, [], ◌∷◌, if◌then◌else◌, leb,
  trim_space,
}
use poor_man_stack.Webhooks.Wire.{Bytes}
use poor_man_stack.Auth.Users.{User, UserTable, user_by_token}

-- A letter of ASCII in lower case.
unfoldable pub lower : ℕ → ℕ
lower c = if leb b'A' c && leb c b'Z' then c + 32 else c

-- What stands behind a prefix that is compared without regard to case.
unfoldable pub cut_fold : Text → Text → Option Text
cut_fold [] s = some s
cut_fold (p ∷ ps) [] = none
cut_fold (p ∷ ps) (c ∷ s) = let rest = cut_fold ps s in if lower c == p then rest else none

unfoldable pub extract_bearer : Text → Option Text
unfolding cut_fold lower
extract_bearer header = elim (cut_fold (codes "bearer ") (trim_space header)) [
  | none ↦ none
  | some rest ↦ elim (trim_space rest) [ [] ↦ none | c ∷ token ↦ some (c ∷ token) ]
]

-- The user that the next handler sees; `none` is the 401, the same for every failure.
unfoldable pub bearer : (Text → Bytes → Bytes) → ℕ → Text → UserTable → UserTable × Option User
bearer derive now header db = elim (extract_bearer header) [
  | none ↦ (db, none)
  | some token ↦ user_by_token derive now token db
]
