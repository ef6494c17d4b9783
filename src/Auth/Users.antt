-- ===== src/Auth/Users.antt =====
-- The table of users of `pmcluster/internal/store/users.go`, with the counter of its AUTOINCREMENT
-- key. A statement fails by a constraint of the table and in no other way.
pub mod Access
use poor_man_stack.Base.{
  ℕ, suc, ◌+◌, Text, ◌==◌, text_eq, nat_eq, Bool, true, false, ◌||◌, Option, none, some, List, [],
  ◌∷◌, ◌++◌, Result, ok, err, if◌then◌else◌, length, is_some,
}
use poor_man_stack.Base.Rows.{find, update, remove}
use poor_man_stack.Webhooks.Wire.{Bytes}
use poor_man_stack.Auth.Token.{split_token, verify_token}

pub record UserRow : Type 0 where
  pub id : ℕ
  pub name : Text
  pub token_id : Option Text
  pub token_hash : Text
  pub created_at : ℕ
  pub last_used_at : ℕ

pub record UserTable : Type 0 where
  pub rows : List UserRow
  pub last_id : ℕ

-- `auth.User`.
pub record User : Type 0 where
  pub id : ℕ
  pub name : Text

pub data UserError : Type 0 where
  user_exists user_not_found : UserError

abbrev pub is_user : ℕ → UserRow → Bool
is_user id u = u.id == id

abbrev pub is_named : Text → UserRow → Bool
is_named name u = u.name == name

-- `token_id = ?`, which no NULL satisfies.
unfoldable pub has_token_id : Text → UserRow → Bool
has_token_id token_id u = elim u.token_id [ none ↦ false | some t ↦ t == token_id ]

unfoldable pub nullable_id : Text → Option Text
nullable_id [] = none
nullable_id (c ∷ s) = some (c ∷ s)

abbrev pub as_user : UserRow → User
as_user u = record { id = u.id; name = u.name }

-- The names and the token ids are unique; a NULL equals no other.
unfoldable pub create_user : ℕ → Text → Text → Text → UserTable → Result UserError (UserTable × ℕ)
unfolding nullable_id has_token_id
create_user now name token_id token_hash db =
    let id = db.last_id + 1 in
    if is_some (find (is_named name) db.rows)
      || (if token_id == [] then false else is_some (find (has_token_id token_id) db.rows))
    then err user_exists
    else ok (
      record {
        rows =
            db.rows
            ++ record {
              id = id;
              name = name;
              token_id = nullable_id token_id;
              token_hash = token_hash;
              created_at = now;
              last_used_at = 0;
            }
              ∷ [];
        last_id = id;
      },
      id,
    )

unfoldable pub count_users : UserTable → ℕ
count_users db = length db.rows

unfoldable pub user_by_id : ℕ → UserTable → Option User
user_by_id id db = elim (find (is_user id) db.rows) [ none ↦ none | some u ↦ some (as_user u) ]

unfoldable pub user_by_name : Text → UserTable → Result UserError UserRow
user_by_name name db = elim (find (is_named name) db.rows) [
  | none ↦ err user_not_found
  | some u ↦ ok u
]

unfoldable pub touch_user : ℕ → ℕ → UserTable → UserTable
touch_user now id db = record db {
  rows = update (is_user id) (λ u. record u { last_used_at = now }) db.rows;
}

unfoldable pub delete_user : ℕ → UserTable → Result UserError UserTable
delete_user id db =
    if is_some (find (is_user id) db.rows)
    then ok (record db { rows = remove (is_user id) db.rows })
    else err user_not_found

module _ (derive : Text → Bytes → Bytes) where
  -- Whether `VerifyToken` accepts; an error counts as a refusal.
  unfoldable pub accepts : Text → Text → Bool
  accepts secret hash = elim (verify_token derive secret hash) [ ok b ↦ b | err _ ↦ false ]

  unfoldable pub user_by_token_id : Text → Text → UserTable → Option User
  unfolding accepts
  user_by_token_id token_id secret db = elim (find (has_token_id token_id) db.rows) [
    | none ↦ none
    | some u ↦ if accepts secret u.token_hash then some (as_user u) else none
  ]

  -- The loop over all the users, up to the first whose hash accepts the token.
  unfoldable pub user_by_token_legacy : Text → UserTable → Option User
  unfolding accepts
  user_by_token_legacy token db = elim (find (λ u. accepts token u.token_hash) db.rows) [
    | none ↦ none
    | some u ↦ some (as_user u)
  ]

  -- The lookup without the mark.
  unfoldable pub found_user : Text → UserTable → Option User
  found_user token db =
      let (token_id, secret) = split_token token in
      if token_id == [] then user_by_token_legacy token db else user_by_token_id token_id secret db

  unfoldable pub user_by_token : ℕ → Text → UserTable → UserTable × Option User
  unfolding found_user
  user_by_token now token db = elim (found_user token db) [
    | none ↦ (db, none)
    | some u ↦ (touch_user now u.id db, some u)
  ]
