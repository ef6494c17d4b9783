-- ===== src/Store/Secrets.antt =====
-- `pmcluster/internal/store/secrets.go`. The name of a secret is unique.
use poor_man_stack.Base.{
  codes, not, ℕ, Text, ◌==◌, text_eq, Bool, true, ◌&&◌, ◌||◌, none, some, List, [], ◌∷◌, ◌++◌,
  if◌then◌else◌, Result, ok, err, is_some, nat_eq,
}
use poor_man_stack.Base.Rows.{find, select, update, remove, next_id}
use poor_man_stack.Base.Rows.Sorting.{text_leb, sort_asc}

pub record StoredSecret : Type 0 where
  pub id : ℕ
  pub scope : Text
  pub stack : Text
  pub name : Text
  pub payload : List ℕ
  pub hash : Text
  pub created_at : ℕ

pub data SecretError : Type 0 where
  secret_not_found secret_exists insert_secret_failed : SecretError

abbrev pub is_secret : Text → StoredSecret → Bool
is_secret name r = r.name == name

-- The `CHECK` constraint of the table.
abbrev pub is_scope : Text → Bool
is_scope scope = scope == codes "cluster" || scope == codes "service"

unfoldable pub create_secret :
    ℕ
    → Text
    → Text
    → Text
    → List ℕ
    → Text
    → List StoredSecret
    → Result SecretError (List StoredSecret × ℕ)
create_secret now scope stack name payload hash rows =
    let id = next_id (λ (r : StoredSecret). r.id) rows in
    if not (is_scope scope)
    then err insert_secret_failed
    else if is_some (find (is_secret name) rows)
    then err secret_exists
    else ok (
      rows
          ++ record {
            id = id;
            scope = scope;
            stack = stack;
            name = name;
            payload = payload;
            hash = hash;
            created_at = now;
          }
            ∷ [],
      id,
    )

unfoldable pub get_secret : Text → List StoredSecret → Result SecretError StoredSecret
get_secret name rows = elim (find (is_secret name) rows) [
  | none ↦ err secret_not_found
  | some r ↦ ok r
]

-- `ORDER BY scope, stack, name`.
abbrev pub in_order : StoredSecret → StoredSecret → Bool
in_order r x =
    if r.scope == x.scope
    then (if r.stack == x.stack then text_leb r.name x.name else text_leb r.stack x.stack)
    else text_leb r.scope x.scope

-- Without the payload; an empty filter lets everything pass.
unfoldable pub list_secrets : Text → Text → List StoredSecret → List StoredSecret
list_secrets scope stack rows =
    update (λ r. true) (λ (r : StoredSecret). record r { payload = [] })
      (sort_asc in_order (
        select
          (λ (r : StoredSecret).
            (scope == [] || r.scope == scope) && (stack == [] || r.stack == stack))
          rows))

unfoldable pub update_secret :
    Text → List ℕ → Text → List StoredSecret → Result SecretError (List StoredSecret)
update_secret name payload hash rows =
    if is_some (find (is_secret name) rows)
    then ok (
        update (is_secret name) (λ (r : StoredSecret). record r { payload = payload; hash = hash })
          rows)
    else err secret_not_found

unfoldable pub delete_secret : Text → List StoredSecret → Result SecretError (List StoredSecret)
delete_secret name rows =
    if is_some (find (is_secret name) rows)
    then ok (remove (is_secret name) rows)
    else err secret_not_found
