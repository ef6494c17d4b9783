-- ===== src/Store/Stacks.antt =====
-- `pmcluster/internal/store/stacks.go`, over the tables of the migrations 0003 and later. The foreign
-- key from a revision to its stack is enforced (`_pragma=foreign_keys(1)` in `store.go`), and a
-- statement fails by a constraint of its table and in no other way.
pub mod FreeRevision
pub mod Recording
pub mod Deletion
use poor_man_stack.Base.{
  ℕ, zero, suc, ◌+◌, Text, ◌==◌, text_eq, nat_eq, Bool, true, false, ◌&&◌, Option, none, some, List,
  [], ◌∷◌, ◌++◌, Result, ok, err, ◌>>=◌, if◌then◌else◌, leb, is_some, take,
}
use poor_man_stack.Base.Rows.Sorting.{text_leb, sort_asc}
use poor_man_stack.Base.Rows.{find, select, update, remove, sort_desc}
use poor_man_stack.Store.Configs.{ConfigTables, ConfigRow, ConfigVersionRow, has_id}

pub record StackRow : Type 0 where
  pub name : Text
  pub current_revision : ℕ
  pub repo_url : Option Text
  pub source_file : Text
  pub created_at : ℕ
  pub updated_at : ℕ

pub record StackRevision : Type 0 where
  pub stack_name : Text
  pub revision : ℕ
  pub source_yaml : Text
  pub rendered_yaml : Text
  pub rendered_hash : Text
  pub source_file : Text
  pub payload_json : Option Text
  pub created_at : ℕ

-- Of a row of `secrets`, the columns that a deletion of a stack reads.
pub record SecretRow : Type 0 where
  pub name : Text
  pub stack : Text

pub record Tables : Type 0 where
  pub stacks : List StackRow
  pub revisions : List StackRevision
  pub configs : ConfigTables
  pub secrets : List SecretRow

pub data StackError : Type 0 where
  stack_not_found revision_not_found insert_revision_failed no_free_revision : StackError

-- How an INSERT fails.
pub data Violation : Type 0 where
  foreign_key primary_key : Violation

abbrev pub is_stack : Text → StackRow → Bool
is_stack name s = s.name == name

abbrev pub is_revision : Text → ℕ → StackRevision → Bool
is_revision name n r = r.stack_name == name && r.revision == n

-- `nullableString(s, s != "")`.
unfoldable pub nullable_string : Text → Option Text
nullable_string [] = none
nullable_string (c ∷ s) = some (c ∷ s)

-- `COALESCE(NULLIF(new, ''), old)`.
unfoldable pub coalesce : Text → Text → Text
coalesce [] old = old
coalesce (c ∷ s) old = c ∷ s

unfoldable pub coalesce_null : Text → Option Text → Option Text
coalesce_null [] old = old
coalesce_null (c ∷ s) old = some (c ∷ s)

unfoldable pub insert_revision : ℕ → StackRevision → Tables → Result Violation Tables
insert_revision now rev db =
    if is_some (find (is_revision rev.stack_name rev.revision) db.revisions)
    then err primary_key
    else if is_some (find (is_stack rev.stack_name) db.stacks)
    then ok (record db { revisions = db.revisions ++ record rev { created_at = now } ∷ [] })
    else err foreign_key

unfoldable pub insert_stack : ℕ → StackRevision → Text → Tables → Result Violation Tables
unfolding nullable_string
insert_stack now rev repo_url db =
    if is_some (find (is_stack rev.stack_name) db.stacks)
    then err primary_key
    else ok (record db {
      stacks =
          db.stacks
          ++ record {
            name = rev.stack_name;
            current_revision = rev.revision;
            repo_url = nullable_string repo_url;
            source_file = rev.source_file;
            created_at = now;
            updated_at = now;
          }
            ∷ [];
    })

-- The UPDATE of the pointer, and the INSERT that follows it where no row was affected.
unfoldable pub point_stack : ℕ → StackRevision → Text → Tables → Result Violation Tables
unfolding coalesce coalesce_null
point_stack now rev repo_url db =
    if is_some (find (is_stack rev.stack_name) db.stacks)
    then ok (record db {
      stacks =
          update (is_stack rev.stack_name)
            (λ s. record s {
              current_revision = rev.revision;
              updated_at = now;
              repo_url = coalesce_null repo_url s.repo_url;
              source_file = coalesce rev.source_file s.source_file;
            })
            db.stacks;
    })
    else insert_stack now rev repo_url db

-- A failed transaction is rolled back, so an error carries no tables.
unfoldable pub or_fail : Result Violation Tables → Result StackError Tables
or_fail (ok db) = ok db
or_fail (err v) = err insert_revision_failed

unfoldable pub record_deploy : ℕ → StackRevision → Text → Tables → Result StackError Tables
unfolding or_fail
record_deploy now rev repo_url db = elim (insert_revision now rev db) [
  | ok db' ↦ or_fail (point_stack now rev repo_url db')
  | err primary_key ↦ err insert_revision_failed
  | err foreign_key ↦ or_fail (insert_stack now rev repo_url db >>= insert_revision now rev)
]

unfoldable pub get_stack : Text → Tables → Result StackError StackRow
get_stack name db = elim (find (is_stack name) db.stacks) [
  | none ↦ err stack_not_found
  | some s ↦ ok s
]

unfoldable pub get_revision : Text → ℕ → Tables → Result StackError StackRevision
get_revision name n db = elim (find (is_revision name n) db.revisions) [
  | none ↦ err revision_not_found
  | some r ↦ ok r
]

-- A limit of 0 stands for every limit that is not positive.
unfoldable pub list_revisions : Text → ℕ → Tables → List StackRevision
list_revisions name limit db =
    let rows =
      sort_desc (λ (r : StackRevision). r.revision)
        (select (λ r. r.stack_name == name) db.revisions) in
    if leb limit 0 then rows else take limit rows

-- The loop of `NextFreeRevision`, on the attempts that are left.
unfoldable pub free_from : Text → ℕ → ℕ → List StackRevision → Option ℕ
free_from name zero r rows = none
free_from name (suc attempts) r rows = elim (find (is_revision name r) rows) [
  | none ↦ some r
  | some _ ↦ free_from name attempts (r + 1) rows
]

unfoldable pub next_free_revision : Text → ℕ → Tables → Result StackError ℕ
next_free_revision name candidate db = elim (free_from name 10000 candidate db.revisions) [
  | none ↦ err no_free_revision
  | some r ↦ ok r
]

-- `DELETE FROM configs WHERE stack = ?`, the history with it.
unfoldable pub delete_stack_configs : Text → ConfigTables → ConfigTables
delete_stack_configs name db = record {
  configs = remove (λ (c : ConfigRow). c.stack == name) db.configs;
  versions =
      remove
        (λ (v : ConfigVersionRow).
          is_some (find (λ (c : ConfigRow). c.id == v.config_id && c.stack == name) db.configs))
        db.versions;
}

-- The three statements are not one transaction: the tables come back with the error too.
unfoldable pub delete_stack : Text → Tables → Tables × Result StackError (Unit {0})
unfolding delete_stack_configs
delete_stack name db =
    let found = is_some (find (is_stack name) db.stacks) in
    (
      record {
        stacks = remove (is_stack name) db.stacks;
        revisions =
            if found
            then remove (λ (r : StackRevision). r.stack_name == name) db.revisions
            else db.revisions;
        configs = delete_stack_configs name db.configs;
        secrets = remove (λ (s : SecretRow). s.stack == name) db.secrets;
      },
      if found then ok tt else err stack_not_found,
    )

-- `ORDER BY name`.
unfoldable pub list_stacks : Tables → List StackRow
list_stacks db = sort_asc (λ (s x : StackRow). text_leb s.name x.name) db.stacks
