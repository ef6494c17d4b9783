-- ===== src/Store/Backups.antt =====
-- `pmcluster/internal/store/backups.go`. A row has the column of the file name too, which the struct
-- leaves out.
use poor_man_stack.Base.{
  ℕ, Text, codes, ◌==◌, nat_eq, text_eq, Bool, true, false, ◌&&◌, ◌||◌, not, Option, none, some,
  List, [], ◌∷◌, ◌++◌, if◌then◌else◌, Result, ok, err, is_some, take, ltb, any, reverse,
}
use poor_man_stack.Base.Rows.{find, select, update, remove, next_id, sort_desc}
use poor_man_stack.Store.Stacks.{nullable_string}
use poor_man_stack.Auth.Bearer.{lower}

pub record Backup : Type 0 where
  pub id : ℕ
  pub stack_name : Option Text
  pub revision : Option ℕ
  pub status : Text
  pub archive_paths : Text
  pub error_message : Text
  pub started_at : ℕ
  pub finished_at : Option ℕ
  pub filename : Text

-- The id of the new row, and the table with it.
unfoldable pub create_backup : ℕ → Text → ℕ → List Backup → ℕ × List Backup
create_backup now stack_name revision rows =
    let id = next_id (λ (b : Backup). b.id) rows in
    (
      id,
      rows
          ++ record {
            id = id;
            stack_name = nullable_string stack_name;
            revision = if revision == 0 then none else some revision;
            status = codes "pending";
            archive_paths = [];
            error_message = [];
            started_at = now;
            finished_at = none;
            filename = [];
          }
            ∷ [],
    )

unfoldable pub finish_backup : ℕ → ℕ → Text → Text → Text → List Backup → List Backup
finish_backup now id status archive_paths error_message =
    update (λ (b : Backup). b.id == id)
      (λ b. record b {
        status = status;
        archive_paths = archive_paths;
        error_message = error_message;
        finished_at = some now;
      })

pub data BackupError : Type 0 where
  backup_not_found : BackupError

-- `INSERT OR IGNORE`: a file name that is not empty is unique.
unfoldable pub record_discovered_backup : Text → Text → ℕ → List Backup → List Backup
record_discovered_backup filename archive_path at rows =
    if not (filename == []) && is_some (find (λ (b : Backup). b.filename == filename) rows)
    then rows
    else rows
      ++ record {
        id = next_id (λ (b : Backup). b.id) rows;
        stack_name = none;
        revision = none;
        status = codes "succeeded";
        archive_paths = archive_path;
        error_message = [];
        started_at = at;
        finished_at = some at;
        filename = filename;
      }
        ∷ []

abbrev pub suffixes : Text → List Text
suffixes [] = [] ∷ []
suffixes (c ∷ s) = (c ∷ s) ∷ suffixes s

-- One character of a pattern, and what is to match behind it.
abbrev pub one_char : ℕ → (Text → Bool) → Text → Bool
one_char p matches [] = false
one_char p matches (c ∷ s) = (p == b'_' || lower p == lower c) && matches s

-- SQLite's `LIKE`: "%" is any text, "_" any character, and case does not count.
unfoldable pub like : Text → Text → Bool
like [] [] = true
like [] (c ∷ s) = false
like (p ∷ ps) s = if p == b'%' then any (like ps) (suffixes s) else one_char p (like ps) s

unfoldable pub backup_exists_by_path : Text → List Backup → Bool
unfolding like
backup_exists_by_path path rows =
    any (λ (b : Backup). like (b'%' ∷ path ++ b'%' ∷ []) b.archive_paths) rows

unfoldable pub get_backup : ℕ → List Backup → Result BackupError Backup
get_backup id rows = elim (find (λ (b : Backup). b.id == id) rows) [
  | none ↦ err backup_not_found
  | some b ↦ ok b
]

-- `ORDER BY started_at DESC, id DESC`.
abbrev pub newest_first : List Backup → List Backup
newest_first rows = sort_desc (λ (b : Backup). b.started_at) (sort_desc (λ (b : Backup). b.id) rows)

-- `ORDER BY started_at ASC, id ASC`: the other way round, for ids that are unique.
unfoldable pub list_backups_older_than : ℕ → List Backup → List Backup
list_backups_older_than before rows =
    reverse (newest_first (select (λ (b : Backup). ltb b.started_at before) rows))

unfoldable pub delete_backup : ℕ → List Backup → Result BackupError (List Backup)
delete_backup id rows =
    if is_some (find (λ (b : Backup). b.id == id) rows)
    then ok (remove (λ (b : Backup). b.id == id) rows)
    else err backup_not_found

unfoldable pub list_backups : ℕ → List Backup → List Backup
list_backups limit rows = if limit == 0 then newest_first rows else take limit (newest_first rows)

-- The rows of the stack, and those of no stack.
unfoldable pub list_backups_for_stack : Text → List Backup → List Backup
list_backups_for_stack stack_name rows =
    newest_first
      (select (λ (b : Backup). elim b.stack_name [ none ↦ true | some s ↦ s == stack_name ]) rows)
