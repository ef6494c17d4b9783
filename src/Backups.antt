-- ===== src/Backups.antt =====
-- `pmcluster/internal/backups/local.go`: the runs, their discovery and their retention. The archive
-- directory and the backup container are parameters; metrics are left out.
pub mod Retention
use poor_man_stack.Base.{
  ℕ, ◌+◌, ◌*◌, ◌-◌, ◌/◌, ◌%◌, ◌^◌, ltb, Text, codes, ◌==◌, nat_eq, text_eq, Bool, true, false, not,
  ◌&&◌, ◌||◌, Option, none, some, List, [], ◌∷◌, ◌++◌, if◌then◌else◌, Result, ok, err, is_empty,
  is_some, leb, map, reverse, cut_prefix, join, split,
}
use poor_man_stack.Store.Backups.{
  Backup, create_backup, finish_backup, record_discovered_backup, backup_exists_by_path,
  list_backups_older_than, delete_backup, list_backups, list_backups_for_stack,
}

-- An entry of a directory; `Info` can fail.
pub record Entry : Type 0 where
  pub name : Text
  pub is_dir : Bool
  pub mod_time : Option ℕ

pub record Machine : Type 1 where
  pub Disk : Type 0
  pub read_dir : Text → Disk → Option (List Entry)
  pub remove_file : Text → Disk → Disk
  -- The paths stand beside the error.
  pub run : Option (Disk → Disk × List Text × Option Text)

pub record Run : Type 0 where
  pub id : ℕ
  pub status : Text
  pub stack_name : Text
  pub revision : ℕ
  pub archive_paths : List Text
  pub error_message : Text
  pub started_at : ℕ
  pub finished_at : ℕ

pub data TriggerError : Type 0 where
  trigger_not_configured : TriggerError
  run_failed : Text → TriggerError

unfoldable pub join_archive_paths : List Text → Text
join_archive_paths paths = join (codes ",") paths

unfoldable pub split_archive_paths : Text → List Text
split_archive_paths [] = []
split_archive_paths (c ∷ s) = split b',' (c ∷ s)

-- `strings.HasSuffix(name, ".tar.gz")`.
abbrev pub is_archive : Entry → Bool
is_archive e = not e.is_dir && is_some (cut_prefix (reverse (codes ".tar.gz")) (reverse e.name))

-- `filepath.Join` of a clean directory and a name.
abbrev pub in_dir : Text → Text → Text
in_dir dir name = dir ++ codes "/" ++ name

unfoldable pub discover_entry : Text → Entry → List Backup → List Backup
discover_entry dir e rows = elim e.mod_time [
  | none ↦ rows
  | some at ↦
      if backup_exists_by_path (in_dir dir e.name) rows
      then rows
      else record_discovered_backup e.name (in_dir dir e.name) at rows
]

unfoldable pub discover_entries : Text → List Entry → List Backup → List Backup
unfolding discover_entry
discover_entries dir [] rows = rows
discover_entries dir (e ∷ es) rows =
    discover_entries dir es (if is_archive e then discover_entry dir e rows else rows)

-- The newest archive that is not older than a time, with what was found so far.
unfoldable pub newest_archive : ℕ → List Entry → Text × ℕ → Text × ℕ
newest_archive at [] found = found
newest_archive at (e ∷ es) found = newest_archive at es (elim e.mod_time [
  | none ↦ found
  | some m ↦ if is_archive e && leb at m && leb found.1 m then (e.name, m) else found
])

unfoldable pub run_row : Backup → Run
unfolding split_archive_paths
run_row b = record {
  id = b.id;
  status = b.status;
  stack_name = elim b.stack_name [ none ↦ [] | some s ↦ s ];
  revision = elim b.revision [ none ↦ 0 | some r ↦ r ];
  archive_paths = split_archive_paths b.archive_paths;
  error_message = b.error_message;
  started_at = b.started_at;
  finished_at = elim b.finished_at [ none ↦ 0 | some t ↦ t ];
}

-- `-time.Duration(RetentionDays) * 24 * time.Hour` as a word of 64 bits: nanoseconds that wrap.
unfoldable pub negated_days : ℕ → ℕ
negated_days retention_days = (2 ^ 64 - retention_days * 24 * 3600000000000 % 2 ^ 64) % 2 ^ 64

-- `time.Now().Add(…).Unix()`: the word is read with its sign. The clock is in nanoseconds, the
-- cutoff in seconds; a time before 1970, when no run started, is 0.
unfoldable pub cutoff : ℕ → ℕ → ℕ
unfolding negated_days
cutoff now retention_days =
    let days = negated_days retention_days in
    if ltb days (2 ^ 63) then (now + days) / 1000000000 else (now - (2 ^ 64 - days)) / 1000000000

module _ (machine : Machine) (archive_dir : Text) where
  open machine use {Disk, read_dir, remove_file}

  unfoldable pub discover : Disk → List Backup → List Backup
  unfolding discover_entries
  discover disk rows = if archive_dir == [] then rows else elim (read_dir archive_dir disk) [
    | none ↦ rows
    | some entries ↦ discover_entries archive_dir entries rows
  ]

  unfoldable pub archive_created_after : ℕ → Disk → Text
  unfolding newest_archive
  archive_created_after at disk = elim (read_dir archive_dir disk) [
    | none ↦ []
    | some entries ↦ elim (newest_archive at entries ([], 0)).0 [
      | [] ↦ []
      | c ∷ name ↦ in_dir archive_dir (c ∷ name)
    ]
  ]

  -- The paths that a run without an error counts as its own.
  unfoldable pub archives_of_run : ℕ → Disk → List Text → List Text
  unfolding archive_created_after
  archives_of_run started disk paths =
      let found = archive_created_after started disk in
      if is_empty paths && not (archive_dir == []) && not (found == []) then found ∷ [] else paths

  unfoldable pub trigger :
      ℕ → Text → ℕ → Disk × List Backup → (Disk × List Backup) × ℕ × List Text × Option TriggerError
  unfolding archives_of_run join_archive_paths
  trigger now stack_name revision (disk, rows) =
      let (id, pending) = create_backup now stack_name revision rows in
      elim machine.run [
        | none ↦ ((disk, pending), id, [], some trigger_not_configured)
        | some run ↦
            let (after, paths, failed) = run disk in
            elim failed [
              | some e ↦ (
                (after, finish_backup now id (codes "failed") (join_archive_paths paths) e pending),
                id,
                paths,
                some (run_failed e),
              )
              | none ↦
                  let kept = archives_of_run now after paths in
                  (
                    (
                      after,
                      finish_backup now id (codes "succeeded") (join_archive_paths kept) [] pending,
                    ),
                    id,
                    kept,
                    none,
                  )
            ]
      ]

  unfoldable pub remove_files : List Text → Disk → Disk
  remove_files [] disk = disk
  remove_files (p ∷ ps) disk = remove_files ps (if p == [] then disk else remove_file p disk)

  -- The deletion of a row that is gone already is ignored.
  abbrev pub without : ℕ → List Backup → List Backup
  without id rows = elim (delete_backup id rows) [ ok left ↦ left | err _ ↦ rows ]

  unfoldable pub prune_rows : List Backup → Disk × List Backup → Disk × List Backup
  unfolding remove_files split_archive_paths
  prune_rows [] (disk, rows) = (disk, rows)
  prune_rows (b ∷ bs) (disk, rows) =
      prune_rows bs (remove_files (split_archive_paths b.archive_paths) disk, without b.id rows)

  -- The clock is in nanoseconds, here and in the two lists.
  unfoldable pub prune : ℕ → ℕ → Disk × List Backup → Disk × List Backup
  unfolding prune_rows cutoff
  prune now retention_days (disk, rows) =
      if retention_days == 0
      then (disk, rows)
      else prune_rows (list_backups_older_than (cutoff now retention_days) rows) (disk, rows)

  unfoldable pub list : ℕ → ℕ → ℕ → Disk × List Backup → (Disk × List Backup) × List Run
  unfolding discover prune run_row
  list now retention_days limit (disk, rows) =
      let kept = prune now retention_days (disk, discover disk rows) in
      (kept, map run_row (list_backups limit kept.1))

  unfoldable pub list_for_stack :
      ℕ → ℕ → Text → Disk × List Backup → (Disk × List Backup) × List Run
  unfolding discover prune run_row
  list_for_stack now retention_days stack_name (disk, rows) =
      let kept = prune now retention_days (disk, discover disk rows) in
      (kept, map run_row (list_backups_for_stack stack_name kept.1))
