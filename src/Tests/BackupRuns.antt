-- ===== src/Tests/BackupRuns.antt =====
-- A directory that is the list of its files, and two runs of which one is old.
use poor_man_stack.Base.{
  ◌+◌, ◌*◌, ◌-◌, reverse, ℕ, Text, codes, ◌==◌, text_eq, false, true, ◌≡◌, refl, none, some, List,
  [], ◌∷◌, ltb, arith, cut_prefix, split, split_from, join,
}
use poor_man_stack.Base.Rows.{
  find, select, remove, update, sort_desc, insert_desc, next_id, max_key,
}
use poor_man_stack.Auth.Bearer.{lower}
use poor_man_stack.Store.Stacks.{nullable_string}
use poor_man_stack.Store.Backups.{
  Backup, newest_first, create_backup, finish_backup, record_discovered_backup, like,
  backup_exists_by_path, list_backups_older_than, delete_backup, list_backups,
}
use poor_man_stack.Backups.{
  Machine, Entry, join_archive_paths, split_archive_paths, discover_entry, discover_entries,
  discover, newest_archive, archive_created_after, archives_of_run, trigger, remove_files,
  prune_rows, negated_days, cutoff, prune, run_row, list,
}
use poor_man_stack.Backups.Retention.{without_files, prune_lem, prune_overflow}

abbrev as_entry : Text → Entry
as_entry path = record { name = path; is_dir = false; mod_time = some 950000 }

abbrev files : Machine
files = record {
  Disk = List Text;
  read_dir = λ dir disk. some (as_entry (codes "c.tar.gz") ∷ []);
  remove_file = λ path disk. remove (λ p. p == path) disk;
  run = some (λ disk. (disk, [], none));
}

abbrev row : ℕ → ℕ → Text → Backup
row id started paths = record {
  id = id;
  stack_name = none;
  revision = none;
  status = codes "succeeded";
  archive_paths = paths;
  error_message = [];
  started_at = started;
  finished_at = none;
  filename = [];
}

abbrev runs : List Backup
runs = row 1 100 (codes "/b/a,/b/c") ∷ row 2 950000 (codes "/b/d") ∷ []

abbrev disk : List Text
disk = codes "/b/a" ∷ codes "/b/d" ∷ []

backups : Unit {0}
unfolding find select remove update sort_desc insert_desc next_id max_key lower nullable_string
    create_backup finish_backup record_discovered_backup like backup_exists_by_path
    list_backups_older_than delete_backup list_backups join_archive_paths split_archive_paths
    discover_entry discover_entries discover newest_archive archive_created_after archives_of_run
    trigger remove_files prune_rows negated_days cutoff prune run_row list split split_from join
    cut_prefix
backups = tt

prune_run :
    prune files (codes "/b") 1000000000000000 1 (disk, runs)
    ≡ (codes "/b/d" ∷ [], row 2 950000 (codes "/b/d") ∷ [])
unfolding backups
prune_run = refl

-- A path that differs in the place of a "_" counts as recorded.
wildcard_run :
    backup_exists_by_path (codes "/b/a_1.tar.gz") (row 1 100 (codes "/b/a-1.tar.gz") ∷ []) ≡ true
unfolding backups
wildcard_run = refl

discover_run :
    discover files (codes "/b") disk []
    ≡ record (row 1 950000 (codes "/b/c.tar.gz")) {
      finished_at = some 950000;
      filename = codes "c.tar.gz";
    }
      ∷ []
unfolding backups
discover_run = refl

trigger_run :
    (trigger files (codes "/b") 900000 (codes "web") 3 (disk, [])).2 ≡ codes "/b/c.tar.gz" ∷ []
unfolding backups
trigger_run = refl

prune_lem_example : prune files (codes "/b") (1000000 * 1000000000 + 5) 1 (disk, runs) ≡ (
  without_files files (codes "/b") (list_backups_older_than (1000000 - 1 * 86400) runs) disk,
  remove (λ (b : Backup). ltb b.started_at (1000000 - 1 * 86400)) runs,
)
prune_lem_example =
    prune_lem files (codes "/b") 1000000 5 1 disk runs (omega arith) (omega arith) (omega arith)
      (((omega arith), tt), (tt, tt))

prune_overflow_example :
    prune files (codes "/b") (1000000 * 1000000000 + 5) 200000 (disk, runs)
    ≡ (without_files files (codes "/b") (reverse (newest_first runs)) disk, [])
prune_overflow_example =
    prune_overflow files (codes "/b") 1000000 5 200000 disk runs (omega arith) (omega arith)
      (omega arith) (((omega arith), tt), (tt, tt)) (omega arith, (omega arith, tt))
