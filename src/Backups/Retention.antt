-- ===== src/Backups/Retention.antt =====
-- What the retention removes, from the table and from the disk.
use poor_man_stack.Base.{
  reverse, refl, ◌<◌, ◌≤◌, ◌+◌, ◌-◌, ◌*◌, ℕ, Text, ◌==◌, nat_eq, nat_beq_iff, Bool, ◌||◌, ◌≡◌, ◌≢◌,
  sym, ap, ◌∙◌, List, [], ◌∷◌, ltb, any, All, All-imp, arith, Option-cases, inl, inr,
}
use poor_man_stack.Base.Rows.{find, select, remove, sort_desc, IsUnique}
use poor_man_stack.Base.Rows.Removal.{
  remove-false, remove-remove, remove-same, remove-none, any-sort_desc, any-reverse, any-select,
}
use poor_man_stack.Store.Backups.{Backup, delete_backup, list_backups_older_than, newest_first}
use poor_man_stack.Backups.{
  Machine, remove_files, split_archive_paths, without, prune_rows, negated_days, cutoff, prune,
}

-- Up to 106751 days the nanoseconds fit, and the cutoff is so many days before the clock.
cutoff-eq :
    (seconds nanos retention_days : ℕ)
    → nanos < 1000000000
    → retention_days ≢ 0
    → retention_days ≤ 106751
    → cutoff (seconds * 1000000000 + nanos) retention_days ≡ seconds - retention_days * 86400
unfolding cutoff negated_days
cutoff-eq seconds nanos retention_days small some_days fits = ground arith

cutoff-wraps :
    (seconds nanos retention_days : ℕ)
    → nanos < 1000000000
    → 106752 ≤ retention_days
    → retention_days ≤ 213503
    → seconds < cutoff (seconds * 1000000000 + nanos) retention_days
unfolding cutoff negated_days
cutoff-wraps seconds nanos retention_days small many fits = ground arith

all-started :
    (before : ℕ) (rows : List Backup)
    → All (λ (b : Backup). b.started_at < before) rows
    → (remove (λ (b : Backup). ltb b.started_at before) rows ≡ [])
      × (select (λ (b : Backup). ltb b.started_at before) rows ≡ rows)
unfolding remove select
all-started before [] h = (refl, refl)
all-started before (b ∷ bs) (first, rest) =
    let (gone, same) = all-started before bs rest in (ground arith, ground arith)

module _ (machine : Machine) (archive_dir : Text) where
  open machine use {Disk}

  without-remove :
      (id : ℕ) (rows : List Backup)
      → without machine archive_dir id rows ≡ remove (λ (b : Backup). b.id == id) rows
  without-remove id rows = elim (Option-cases (find (λ (b : Backup). b.id == id) rows)) [
    | inl gone ↦
        unfold delete_backup in ground (arith, remove-none (λ (b : Backup). b.id == id) rows gone)
    | inr (b, found) ↦ unfold delete_backup in ground arith
  ]

  -- The files of some rows, in the order of the rows.
  abbrev pub without_files : List Backup → Disk → Disk
  without_files [] disk = disk
  without_files (b ∷ bs) disk =
      without_files bs (remove_files machine archive_dir (split_archive_paths b.archive_paths) disk)

  prune_rows-remove :
      (bs : List Backup) (disk : Disk) (rows : List Backup)
      → prune_rows machine archive_dir bs (disk, rows) ≡ (
        without_files bs disk,
        remove (λ (r : Backup). any (λ (b : Backup). b.id == r.id) bs) rows,
      )
  unfolding prune_rows
  prune_rows-remove [] disk rows = ap (λ l. (disk, l)) (sym (remove-false rows))
  prune_rows-remove (b ∷ bs) disk rows =
      prune_rows-remove bs
        (remove_files machine archive_dir (split_archive_paths b.archive_paths) disk)
        (without machine archive_dir b.id rows)
      ∙ ap (λ l. (without_files (b ∷ bs) disk, l)) (fused rows)
    where
      each :
          (rs : List Backup)
          → All
              (λ (r : Backup).
                ((r.id == b.id) || any (λ (x : Backup). x.id == r.id) bs)
                ≡ any (λ (x : Backup). x.id == r.id) (b ∷ bs))
              rs
      each [] = tt
      each (r ∷ rs) = (ground (arith, nat_beq_iff r.id b.id, nat_beq_iff b.id r.id), each rs)

      fused :
          (rows : List Backup)
          → remove
              (λ (r : Backup). any (λ (x : Backup). x.id == r.id) bs)
              (without machine archive_dir b.id rows)
            ≡ remove (λ (r : Backup). any (λ (x : Backup). x.id == r.id) (b ∷ bs)) rows
      fused rows =
          ap (remove (λ (r : Backup). any (λ (x : Backup). x.id == r.id) bs))
            (without-remove b.id rows)
          ∙ remove-remove (λ (r : Backup). any (λ (x : Backup). x.id == r.id) bs)
              (λ (r : Backup). r.id == b.id) rows
          ∙ remove-same _ _ rows (each rows)

  any-list_backups_older_than :
      (p : Backup → Bool) (before : ℕ) (rows : List Backup)
      → any p (list_backups_older_than before rows)
        ≡ any p (select (λ (b : Backup). ltb b.started_at before) rows)
  unfolding list_backups_older_than
  any-list_backups_older_than p before rows =
      any-reverse p (newest_first (select (λ (b : Backup). ltb b.started_at before) rows))
      ∙ any-sort_desc p (λ (b : Backup). b.started_at)
          (sort_desc (λ (b : Backup). b.id) (select (λ (b : Backup). ltb b.started_at before) rows))
      ∙ any-sort_desc p (λ (b : Backup). b.id)
          (select (λ (b : Backup). ltb b.started_at before) rows)

  prune-remove :
      (now retention_days : ℕ) (disk : Disk) (rows : List Backup)
      → retention_days ≢ 0
      → IsUnique (λ (b : Backup). b.id) rows
      → prune machine archive_dir now retention_days (disk, rows) ≡ (
        without_files (list_backups_older_than (cutoff now retention_days) rows) disk,
        remove (λ (b : Backup). ltb b.started_at (cutoff now retention_days)) rows,
      )
  prune-remove now retention_days disk rows some_days unique =
      let before = cutoff now retention_days in
      let old = list_backups_older_than before rows in
      let started : prune machine archive_dir now retention_days (disk, rows)
          ≡ prune_rows machine archive_dir old (disk, rows) =
        unfold prune in ground (arith, nat_beq_iff retention_days 0) in
      started
      ∙ prune_rows-remove old disk rows
      ∙ ap (λ l. (without_files old disk, l))
          (remove-same _ _ rows (
            All-imp
              (λ (r : Backup).
                any (λ (b : Backup). b.id == r.id)
                  (select (λ (b : Backup). ltb b.started_at before) rows)
                ≡ ltb r.started_at before)
              _ rows
              (λ (r : Backup) same.
                any-list_backups_older_than (λ (b : Backup). b.id == r.id) before rows ∙ same)
              (any-select (λ (b : Backup). b.id) (λ (b : Backup). ltb b.started_at before) rows
                unique)))

  -- With unique ids, a retention of 1 to 106751 days and a clock of whole seconds and nanoseconds,
  -- the retention removes from the table the runs that started more than so many days of 86400
  -- seconds before the clock's second and no others, and from the disk the files of these runs, the
  -- oldest run first.
  pub prune_lem :
      (seconds nanos retention_days : ℕ) (disk : Disk) (rows : List Backup)
      → nanos < 1000000000
      → retention_days ≢ 0
      → retention_days ≤ 106751
      → IsUnique (λ (b : Backup). b.id) rows
      → let before = seconds - retention_days * 86400 in
        prune machine archive_dir (seconds * 1000000000 + nanos) retention_days (disk, rows) ≡ (
          without_files (list_backups_older_than before rows) disk,
          remove (λ (b : Backup). ltb b.started_at before) rows,
        )
  prune_lem seconds nanos retention_days disk rows small some_days fits unique =
      rw (sym (cutoff-eq seconds nanos retention_days small some_days fits))
        (prune-remove (seconds * 1000000000 + nanos) retention_days disk rows some_days unique)

  -- The word of nanoseconds wraps above 106751 days: with unique ids and a retention of 106752 to
  -- 213503 days, where every run has started by the clock's second, the table is emptied, and the
  -- files of all its runs are removed from the disk, the oldest run first.
  pub prune_overflow :
      (seconds nanos retention_days : ℕ) (disk : Disk) (rows : List Backup)
      → nanos < 1000000000
      → 106752 ≤ retention_days
      → retention_days ≤ 213503
      → IsUnique (λ (b : Backup). b.id) rows
      → All (λ (b : Backup). b.started_at ≤ seconds) rows
      → prune machine archive_dir (seconds * 1000000000 + nanos) retention_days (disk, rows)
        ≡ (without_files (reverse (newest_first rows)) disk, [])
  unfolding list_backups_older_than
  prune_overflow seconds nanos retention_days disk rows small many fits unique started =
      let now = seconds * 1000000000 + nanos in
      let ahead = cutoff-wraps seconds nanos retention_days small many fits in
      let (kept, all_old) =
        all-started (cutoff now retention_days) rows
          (All-imp _ _ rows (λ (b : Backup) h. ground arith) started) in
      prune-remove now retention_days disk rows (omega arith) unique ∙ rw (kept, all_old) refl
