-- ===== src/Store/Stacks/Deletion.antt =====
-- `DeleteStack`: what goes, what stays, and what happens when there is no such stack.
use poor_man_stack.Base.{
  ℕ, Text, ◌==◌, text_eq, text_beq_iff, nat_eq, true, ◌≡◌, ◌≢◌, List, [], ◌∷◌, ok, err, All, arith,
  is_some,
}
use poor_man_stack.Base.Rows.{find, remove}
use poor_man_stack.Base.Rows.Find.{find-remove, find_of_IsFresh}
use poor_man_stack.Store.Configs.{ConfigRow}
use poor_man_stack.Store.Stacks.{
  StackRow, StackRevision, SecretRow, Tables, stack_not_found, is_stack, is_revision, get_stack,
  get_revision, delete_stack,
}

-- After `DELETE … WHERE column = key` no row has the key in the column.
gone {ℓ} :
    {A : Type ℓ} (column : A → Text) (key : Text) (rows : List A)
    → All (λ r. column r ≢ key) (remove (λ r. column r == key) rows)
unfolding remove
gone column key [] = tt
gone column key (r ∷ rows) = ground (arith, text_beq_iff (column r) key, gone column key rows)

-- What a stack owns besides its revisions.
abbrev pub OwnsNothing : Text → Tables → Type 0
OwnsNothing name db =
    All (λ (c : ConfigRow). c.stack ≢ name) db.configs.configs
    × All (λ (s : SecretRow). s.stack ≢ name) db.secrets

OwnsNothing-delete_stack : (name : Text) (db : Tables) → OwnsNothing name (delete_stack name db).0
unfolding delete_stack
OwnsNothing-delete_stack name db = (
  gone (λ (c : ConfigRow). c.stack) name db.configs.configs,
  gone (λ (s : SecretRow). s.stack) name db.secrets,
)

-- A deletion of a stack that exists succeeds; the stack, its revisions, its configs and its secrets
-- are gone; every other stack and each of its revisions reads as before.
pub delete_stack_lem :
    (name : Text) (db : Tables) (s : StackRow)
    → get_stack name db ≡ ok s
    → ((delete_stack name db).1 ≡ ok tt)
      × (get_stack name (delete_stack name db).0 ≡ err stack_not_found)
      × All (λ (r : StackRevision). r.stack_name ≢ name) (delete_stack name db).0.revisions
      × OwnsNothing name (delete_stack name db).0
      × ((other : Text)
          → other ≢ name
          → get_stack other (delete_stack name db).0 ≡ get_stack other db)
      × ((other : Text) (n : ℕ)
          → other ≢ name
          → get_revision other n (delete_stack name db).0 ≡ get_revision other n db)
unfolding delete_stack get_stack get_revision
delete_stack_lem name db s there =
    let found : is_some (find (is_stack name) db.stacks) ≡ true = ground arith in
    (
      ground arith,
      rw (
        find_of_IsFresh (λ (s : StackRow). s.name) name (remove (is_stack name) db.stacks)
            (gone (λ (s : StackRow). s.name) name db.stacks),
        get_stack,
      ),
      rw found (gone (λ (r : StackRevision). r.stack_name) name db.revisions),
      OwnsNothing-delete_stack name db,
      λ other ne. rw (
        find-remove (is_stack other) (is_stack name) db.stacks
            (λ r h. ground (arith, text_beq_iff r.name name, text_beq_iff r.name other)),
        get_stack,
      ),
      λ other n ne. rw found (
          rw (
            find-remove (is_revision other n) (λ (r : StackRevision). r.stack_name == name)
                db.revisions
                (λ r h.
                  ground (arith, text_beq_iff r.stack_name name, text_beq_iff r.stack_name other)),
            get_revision,
          )),
    )

-- A deletion of a stack that does not exist reports that, and has deleted every config and secret
-- that carries the name in its stack column: for the empty name, all of cluster scope.
pub delete_stack_missing :
    (name : Text) (db : Tables)
    → get_stack name db ≡ err stack_not_found
    → ((delete_stack name db).1 ≡ err stack_not_found) × OwnsNothing name (delete_stack name db).0
unfolding get_stack
delete_stack_missing name db missing =
    (unfold delete_stack in ground arith, OwnsNothing-delete_stack name db)
