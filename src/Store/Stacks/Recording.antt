-- ===== src/Store/Stacks/Recording.antt =====
-- `RecordDeploy`: the revision, the pointer, the foreign key and everything else.
use poor_man_stack.Base.{
  ℕ, Text, text_eq, text_beq_iff, nat_eq, nat_beq_iff, true, ◌≡◌, refl, ◌≢◌, ◌⊎◌, none, some, List,
  [], ◌∷◌, ◌++◌, ok, err, All, All-append, All-imp, arith, Option-cases, inl, inr, is_some,
  if◌then◌else◌, subst,
}
use poor_man_stack.Base.Rows.{find, update}
use poor_man_stack.Base.Rows.Find.{
  find-append, find-append-none, find-append_miss, find-update_disjoint, find-update_hit,
  is_some-find-update, find-true,
}
use poor_man_stack.Store.Stacks.{
  StackRow, StackRevision, Tables, insert_revision_failed, is_stack, is_revision, nullable_string,
  coalesce, coalesce_null, insert_revision, insert_stack, point_stack, record_deploy, get_stack,
  get_revision,
}

-- The foreign key of the revisions.
abbrev pub AreOwned : Tables → Type 0
AreOwned db =
    All (λ (r : StackRevision). is_some (find (is_stack r.stack_name) db.stacks) ≡ true)
      db.revisions

module _ (now : ℕ) (rev : StackRevision) (repo_url : Text) (db : Tables) where
  stored : StackRevision
  stored = record rev { created_at = now }

  pointed : StackRow → StackRow
  pointed s = record s {
    current_revision = rev.revision;
    updated_at = now;
    repo_url = coalesce_null repo_url s.repo_url;
    source_file = coalesce rev.source_file s.source_file;
  }

  first_row : StackRow
  first_row = record {
    name = rev.stack_name;
    current_revision = rev.revision;
    repo_url = nullable_string repo_url;
    source_file = rev.source_file;
    created_at = now;
    updated_at = now;
  }

  -- The row of the stack afterwards.
  stacks_after : List StackRow
  stacks_after =
      if is_some (find (is_stack rev.stack_name) db.stacks)
      then update (is_stack rev.stack_name) pointed db.stacks
      else db.stacks ++ first_row ∷ []

  after : Tables
  after = record db { stacks = stacks_after; revisions = db.revisions ++ stored ∷ [] }

  is_stack_self : (s : StackRow) → s.name ≡ rev.stack_name → is_stack rev.stack_name s ≡ true
  is_stack_self s e = (text_beq_iff s.name rev.stack_name).1 e

  found_first :
      find (is_stack rev.stack_name) db.stacks ≡ none
      → find (is_stack rev.stack_name) (db.stacks ++ first_row ∷ []) ≡ some first_row
  found_first missing =
      find-append-none (is_stack rev.stack_name) db.stacks first_row missing
        (unfold first_row in is_stack_self first_row refl)

  -- On a fresh revision the statements add up to one insertion and one update or insertion.
  record_deploy-after :
      find (is_revision rev.stack_name rev.revision) db.revisions ≡ none
      → record_deploy now rev repo_url db ≡ ok after
  unfolding record_deploy insert_revision point_stack insert_stack after stacks_after stored pointed
      first_row
  record_deploy-after fresh = elim (Option-cases (find (is_stack rev.stack_name) db.stacks)) [
    | inl missing ↦ ground (arith, found_first missing)
    | inr (s, found) ↦ ground arith
  ]

  -- A revision that is taken is refused, and nothing is written.
  pub record_deploy-taken :
      (r : StackRevision)
      → find (is_revision rev.stack_name rev.revision) db.revisions ≡ some r
      → record_deploy now rev repo_url db ≡ err insert_revision_failed
  unfolding record_deploy insert_revision
  record_deploy-taken r taken = ground arith

  get_stack-after :
      (s : StackRow) × (get_stack rev.stack_name after ≡ ok s) × (s.current_revision ≡ rev.revision)
  unfolding get_stack after stacks_after
  get_stack-after = elim (Option-cases (find (is_stack rev.stack_name) db.stacks)) [
    | inl missing ↦ (first_row, ground (arith, found_first missing), unfold first_row in refl)
    | inr (s, found) ↦ (
      pointed s,
      ground (
        arith,
        find-update_hit (is_stack rev.stack_name) (is_stack rev.stack_name) pointed db.stacks s
            (λ r. unfold pointed in refl) found
            (find-true (is_stack rev.stack_name) db.stacks s found),
      ),
      unfold pointed in refl,
    )
  ]

  get_revision-after :
      find (is_revision rev.stack_name rev.revision) db.revisions ≡ none
      → get_revision rev.stack_name rev.revision after ≡ ok (record rev { created_at = now })
  unfolding get_revision after stored
  get_revision-after fresh = rw (
    find-append-none (is_revision rev.stack_name rev.revision) db.revisions
        (record rev { created_at = now }) fresh
        (ground (
          arith,
          text_beq_iff rev.stack_name rev.stack_name,
          nat_beq_iff rev.revision rev.revision,
        )),
    get_revision,
  )

  -- Every stack that was there is there, and the one of the revision is.
  is_some-find-after :
      (name : Text)
      → (is_some (find (is_stack name) db.stacks) ≡ true) ⊎ (name ≡ rev.stack_name)
      → is_some (find (is_stack name) after.stacks) ≡ true
  unfolding after stacks_after
  is_some-find-after name (inl there) =
      elim (Option-cases (find (is_stack rev.stack_name) db.stacks)) [
        | inl missing ↦ ground (arith, find-append (is_stack name) db.stacks (first_row ∷ []))
        | inr (s, found) ↦ ground (
          arith,
          is_some-find-update (is_stack name) (is_stack rev.stack_name) pointed db.stacks
              (λ r. unfold pointed in refl),
        )
      ]
  is_some-find-after name (inr same) =
      elim (Option-cases (find (is_stack rev.stack_name) db.stacks)) [
        | inl missing ↦ rw same (ground (arith, found_first missing))
        | inr (s, found) ↦ rw same (
            ground (
              arith,
              is_some-find-update (is_stack rev.stack_name) (is_stack rev.stack_name) pointed
                  db.stacks (λ r. unfold pointed in refl),
            ))
      ]

  AreOwned-after : AreOwned db → AreOwned after
  unfolding after stored
  AreOwned-after owned =
      All-append (λ (r : StackRevision). is_some (find (is_stack r.stack_name) stacks_after) ≡ true)
        db.revisions (record rev { created_at = now } ∷ [])
        (All-imp (λ (r : StackRevision). is_some (find (is_stack r.stack_name) db.stacks) ≡ true)
          (λ r. is_some (find (is_stack r.stack_name) stacks_after) ≡ true) db.revisions
          (λ r h. is_some-find-after r.stack_name (inl h)) owned)
        (is_some-find-after rev.stack_name (inr refl), tt)

  -- Another stack is found as before.
  get_stack-after_ne :
      (other : Text) → other ≢ rev.stack_name → get_stack other after ≡ get_stack other db
  unfolding get_stack after stacks_after
  get_stack-after_ne other ne = elim (Option-cases (find (is_stack rev.stack_name) db.stacks)) [
    | inl missing ↦ ground (
      arith,
      find-append_miss (is_stack other) db.stacks first_row
          (unfold first_row in ground (arith, text_beq_iff rev.stack_name other)),
    )
    | inr (s, found) ↦ ground (
      arith,
      find-update_disjoint (is_stack other) (is_stack rev.stack_name) pointed db.stacks
          (λ r. unfold pointed in refl)
          (λ r h. ground (arith, text_beq_iff r.name rev.stack_name, text_beq_iff r.name other)),
    )
  ]

  get_revision-after_ne :
      (name : Text) (n : ℕ)
      → (name ≢ rev.stack_name) ⊎ (n ≢ rev.revision)
      → get_revision name n after ≡ get_revision name n db
  unfolding get_revision after stored
  get_revision-after_ne name n ne = rw (
    find-append_miss (is_revision name n) db.revisions (record rev { created_at = now })
        (ground (arith, text_beq_iff rev.stack_name name, nat_beq_iff rev.revision n)),
    get_revision,
  )

  -- What a recorded deploy reads back.
  pub record_deploy-reads :
      (db' : Tables)
      → find (is_revision rev.stack_name rev.revision) db.revisions ≡ none
      → record_deploy now rev repo_url db ≡ ok db'
      → (s : StackRow) × (get_stack rev.stack_name db' ≡ ok s)
        × (s.current_revision ≡ rev.revision)
        × (get_revision rev.stack_name rev.revision db' ≡ ok (record rev { created_at = now }))
  record_deploy-reads db' fresh done =
      let (s, there, points) = get_stack-after in
      let same : after ≡ db' = cc (record_deploy-after fresh, done) in
      (
        s,
        subst (λ x. get_stack rev.stack_name x ≡ ok s) same there,
        points,
        subst
            (λ x. get_revision rev.stack_name rev.revision x ≡ ok (record rev { created_at = now }))
            same (get_revision-after fresh),
      )

  -- The tables that a deploy does not touch, and where the revision is put.
  pub record_deploy-keeps :
      (db' : Tables)
      → find (is_revision rev.stack_name rev.revision) db.revisions ≡ none
      → record_deploy now rev repo_url db ≡ ok db'
      → (db'.revisions ≡ db.revisions ++ record rev { created_at = now } ∷ [])
        × (db'.configs ≡ db.configs)
  record_deploy-keeps db' fresh done =
      let same : after ≡ db' = cc (record_deploy-after fresh, done) in
      (
        subst (λ x. x.revisions ≡ db.revisions ++ record rev { created_at = now } ∷ []) same
            (unfold after stored in refl),
        subst (λ x. x.configs ≡ db.configs) same (unfold after in refl),
      )

  -- A deploy of a revision that is not taken is recorded: the stack points at it, it reads back
  -- as it was given, every revision still belongs to a stack, and no other stack and no other
  -- revision reads differently.
  pub record_deploy_lem :
      find (is_revision rev.stack_name rev.revision) db.revisions ≡ none
      → AreOwned db
      → (db' : Tables) × (s : StackRow) × (record_deploy now rev repo_url db ≡ ok db')
        × (get_stack rev.stack_name db' ≡ ok s)
        × (s.current_revision ≡ rev.revision)
        × (get_revision rev.stack_name rev.revision db' ≡ ok (record rev { created_at = now }))
        × AreOwned db'
        × ((other : Text) → other ≢ rev.stack_name → get_stack other db' ≡ get_stack other db)
        × ((name : Text) (n : ℕ)
            → (name ≢ rev.stack_name) ⊎ (n ≢ rev.revision)
            → get_revision name n db' ≡ get_revision name n db)
  record_deploy_lem fresh owned =
      let (s, there, points) = get_stack-after in
      (
        after,
        s,
        record_deploy-after fresh,
        there,
        points,
        get_revision-after fresh,
        AreOwned-after owned,
        get_stack-after_ne,
        get_revision-after_ne,
      )
