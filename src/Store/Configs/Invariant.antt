-- ===== src/Store/Configs/Invariant.antt =====
-- What holds of the config tables after every statement of the component.
use poor_man_stack.Base.{
  ℕ, Text, ◌==◌, text_eq, nat_eq, Bool, true, ◌≡◌, refl, ap, subst, Option, none, some, List, [],
  ◌∷◌, ◌++◌, ok, All, All-append, All-imp, is_some, ◌&&◌, arith, Option-cases, Bool-cases, inl, inr,
}
use poor_man_stack.Base.Rows.{
  find, update, remove, next_id, IsUnique, IsUnique-append, IsUnique-update, IsUnique-remove,
  next_id-IsFresh, All-update, All-remove, All-remove_imp,
}
use poor_man_stack.Base.Rows.Find.{
  All-find, find-append, is_some-find-update, IsFresh-of_find, is_some-find-remove,
}
use poor_man_stack.Store.Configs.{
  ConfigRow, ConfigVersionRow, ConfigTables, named, has_id, push_version, rollback_config,
  delete_config, create_config, update_config, set_rendered, meets_checks,
}

module _ (sha : Text → Text) where
  pub record IsSound (db : ConfigTables) : Type 0 where
    -- The hash column always matches the content bytes, in the history too.
    pub hashed : All (λ (c : ConfigRow). c.hash ≡ sha c.content) db.configs
    pub kept : All (λ (v : ConfigVersionRow). v.hash ≡ sha v.content) db.versions
    pub names : IsUnique (λ (c : ConfigRow). c.name) db.configs
    pub ids : IsUnique (λ (c : ConfigRow). c.id) db.configs
    pub version_ids : IsUnique (λ (v : ConfigVersionRow). v.id) db.versions
    -- The foreign key of the history.
    pub owned :
        All
          (λ (v : ConfigVersionRow). is_some (find (has_id v.config_id) db.configs) ≡ true)
          db.versions

  pub empty-IsSound : IsSound (record { configs = []; versions = [] })
  empty-IsSound = record {
    hashed = tt;
    kept = tt;
    names = tt;
    ids = tt;
    version_ids = tt;
    owned = tt;
  }

  is_some_of_find {ℓ} : {A : Type ℓ} (o : Option A) (a : A) → o ≡ some a → is_some o ≡ true
  is_some_of_find o a e = rw e refl

  -- A row that is found by name is found by its id.
  is_some-find-id :
      (name : Text) (rows : List ConfigRow) (c : ConfigRow)
      → find (named name) rows ≡ some c
      → is_some (find (has_id c.id) rows) ≡ true
  unfolding find
  is_some-find-id name [] c e = cc
  is_some-find-id name (r ∷ rows) c e = ground (arith, is_some-find-id name rows c)

  push_version-IsSound :
      (now : ℕ) (name : Text) (c : ConfigRow) (db : ConfigTables)
      → find (named name) db.configs ≡ some c
      → IsSound db
      → IsSound (push_version now c db)
  unfolding push_version
  push_version-IsSound now name c db found s = record {
    hashed = s.hashed;
    kept =
        All-append (λ (v : ConfigVersionRow). v.hash ≡ sha v.content) db.versions _ s.kept
          (All-find (named name) (λ c. c.hash ≡ sha c.content) db.configs c s.hashed found, tt);
    names = s.names;
    ids = s.ids;
    version_ids =
        IsUnique-append (λ (v : ConfigVersionRow). v.id) db.versions _ s.version_ids
          (next_id-IsFresh (λ (v : ConfigVersionRow). v.id) db.versions);
    owned =
        All-append (λ (v : ConfigVersionRow). is_some (find (has_id v.config_id) db.configs) ≡ true)
          db.versions _ s.owned (is_some-find-id name db.configs c found, tt);
  }

  -- A statement that rewrites rows of `configs`, and keeps their keys and the match of the hashes.
  update-IsSound :
      (where_ : ConfigRow → Bool) (f : ConfigRow → ConfigRow) (db : ConfigTables)
      → ((c : ConfigRow) → (f c).id ≡ c.id)
      → ((c : ConfigRow) → (f c).name ≡ c.name)
      → ((c : ConfigRow) → c.hash ≡ sha c.content → (f c).hash ≡ sha (f c).content)
      → IsSound db
      → IsSound (record db { configs = update where_ f db.configs })
  update-IsSound where_ f db same_id same_name match s = record {
    hashed = All-update where_ (λ c. c.hash ≡ sha c.content) f db.configs match s.hashed;
    kept = s.kept;
    names = IsUnique-update (λ (c : ConfigRow). c.name) where_ f same_name db.configs s.names;
    ids = IsUnique-update (λ (c : ConfigRow). c.id) where_ f same_id db.configs s.ids;
    version_ids = s.version_ids;
    owned =
        All-imp (λ (v : ConfigVersionRow). is_some (find (has_id v.config_id) db.configs) ≡ true)
          (λ v. is_some (find (has_id v.config_id) (update where_ f db.configs)) ≡ true) db.versions
          (λ v h.
            rw
              (is_some-find-update (has_id v.config_id) where_ f db.configs
                (λ r. ap (λ i. i == v.config_id) (same_id r)))
              h)
          s.owned;
  }

  pub update_config-IsSound :
      (now : ℕ) (name content version : Text) (db : ConfigTables) {db' : ConfigTables} {h : Text}
      → IsSound db
      → update_config sha now name content version db ≡ ok (db', h)
      → IsSound db'
  unfolding update_config
  update_config-IsSound now name content version db s e =
      elim (Option-cases (find (named name) db.configs)) [
        | inl missing ↦ absurd (ground arith)
        | inr (c, found) ↦ elim (Bool-cases (sha content == c.hash)) [
          | inl same ↦ subst IsSound (ground arith) s
          | inr changed ↦ subst IsSound (ground arith) (
              update-IsSound (has_id c.id)
                (λ r. record r {
                  content = content;
                  version = version;
                  hash = sha content;
                  updated_at = now;
                })
                (push_version now c db) (λ r. refl) (λ r. refl) (λ r h. refl)
                (push_version-IsSound now name c db found s))
        ]
      ]

  pub rollback_config-IsSound :
      (now : ℕ) (name : Text) (version_id : ℕ) (db : ConfigTables) {db' : ConfigTables} {h : Text}
      → IsSound db
      → rollback_config now name version_id db ≡ ok (db', h)
      → IsSound db'
  unfolding rollback_config
  rollback_config-IsSound now name version_id db s e =
      elim (Option-cases (find (named name) db.configs)) [
        | inl missing ↦ absurd (ground arith)
        | inr (c, found) ↦
            elim (Option-cases (
              find (λ (v : ConfigVersionRow). v.id == version_id && v.config_id == c.id)
                db.versions)) [
                  | inl unknown ↦ absurd (ground arith)
                  | inr (v, old) ↦ subst IsSound (ground arith) (
                      update-IsSound (has_id c.id)
                        (λ r. record r { content = v.content; hash = v.hash; updated_at = now })
                        (push_version now c db) (λ r. refl) (λ r. refl)
                        (λ r h.
                          All-find
                            (λ (v : ConfigVersionRow). v.id == version_id && v.config_id == c.id)
                            (λ v. v.hash ≡ sha v.content) db.versions v s.kept old)
                        (push_version-IsSound now name c db found s))
                ]
      ]

  pub delete_config-IsSound :
      (name : Text) (db : ConfigTables) {db' : ConfigTables}
      → IsSound db
      → delete_config name db ≡ ok db'
      → IsSound db'
  unfolding delete_config
  delete_config-IsSound name db s e = elim (Option-cases (find (named name) db.configs)) [
    | inl missing ↦ absurd (ground arith)
    | inr (c, found) ↦ subst IsSound (ground arith) (
        let after : ConfigTables = record {
          configs = remove (named name) db.configs;
          versions = remove (λ v. v.config_id == c.id) db.versions;
        } in
        let sound : IsSound after = record {
          hashed = All-remove (named name) (λ c. c.hash ≡ sha c.content) db.configs s.hashed;
          kept =
              All-remove (λ v. v.config_id == c.id) (λ v. v.hash ≡ sha v.content) db.versions
                s.kept;
          names = IsUnique-remove (λ (c : ConfigRow). c.name) (named name) db.configs s.names;
          ids = IsUnique-remove (λ (c : ConfigRow). c.id) (named name) db.configs s.ids;
          version_ids =
              IsUnique-remove (λ (v : ConfigVersionRow). v.id) (λ v. v.config_id == c.id)
                db.versions s.version_ids;
          owned =
              All-remove_imp (λ v. v.config_id == c.id)
                (λ (v : ConfigVersionRow). is_some (find (has_id v.config_id) db.configs) ≡ true)
                (λ v. is_some (find (has_id v.config_id) (remove (named name) db.configs)) ≡ true)
                db.versions
                (λ v h other.
                  is_some-find-remove (λ (c : ConfigRow). c.name) (has_id v.config_id) name
                    db.configs c s.names found (ground arith) h)
                s.owned;
        } in
        sound)
  ]

  pub create_config-IsSound :
      (now : ℕ) (scope stack name kind content version : Text) (db : ConfigTables)
      {db' : ConfigTables} {id : ℕ}
      → IsSound db
      → create_config sha now scope stack name kind content version db ≡ ok (db', id)
      → IsSound db'
  unfolding create_config
  create_config-IsSound now scope stack name kind content version db s e =
      elim (Option-cases (find (named name) db.configs)) [
        | inr (c, taken) ↦ absurd (ground arith)
        | inl free ↦ elim (Bool-cases (meets_checks scope kind)) [
          | inr refused ↦ absurd (ground arith)
          | inl admitted ↦ subst IsSound (ground arith) (appended free)
        ]
      ]
    where
      row : ConfigRow
      row = record {
        id = next_id (λ (c : ConfigRow). c.id) db.configs;
        scope = scope;
        stack = stack;
        name = name;
        kind = kind;
        content = content;
        version = version;
        hash = sha content;
        created_at = now;
        updated_at = now;
        rendered_content = [];
        rendered_at = 0;
        rendered_hash = [];
      }

      appended :
          find (named name) db.configs ≡ none
          → IsSound (record db { configs = db.configs ++ row ∷ [] })
      appended free = record {
        hashed =
            All-append (λ (c : ConfigRow). c.hash ≡ sha c.content) db.configs (row ∷ []) s.hashed
              (refl, tt);
        kept = s.kept;
        names =
            IsUnique-append (λ (c : ConfigRow). c.name) db.configs row s.names
              (IsFresh-of_find (λ (c : ConfigRow). c.name) name db.configs free);
        ids =
            IsUnique-append (λ (c : ConfigRow). c.id) db.configs row s.ids
              (next_id-IsFresh (λ (c : ConfigRow). c.id) db.configs);
        version_ids = s.version_ids;
        owned =
            All-imp
              (λ (v : ConfigVersionRow). is_some (find (has_id v.config_id) db.configs) ≡ true)
              (λ v. is_some (find (has_id v.config_id) (db.configs ++ row ∷ [])) ≡ true) db.versions
              (λ v h. ground (arith, find-append (has_id v.config_id) db.configs (row ∷ [])))
              s.owned;
      }

  pub set_rendered-IsSound :
      (now : ℕ) (name content : Text) (db : ConfigTables) {db' : ConfigTables}
      → IsSound db
      → set_rendered sha now name content db ≡ ok db'
      → IsSound db'
  unfolding set_rendered
  set_rendered-IsSound now name content db s e = subst IsSound (ground arith) (
      update-IsSound (named name)
        (λ r. record r {
          rendered_content = content;
          rendered_hash = sha content;
          rendered_at = now;
        })
        db (λ r. refl) (λ r. refl) (λ r h. h) s)
