-- ===== src/Store/Configs/History.antt =====
-- What a replaced value does to the config, to the others, and to the history.
use poor_man_stack.Base.{
  ℕ, ◌<◌, Text, ◌==◌, ◌&&◌, text_eq, text_beq_iff, nat_eq, false, ◌≡◌, refl, sym, ap, ◌∙◌, ◌≢◌,
  some, [], ◌∷◌, ok, All-imp, arith, Option-cases, Bool-cases, inl, inr, nat_beq_iff,
}
use poor_man_stack.Base.Rows.{
  find, select, update, next_id, sort_desc, IsUnique, next_id-above, sort_desc-append,
  select-append, All-select,
}
use poor_man_stack.Base.Rows.Find.{
  find-update_hit, find-update_miss, find-update-none, find_same_key, find-eq_key, find-append_last,
}
use poor_man_stack.Store.Configs.{
  ConfigRow, ConfigVersionRow, ConfigTables, named, has_id, get_config, push_version, find_version,
  list_config_versions, rollback_config, update_config,
}

pub get_config-eq-ok :
    (name : Text) (db : ConfigTables) {c : ConfigRow}
    → get_config name db ≡ ok c
    → find (named name) db.configs ≡ some c
unfolding get_config
get_config-eq-ok name db e = ground arith

get_config_of_find :
    (name : Text) (db : ConfigTables) (c : ConfigRow)
    → find (named name) db.configs ≡ some c
    → get_config name db ≡ ok c
unfolding get_config
get_config_of_find name db c e = rw (e, get_config)

-- The newest entry of the history, once a value has been pushed.
unfoldable pub pushed : ℕ → ConfigRow → ConfigTables → ConfigVersionRow
pushed now c db = record {
  id = next_id (λ (v : ConfigVersionRow). v.id) db.versions;
  config_id = c.id;
  content = c.content;
  hash = c.hash;
  created_at = now;
}

select-push_version :
    (now : ℕ) (c : ConfigRow) (db : ConfigTables)
    → sort_desc
        (λ (v : ConfigVersionRow). v.id)
        (select (λ v. v.config_id == c.id) (push_version now c db).versions)
      ≡ pushed now c db
        ∷ sort_desc (λ (v : ConfigVersionRow). v.id) (select (λ v. v.config_id == c.id) db.versions)
unfolding push_version pushed
select-push_version now c db =
    rw
      (select-append (λ (v : ConfigVersionRow). v.config_id == c.id) db.versions
        (pushed now c db ∷ []))
      (rw (only (pushed now c db) refl) (
        sort_desc-append (λ (v : ConfigVersionRow). v.id)
          (select (λ v. v.config_id == c.id) db.versions) (pushed now c db)
          (All-select (λ v. v.config_id == c.id) (λ v. v.id < (pushed now c db).id) db.versions
            (next_id-above (λ (v : ConfigVersionRow). v.id) db.versions))))
  where
    only :
        (v : ConfigVersionRow)
        → v.config_id ≡ c.id
        → select (λ (x : ConfigVersionRow). x.config_id == c.id) (v ∷ []) ≡ v ∷ []
    only v e = unfold select in ground (arith, nat_beq_iff v.config_id c.id)

find_version_of_find :
    (version_id config_id : ℕ) (db : ConfigTables) (v : ConfigVersionRow)
    → find (λ (v : ConfigVersionRow). v.id == version_id && v.config_id == config_id) db.versions
      ≡ some v
    → find_version version_id config_id db ≡ ok v
unfolding find_version
find_version_of_find version_id config_id db v e = rw (e, find_version)

find_version-push_version :
    (now : ℕ) (c : ConfigRow) (db : ConfigTables)
    → find_version (pushed now c db).id c.id (push_version now c db) ≡ ok (pushed now c db)
find_version-push_version now c db =
    let id = (pushed now c db).id in
    find_version_of_find id c.id (push_version now c db) (pushed now c db) (
      unfold push_version pushed in
      find-append_last (λ (v : ConfigVersionRow). v.id == id && v.config_id == c.id) db.versions
        (pushed now c db)
        (All-imp (λ v. v.id < id) (λ v. (v.id == id && v.config_id == c.id) ≡ false) db.versions
          (λ v h. ground arith) (next_id-above (λ (v : ConfigVersionRow). v.id) db.versions))
        (ground arith))

-- A statement that rewrites the row of `c` leaves what other names find.
get_config-update_ne :
    (name other : Text) (c : ConfigRow) (f : ConfigRow → ConfigRow) (db : ConfigTables)
    → IsUnique (λ (c : ConfigRow). c.id) db.configs
    → find (named name) db.configs ≡ some c
    → ((r : ConfigRow) → (f r).name ≡ r.name)
    → other ≢ name
    → find (named other) (update (has_id c.id) f db.configs) ≡ find (named other) db.configs
get_config-update_ne name other c f db unique found same ne =
    elim (Option-cases (find (named other) db.configs)) [
      | inl missing ↦
          find-update-none (named other) (has_id c.id) f db.configs renamed missing ∙ sym missing
      | inr (d, there) ↦ elim (Bool-cases (has_id c.id d)) [
        | inl clash ↦
            let c_is_d =
              find_same_key (λ (c : ConfigRow). c.id) (named name) (named other) db.configs c d
                unique found there (sym ((nat_beq_iff d.id c.id).0 clash)) in
            absurd (
              ne (
                sym (find-eq_key (λ (c : ConfigRow). c.name) other db.configs d there)
                ∙ ap (λ (r : ConfigRow). r.name) (sym c_is_d)
                ∙ find-eq_key (λ (c : ConfigRow). c.name) name db.configs c found))
        | inr apart ↦
            find-update_miss (named other) (has_id c.id) f db.configs d renamed there apart
            ∙ sym there
      ]
    ]
  where
    renamed : (r : ConfigRow) → named other (f r) ≡ named other r
    renamed r = ap (λ n. n == other) (same r)

-- The tables after a value of `c` has been replaced, its old one pushed.
unfoldable pub replaced : ℕ → ConfigRow → (ConfigRow → ConfigRow) → ConfigTables → ConfigTables
replaced now c f db = record (push_version now c db) {
  configs = update (has_id c.id) f (push_version now c db).configs;
}

pub find_version-replaced :
    (now : ℕ) (c : ConfigRow) (f : ConfigRow → ConfigRow) (db : ConfigTables)
    → find_version (pushed now c db).id c.id (replaced now c f db) ≡ ok (pushed now c db)
unfolding find_version replaced
find_version-replaced now c f db = find_version-push_version now c db

module _ (now : ℕ) (name : Text) (c : ConfigRow) (db : ConfigTables)
    (here : get_config name db ≡ ok c) where
  module _ (f : ConfigRow → ConfigRow) (same_id : (r : ConfigRow) → (f r).id ≡ r.id)
      (same_name : (r : ConfigRow) → (f r).name ≡ r.name) where
    pub get_config-replaced : get_config name (replaced now c f db) ≡ ok (f c)
    get_config-replaced = get_config_of_find name (replaced now c f db) (f c) (
        unfold replaced push_version in
        find-update_hit (named name) (has_id c.id) f db.configs c
          (λ r. ap (λ n. n == name) (same_name r)) (get_config-eq-ok name db here)
          ((nat_beq_iff c.id c.id).1 refl))

    pub list_config_versions-replaced :
        list_config_versions name (replaced now c f db)
        ≡ ok (
            pushed now c db
            ∷ sort_desc
                (λ (v : ConfigVersionRow). v.id)
                (select (λ v. v.config_id == c.id) db.versions))
    unfolding list_config_versions
    list_config_versions-replaced =
        rw get_config-replaced
          (rw (same_id c) (ap ok (unfold replaced in select-push_version now c db)))

    pub get_config-replaced_ne :
        (other : Text)
        → IsUnique (λ (c : ConfigRow). c.id) db.configs
        → other ≢ name
        → get_config other (replaced now c f db) ≡ get_config other db
    unfolding get_config
    get_config-replaced_ne other unique ne =
        let kept : find (named other) (replaced now c f db).configs
            ≡ find (named other) db.configs =
          unfold replaced push_version in
          get_config-update_ne name other c f db unique (get_config-eq-ok name db here) same_name
            ne in
        rw (kept, get_config)

  pub rollback_config-replaced :
      (version_id : ℕ) (v : ConfigVersionRow)
      → find_version version_id c.id db ≡ ok v
      → rollback_config now name version_id db
        ≡ ok (
          replaced now c
              (λ r. record r { content = v.content; hash = v.hash; updated_at = now })
              db,
          v.hash,
        )
  unfolding rollback_config replaced
  rollback_config-replaced version_id v e = rw (here, e)

  pub update_config-replaced :
      (sha : Text → Text) (content version : Text)
      → sha content ≢ c.hash
      → update_config sha now name content version db
        ≡ ok (
          replaced now c
              (λ r. record r {
                content = content;
                version = version;
                hash = sha content;
                updated_at = now;
              })
              db,
          sha content,
        )
  unfolding update_config replaced
  update_config-replaced sha content version ne = ground (arith, text_beq_iff (sha content) c.hash)
