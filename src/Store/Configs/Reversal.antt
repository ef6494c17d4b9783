-- ===== src/Store/Configs/Reversal.antt =====
-- What `UpdateConfig` and `RollbackConfig` promise together.
use poor_man_stack.Base.{
  ℕ, Text, ◌==◌, text_eq, text_beq_iff, nat_eq, ◌≡◌, refl, sym, ◌≢◌, ◌⊎◌, List, ◌∷◌, ok, err, arith,
  Option-cases, Bool-cases, inl, inr,
}
use poor_man_stack.Base.Rows.{find}
use poor_man_stack.Base.Rows.Find.{All-find}
use poor_man_stack.Store.Configs.{
  ConfigRow, ConfigVersionRow, ConfigTables, named, get_config, find_version, list_config_versions,
  rollback_config, update_config, config_not_found,
}
use poor_man_stack.Store.Configs.Invariant.{IsSound}
use poor_man_stack.Store.Configs.History.{
  pushed, replaced, get_config-eq-ok, find_version-replaced, rollback_config-replaced,
  update_config-replaced, get_config-replaced, get_config-replaced_ne,
  list_config_versions-replaced,
}

pub get_config-cases :
    (name : Text) (db : ConfigTables)
    → (get_config name db ≡ err config_not_found) ⊎ ((c : ConfigRow) × (get_config name db ≡ ok c))
unfolding get_config
get_config-cases name db = elim (Option-cases (find (named name) db.configs)) [
  | inl missing ↦ inl (rw (missing, get_config))
  | inr (c, found) ↦ inr (c, rw (found, get_config))
]

module _ (sha : Text → Text) where
  -- An update that succeeds leaves the config with the hash of the new content, on a row whose
  -- content has that hash, and leaves what every other name finds. It succeeds exactly when there
  -- is a config of that name.
  pub update_config-get_config :
      (now : ℕ) (name content version : Text) (db : ConfigTables)
      → IsSound sha db
      → (get_config name db ≡ err config_not_found)
          × (update_config sha now name content version db ≡ err config_not_found)
        ⊎ ((db' : ConfigTables) × (c' : ConfigRow) × (update_config sha now name content version db
              ≡ ok (db', sha content))
            × (get_config name db' ≡ ok c')
            × (c'.hash ≡ sha content)
            × (c'.hash ≡ sha c'.content)
            × ((other : Text) → other ≢ name → get_config other db' ≡ get_config other db))
  update_config-get_config now name content version db sound = elim (get_config-cases name db) [
    | inl missing ↦ inl (missing, unfold update_config in rw (missing, update_config))
    | inr (c, here) ↦ elim (Bool-cases (sha content == c.hash)) [
      | inl same ↦ inr (
        db,
        c,
        (unfold update_config in ground (arith, text_beq_iff (sha content) c.hash)),
        here,
        sym ((text_beq_iff (sha content) c.hash).0 same),
        hashed c here,
        λ other ne. refl,
      )
      | inr changed ↦
          let ne : sha content ≢ c.hash =
            λ e. cc (changed, (text_beq_iff (sha content) c.hash).1 e) in
          let f : ConfigRow → ConfigRow = λ r. record r {
            content = content;
            version = version;
            hash = sha content;
            updated_at = now;
          } in
          inr (
            replaced now c f db,
            f c,
            update_config-replaced now name c db here sha content version ne,
            get_config-replaced now name c db here f (λ r. refl) (λ r. refl),
            refl,
            refl,
            λ other ne.
                get_config-replaced_ne now name c db here f (λ r. refl) (λ r. refl) other sound.ids
                  ne,
          )
    ]
  ]
    where
      hashed : (c : ConfigRow) → get_config name db ≡ ok c → c.hash ≡ sha c.content
      hashed c here =
          All-find (named name) (λ c. c.hash ≡ sha c.content) db.configs c sound.hashed
            (get_config-eq-ok name db here)

  -- After an update that changed the hash, the newest entry of the history holds the old content,
  -- and a rollback to that entry brings it back.
  pub rollback_config-update_config :
      (now later : ℕ) (name content version : Text) (db : ConfigTables) (c : ConfigRow)
      → get_config name db ≡ ok c
      → sha content ≢ c.hash
      → (db' : ConfigTables) × (v : ConfigVersionRow) × (older : List ConfigVersionRow)
        × (db'' : ConfigTables) × (c'' : ConfigRow) × (update_config sha now name content version db
            ≡ ok (db', sha content))
        × (list_config_versions name db' ≡ ok (v ∷ older))
        × (rollback_config later name v.id db' ≡ ok (db'', c.hash))
        × (get_config name db'' ≡ ok c'')
        × (c''.content ≡ c.content)
        × (c''.hash ≡ c.hash)
  unfolding pushed
  rollback_config-update_config now later name content version db c here ne =
      let f : ConfigRow → ConfigRow = λ r. record r {
        content = content;
        version = version;
        hash = sha content;
        updated_at = now;
      } in
      let db' = replaced now c f db in
      let v = pushed now c db in
      let g : ConfigRow → ConfigRow =
        λ r. record r { content = c.content; hash = c.hash; updated_at = later } in
      let here' = get_config-replaced now name c db here f (λ r. refl) (λ r. refl) in
      (
        db',
        v,
        _,
        replaced later (f c) g db',
        g (f c),
        update_config-replaced now name c db here sha content version ne,
        list_config_versions-replaced now name c db here f (λ r. refl) (λ r. refl),
        rollback_config-replaced later name (f c) db' here' v.id v
            (find_version-replaced now c f db),
        get_config-replaced later name (f c) db' here' g (λ r. refl) (λ r. refl),
        refl,
        refl,
      )

-- A rollback that finds the entry makes its content and hash the current ones, keeps the value that
-- was current as the newest entry of the history, and leaves what every other name finds.
pub rollback_config-get_config :
    (sha : Text → Text) (now : ℕ) (name : Text) (version_id : ℕ) (db : ConfigTables) (c : ConfigRow)
    (v : ConfigVersionRow)
    → IsSound sha db
    → get_config name db ≡ ok c
    → find_version version_id c.id db ≡ ok v
    → (db' : ConfigTables) × (c' : ConfigRow) × (w : ConfigVersionRow) × (older : List
        ConfigVersionRow)
      × (rollback_config now name version_id db ≡ ok (db', v.hash))
      × (get_config name db' ≡ ok c')
      × (c'.content ≡ v.content)
      × (c'.hash ≡ v.hash)
      × (list_config_versions name db' ≡ ok (w ∷ older))
      × (w.content ≡ c.content)
      × ((other : Text) → other ≢ name → get_config other db' ≡ get_config other db)
unfolding pushed
rollback_config-get_config sha now name version_id db c v sound here found =
    let f : ConfigRow → ConfigRow =
      λ r. record r { content = v.content; hash = v.hash; updated_at = now } in
    (
      replaced now c f db,
      f c,
      pushed now c db,
      _,
      rollback_config-replaced now name c db here version_id v found,
      get_config-replaced now name c db here f (λ r. refl) (λ r. refl),
      refl,
      refl,
      list_config_versions-replaced now name c db here f (λ r. refl) (λ r. refl),
      refl,
      λ other ne.
          get_config-replaced_ne now name c db here f (λ r. refl) (λ r. refl) other sound.ids ne,
    )
