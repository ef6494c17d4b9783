-- ===== src/Store/Configs/Replay.antt =====
-- The config tables behind any sequence of calls.
use poor_man_stack.Base.{ℕ, Text, List, [], ◌∷◌, Result, ok, err, ◌≡◌, refl}
use poor_man_stack.Store.Configs.{
  ConfigTables, ConfigError, rollback_config, delete_config, create_config, update_config,
  set_rendered,
}
use poor_man_stack.Store.Configs.Invariant.{
  IsSound, update_config-IsSound, rollback_config-IsSound, delete_config-IsSound,
  create_config-IsSound, set_rendered-IsSound,
}

-- A call that writes, with its arguments.
pub data Call : Type 0 where
  create : (scope stack name kind content version : Text) → Call
  change : (name content version : Text) → Call
  roll_back : (name : Text) (version_id : ℕ) → Call
  drop_config : (name : Text) → Call
  render : (name content : Text) → Call

abbrev pub empty_tables : ConfigTables
empty_tables = record { configs = []; versions = [] }

-- The tables behind a call: a call that fails leaves them as they were.
abbrev pub after_pair {ℓ} :
    {A : Type ℓ} → ConfigTables → Result ConfigError (ConfigTables × A) → ConfigTables
after_pair db (ok (db', _)) = db'
after_pair db (err _) = db

abbrev pub after_call : ConfigTables → Result ConfigError ConfigTables → ConfigTables
after_call db (ok db') = db'
after_call db (err _) = db

module _ (sha : Text → Text) where
  unfoldable pub apply : ℕ → Call → ConfigTables → ConfigTables
  apply now (create scope stack name kind content version) db =
      after_pair db (create_config sha now scope stack name kind content version db)
  apply now (change name content version) db =
      after_pair db (update_config sha now name content version db)
  apply now (roll_back name version_id) db = after_pair db (rollback_config now name version_id db)
  apply now (drop_config name) db = after_call db (delete_config name db)
  apply now (render name content) db = after_call db (set_rendered sha now name content db)

  -- Calls at their times, the first one first.
  unfoldable pub replay : List (ℕ × Call) → ConfigTables → ConfigTables
  unfolding apply
  replay [] db = db
  replay ((now, c) ∷ cs) db = replay cs (apply now c db)

  after_pair-IsSound {ℓ} :
      {A : Type ℓ} (db : ConfigTables) (r : Result ConfigError (ConfigTables × A))
      → IsSound sha db
      → ((db' : ConfigTables) (a : A) → r ≡ ok (db', a) → IsSound sha db')
      → IsSound sha (after_pair db r)
  after_pair-IsSound db (ok (db', a)) s h = h db' a refl
  after_pair-IsSound db (err e) s h = s

  after_call-IsSound :
      (db : ConfigTables) (r : Result ConfigError ConfigTables)
      → IsSound sha db
      → ((db' : ConfigTables) → r ≡ ok db' → IsSound sha db')
      → IsSound sha (after_call db r)
  after_call-IsSound db (ok db') s h = h db' refl
  after_call-IsSound db (err e) s h = s

  apply-IsSound :
      (now : ℕ) (c : Call) (db : ConfigTables) → IsSound sha db → IsSound sha (apply now c db)
  unfolding apply
  apply-IsSound now (create scope stack name kind content version) db s =
      after_pair-IsSound db _ s
        (λ db' id e. create_config-IsSound sha now scope stack name kind content version db s e)
  apply-IsSound now (change name content version) db s =
      after_pair-IsSound db _ s
        (λ db' h e. update_config-IsSound sha now name content version db s e)
  apply-IsSound now (roll_back name version_id) db s =
      after_pair-IsSound db _ s (λ db' h e. rollback_config-IsSound sha now name version_id db s e)
  apply-IsSound now (drop_config name) db s =
      after_call-IsSound db _ s (λ db' e. delete_config-IsSound sha name db s e)
  apply-IsSound now (render name content) db s =
      after_call-IsSound db _ s (λ db' e. set_rendered-IsSound sha now name content db s e)

  -- From tables that are sound, any sequence of calls, failing ones included, leads to sound
  -- tables: each hash is that of the content beside it, in the history too, no two configs share a
  -- name or an id, and every entry of the history belongs to a config.
  pub replay-IsSound :
      (cs : List (ℕ × Call)) (db : ConfigTables) → IsSound sha db → IsSound sha (replay cs db)
  unfolding replay
  replay-IsSound [] db s = s
  replay-IsSound ((now, c) ∷ cs) db s =
      replay-IsSound cs (apply now c db) (apply-IsSound now c db s)
