-- ===== src/Tests/StoreRuns.antt =====
-- The store's tables on a few rows, with a hash that keeps the content.
use poor_man_stack.Base.{
  ℕ, ◌≤◌, ◌<◌, Text, codes, text_eq, nat_eq, true, ◌≡◌, refl, ◌≢◌, ◌⊎◌, none, List, [], ◌∷◌, ok,
  err, is_some, arith, subst, All,
}
use poor_man_stack.Base.Rows.{find, next_id, update, select, sort_desc}
use poor_man_stack.Store.Configs.{
  ConfigRow, ConfigVersionRow, ConfigTables, get_config, find_version, list_config_versions,
  rollback_config, update_config, create_config, delete_config, config_not_found, meets_checks,
  push_version, set_rendered,
}
use poor_man_stack.Store.Configs.Invariant.{IsSound, empty-IsSound}
use poor_man_stack.Store.Configs.Replay.{
  Call, create, change, roll_back, drop_config, empty_tables, apply, replay, replay-IsSound,
}
use poor_man_stack.Store.Configs.Reversal.{
  update_config-get_config, rollback_config-update_config, rollback_config-get_config,
}
use poor_man_stack.Store.Stacks.{
  StackRow, StackRevision, Tables, is_revision, record_deploy, get_stack, get_revision,
  next_free_revision, delete_stack, stack_not_found,
}
use poor_man_stack.Store.Stacks.Recording.{AreOwned, record_deploy_lem}
use poor_man_stack.Store.Stacks.FreeRevision.{next_free_revision_lem}
use poor_man_stack.Store.Stacks.Deletion.{OwnsNothing, delete_stack_lem, delete_stack_missing}

abbrev keep : Text → Text
keep content = content

abbrev nginx : Text
nginx = codes "nginx"

abbrev calls : List (ℕ × Call)
calls =
    (1, create (codes "cluster") [] nginx (codes "file") (codes "a") (codes "v1"))
    ∷ (2, change nginx (codes "b") (codes "v1"))
    ∷ (3, roll_back nginx 1)
    ∷ (4, drop_config (codes "missing"))
    ∷ []

store : Unit {0}
unfolding replay apply create_config update_config rollback_config delete_config set_rendered
    get_config find_version list_config_versions push_version meets_checks find next_id update
    select sort_desc record_deploy get_stack get_revision next_free_revision delete_stack
store = tt

replay-IsSound_example : IsSound keep (replay keep calls empty_tables)
replay-IsSound_example = replay-IsSound keep calls empty_tables (empty-IsSound keep)

abbrev nginx_row : ConfigRow
nginx_row = record {
  id = 1;
  scope = codes "cluster";
  stack = [];
  name = nginx;
  kind = codes "file";
  content = codes "b";
  version = codes "v1";
  hash = codes "b";
  created_at = 1;
  updated_at = 2;
  rendered_content = [];
  rendered_at = 0;
  rendered_hash = [];
}

abbrev old_version : ConfigVersionRow
old_version = record {
  id = 1;
  config_id = 1;
  content = codes "a";
  hash = codes "a";
  created_at = 2;
}

-- The tables behind the first two calls.
abbrev changed_once : ConfigTables
changed_once = record { configs = nginx_row ∷ []; versions = old_version ∷ [] }

abbrev first_calls : List (ℕ × Call)
first_calls =
    (1, create (codes "cluster") [] nginx (codes "file") (codes "a") (codes "v1"))
    ∷ (2, change nginx (codes "b") (codes "v1"))
    ∷ []

first_calls_run : replay keep first_calls empty_tables ≡ changed_once
unfolding store
first_calls_run = refl

changed_once-IsSound : IsSound keep changed_once
changed_once-IsSound =
    subst (IsSound keep) first_calls_run
      (replay-IsSound keep first_calls empty_tables (empty-IsSound keep))

abbrev update_content : Text
update_content = []

update_config-get_config_example :
    (get_config nginx changed_once ≡ err config_not_found)
      × (update_config keep 5 nginx update_content [] changed_once ≡ err config_not_found)
    ⊎ ((db' : ConfigTables) × (c' : ConfigRow) × (update_config keep 5 nginx update_content []
            changed_once
          ≡ ok (db', keep update_content))
        × (get_config nginx db' ≡ ok c')
        × (c'.hash ≡ keep update_content)
        × (c'.hash ≡ keep c'.content)
        × ((other : Text) → other ≢ nginx → get_config other db' ≡ get_config other changed_once))
update_config-get_config_example =
    update_config-get_config keep 5 nginx update_content [] changed_once changed_once-IsSound

rollback_config-update_config_example :
    (db' : ConfigTables) × (v : ConfigVersionRow) × (older : List ConfigVersionRow)
    × (db'' : ConfigTables) × (c'' : ConfigRow) × (update_config keep 5 nginx update_content []
          changed_once
        ≡ ok (db', keep update_content))
    × (list_config_versions nginx db' ≡ ok (v ∷ older))
    × (rollback_config 6 nginx v.id db' ≡ ok (db'', nginx_row.hash))
    × (get_config nginx db'' ≡ ok c'')
    × (c''.content ≡ nginx_row.content)
    × (c''.hash ≡ nginx_row.hash)
unfolding store
rollback_config-update_config_example =
    rollback_config-update_config keep 5 6 nginx update_content [] changed_once nginx_row refl
      (λ e. cc e)

rollback_config-get_config_example :
    (db' : ConfigTables) × (c' : ConfigRow) × (w : ConfigVersionRow) × (older : List
      ConfigVersionRow)
    × (rollback_config 5 nginx 1 changed_once ≡ ok (db', old_version.hash))
    × (get_config nginx db' ≡ ok c')
    × (c'.content ≡ old_version.content)
    × (c'.hash ≡ old_version.hash)
    × (list_config_versions nginx db' ≡ ok (w ∷ older))
    × (w.content ≡ nginx_row.content)
    × ((other : Text) → other ≢ nginx → get_config other db' ≡ get_config other changed_once)
unfolding store
rollback_config-get_config_example =
    rollback_config-get_config keep 5 nginx 1 changed_once nginx_row old_version
      changed_once-IsSound refl refl

abbrev web : Text
web = codes "web"

abbrev web_row : StackRow
web_row = record {
  name = web;
  current_revision = 100;
  repo_url = none;
  source_file = [];
  created_at = 100;
  updated_at = 100;
}

abbrev revision_at : ℕ → StackRevision
revision_at n = record {
  stack_name = web;
  revision = n;
  source_yaml = codes "name: web";
  rendered_yaml = codes "services:";
  rendered_hash = codes "h";
  source_file = [];
  payload_json = none;
  created_at = 100;
}

abbrev one_stack : Tables
one_stack = record {
  stacks = web_row ∷ [];
  revisions = revision_at 100 ∷ [];
  configs = changed_once;
  secrets = record { name = codes "key"; stack = web } ∷ [];
}

record_deploy_lem_example :
    (db' : Tables) × (s : StackRow) × (record_deploy 105 (revision_at 105) [] one_stack ≡ ok db')
    × (get_stack web db' ≡ ok s)
    × (s.current_revision ≡ 105)
    × (get_revision web 105 db' ≡ ok (record (revision_at 105) { created_at = 105 }))
    × AreOwned db'
    × ((other : Text) → other ≢ web → get_stack other db' ≡ get_stack other one_stack)
    × ((name : Text) (n : ℕ)
        → (name ≢ web) ⊎ (n ≢ 105)
        → get_revision name n db' ≡ get_revision name n one_stack)
unfolding store
record_deploy_lem_example = record_deploy_lem 105 (revision_at 105) [] one_stack refl (refl, tt)

next_free_revision_lem_example :
    (found : ℕ) × (next_free_revision web 100 one_stack ≡ ok found)
    × (100 ≤ found)
    × (find (is_revision web found) one_stack.revisions ≡ none)
    × ((n : ℕ)
        → 100 ≤ n
        → n < found
        → is_some (find (is_revision web n) one_stack.revisions) ≡ true)
next_free_revision_lem_example = next_free_revision_lem web 100 one_stack (omega arith)

delete_stack_lem_example :
    ((delete_stack web one_stack).1 ≡ ok tt)
    × (get_stack web (delete_stack web one_stack).0 ≡ err stack_not_found)
    × All (λ (r : StackRevision). r.stack_name ≢ web) (delete_stack web one_stack).0.revisions
    × OwnsNothing web (delete_stack web one_stack).0
    × ((other : Text)
        → other ≢ web
        → get_stack other (delete_stack web one_stack).0 ≡ get_stack other one_stack)
    × ((other : Text) (n : ℕ)
        → other ≢ web
        → get_revision other n (delete_stack web one_stack).0 ≡ get_revision other n one_stack)
unfolding store
delete_stack_lem_example = delete_stack_lem web one_stack web_row refl

-- The empty name, which is that of no stack and the stack column of cluster scope.
delete_stack_missing_example :
    ((delete_stack [] one_stack).1 ≡ err stack_not_found)
    × OwnsNothing [] (delete_stack [] one_stack).0
unfolding store
delete_stack_missing_example = delete_stack_missing [] one_stack refl
