-- ===== src/Store/Configs.antt =====
-- `pmcluster/internal/store/configs.go`, over the tables of the migrations 0008 to 0013. SHA-256 is
-- the parameter `sha`; a statement fails by a constraint of its table and in no other way.
pub mod Invariant
pub mod History
pub mod Reversal
pub mod Replay
use poor_man_stack.Base.{
  ℕ, Text, codes, ◌==◌, text_eq, nat_eq, Bool, true, false, not, ◌&&◌, ◌||◌, Option, none, some,
  List, [], ◌∷◌, ◌++◌, Result, ok, err, if◌then◌else◌, require, ◌>>=◌, ◌>>◌, is_some,
}
use poor_man_stack.Base.Rows.Sorting.{text_leb, sort_asc}
use poor_man_stack.Base.Rows.{find, select, update, remove, next_id, sort_desc}

pub record ConfigRow : Type 0 where
  pub id : ℕ
  pub scope : Text
  pub stack : Text
  pub name : Text
  pub kind : Text
  pub content : Text
  pub version : Text
  pub hash : Text
  pub created_at : ℕ
  pub updated_at : ℕ
  pub rendered_content : Text
  pub rendered_at : ℕ
  pub rendered_hash : Text

pub record ConfigVersionRow : Type 0 where
  pub id : ℕ
  pub config_id : ℕ
  pub content : Text
  pub hash : Text
  pub created_at : ℕ

pub record ConfigTables : Type 0 where
  pub configs : List ConfigRow
  pub versions : List ConfigVersionRow

pub data ConfigError : Type 0 where
  config_not_found config_exists config_version_not_found insert_config : ConfigError

abbrev pub named : Text → ConfigRow → Bool
named name c = c.name == name

abbrev pub has_id : ℕ → ConfigRow → Bool
has_id id c = c.id == id

-- The `CHECK` constraints of the table `configs`.
unfoldable pub meets_checks : Text → Text → Bool
meets_checks scope kind =
    (scope == codes "cluster" || scope == codes "service")
    && (kind == codes "template" || kind == codes "file" || kind == codes "env")

-- The row that a query by name yields, or `sql.ErrNoRows`.
unfoldable pub get_config : Text → ConfigTables → Result ConfigError ConfigRow
get_config name db = elim (find (named name) db.configs) [
  | none ↦ err config_not_found
  | some c ↦ ok c
]

-- `INSERT INTO config_versions`.
unfoldable pub push_version : ℕ → ConfigRow → ConfigTables → ConfigTables
push_version now c db = record db {
  versions =
      db.versions
      ++ record {
        id = next_id (λ (v : ConfigVersionRow). v.id) db.versions;
        config_id = c.id;
        content = c.content;
        hash = c.hash;
        created_at = now;
      }
        ∷ [];
}

-- `SELECT … FROM config_versions WHERE config_id = ? ORDER BY id DESC`.
unfoldable pub list_config_versions :
    Text → ConfigTables → Result ConfigError (List ConfigVersionRow)
unfolding get_config
list_config_versions name db = do
  c ← get_config name db
  ok (sort_desc (λ (v : ConfigVersionRow). v.id) (select (λ v. v.config_id == c.id) db.versions))

-- `SELECT … FROM config_versions WHERE id = ? AND config_id = ?`.
unfoldable pub find_version : ℕ → ℕ → ConfigTables → Result ConfigError ConfigVersionRow
find_version version_id config_id db =
    elim (find (λ (v : ConfigVersionRow). v.id == version_id && v.config_id == config_id)
      db.versions) [ none ↦ err config_version_not_found | some v ↦ ok v ]

-- The rollback of the transaction drops what was written, so it leaves no trace in the model.
unfoldable pub rollback_config :
    ℕ → Text → ℕ → ConfigTables → Result ConfigError (ConfigTables × Text)
unfolding get_config find_version
rollback_config now name version_id db = do
  c ← get_config name db
  v ← find_version version_id c.id db
  let db' = push_version now c db
  ok (
    record db' {
      configs =
          update (has_id c.id)
            (λ r. record r { content = v.content; hash = v.hash; updated_at = now }) db'.configs;
    },
    v.hash,
  )

-- A foreign key with `ON DELETE CASCADE` takes the history along.
unfoldable pub delete_config : Text → ConfigTables → Result ConfigError ConfigTables
delete_config name db = elim (find (named name) db.configs) [
  | none ↦ err config_not_found
  | some c ↦ ok (record {
    configs = remove (named name) db.configs;
    versions = remove (λ v. v.config_id == c.id) db.versions;
  })
]

module _ (sha : Text → Text) where
  unfoldable pub create_config :
      ℕ
      → Text
      → Text
      → Text
      → Text
      → Text
      → Text
      → ConfigTables
      → Result ConfigError (ConfigTables × ℕ)
  create_config now scope stack name kind content version db =
      let id = next_id (λ (c : ConfigRow). c.id) db.configs in
      if not (meets_checks scope kind)
      then err insert_config
      else if is_some (find (named name) db.configs)
      then err config_exists
      else ok (
        record db {
          configs =
              db.configs
              ++ record {
                id = id;
                scope = scope;
                stack = stack;
                name = name;
                kind = kind;
                content = content;
                version = version;
                hash = sha content;
                created_at = now;
                updated_at = now;
                rendered_content = [];
                rendered_at = 0;
                rendered_hash = [];
              }
                ∷ [];
        },
        id,
      )

  unfoldable pub update_config :
      ℕ → Text → Text → Text → ConfigTables → Result ConfigError (ConfigTables × Text)
  unfolding get_config
  update_config now name content version db = do
    c ← get_config name db
    let db' = push_version now c db
    if sha content == c.hash
        then ok (db, c.hash)
        else ok (
          record db' {
            configs =
                update (has_id c.id)
                  (λ r. record r {
                    content = content;
                    version = version;
                    hash = sha content;
                    updated_at = now;
                  })
                  db'.configs;
          },
          sha content,
        )

  unfoldable pub set_rendered : ℕ → Text → Text → ConfigTables → Result ConfigError ConfigTables
  set_rendered now name content db =
      if is_some (find (named name) db.configs)
      then ok (record db {
        configs =
            update (named name)
              (λ r. record r {
                rendered_content = content;
                rendered_hash = sha content;
                rendered_at = now;
              })
              db.configs;
      })
      else err config_not_found

-- `ORDER BY scope, stack, name`.
abbrev pub config_in_order : ConfigRow → ConfigRow → Bool
config_in_order c x =
    if c.scope == x.scope
    then (if c.stack == x.stack then text_leb c.name x.name else text_leb c.stack x.stack)
    else text_leb c.scope x.scope

-- An empty filter lets everything pass.
unfoldable pub list_configs : Text → Text → ConfigTables → List ConfigRow
list_configs scope stack db = sort_asc config_in_order (
    select
      (λ (c : ConfigRow). (scope == [] || c.scope == scope) && (stack == [] || c.stack == stack))
      db.configs)

unfoldable pub list_rendered_configs : ConfigTables → List ConfigRow
list_rendered_configs db =
    sort_asc (λ (c x : ConfigRow). text_leb c.name x.name)
      (select (λ (c : ConfigRow). not (c.rendered_content == [])) db.configs)
