-- ===== src/Store/Webhooks.antt =====
-- `pmcluster/internal/store/webhooks.go`: the sources, and the history of deliveries.
use poor_man_stack.Base.{
  ℕ, Text, ◌==◌, text_eq, nat_eq, Bool, Option, none, some, List, [], ◌∷◌, ◌++◌, Result, ok, err,
  if◌then◌else◌, is_some, take,
}
use poor_man_stack.Base.Rows.Sorting.{text_leb, sort_asc}
use poor_man_stack.Base.Rows.{find, select, update, remove, next_id, sort_desc}
use poor_man_stack.Store.Stacks.{nullable_string}

pub record WebhookSource : Type 0 where
  pub source : Text
  pub secret_ciphertext : List ℕ
  pub description : Option Text
  pub created_at : ℕ
  pub last_used_at : Option ℕ

pub record WebhookDelivery : Type 0 where
  pub id : ℕ
  pub source : Text
  pub status : Text
  pub stack_name : Text
  pub revision : ℕ
  pub repo_url : Text
  pub file : Text
  pub error : Text
  pub created_at : ℕ

pub record WebhookTables : Type 0 where
  pub sources : List WebhookSource
  pub deliveries : List WebhookDelivery

pub data WebhookError : Type 0 where
  source_exists source_not_found : WebhookError

abbrev pub is_source : Text → WebhookSource → Bool
is_source source r = r.source == source

unfoldable pub create_webhook_source :
    ℕ → Text → Text → List ℕ → WebhookTables → Result WebhookError WebhookTables
create_webhook_source now source description ciphertext db =
    elim (find (is_source source) db.sources) [
      | some _ ↦ err source_exists
      | none ↦ ok (record db {
        sources =
            db.sources
            ++ record {
              source = source;
              secret_ciphertext = ciphertext;
              description = nullable_string description;
              created_at = now;
              last_used_at = none;
            }
              ∷ [];
      })
    ]

unfoldable pub get_webhook_source : Text → WebhookTables → Result WebhookError WebhookSource
get_webhook_source source db = elim (find (is_source source) db.sources) [
  | none ↦ err source_not_found
  | some r ↦ ok r
]

-- `ORDER BY source`.
unfoldable pub list_webhook_sources : WebhookTables → List WebhookSource
list_webhook_sources db = sort_asc (λ (r x : WebhookSource). text_leb r.source x.source) db.sources

unfoldable pub delete_webhook_source : Text → WebhookTables → Result WebhookError WebhookTables
delete_webhook_source source db =
    if is_some (find (is_source source) db.sources)
    then ok (record db { sources = remove (is_source source) db.sources })
    else err source_not_found

unfoldable pub mark_webhook_source_used : ℕ → Text → WebhookTables → WebhookTables
mark_webhook_source_used now source db = record db {
  sources = update (is_source source) (λ r. record r { last_used_at = some now }) db.sources;
}

-- The id and the time of the row are assigned here.
unfoldable pub record_webhook_delivery : ℕ → WebhookDelivery → WebhookTables → WebhookTables
record_webhook_delivery now d db = record db {
  deliveries =
      db.deliveries
      ++ record d { id = next_id (λ (r : WebhookDelivery). r.id) db.deliveries; created_at = now }
        ∷ [];
}

-- `ORDER BY created_at DESC, id DESC`, of which a limit that is not 0 keeps the first.
unfoldable pub list_webhook_deliveries : Text → ℕ → WebhookTables → List WebhookDelivery
list_webhook_deliveries source limit db =
    let newest =
      sort_desc (λ (r : WebhookDelivery). r.created_at)
        (sort_desc (λ (r : WebhookDelivery). r.id)
          (select (λ (r : WebhookDelivery). r.source == source) db.deliveries)) in
    if limit == 0 then newest else take limit newest
