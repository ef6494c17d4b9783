-- ===== src/Webhooks/Sources.antt =====
-- `pmcluster/internal/webhooks/local.go`: the sources, with the cipher as a parameter.
pub mod Signing
use poor_man_stack.Base.{ℕ, Text, Option, none, some, List, [], map, Result, ok, ◌>>=◌, map_err}
use poor_man_stack.Auth.Token.{hex_encode}
use poor_man_stack.Store.Webhooks.{
  WebhookSource, WebhookDelivery, WebhookTables, WebhookError, create_webhook_source,
  get_webhook_source, list_webhook_sources, delete_webhook_source, mark_webhook_source_used,
  record_webhook_delivery, list_webhook_deliveries,
}
use poor_man_stack.Webhooks.Wire.{Bytes}
use poor_man_stack.Webhooks.Receiver.{Delivery}

-- `credentials.Cipher`; the nonce of an encryption is an argument.
pub record Cipher : Type 0 where
  pub encrypt : Bytes → Bytes → Result Text Bytes
  pub decrypt : Bytes → Result Text Bytes

pub data SourceError : Type 0 where
  cipher_failed : Text → SourceError
  store_failed : WebhookError → SourceError

-- A source as it is listed, without its secret.
pub record Source : Type 0 where
  pub source : Text
  pub description : Text
  pub created_at : ℕ
  pub last_used_at : ℕ

abbrev pub text_or_empty : Option Text → Text
text_or_empty none = []
text_or_empty (some s) = s

abbrev pub time_or_zero : Option ℕ → ℕ
time_or_zero none = 0
time_or_zero (some t) = t

module _ (cipher : Cipher) where
  -- The tables, and the secret that the caller sees once.
  unfoldable pub create_source :
      ℕ → Bytes → Bytes → Text → Text → WebhookTables → Result SourceError (WebhookTables × Text)
  create_source now random nonce source description db = do
    ciphertext ← map_err cipher_failed (cipher.encrypt nonce (hex_encode random))
    db' ← map_err store_failed (create_webhook_source now source description ciphertext db)
    ok (db', hex_encode random)

  unfoldable pub source_secret : Text → WebhookTables → Result SourceError Bytes
  source_secret source db = do
    row ← map_err store_failed (get_webhook_source source db)
    map_err cipher_failed (cipher.decrypt row.secret_ciphertext)

abbrev pub as_source : WebhookSource → Source
as_source r = record {
  source = r.source;
  description = text_or_empty r.description;
  created_at = r.created_at;
  last_used_at = time_or_zero r.last_used_at;
}

unfoldable pub list_sources : WebhookTables → List Source
list_sources db = map as_source (list_webhook_sources db)

unfoldable pub delete_source : Text → WebhookTables → Result SourceError WebhookTables
delete_source source db = map_err store_failed (delete_webhook_source source db)

abbrev pub mark_used : ℕ → Text → WebhookTables → WebhookTables
mark_used now source db = mark_webhook_source_used now source db

unfoldable pub record_source_delivery : ℕ → Delivery → WebhookTables → WebhookTables
record_source_delivery now d db =
    record_webhook_delivery now
      (record {
        id = 0;
        source = d.source;
        status = d.status;
        stack_name = d.stack_name;
        revision = d.revision;
        repo_url = d.repo_url;
        file = d.file;
        error = d.error;
        created_at = 0;
      })
      db

unfoldable pub source_deliveries : Text → ℕ → WebhookTables → List WebhookDelivery
source_deliveries source limit db = list_webhook_deliveries source limit db
