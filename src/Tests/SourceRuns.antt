-- ===== src/Tests/SourceRuns.antt =====
-- A source that is created, used and deleted, under a cipher that does nothing.
use poor_man_stack.Base.{
  ℕ, zero, suc, ◌<◌, codes, ◌≡◌, refl, none, [], ◌∷◌, ◌++◌, ok, err, All, arith, text_eq,
}
use poor_man_stack.Base.Rows.{
  find, remove, update, select, sort_desc, insert_desc, next_id, max_key,
}
use poor_man_stack.Base.Rows.Sorting.{text_leb, sort_asc, insert_asc}
use poor_man_stack.Auth.Token.{hex_encode, hex_digit}
use poor_man_stack.Store.Stacks.{nullable_string}
use poor_man_stack.Store.Webhooks.{
  WebhookTables, create_webhook_source, get_webhook_source, list_webhook_sources,
  delete_webhook_source, mark_webhook_source_used, record_webhook_delivery, list_webhook_deliveries,
}
use poor_man_stack.Webhooks.Wire.{parse_timestamp}
use poor_man_stack.Webhooks.Receiver.{verify_hmac, receive}
use poor_man_stack.Webhooks.Sources.{
  Cipher, create_source, source_secret, delete_source, list_sources, record_source_delivery,
  source_deliveries,
}
use poor_man_stack.Webhooks.Sources.Signing.{verify_hmac-create_source, receive-delete_source}
use poor_man_stack.Webhooks.Local.{Endpoint, local_services}
use poor_man_stack.Tests.WebhookRuns.{zeros, payload, post, webhook}

abbrev pub open_cipher : Cipher
open_cipher = record { encrypt = λ nonce plain. ok plain; decrypt = λ sealed. ok sealed }

-- The state counts the deploys.
abbrev counting : Endpoint
counting = record {
  World = ℕ;
  deploy = λ p n. (suc n, err (codes "no swarm"));
  hmac = λ key text. zeros 32;
  decode = λ body. ok payload;
  show_error = λ e. codes "unknown";
}

sources : Unit {0}
unfolding webhook sort_asc insert_asc find remove update select sort_desc insert_desc next_id
    max_key nullable_string hex_encode hex_digit create_webhook_source get_webhook_source
    list_webhook_sources delete_webhook_source mark_webhook_source_used record_webhook_delivery
    list_webhook_deliveries create_source source_secret delete_source list_sources
    record_source_delivery source_deliveries
sources = tt

abbrev no_sources : WebhookTables
no_sources = record { sources = []; deliveries = [] }

abbrev with_ci : WebhookTables
with_ci = record {
  sources =
      record {
        source = codes "ci";
        secret_ciphertext = codes "0102";
        description = none;
        created_at = 900;
        last_used_at = none;
      }
      ∷ [];
  deliveries = [];
}

create_run :
    create_source open_cipher 900 (1 ∷ 2 ∷ []) [] (codes "ci") [] no_sources
    ≡ ok (with_ci, codes "0102")
unfolding sources
create_run = refl

delete_run : delete_source (codes "ci") with_ci ≡ ok no_sources
unfolding sources
delete_run = refl

refused_run : (receive (local_services counting open_cipher 1200) 1200 post (no_sources, 7)).0.1 ≡ 7
unfolding sources
refused_run = refl

started_run : (receive (local_services counting open_cipher 1200) 1200 post (with_ci, 7)).0.1 ≡ 8
unfolding sources
started_run = refl

listed_run :
    list_sources with_ci
    ≡ record { source = codes "ci"; description = []; created_at = 900; last_used_at = 0 } ∷ []
unfolding sources
listed_run = refl

sorted_run :
    sort_asc text_leb (codes "b" ∷ codes "ab" ∷ codes "a" ∷ [])
    ≡ codes "a" ∷ codes "ab" ∷ codes "b" ∷ []
unfolding sort_asc
sorted_run = refl

zeros-le : (n : ℕ) → All (λ b. b < 256) (zeros n)
zeros-le zero = tt
zeros-le (suc n) = (omega arith, zeros-le n)

stamp_run : parse_timestamp post.timestamp_header ≡ ok 1000
unfolding sources
stamp_run = refl

header_run : post.signature_header ≡ codes "sha256=" ++ hex_encode (zeros 32)
unfolding sources
header_run = refl

verify_hmac-create_source_example :
    verify_hmac
      (local_services counting open_cipher 1200)
      1200
      post.source
      (parse_timestamp post.timestamp_header)
      (codes "{}")
      post.signature_header
      (with_ci, 7)
    ≡ none
verify_hmac-create_source_example =
    verify_hmac-create_source open_cipher counting 1200 post 7 900 1000 (1 ∷ 2 ∷ []) [] (codes "{}")
      [] (codes "0102") no_sources with_ci (λ nonce plain sealed e. cc e) create_run stamp_run
      (omega arith) (omega arith) header_run (zeros-le 32) refl

receive-delete_source_example :
    (receive (local_services counting open_cipher 1200) 1200 post (no_sources, 7)).0.1 ≡ 7
receive-delete_source_example =
    receive-delete_source open_cipher counting 1200 post 7 with_ci no_sources delete_run
