-- ===== src/Webhooks/Sources/Signing.antt =====
-- A source from its creation to its deletion, as the receiver sees it.
use poor_man_stack.Base.{
  ℕ, ◌+◌, ◌≤◌, ◌<◌, Text, codes, ◌==◌, text_eq, text_beq_iff, ◌≡◌, ◌≢◌, refl, ap, subst, Option,
  none, some, [], ◌∷◌, ◌++◌, ok, err, map_err, length, All, arith, Option-cases, Result-cases,
  Bool-cases, inl, inr, take,
}
use poor_man_stack.Base.Rows.{find, remove}
use poor_man_stack.Base.Rows.Find.{find-append-none}
use poor_man_stack.Base.Rows.Removal.{find-remove_same}
use poor_man_stack.Auth.Token.{hex_encode}
use poor_man_stack.Auth.Token.RoundTrip.{hex_decode-hex_encode}
use poor_man_stack.Store.Stacks.{nullable_string}
use poor_man_stack.Store.Webhooks.{
  WebhookSource, WebhookTables, is_source, create_webhook_source, get_webhook_source,
  delete_webhook_source, source_not_found,
}
use poor_man_stack.Webhooks.Wire.{Bytes, HmacError, parse_timestamp, message}
use poor_man_stack.Webhooks.Receiver.{Post, verify_hmac, receive, receive_body, recorded}
use poor_man_stack.Webhooks.Receiver.Authenticity.{verify_hmac-iff_IsSigned}
use poor_man_stack.Webhooks.Sources.{
  Cipher, store_failed, create_source, source_secret, delete_source,
}
use poor_man_stack.Webhooks.Local.{Endpoint, local_services}

-- What was encrypted is decrypted again.
abbrev pub IsCipher : Cipher → Type 0
IsCipher cipher =
    (nonce plain sealed : Bytes)
    → cipher.encrypt nonce plain ≡ ok sealed
    → cipher.decrypt sealed ≡ ok plain

get_webhook_source-found :
    (source : Text) (db : WebhookTables) (row : WebhookSource)
    → find (is_source source) db.sources ≡ some row
    → get_webhook_source source db ≡ ok row
unfolding get_webhook_source
get_webhook_source-found source db row e = ground arith

create_webhook_source-get :
    (now : ℕ) (source description : Text) (sealed : Bytes) (db db' : WebhookTables)
    → create_webhook_source now source description sealed db ≡ ok db'
    → (row : WebhookSource) × (get_webhook_source source db' ≡ ok row)
      × (row.secret_ciphertext ≡ sealed)
create_webhook_source-get now source description sealed db db' e =
    elim (Option-cases (find (is_source source) db.sources)) [
      | inr (row, taken) ↦ absurd (unfold create_webhook_source in ground arith)
      | inl free ↦
          let row : WebhookSource = record {
            source = source;
            secret_ciphertext = sealed;
            description = nullable_string description;
            created_at = now;
            last_used_at = none;
          } in
          let same : record db { sources = db.sources ++ row ∷ [] } ≡ db' =
            unfold create_webhook_source in ground arith in
          let found =
            find-append-none (is_source source) db.sources row free
              ((text_beq_iff source source).1 refl) in
          subst
            (λ (x : WebhookTables).
              (r : WebhookSource) × (get_webhook_source source x ≡ ok r)
              × (r.secret_ciphertext ≡ sealed))
            same
            (
              row,
              get_webhook_source-found source (record db { sources = db.sources ++ row ∷ [] }) row
                  found,
              refl,
            )
    ]

module _ (cipher : Cipher) where
  source_secret-create_source :
      (now : ℕ) (random nonce : Bytes) (source description secret : Text) (db db' : WebhookTables)
      → IsCipher cipher
      → create_source cipher now random nonce source description db ≡ ok (db', secret)
      → source_secret cipher source db' ≡ ok secret
  source_secret-create_source now random nonce source description secret db db' law e =
      elim (Result-cases (cipher.encrypt nonce (hex_encode random))) [
        | inr (bad, failed) ↦ absurd (unfold create_source in ground arith)
        | inl (sealed, done) ↦
            elim (Result-cases (create_webhook_source now source description sealed db)) [
              | inr (bad, failed) ↦ absurd (unfold create_source in ground arith)
              | inl (after, stored) ↦
                  let same : after ≡ db' = unfold create_source in ground arith in
                  let shown : hex_encode random ≡ secret = unfold create_source in ground arith in
                  let (row, found, kept) =
                    create_webhook_source-get now source description sealed db after stored in
                  let opened = law nonce (hex_encode random) sealed done in
                  subst (λ (x : WebhookTables). source_secret cipher source x ≡ ok secret) same
                    (unfold source_secret in rw (found, kept, opened) (ap ok shown))
            ]
      ]

  source_secret-missing :
      (source : Text) (db : WebhookTables)
      → find (is_source source) db.sources ≡ none
      → source_secret cipher source db ≡ err (store_failed source_not_found)
  unfolding source_secret get_webhook_source
  source_secret-missing source db e = ground arith

  source_secret-delete_source :
      (source : Text) (db db' : WebhookTables)
      → delete_source source db ≡ ok db'
      → source_secret cipher source db' ≡ err (store_failed source_not_found)
  source_secret-delete_source source db db' e =
      let gone = find-remove_same (is_source source) db.sources in
      let same : record db { sources = remove (is_source source) db.sources } ≡ db' =
        unfold delete_source delete_webhook_source in ground arith in
      subst
        (λ (x : WebhookTables). source_secret cipher source x ≡ err (store_failed source_not_found))
        same
        (source_secret-missing source (record db { sources = remove (is_source source) db.sources })
          gone)

  module _ (endpoint : Endpoint) (now : ℕ) (post : Post) (w : endpoint.World) where
    abbrev check : Bytes → WebhookTables → Option HmacError
    check body db =
        verify_hmac (local_services endpoint cipher now) now post.source
          (parse_timestamp post.timestamp_header) body post.signature_header (db, w)

    -- With a cipher that decrypts what it encrypted, a source that was created without error passes
    -- the signature check with every body under the secret that the creation returned, if the
    -- timestamp parses and is at most 300 seconds from the clock, the header is "sha256=" and the
    -- hexadecimal HMAC of the signed message, and the HMAC is 32 bytes.
    pub verify_hmac-create_source :
        (created timestamp : ℕ) (random nonce body : Bytes) (description secret : Text)
        (db db' : WebhookTables)
        → IsCipher cipher
        → create_source cipher created random nonce post.source description db ≡ ok (db', secret)
        → parse_timestamp post.timestamp_header ≡ ok timestamp
        → now ≤ timestamp + 300
        → timestamp ≤ now + 300
        → post.signature_header
          ≡ codes "sha256=" ++ hex_encode (endpoint.hmac secret (message timestamp body))
        → All (λ b. b < 256) (endpoint.hmac secret (message timestamp body))
        → length (endpoint.hmac secret (message timestamp body)) ≡ 32
        → check body db' ≡ none
    verify_hmac-create_source created timestamp random nonce body description secret db db' law made
          stamped old ahead header small whole =
        (verify_hmac-iff_IsSigned (local_services endpoint cipher now) now post body (db', w)).1
          (record {
            timestamp = timestamp;
            stamped = stamped;
            not_old = old;
            not_ahead = ahead;
            hex = hex_encode (endpoint.hmac secret (message timestamp body));
            header = header;
            key = secret;
            known = ap (map_err endpoint.show_error) (
                source_secret-create_source created random nonce post.source description secret db
                  db' law made);
            digest = hex_decode-hex_encode (endpoint.hmac secret (message timestamp body)) small;
            whole = whole;
          })

    check-deleted :
        (body : Bytes) (db db' : WebhookTables)
        → delete_source post.source db ≡ ok db'
        → check body db' ≢ none
    check-deleted body db db' e passed =
        let signed =
          (verify_hmac-iff_IsSigned (local_services endpoint cipher now) now post body (db', w)).0
            passed in
        let known = signed.known in
        let lost =
          ap (map_err endpoint.show_error) (source_secret-delete_source post.source db db' e) in
        cc (known, lost)

    receive_body-refused :
        (body : Bytes) (db : WebhookTables)
        → check body db ≢ none
        → (receive_body (local_services endpoint cipher now) now post body (db, w)).0.1 ≡ w
    receive_body-refused body db bad = elim (Option-cases (check body db)) [
      | inl passed ↦ absurd (bad passed)
      | inr (e, failed) ↦ unfold receive_body recorded in ground arith
    ]

    -- A source that was deleted starts nothing: whatever the request, what lies behind the handler
    -- is as before.
    pub receive-delete_source :
        (db db' : WebhookTables)
        → delete_source post.source db ≡ ok db'
        → (receive (local_services endpoint cipher now) now post (db', w)).0.1 ≡ w
    receive-delete_source db db' e = elim (Bool-cases (post.source == [])) [
      | inl nameless ↦ unfold receive recorded in ground arith
      | inr named ↦ elim (Result-cases post.body) [
        | inr (bad, unread) ↦ unfold receive recorded in ground arith
        | inl (body, read) ↦
            let kept =
              receive_body-refused (take 1048577 body) db'
                (check-deleted (take 1048577 body) db db' e) in
            unfold receive in ground arith
      ]
    ]
