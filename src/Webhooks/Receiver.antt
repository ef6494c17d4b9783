-- ===== src/Webhooks/Receiver.antt =====
-- The handler of `pmcluster/internal/webhooks/receiver.go`, on a store of sources and a deploy that
-- are parameters: HMAC-SHA256, the JSON decoder and the deploy itself.
pub mod Authenticity
pub mod Dispatch
use poor_man_stack.Base.{
  ℕ, suc, ◌+◌, ◌-◌, Text, codes, ◌==◌, text_eq, nat_eq, Bool, true, false, not, ◌||◌, Option, none,
  some, List, [], ◌∷◌, ◌++◌, Result, ok, err, if◌then◌else◌, ltb, length, take, cut_prefix,
}
use poor_man_stack.Deploy.World.{Payload, Deployed}
use poor_man_stack.Webhooks.Wire.{
  Bytes, HmacError, skew_too_large, missing_signature, no_scheme, bad_hex, signature_mismatch,
  unknown_source, parse_timestamp, message, hex_decode,
}

-- A row of the delivery history, before the recorder gives it an id and a time.
pub record Delivery : Type 0 where
  pub source : Text
  pub status : Text
  pub stack_name : Text
  pub revision : ℕ
  pub repo_url : Text
  pub file : Text
  pub error : Text

-- What a request brings; reading its body can fail.
pub record Post : Type 0 where
  pub source : Text
  pub body : Result Text Bytes
  pub timestamp_header : Text
  pub signature_header : Text

-- `Sources`, `Deploy`, `Record`, and the packages that the handler calls. `State` is all that they
-- act on.
pub record Services : Type 1 where
  pub State : Type 0
  pub secret : Text → State → Result Text Bytes
  pub mark_used : Text → State → State
  pub deploy : Payload → State → State × Result Text Deployed
  pub record_delivery : Option (Delivery → State → State)
  pub hmac : Bytes → Bytes → Bytes
  pub decode : Bytes → Result Text Payload

-- The status and the body of the response.
pub data Response : Type 0 where
  accepted : (stack : Text) → (revision : ℕ) → Response
  bad_request : (message : Text) → Response
  too_large : Response
  unauthorized : Response
  bad_gateway : (message : Text) → Response

unfoldable pub status_code : Response → ℕ
status_code (accepted _ _) = 200
status_code (bad_request _) = 400
status_code unauthorized = 401
status_code too_large = 413
status_code (bad_gateway _) = 502

abbrev pub provenance_required : Text
provenance_required =
    codes
      "deploy provenance required: 'repo_url' and 'file' must identify the source repository and manifest path"

-- `delta` after `if delta < 0 { delta = -delta }`.
unfoldable pub skew : ℕ → ℕ → ℕ
skew now timestamp = if ltb now timestamp then timestamp - now else now - timestamp

module _ (services : Services) where
  open services use {State, secret, mark_used, deploy, record_delivery, hmac, decode}

  -- The digest of the signature header.
  unfoldable pub wanted_digest : Text → Result HmacError Bytes
  wanted_digest header = elim (cut_prefix (codes "sha256=") header) [
    | none ↦ err no_scheme
    | some parsed ↦ elim (hex_decode parsed) [
      | none ↦ err bad_hex
      | some want ↦ if length want == 32 then ok want else err bad_hex
    ]
  ]

  -- The two ends of `verifyHMAC`, with the digest that is wanted.
  unfoldable pub compare_digest : Bytes → ℕ → Bytes → Result Text Bytes → Option HmacError
  compare_digest want timestamp body (err e) = some (unknown_source e)
  compare_digest want timestamp body (ok key) =
      if want == hmac key (message timestamp body) then none else some signature_mismatch

  -- `verifyHMAC`; `none` is the nil error.
  unfoldable pub verify_hmac :
      ℕ → Text → Result HmacError ℕ → Bytes → Text → State → Option HmacError
  unfolding skew wanted_digest compare_digest
  verify_hmac now source (err e) body sig_header s = some e
  verify_hmac now source (ok timestamp) body sig_header s =
      if ltb 300 (skew now timestamp)
      then some skew_too_large
      else if sig_header == []
      then some missing_signature
      else elim (wanted_digest sig_header) [
        | err e ↦ some e
        | ok want ↦ compare_digest want timestamp body (secret source s)
      ]

  -- `recordDelivery`.
  unfoldable pub recorded : Text → Text → Option Payload → Text → Option Deployed → State → State
  recorded source status payload error result s =
      let d : Delivery = record {
        source = source;
        status = status;
        stack_name = elim result [
          | some r ↦ r.stack_name
          | none ↦ elim payload [ some p ↦ p.app_name | none ↦ [] ]
        ];
        revision = elim result [ some r ↦ r.revision | none ↦ 0 ];
        repo_url = elim payload [ some p ↦ p.repo_url | none ↦ [] ];
        file = elim payload [ some p ↦ p.file | none ↦ [] ];
        error = error;
      } in
      elim record_delivery [ none ↦ s | some keep ↦ keep d s ]

  abbrev pub rejected : Text → Text → State → State
  rejected source status s = recorded source status none [] none s

  -- From the call of `Deploy` on.
  unfoldable pub deployed : Text → Payload → State → State × Response
  unfolding recorded
  deployed source p s =
      let (s', result) = deploy p s in
      elim result [
        | err e ↦ (recorded source (codes "server_error") (some p) e none s', bad_gateway e)
        | ok r ↦ (
          recorded source (codes "accepted") (some p) [] (some r) s',
          accepted r.stack_name r.revision,
        )
      ]

  -- Behind the signature check.
  unfoldable pub receive_verified : Text → Bytes → State → State × Response
  unfolding deployed recorded
  receive_verified source body s = elim (decode body) [
    | err e ↦ (rejected source (codes "bad_request") s, bad_request (codes "invalid JSON: " ++ e))
    | ok p ↦
        if p.repo_url == [] || p.file == []
        then (
          recorded source (codes "bad_request") (some p) provenance_required none s,
          bad_request provenance_required,
        )
        else deployed source p s
  ]

  -- Behind the body.
  unfoldable pub receive_body : ℕ → Post → Bytes → State → State × Response
  unfolding receive_verified recorded
  receive_body now post body s =
      if ltb 1048576 (length body)
      then (rejected post.source (codes "bad_request") s, too_large)
      else elim (verify_hmac now post.source (parse_timestamp post.timestamp_header) body
          post.signature_header s) [
            | some _ ↦ (rejected post.source (codes "unauthorized") s, unauthorized)
            | none ↦ receive_verified post.source body (mark_used post.source s)
          ]

  unfoldable pub receive : ℕ → Post → State → State × Response
  unfolding receive_body recorded
  receive now post s =
      if post.source == []
      then (rejected post.source (codes "bad_request") s, bad_request (codes "source required"))
      else elim post.body [
        | err e ↦
            (rejected post.source (codes "bad_request") s, bad_request (codes "read body: " ++ e))
        | ok body ↦ receive_body now post (take 1048577 body) s
      ]
