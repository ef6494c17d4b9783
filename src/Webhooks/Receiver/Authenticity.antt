-- ===== src/Webhooks/Receiver/Authenticity.antt =====
-- Which deliveries pass the check of the signature.
use poor_man_stack.Base.{
  cut_prefix-eq-some, ℕ, ◌+◌, ◌≤◌, Text, codes, ◌==◌, text_eq, text_beq_iff, nat_eq, nat_beq_iff,
  false, ◌≡◌, refl, ◌↔◌, Option, none, some, ◌++◌, ok, ltb, length, cut_prefix, cut_prefix-append,
  arith, Bool-cases, Option-cases, inl, inr, Result-cases, ap, subst, ◌∙◌,
}
use poor_man_stack.Webhooks.Wire.{Bytes, HmacError, parse_timestamp, message, hex_decode}
use poor_man_stack.Webhooks.Receiver.{
  Post, Services, skew, wanted_digest, compare_digest, verify_hmac,
}

skew-le_iff : (now t : ℕ) → (ltb 300 (skew now t) ≡ false) ↔ ((now ≤ t + 300) × (t ≤ now + 300))
unfolding skew
skew-le_iff now t = ground arith

module _ (services : Services) where
  open services use {State, secret, mark_used, deploy, hmac, decode}

  -- The header carries a fresh timestamp, and in hexadecimal of either case the HMAC of the body
  -- behind the number of the timestamp, printed anew, under the key of the source.
  pub record IsSigned (now : ℕ) (post : Post) (body : Bytes) (s : State) : Type 0 where
    pub timestamp : ℕ
    pub stamped : parse_timestamp post.timestamp_header ≡ ok timestamp
    pub not_old : now ≤ timestamp + 300
    pub not_ahead : timestamp ≤ now + 300
    pub hex : Text
    pub header : post.signature_header ≡ codes "sha256=" ++ hex
    pub key : Bytes
    pub known : secret post.source s ≡ ok key
    pub digest : hex_decode hex ≡ some (hmac key (message timestamp body))
    pub whole : length (hmac key (message timestamp body)) ≡ 32

  unfoldable pub verify : ℕ → Post → Bytes → State → Option HmacError
  verify now post body s =
      verify_hmac services now post.source (parse_timestamp post.timestamp_header) body
        post.signature_header s

  wanted_digest-eq-ok :
      (header : Text) (want : Bytes)
      → wanted_digest services header ≡ ok want
      → (hex : Text) × (header ≡ codes "sha256=" ++ hex)
        × (hex_decode hex ≡ some want)
        × (length want ≡ 32)
  unfolding wanted_digest
  wanted_digest-eq-ok header want e = elim (Option-cases (cut_prefix (codes "sha256=") header)) [
    | inl missing ↦ absurd (ground arith)
    | inr (hex, found) ↦ elim (Option-cases (hex_decode hex)) [
      | inl bad ↦ absurd (ground arith)
      | inr (bytes, decoded) ↦ elim (Bool-cases (length bytes == 32)) [
        | inr other ↦ absurd (ground arith)
        | inl whole ↦
            let same : bytes ≡ want = ground arith in
            (
              hex,
              cut_prefix-eq-some (codes "sha256=") header found,
              decoded ∙ ap some same,
              subst (λ w. length w ≡ 32) same ((nat_beq_iff (length bytes) 32).0 whole),
            )
      ]
    ]
  ]

  pub IsSigned-of_verify :
      (now : ℕ) (post : Post) (body : Bytes) (s : State)
      → verify now post body s ≡ none
      → IsSigned now post body s
  unfolding verify verify_hmac compare_digest
  IsSigned-of_verify now post body s e =
      elim (Result-cases (parse_timestamp post.timestamp_header)) [
        | inr (bad, unread) ↦ absurd (ground arith)
        | inl (t, read) ↦ elim (Result-cases (wanted_digest services post.signature_header)) [
          | inr (bad, malformed) ↦ absurd (ground arith)
          | inl (want, wanted) ↦ elim (Result-cases (secret post.source s)) [
            | inr (bad, unknown) ↦ absurd (ground arith)
            | inl (key, known) ↦
                let (hex, header, decoded, whole) =
                  wanted_digest-eq-ok post.signature_header want wanted in
                let fresh : ltb 300 (skew now t) ≡ false = ground arith in
                let same : want ≡ hmac key (message t body) =
                  ground (arith, text_beq_iff want (hmac key (message t body))) in
                record {
                  timestamp = t;
                  stamped = read;
                  not_old = ((skew-le_iff now t).0 fresh).0;
                  not_ahead = ((skew-le_iff now t).0 fresh).1;
                  hex = hex;
                  header = header;
                  key = key;
                  known = known;
                  digest = decoded ∙ ap some same;
                  whole = subst (λ w. length w ≡ 32) same whole;
                }
          ]
        ]
      ]

  verify_of_IsSigned :
      (now : ℕ) (post : Post) (body : Bytes) (s : State)
      → IsSigned now post body s
      → verify now post body s ≡ none
  unfolding verify verify_hmac compare_digest wanted_digest
  verify_of_IsSigned now post body s signed =
      let fresh = (skew-le_iff now signed.timestamp).1 (signed.not_old, signed.not_ahead) in
      rw
        (
          signed.stamped,
          verify_hmac,
          fresh,
          signed.header,
          cut_prefix-append (codes "sha256=") signed.hex,
          signed.digest,
          signed.whole,
          signed.known,
          (text_beq_iff (hmac signed.key (message signed.timestamp body)) _).1 refl,
        )
        refl

  -- The check of a delivery passes exactly when its timestamp parses to a number at most 300
  -- seconds from the clock, the source has a key, and the signature header is "sha256=" and, in
  -- hexadecimal of either case, the HMAC, 32 bytes long, of the decimal digits of that number, which
  -- need not be those of the header, and the body.
  pub verify_hmac-iff_IsSigned :
      (now : ℕ) (post : Post) (body : Bytes) (s : State)
      → (verify_hmac services now post.source
            (parse_timestamp post.timestamp_header)
            body
            post.signature_header
            s
          ≡ none)
        ↔ IsSigned now post body s
  unfolding verify
  verify_hmac-iff_IsSigned now post body s =
      (IsSigned-of_verify now post body s, verify_of_IsSigned now post body s)
