-- ===== src/Auth/Token/RoundTrip.antt =====
-- What is read back from a generated token and from a stored hash.
use mathlib.Core.List.{reverse-cons, append_assoc, append-nil}
use poor_man_stack.Base.{
  cut_at-append, ℕ, ◌/◌, ◌%◌, ◌<◌, Text, ◌==◌, text_eq, nat_eq, nat_beq_iff, ◌≡◌, refl, ◌≢◌, ◌⊎◌,
  inl, inr, subst, sym, ◌∙◌, ap, some, [], ◌∷◌, ◌++◌, reverse, ok, length, cut_prefix-append, split,
  split_from, split_from-append, All, arith,
}
use poor_man_stack.Webhooks.Wire.{Bytes, nibble, hex_byte, hex_decode}
use poor_man_stack.Auth.Token.{
  token_prefix, hash_prefix, hex_digit, hex_encode, generate_token, split_token, hash_parts,
  hash_token, verify_token,
}

nibble-hex_digit : (n : ℕ) → n < 16 → nibble (hex_digit n) ≡ some n
unfolding nibble hex_digit
nibble-hex_digit n h = ground arith

pub hex_decode-hex_encode :
    (bs : Bytes) → All (λ b. b < 256) bs → hex_decode (hex_encode bs) ≡ some bs
unfolding hex_decode hex_encode hex_byte
hex_decode-hex_encode [] h = refl
hex_decode-hex_encode (b ∷ bs) (p, h) =
    rw
      (
        nibble-hex_digit (b / 16) (omega (arith, p)),
        nibble-hex_digit (b % 16) (omega (arith, p)),
        hex_decode-hex_encode bs h,
      )
      (ap (λ n. some (n ∷ bs)) (omega arith))

-- Neither the separator of a token nor that of a stored hash is a hexadecimal digit.
hex_digit-ne : (sep n : ℕ) → (sep ≡ b'_') ⊎ (sep ≡ b'$') → n < 16 → hex_digit n ≢ sep
unfolding hex_digit
hex_digit-ne sep n s h = ground arith

hex_encode-ne :
    (sep : ℕ) (bs : Bytes)
    → (sep ≡ b'_') ⊎ (sep ≡ b'$')
    → All (λ b. b < 256) bs
    → All (λ c. c ≢ sep) (hex_encode bs)
unfolding hex_encode
hex_encode-ne sep [] s h = tt
hex_encode-ne sep (b ∷ bs) s (p, h) = (
  hex_digit-ne sep (b / 16) s (omega (arith, p)),
  (hex_digit-ne sep (b % 16) s (omega (arith, p)), hex_encode-ne sep bs s h),
)

split_from-one :
    (sep : ℕ) (cur s : Text) → All (λ c. c ≢ sep) s → split_from sep cur s ≡ (reverse cur ++ s) ∷ []
unfolding split_from
split_from-one sep cur [] h = ap (λ x. x ∷ []) (sym (append-nil (reverse cur)))
split_from-one sep cur (c ∷ s) (ne, h) =
    let longer : split_from sep (c ∷ cur) s ≡ (reverse cur ++ c ∷ s) ∷ [] =
      split_from-one sep (c ∷ cur) s h
      ∙ ap (λ x. (x ++ s) ∷ []) (reverse-cons c cur)
      ∙ ap (λ x. x ∷ []) (append_assoc (reverse cur) (c ∷ []) s) in
    ground (arith, longer, nat_beq_iff c sep)

split-pair :
    (sep : ℕ) (s t : Text)
    → All (λ c. c ≢ sep) s
    → All (λ c. c ≢ sep) t
    → split sep (s ++ sep ∷ t) ≡ s ∷ t ∷ []
unfolding split
split-pair sep s t h k =
    rw (split_from-append sep [] s t, split_from-one sep [] s h, split_from-one sep [] t k) refl

-- A generated token is taken apart into the id and the secret that it was made of, whatever the
-- encoded secret is, for random bytes that are bytes.
pub split_token-generate_token :
    (base64 : Bytes → Text) (id_bytes secret_bytes : Bytes)
    → All (λ b. b < 256) id_bytes
    → split_token (generate_token base64 id_bytes secret_bytes)
      ≡ (hex_encode id_bytes, base64 secret_bytes)
unfolding split_token generate_token
split_token-generate_token base64 id_bytes secret_bytes h =
    rw
      (
        cut_prefix-append token_prefix (hex_encode id_bytes ++ b'_' ∷ base64 secret_bytes),
        cut_at-append b'_' (hex_encode id_bytes) (base64 secret_bytes)
            (hex_encode-ne b'_' id_bytes (inl refl) h),
        split_token,
        generate_token,
      )
      refl

hash_parts-pair :
    (salt digest : Bytes)
    → All (λ b. b < 256) salt
    → All (λ b. b < 256) digest
    → length salt ≡ 16
    → length digest ≡ 32
    → hash_parts (hex_encode salt ∷ hex_encode digest ∷ []) ≡ some (salt, digest)
unfolding hash_parts
hash_parts-pair salt digest h k l m =
    rw (hex_decode-hex_encode salt h, hex_decode-hex_encode digest k, l, m, hash_parts) refl

-- The hash of a token, under a salt of 16 bytes and a derived key of 32 bytes, is accepted for exactly
-- the tokens whose key under that salt is the same one; it never reads as an invalid hash.
pub verify_token-hash_token :
    (derive : Text → Bytes → Bytes) (salt : Bytes) (token other stored : Text)
    → All (λ b. b < 256) salt
    → length salt ≡ 16
    → All (λ b. b < 256) (derive token salt)
    → length (derive token salt) ≡ 32
    → hash_token derive salt token ≡ ok stored
    → verify_token derive other stored ≡ ok (derive token salt == derive other salt)
unfolding hash_token
verify_token-hash_token derive salt [] other stored h l k m e = absurd (ground arith)
verify_token-hash_token derive salt (c ∷ token) other stored h l k m e =
    let text = hex_encode salt ++ b'$' ∷ hex_encode (derive (c ∷ token) salt) in
    let same : hash_prefix ++ text ≡ stored = ground arith in
    subst (λ x. verify_token derive other x ≡ ok (derive (c ∷ token) salt == derive other salt))
      same
      (unfold verify_token in
        rw
          (
            cut_prefix-append hash_prefix text,
            split-pair b'$' (hex_encode salt) (hex_encode (derive (c ∷ token) salt))
                (hex_encode-ne b'$' salt (inr refl) h)
                (hex_encode-ne b'$' (derive (c ∷ token) salt) (inr refl) k),
            hash_parts-pair salt (derive (c ∷ token) salt) h k l m,
            verify_token,
          )
          refl)
