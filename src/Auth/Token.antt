-- ===== src/Auth/Token.antt =====
-- `pmcluster/internal/auth/token.go`. Argon2id is the parameter `derive`, of a token and a salt; the
-- random bytes are arguments.
pub mod RoundTrip
use poor_man_stack.Base.{
  ℕ, suc, ◌+◌, ◌-◌, ◌/◌, ◌%◌, Text, codes, ◌==◌, text_eq, nat_eq, Bool, true, false, ◌&&◌, Option,
  none, some, List, [], ◌∷◌, ◌++◌, Result, ok, err, if◌then◌else◌, ltb, length, cut_prefix, cut_at,
  split,
}
use poor_man_stack.Webhooks.Wire.{Bytes, hex_decode}

pub data TokenError : Type 0 where
  invalid_token invalid_hash : TokenError

abbrev pub token_prefix : Text
token_prefix = codes "pmc_"

abbrev pub hash_prefix : Text
hash_prefix = codes "argon2id$v1$"

unfoldable pub hex_digit : ℕ → ℕ
hex_digit n = if ltb n 10 then b'0' + n else b'a' + (n - 10)

-- `hex.EncodeToString`.
unfoldable pub hex_encode : Bytes → Text
unfolding hex_digit
hex_encode [] = []
hex_encode (b ∷ bs) = hex_digit (b / 16) ∷ hex_digit (b % 16) ∷ hex_encode bs

-- `GenerateToken`, with the encoder `base64.RawURLEncoding`.
unfoldable pub generate_token : (Bytes → Text) → Bytes → Bytes → Text
generate_token base64 id_bytes secret_bytes =
    token_prefix ++ hex_encode id_bytes ++ b'_' ∷ base64 secret_bytes

-- The token id, which is empty for a legacy token, and the secret.
unfoldable pub split_token : Text → Text × Text
split_token token = elim (cut_prefix token_prefix token) [
  | none ↦ ([], token)
  | some rest ↦ elim (cut_at b'_' rest) [ none ↦ ([], token) | some (id, secret) ↦ (id, secret) ]
]

-- Two parts that decode to the salt and the digest, of their lengths.
unfoldable pub hash_parts : List Text → Option (Bytes × Bytes)
hash_parts [] = none
hash_parts (_ ∷ []) = none
hash_parts (salt ∷ digest ∷ []) = elim (hex_decode salt) [
  | none ↦ none
  | some s ↦ elim (hex_decode digest) [
    | none ↦ none
    | some d ↦ if length s == 16 && length d == 32 then some (s, d) else none
  ]
]
hash_parts (_ ∷ _ ∷ _ ∷ _) = none

module _ (derive : Text → Bytes → Bytes) where
  unfoldable pub hash_token : Bytes → Text → Result TokenError Text
  hash_token salt [] = err invalid_token
  hash_token salt (c ∷ token) =
      ok (hash_prefix ++ hex_encode salt ++ b'$' ∷ hex_encode (derive (c ∷ token) salt))

  unfoldable pub verify_token : Text → Text → Result TokenError Bool
  verify_token token stored = elim (cut_prefix hash_prefix stored) [
    | none ↦ err invalid_hash
    | some parts ↦ elim (hash_parts (split b'$' parts)) [
      | none ↦ err invalid_hash
      | some (salt, want) ↦ ok (want == derive token salt)
    ]
  ]
