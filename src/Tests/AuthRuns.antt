-- ===== src/Tests/AuthRuns.antt =====
-- Tokens under a key derivation that gives 32 times the length of the token, and users.
use poor_man_stack.Base.{
  ℕ, zero, suc, ◌<◌, Text, codes, ◌==◌, text_eq, nat_eq, ◌≡◌, refl, ◌≢◌, some, [], ◌∷◌, length, ok,
  All, arith, cut_prefix, cut_at, split, split_from, trim_space, trim_left, is_space,
}
use poor_man_stack.Base.Rows.{find, update, remove}
use poor_man_stack.Webhooks.Wire.{Bytes, hex_decode, nibble, hex_byte}
use poor_man_stack.Auth.Token.{
  hex_digit, hex_encode, generate_token, split_token, hash_parts, hash_token, verify_token,
}
use poor_man_stack.Auth.Token.RoundTrip.{verify_token-hash_token}
use poor_man_stack.Auth.Users.{
  UserRow, UserTable, User, create_user, delete_user, user_by_token, found_user, user_by_token_id,
  user_by_token_legacy, accepts, has_token_id, nullable_id, touch_user,
}
use poor_man_stack.Auth.Users.Access.{user_by_token-delete_user, user_by_token-create_user}
use poor_man_stack.Auth.Bearer.{bearer, extract_bearer, cut_fold, lower}

abbrev times : ℕ → ℕ → Bytes
times zero b = []
times (suc n) b = b ∷ times n b

abbrev by_length : Text → Bytes → Bytes
by_length token salt = times 32 (length token)

-- An encoder that gives each byte as it is.
abbrev plain : Bytes → Text
plain bytes = bytes

abbrev salt : Bytes
salt = times 16 7

abbrev secret : Text
secret = codes "s3cret"

abbrev stored : Text
stored =
    codes
      "argon2id$v1$07070707070707070707070707070707$0606060606060606060606060606060606060606060606060606060606060606"

abbrev no_users : UserTable
no_users = record { rows = []; last_id = 0 }

abbrev ann : UserRow
ann = record {
  id = 1;
  name = codes "ann";
  token_id = some (codes "0a");
  token_hash = stored;
  created_at = 5;
  last_used_at = 0;
}

abbrev with_ann : UserTable
with_ann = record { rows = ann ∷ []; last_id = 1 }

auth : Unit {0}
unfolding hex_digit hex_encode generate_token split_token hash_parts hash_token verify_token
    create_user delete_user user_by_token found_user user_by_token_id user_by_token_legacy accepts
    has_token_id nullable_id touch_user bearer extract_bearer cut_fold lower hex_decode nibble
    hex_byte cut_prefix cut_at split split_from trim_space trim_left is_space find update remove
auth = tt

bearer_run :
    (bearer by_length 9 (codes "  Bearer pmc_0a_s3cret ") with_ann).1
    ≡ some (record { id = 1; name = codes "ann" })
unfolding auth
bearer_run = refl

salt-small : All (λ b. b < 256) salt
salt-small = ground arith

verify_token-hash_token_example :
    verify_token by_length (codes "wrong") stored
    ≡ ok (by_length secret salt == by_length (codes "wrong") salt)
unfolding auth
verify_token-hash_token_example =
    verify_token-hash_token by_length salt secret (codes "wrong") stored salt-small refl
      (ground arith) refl refl

abbrev bob : UserRow
bob = record ann { id = 2; name = codes "bob"; token_id = some (codes "0b") }

abbrev bob_user : User
bob_user = record { id = 2; name = codes "bob" }

user_by_token-delete_user_example : bob_user.id ≢ 1
unfolding auth
user_by_token-delete_user_example =
    user_by_token-delete_user by_length 9 1 (codes "pmc_0b_s3cret")
      (record { rows = ann ∷ bob ∷ []; last_id = 2 }) (record { rows = bob ∷ []; last_id = 2 })
      bob_user refl refl

user_by_token-create_user_example :
    (user_by_token by_length 9 (generate_token plain (10 ∷ []) secret) with_ann).1
    ≡ some (record { id = 1; name = codes "ann" })
unfolding auth
user_by_token-create_user_example =
    user_by_token-create_user by_length plain 5 9 1 (codes "ann") stored salt secret 10 [] no_users
      with_ann (omega arith, tt) salt-small refl (ground arith) refl refl refl
