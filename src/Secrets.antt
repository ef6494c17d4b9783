-- ===== src/Secrets.antt =====
-- `pmcluster/internal/secrets/local.go`: secrets that are encrypted in the store, with the cipher and
-- the hash as parameters.
pub mod Vault
use poor_man_stack.Base.{ℕ, Text, List, Result, ok, ◌>>=◌, map_err, map}
use poor_man_stack.Webhooks.Sources.{Cipher}
use poor_man_stack.Store.Secrets.{
  StoredSecret, SecretError, create_secret, get_secret, list_secrets, update_secret, delete_secret,
}

pub data VaultError : Type 0 where
  cipher_failed : Text → VaultError
  store_failed : SecretError → VaultError

-- A secret as it is shown.
pub record Secret : Type 0 where
  pub id : ℕ
  pub scope : Text
  pub stack : Text
  pub name : Text
  pub hash : Text
  pub created_at : ℕ

abbrev pub as_secret : StoredSecret → Secret
as_secret r = record {
  id = r.id;
  scope = r.scope;
  stack = r.stack;
  name = r.name;
  hash = r.hash;
  created_at = r.created_at;
}

module _ (cipher : Cipher) (sha : Text → Text) where
  unfoldable pub create :
      ℕ
      → List ℕ
      → Text
      → Text
      → Text
      → Text
      → List StoredSecret
      → Result VaultError (List StoredSecret × ℕ)
  create now nonce scope stack name value rows = do
    payload ← map_err cipher_failed (cipher.encrypt nonce value)
    map_err store_failed (create_secret now scope stack name payload (sha value) rows)

  unfoldable pub reveal : Text → List StoredSecret → Result VaultError Text
  reveal name rows = do
    row ← map_err store_failed (get_secret name rows)
    map_err cipher_failed (cipher.decrypt row.payload)

  unfoldable pub update_value :
      List ℕ → Text → Text → List StoredSecret → Result VaultError (List StoredSecret)
  update_value nonce name value rows = do
    payload ← map_err cipher_failed (cipher.encrypt nonce value)
    map_err store_failed (update_secret name payload (sha value) rows)

unfoldable pub get : Text → List StoredSecret → Result VaultError Secret
get name rows = do row ← map_err store_failed (get_secret name rows); ok (as_secret row)

unfoldable pub list_shown : Text → Text → List StoredSecret → List Secret
list_shown scope stack rows = map as_secret (list_secrets scope stack rows)

unfoldable pub delete_value : Text → List StoredSecret → Result VaultError (List StoredSecret)
delete_value name rows = map_err store_failed (delete_secret name rows)
