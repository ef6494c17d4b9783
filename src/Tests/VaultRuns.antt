-- ===== src/Tests/VaultRuns.antt =====
-- Secrets under a cipher that does nothing.
use poor_man_stack.Base.{codes, text_eq, ◌≡◌, refl, none, some, List, [], ◌∷◌, ok, err}
use poor_man_stack.Base.Rows.{find, update, remove, next_id, max_key}
use poor_man_stack.Store.Secrets.{
  secret_not_found, create_secret, get_secret, update_secret, delete_secret,
}
use poor_man_stack.Secrets.{store_failed, create, reveal, update_value, delete_value}
use poor_man_stack.Secrets.Vault.{
  Command, creation, change, deletion, perform, perform_all, specify, specify_all,
  reveal-perform_all,
}
use poor_man_stack.Tests.SourceRuns.{open_cipher}

abbrev commands : List Command
commands =
    creation 1 [] (codes "service") [] (codes "db") (codes "old")
    ∷ creation 2 [] (codes "service") [] (codes "db") (codes "twice")
    ∷ creation 3 [] (codes "cluster") [] (codes "key") (codes "k")
    ∷ change [] (codes "db") (codes "new")
    ∷ deletion (codes "key")
    ∷ []

secrets_kept : Unit {0}
unfolding find update remove next_id max_key create_secret get_secret update_secret delete_secret
    create reveal update_value delete_value perform perform_all specify specify_all
secrets_kept = tt

reveal_run :
    reveal open_cipher (λ t. t) (codes "db") (perform_all open_cipher (λ t. t) commands [])
    ≡ ok (codes "new")
unfolding secrets_kept
reveal_run = refl

gone_run :
    reveal open_cipher (λ t. t) (codes "key") (perform_all open_cipher (λ t. t) commands [])
    ≡ err (store_failed secret_not_found)
unfolding secrets_kept
gone_run = refl

reveal-perform_all_example :
    reveal open_cipher (λ t. t) (codes "db") (perform_all open_cipher (λ t. t) commands [])
    ≡ (elim (specify_all commands (λ n. none) (codes "db")) [
      | some s ↦ ok s
      | none ↦ err (store_failed secret_not_found)
    ])
reveal-perform_all_example =
    reveal-perform_all open_cipher (λ t. t)
      (record {
        sealed = λ nonce plain. plain;
        encrypts = λ nonce plain. refl;
        decrypts = λ nonce plain. refl;
      })
      commands (codes "db")
