-- ===== src/Auth/Users/Access.antt =====
-- Who is let in by which token.
use poor_man_stack.Base.{
  ℕ, ◌+◌, ◌<◌, Text, ◌==◌, text_eq, text_beq_iff, nat_eq, nat_beq_iff, true, ◌≡◌, refl, ◌≢◌, ◌∙◌,
  subst, some, List, [], ◌∷◌, ◌++◌, ok, length, All, arith, Option-cases, Bool-cases, inl, inr,
}
use poor_man_stack.Base.Rows.{find, remove}
use poor_man_stack.Base.Rows.Find.{All-find, find-append-none}
use poor_man_stack.Webhooks.Wire.{Bytes}
use poor_man_stack.Auth.Token.{split_token, verify_token, hash_token, hex_encode, generate_token}
use poor_man_stack.Auth.Token.RoundTrip.{split_token-generate_token, verify_token-hash_token}
use poor_man_stack.Auth.Users.{
  UserRow, UserTable, User, is_user, has_token_id, nullable_id, as_user, create_user, delete_user,
  accepts, user_by_token_id, user_by_token_legacy, found_user, user_by_token,
}

IsFresh-remove_self :
    (id : ℕ) (rows : List UserRow) → All (λ (u : UserRow). u.id ≢ id) (remove (is_user id) rows)
unfolding remove
IsFresh-remove_self id [] = tt
IsFresh-remove_self id (r ∷ rows) = ground (arith, IsFresh-remove_self id rows, nat_beq_iff r.id id)

module _ (derive : Text → Bytes → Bytes) where
  -- A user that is found stands in the table.
  All-found_user {κ} :
      (P : ℕ → Type κ) (token : Text) (db : UserTable) (u : User)
      → All (λ (r : UserRow). P r.id) db.rows
      → found_user derive token db ≡ some u
      → P u.id
  unfolding found_user user_by_token_id user_by_token_legacy
  All-found_user P token db u h e = elim (Bool-cases ((split_token token).0 == [])) [
    | inl legacy ↦
        elim (Option-cases (find (λ (r : UserRow). accepts derive token r.token_hash) db.rows)) [
          | inl missing ↦ absurd (ground arith)
          | inr (r, found) ↦
              let same : as_user r ≡ u = ground arith in
              subst (λ (x : User). P x.id) same
                (All-find (λ (r : UserRow). accepts derive token r.token_hash) (λ r. P r.id) db.rows
                  r h found)
        ]
    | inr current ↦ elim (Option-cases (find (has_token_id (split_token token).0) db.rows)) [
      | inl missing ↦ absurd (ground arith)
      | inr (r, found) ↦ elim (Bool-cases (accepts derive (split_token token).1 r.token_hash)) [
        | inr refused ↦ absurd (ground arith)
        | inl taken ↦
            let same : as_user r ≡ u = ground arith in
            subst (λ (x : User). P x.id) same
              (All-find (has_token_id (split_token token).0) (λ r. P r.id) db.rows r h found)
      ]
    ]
  ]

  -- A user that was deleted is let in by no token.
  pub user_by_token-delete_user :
      (now id : ℕ) (token : Text) (db db' : UserTable) (u : User)
      → delete_user id db ≡ ok db'
      → (user_by_token derive now token db').1 ≡ some u
      → u.id ≢ id
  unfolding delete_user user_by_token
  user_by_token-delete_user now id token db db' u e f =
      let rows_left : db'.rows ≡ remove (is_user id) db.rows = ground arith in
      let gone : All (λ (r : UserRow). r.id ≢ id) db'.rows =
        rw rows_left (IsFresh-remove_self id db.rows) in
      elim (Option-cases (found_user derive token db')) [
        | inl missing ↦ absurd (ground arith)
        | inr (v, found) ↦ All-found_user (λ n. n ≢ id) token db' u gone (ground arith)
      ]

  -- The row of a new user is the one that its token id finds.
  find-create_user :
      (now id : ℕ) (name token_id token_hash : Text) (db db' : UserTable)
      → token_id ≢ []
      → create_user now name token_id token_hash db ≡ ok (db', id)
      → (r : UserRow) × (find (has_token_id token_id) db'.rows ≡ some r)
        × (r.id ≡ id)
        × (r.name ≡ name)
        × (r.token_hash ≡ token_hash)
  unfolding create_user has_token_id nullable_id
  find-create_user now id name [] token_hash db db' ne e = absurd (ne refl)
  find-create_user now id name (c ∷ token_id) token_hash db db' ne e =
      let row : UserRow = record {
        id = db.last_id + 1;
        name = name;
        token_id = some (c ∷ token_id);
        token_hash = token_hash;
        created_at = now;
        last_used_at = 0;
      } in
      elim (Option-cases (find (has_token_id (c ∷ token_id)) db.rows)) [
        | inr (r, taken) ↦ absurd (ground arith)
        | inl free ↦
            let after : UserTable = record {
              rows = db.rows ++ row ∷ [];
              last_id = db.last_id + 1;
            } in
            let stored : (after ≡ db') × (row.id ≡ id) = (ground arith, ground arith) in
            let (same, numbered) = stored in
            subst
              (λ (x : UserTable).
                (r : UserRow) × (find (has_token_id (c ∷ token_id)) x.rows ≡ some r)
                × (r.id ≡ id)
                × (r.name ≡ name)
                × (r.token_hash ≡ token_hash))
              same
              (
                row,
                find-append-none (has_token_id (c ∷ token_id)) db.rows row free
                    ((text_beq_iff (c ∷ token_id) (c ∷ token_id)).1 refl),
                numbered,
                refl,
                refl,
              )
      ]

  found_user-token_id :
      (token id secret : Text) (db : UserTable) (r : UserRow)
      → split_token token ≡ (id, secret)
      → id ≢ []
      → find (has_token_id id) db.rows ≡ some r
      → accepts derive secret r.token_hash ≡ true
      → found_user derive token db ≡ some (as_user r)
  unfolding found_user user_by_token_id
  found_user-token_id token id secret db r parts ne found taken = ground (arith, text_beq_iff id [])

  user_by_token-found :
      (now : ℕ) (token : Text) (db : UserTable) (u : User)
      → found_user derive token db ≡ some u
      → (user_by_token derive now token db).1 ≡ some u
  unfolding user_by_token
  user_by_token-found now token db u e = rw (e, user_by_token) refl

  accepts_of_verify :
      (secret hash : Text) (key : Bytes)
      → verify_token derive secret hash ≡ ok (key == key)
      → accepts derive secret hash ≡ true
  unfolding accepts
  accepts_of_verify secret hash key e = rw (e, accepts) ((text_beq_iff key key).1 refl)

  -- A new user is let in, as that user, by the token that was generated for it, when there is at
  -- least one id byte, the id bytes, the salt and the key are bytes, the salt is 16 and the key 32
  -- of them long, and the secret was hashed without error.
  pub user_by_token-create_user :
      (base64 : Bytes → Text) (now later id : ℕ) (name stored : Text) (salt secret_bytes : Bytes)
      (b : ℕ) (id_bytes : Bytes) (db db' : UserTable)
      → All (λ b. b < 256) (b ∷ id_bytes)
      → All (λ b. b < 256) salt
      → length salt ≡ 16
      → All (λ b. b < 256) (derive (base64 secret_bytes) salt)
      → length (derive (base64 secret_bytes) salt) ≡ 32
      → hash_token derive salt (base64 secret_bytes) ≡ ok stored
      → create_user now name (hex_encode (b ∷ id_bytes)) stored db ≡ ok (db', id)
      → (user_by_token derive later (generate_token base64 (b ∷ id_bytes) secret_bytes) db').1
        ≡ some (record { id = id; name = name })
  user_by_token-create_user base64 now later id name stored salt secret_bytes b id_bytes db db' h g
        l k m hashed created =
      let token = generate_token base64 (b ∷ id_bytes) secret_bytes in
      let ne : hex_encode (b ∷ id_bytes) ≢ [] = unfold hex_encode in λ e. absurd (ground arith) in
      let (r, found, numbered, called, kept) =
        find-create_user now id name (hex_encode (b ∷ id_bytes)) stored db db' ne created in
      let parts = split_token-generate_token base64 (b ∷ id_bytes) secret_bytes h in
      let verified =
        verify_token-hash_token derive salt (base64 secret_bytes) (base64 secret_bytes) stored g l k
          m hashed in
      let taken : accepts derive (base64 secret_bytes) r.token_hash ≡ true = rw kept (
        accepts_of_verify (base64 secret_bytes) stored (derive (base64 secret_bytes) salt)
          verified) in
      user_by_token-found later token db' (as_user r) (
        found_user-token_id token (hex_encode (b ∷ id_bytes)) (base64 secret_bytes) db' r parts ne
          found taken)
      ∙ rw (numbered, called) refl
