-- ===== src/Secrets/Vault.antt =====
-- The service as a map from names to values.
use poor_man_stack.Base.{
  ℕ, Text, ◌==◌, text_eq, text_beq_iff, true, false, not, ◌&&◌, ◌≡◌, ◌≢◌, ◌⊎◌, inl, inr, refl, sym,
  ap, subst, ◌∙◌, Option, none, some, List, [], ◌∷◌, ◌++◌, Result, ok, err, if◌then◌else◌, is_some,
  arith, Bool-cases, Option-cases,
}
use poor_man_stack.Base.Rows.{find, update, remove, next_id}
use poor_man_stack.Base.Rows.Find.{
  find-append-none, find-append_miss, find-update_hit, find-update_disjoint, find-remove, find-true,
}
use poor_man_stack.Base.Rows.Removal.{remove-none, find-remove_same}
use poor_man_stack.Webhooks.Sources.{Cipher}
use poor_man_stack.Store.Secrets.{
  secret_not_found, StoredSecret, is_secret, is_scope, create_secret, get_secret, update_secret,
  delete_secret,
}
use poor_man_stack.Secrets.{create, update_value, delete_value, reveal, store_failed}

-- A call that changes the store; the nonce is that of its encryption.
pub data Command : Type 0 where
  creation :
      (now : ℕ)
      → (nonce : List ℕ) → (scope : Text) → (stack : Text) → (name : Text) → (value : Text)
      → Command
  change : (nonce : List ℕ) → (name : Text) → (value : Text) → Command
  deletion : (name : Text) → Command

-- The value of each name, if it has one.
abbrev pub Vault : Type 0
Vault = Text → Option Text

-- What a name is set to.
abbrev pub assign : Text → Option Text → Vault → Vault
assign name value v wanted = if name == wanted then value else v wanted

-- The specification: a creation needs a known scope and a new name, the others a name that is there.
unfoldable pub specify : Command → Vault → Vault
specify (creation now nonce scope stack name value) v =
    if is_scope scope && not (is_some (v name)) then assign name (some value) v else v
specify (change nonce name value) v = if is_some (v name) then assign name (some value) v else v
specify (deletion name) v = assign name none v

unfoldable pub specify_all : List Command → Vault → Vault
unfolding specify
specify_all [] v = v
specify_all (c ∷ cs) v = specify_all cs (specify c v)

-- The rows behind a call, which are as before if it failed.
abbrev pub or_kept {ℓ} :
    {E : Type ℓ} → Result E (List StoredSecret) → List StoredSecret → List StoredSecret
or_kept (ok after) rows = after
or_kept (err e) rows = rows

abbrev pub rows_of {ℓ} :
    {E : Type ℓ} → Result E (List StoredSecret × ℕ) → List StoredSecret → List StoredSecret
rows_of (ok (after, id)) rows = after
rows_of (err e) rows = rows

-- A cipher that encrypts everything and decrypts what it encrypted.
pub record IsVaultCipher (cipher : Cipher) : Type 0 where
  pub sealed : (nonce plain : List ℕ) → List ℕ
  pub encrypts : (nonce plain : List ℕ) → cipher.encrypt nonce plain ≡ ok (sealed nonce plain)
  pub decrypts : (nonce plain : List ℕ) → cipher.decrypt (sealed nonce plain) ≡ ok plain

module _ (cipher : Cipher) (sha : Text → Text) where
  unfoldable pub perform : Command → List StoredSecret → List StoredSecret
  perform (creation now nonce scope stack name value) rows =
      rows_of (create cipher sha now nonce scope stack name value rows) rows
  perform (change nonce name value) rows =
      or_kept (update_value cipher sha nonce name value rows) rows
  perform (deletion name) rows = or_kept (delete_value name rows) rows

  unfoldable pub perform_all : List Command → List StoredSecret → List StoredSecret
  unfolding perform
  perform_all [] rows = rows
  perform_all (c ∷ cs) rows = perform_all cs (perform c rows)

  -- The row of a name, and its value.
  abbrev pub Holds : List StoredSecret → Text → Option Text → Type 0
  Holds rows name none = find (is_secret name) rows ≡ none
  Holds rows name (some value) =
      (row : StoredSecret) × (find (is_secret name) rows ≡ some row)
      × (cipher.decrypt row.payload ≡ ok value)

  abbrev pub Represents : List StoredSecret → Vault → Type 0
  Represents rows v = (name : Text) → Holds rows name (v name)

  Holds-find :
      (rows after : List StoredSecret) (name : Text) (value : Option Text)
      → find (is_secret name) after ≡ find (is_secret name) rows
      → Holds rows name value
      → Holds after name value
  Holds-find rows after name none same h = same ∙ h
  Holds-find rows after name (some value) same (row, found, opened) = (row, same ∙ found, opened)

  Holds-is_some :
      (rows : List StoredSecret) (name : Text) (value : Option Text)
      → Holds rows name value
      → is_some (find (is_secret name) rows) ≡ is_some value
  Holds-is_some rows name none h = ap is_some h
  Holds-is_some rows name (some value) (row, found, opened) = ap is_some found

  -- Rows that hold the new value under the name, and what they held under the others.
  Represents-assign :
      (rows after : List StoredSecret) (v : Vault) (name : Text) (value : Option Text)
      → Represents rows v
      → Holds after name value
      → ((other : Text) → name ≢ other → find (is_secret other) after ≡ find (is_secret other) rows)
      → Represents after (assign name value v)
  Represents-assign rows after v name value h own rest wanted = elim (Bool-cases (name == wanted)) [
    | inl same ↦ rw same (subst (λ n. Holds after n value) ((text_beq_iff name wanted).0 same) own)
    | inr other ↦ rw other (
        Holds-find rows after wanted (v wanted)
          (rest wanted (λ e. cc (other, (text_beq_iff name wanted).1 e))) (h wanted))
  ]

  module _ (law : IsVaultCipher cipher) where
    perform-creation :
        (now : ℕ) (nonce : List ℕ) (scope stack name value : Text) (rows : List StoredSecret)
        → ((perform (creation now nonce scope stack name value) rows ≡ rows)
            × ((is_scope scope && not (is_some (find (is_secret name) rows))) ≡ false))
          ⊎ ((row : StoredSecret) × (row.name ≡ name)
              × (row.payload ≡ law.sealed nonce value)
              × (perform (creation now nonce scope stack name value) rows ≡ rows ++ row ∷ [])
              × (find (is_secret name) rows ≡ none)
              × (is_scope scope ≡ true))
    unfolding perform create create_secret
    perform-creation now nonce scope stack name value rows =
        let encrypted = law.encrypts nonce value in
        elim (Bool-cases (is_scope scope)) [
          | inr bad ↦ inl (ground (arith, encrypted), ground arith)
          | inl good ↦ elim (Option-cases (find (is_secret name) rows)) [
            | inr (row, taken) ↦ inl (ground (arith, encrypted), ground arith)
            | inl free ↦
                let row : StoredSecret = record {
                  id = next_id (λ (r : StoredSecret). r.id) rows;
                  scope = scope;
                  stack = stack;
                  name = name;
                  payload = law.sealed nonce value;
                  hash = sha value;
                  created_at = now;
                } in
                inr (row, refl, refl, rw (encrypted, good, free) refl, free, good)
          ]
        ]

    perform-change :
        (nonce : List ℕ) (name value : Text) (rows : List StoredSecret)
        → perform (change nonce name value) rows ≡ (
            if is_some (find (is_secret name) rows)
            then update
                (is_secret name)
                (λ (r : StoredSecret). record r {
                  payload = law.sealed nonce value;
                  hash = sha value;
                })
                rows
            else rows)
    unfolding perform update_value update_secret
    perform-change nonce name value rows =
        let encrypted = law.encrypts nonce value in
        elim (Bool-cases (is_some (find (is_secret name) rows))) [
          | inl there ↦ rw (encrypted, there) refl
          | inr missing ↦ rw (encrypted, missing) refl
        ]

    creation-Represents :
        (now : ℕ) (nonce : List ℕ) (scope stack name value : Text) (rows : List StoredSecret)
        (v : Vault)
        → Represents rows v
        → Represents
            (perform (creation now nonce scope stack name value) rows)
            (specify (creation now nonce scope stack name value) v)
    creation-Represents now nonce scope stack name value rows v h =
        let there = Holds-is_some rows name (v name) (h name) in
        elim (perform-creation now nonce scope stack name value rows) [
          | inl (kept, bad) ↦
              let spared : specify (creation now nonce scope stack name value) v ≡ v =
                unfold specify in rw (sym there, bad) refl in
              subst (λ r. Represents r (specify (creation now nonce scope stack name value) v))
                (sym kept) (subst (Represents rows) (sym spared) h)
          | inr (row, called, sealed, grown, free, good) ↦
              let assigned : specify (creation now nonce scope stack name value) v
                  ≡ assign name (some value) v =
                unfold specify in rw (sym there, free, good) refl in
              subst (λ r. Represents r (specify (creation now nonce scope stack name value) v))
                (sym grown)
                (subst (Represents (rows ++ row ∷ [])) (sym assigned) (
                  Represents-assign rows (rows ++ row ∷ []) v name (some value) h
                    (
                      row,
                      find-append-none (is_secret name) rows row free
                          ((text_beq_iff row.name name).1 called),
                      ap cipher.decrypt sealed ∙ law.decrypts nonce value,
                    )
                    (λ other ne.
                      find-append_miss (is_secret other) rows row
                        (ground (arith, called, text_beq_iff row.name other)))))
        ]

    change-Represents :
        (nonce : List ℕ) (name value : Text) (rows : List StoredSecret) (v : Vault)
        → Represents rows v
        → Represents (perform (change nonce name value) rows) (specify (change nonce name value) v)
    change-Represents nonce name value rows v h =
        let there = Holds-is_some rows name (v name) (h name) in
        let performed = perform-change nonce name value rows in
        let f : StoredSecret → StoredSecret =
          λ r. record r { payload = law.sealed nonce value; hash = sha value } in
        elim (Option-cases (find (is_secret name) rows)) [
          | inl missing ↦
              let kept : perform (change nonce name value) rows ≡ rows =
                performed ∙ rw missing refl in
              let spared : specify (change nonce name value) v ≡ v =
                unfold specify in rw (sym there, missing) refl in
              subst (λ r. Represents r (specify (change nonce name value) v)) (sym kept)
                (subst (Represents rows) (sym spared) h)
          | inr (row, found) ↦
              let changed : perform (change nonce name value) rows
                  ≡ update (is_secret name) f rows =
                performed ∙ rw found refl in
              let assigned : specify (change nonce name value) v ≡ assign name (some value) v =
                unfold specify in rw (sym there, found) refl in
              subst (λ r. Represents r (specify (change nonce name value) v)) (sym changed)
                (subst (Represents (update (is_secret name) f rows)) (sym assigned) (
                  Represents-assign rows (update (is_secret name) f rows) v name (some value) h
                    (
                      f row,
                      find-update_hit (is_secret name) (is_secret name) f rows row (λ r. refl) found
                          (find-true (is_secret name) rows row found),
                      law.decrypts nonce value,
                    )
                    (λ other ne.
                      find-update_disjoint (is_secret other) (is_secret name) f rows (λ r. refl)
                        (λ r hit.
                          ground
                            (arith, hit, text_beq_iff r.name name, text_beq_iff r.name other)))))
        ]

    perform-deletion :
        (name : Text) (rows : List StoredSecret)
        → perform (deletion name) rows ≡ remove (is_secret name) rows
    unfolding perform delete_value delete_secret
    perform-deletion name rows = elim (Option-cases (find (is_secret name) rows)) [
      | inl missing ↦ rw missing (sym (remove-none (is_secret name) rows missing))
      | inr (row, found) ↦ rw found refl
    ]

    deletion-Represents :
        (name : Text) (rows : List StoredSecret) (v : Vault)
        → Represents rows v
        → Represents (perform (deletion name) rows) (specify (deletion name) v)
    unfolding specify
    deletion-Represents name rows v h =
        subst (λ r. Represents r (assign name none v)) (sym (perform-deletion name rows))
          (Represents-assign rows (remove (is_secret name) rows) v name none h
            (find-remove_same (is_secret name) rows)
            (λ other ne.
              find-remove (is_secret other) (is_secret name) rows (λ r hit.
                ground (arith, hit, text_beq_iff r.name name, text_beq_iff r.name other))))

    perform-Represents :
        (c : Command) (rows : List StoredSecret) (v : Vault)
        → Represents rows v
        → Represents (perform c rows) (specify c v)
    perform-Represents (creation now nonce scope stack name value) rows v h =
        creation-Represents now nonce scope stack name value rows v h
    perform-Represents (change nonce name value) rows v h =
        change-Represents nonce name value rows v h
    perform-Represents (deletion name) rows v h = deletion-Represents name rows v h

    perform_all-Represents :
        (cs : List Command) (rows : List StoredSecret) (v : Vault)
        → Represents rows v
        → Represents (perform_all cs rows) (specify_all cs v)
    unfolding perform_all specify_all
    perform_all-Represents [] rows v h = h
    perform_all-Represents (c ∷ cs) rows v h =
        perform_all-Represents cs (perform c rows) (specify c v) (perform-Represents c rows v h)

    revealed :
        (rows : List StoredSecret) (name : Text) (value : Option Text)
        → Holds rows name value
        → reveal cipher sha name rows
          ≡ (elim value [ some s ↦ ok s | none ↦ err (store_failed secret_not_found) ])
    unfolding reveal get_secret
    revealed rows name none h = ground arith
    revealed rows name (some value) (row, found, opened) = ground (arith, found, opened)

    -- With a cipher that encrypts everything and decrypts what it encrypted: after any sequence of
    -- creations, changes and deletions on an empty store, failing ones included, a name reveals the
    -- value that it has in the map that the sequence specifies, and is not found if it has none.
    pub reveal-perform_all :
        (cs : List Command) (name : Text)
        → reveal cipher sha name (perform_all cs []) ≡ (elim (specify_all cs (λ n. none) name) [
          | some s ↦ ok s
          | none ↦ err (store_failed secret_not_found)
        ])
    reveal-perform_all cs name =
        revealed (perform_all cs []) name (specify_all cs (λ n. none) name)
          (perform_all-Represents cs [] (λ n. none) (λ n. unfold find in refl) name)
