-- ===== src/Base/Rows/Find.antt =====
-- What a query finds after a statement.
use poor_man_stack.Base.Rows.{find, update, remove, IsFresh, IsUnique}
use mathlib.Core.Path.{sym, ap, ◌∙◌, ◌≡◌, refl, subst}
use mathlib.Core.Logic.{◌≢◌, inl, inr}
use mathlib.Core.Bool.{Bool, true, false}
use mathlib.Core.Option.{none, some}
use mathlib.Core.List.{List, [], ◌∷◌, ◌++◌}
use native.Mathlib.Omega.{arith}
use poor_man_stack.Base.Tests.{Eq, ◌==◌, Bool-cases, is_some, if◌then◌else◌}
use poor_man_stack.Base.Lists.{All}

module _ {ℓ} {A : Type ℓ} (test : A → Bool) where
  pub All-find {κ} : (P : A → Type κ) (rs : List A) (r : A) → All P rs → find test rs ≡ some r → P r
  unfolding find
  All-find P [] r h e = cc
  All-find P (x ∷ rs) r (p, h) e = elim (Bool-cases (test x)) [
    | inl hit ↦ subst P (ground arith) p
    | inr miss ↦ All-find P rs r h (ground arith)
  ]

  pub find-true : (rs : List A) (r : A) → find test rs ≡ some r → test r ≡ true
  unfolding find
  find-true [] r e = cc
  find-true (x ∷ rs) r e = ground (arith, find-true rs r)

  pub find-append :
      (rs ys : List A)
      → find test (rs ++ ys) ≡ (if is_some (find test rs) then find test rs else find test ys)
  unfolding find
  find-append [] ys = refl
  find-append (x ∷ rs) ys = ground (arith, find-append rs ys)

  module _ (where_ : A → Bool) (f : A → A) where
    pub is_some-find-update :
        (rs : List A)
        → ((r : A) → test (f r) ≡ test r)
        → is_some (find test (update where_ f rs)) ≡ is_some (find test rs)
    unfolding find update
    is_some-find-update [] same = refl
    is_some-find-update (x ∷ rs) same = ground (arith, same x, is_some-find-update rs same)

    -- The updated row is found where the old one was.
    pub find-update_hit :
        (rs : List A) (r : A)
        → ((r : A) → test (f r) ≡ test r)
        → find test rs ≡ some r
        → where_ r ≡ true
        → find test (update where_ f rs) ≡ some (f r)
    unfolding find update
    find-update_hit [] r same e h = cc
    find-update_hit (x ∷ rs) r same e h = ground (arith, same x, find-update_hit rs r same)

    pub find-update_miss :
        (rs : List A) (r : A)
        → ((r : A) → test (f r) ≡ test r)
        → find test rs ≡ some r
        → where_ r ≡ false
        → find test (update where_ f rs) ≡ some r
    unfolding find update
    find-update_miss [] r same e h = cc
    find-update_miss (x ∷ rs) r same e h = ground (arith, same x, find-update_miss rs r same)

    pub find-update-none :
        (rs : List A)
        → ((r : A) → test (f r) ≡ test r)
        → find test rs ≡ none
        → find test (update where_ f rs) ≡ none
    unfolding find update
    find-update-none [] same e = refl
    find-update-none (x ∷ rs) same e = ground (arith, same x, find-update-none rs same)

  pub find_of_All-false : (rs : List A) → All (λ r. test r ≡ false) rs → find test rs ≡ none
  unfolding find
  find_of_All-false [] h = refl
  find_of_All-false (x ∷ rs) (p, h) = ground (arith, find_of_All-false rs h)

  pub find-append_last :
      (rs : List A) (r : A)
      → All (λ x. test x ≡ false) rs
      → test r ≡ true
      → find test (rs ++ r ∷ []) ≡ some r
  unfolding find
  find-append_last [] r h e = rw e refl
  find-append_last (x ∷ rs) r (p, h) e = rw p (find-append_last rs r h e)

  pub find-append-none :
      (rs : List A) (r : A)
      → find test rs ≡ none
      → test r ≡ true
      → find test (rs ++ r ∷ []) ≡ some r
  unfolding find
  find-append-none [] r h e = rw e refl
  find-append-none (x ∷ rs) r h e = ground (arith, find-append-none rs r)

  pub find-append_miss :
      (rs : List A) (r : A) → test r ≡ false → find test (rs ++ r ∷ []) ≡ find test rs
  unfolding find
  find-append_miss [] r e = rw e refl
  find-append_miss (x ∷ rs) r e = ground (arith, find-append_miss rs r e)

  -- A statement on rows that the query does not look for.
  pub find-update_disjoint :
      (where_ : A → Bool) (f : A → A) (rs : List A)
      → ((r : A) → test (f r) ≡ test r)
      → ((r : A) → where_ r ≡ true → test r ≡ false)
      → find test (update where_ f rs) ≡ find test rs
  unfolding find update
  find-update_disjoint where_ f [] same apart = refl
  find-update_disjoint where_ f (x ∷ rs) same apart =
      ground (arith, same x, apart x, find-update_disjoint where_ f rs same apart)

  -- A row that the deletion spares is still found, if the rows it takes are not.
  pub find-remove :
      (gone : A → Bool) (rs : List A)
      → ((r : A) → gone r ≡ true → test r ≡ false)
      → find test (remove gone rs) ≡ find test rs
  unfolding find remove
  find-remove gone [] h = refl
  find-remove gone (x ∷ rs) h = ground (arith, h x, find-remove gone rs h)

module _ {ℓ κ} {A : Type ℓ} {K : Type κ} ⦃e : Eq K⦄ (key : A → K) where
  pub find-eq_key : (k : K) (rs : List A) (r : A) → find (λ x. key x == k) rs ≡ some r → key r ≡ k
  find-eq_key k rs r h = (e.same_iff (key r) k).0 (find-true (λ x. key x == k) rs r h)

  pub find_of_IsFresh : (k : K) (rs : List A) → IsFresh key k rs → find (λ x. key x == k) rs ≡ none
  unfolding find
  find_of_IsFresh k [] h = refl
  find_of_IsFresh k (x ∷ rs) (p, h) = ground (arith, e.same_iff (key x) k, find_of_IsFresh k rs h)

  pub IsFresh-of_find : (k : K) (rs : List A) → find (λ x. key x == k) rs ≡ none → IsFresh key k rs
  unfolding find
  IsFresh-of_find k [] h = tt
  IsFresh-of_find k (x ∷ rs) h = ground (arith, e.same_iff (key x) k, IsFresh-of_find k rs)

  pub remove_of_IsFresh :
      (k : K) (rs : List A) → IsFresh key k rs → remove (λ x. key x == k) rs ≡ rs
  unfolding remove
  remove_of_IsFresh k [] h = refl
  remove_of_IsFresh k (x ∷ rs) (p, h) =
      ground (arith, e.same_iff (key x) k, remove_of_IsFresh k rs h)

  -- With a unique key, a deletion by key takes one row: one that another query does not look for
  -- is all that it loses.
  pub is_some-find-remove :
      (test : A → Bool) (k : K) (rs : List A) (r : A)
      → IsUnique key rs
      → find (λ x. key x == k) rs ≡ some r
      → test r ≡ false
      → is_some (find test rs) ≡ true
      → is_some (find test (remove (λ x. key x == k) rs)) ≡ true
  unfolding find remove
  is_some-find-remove test k [] r u h miss hit = cc
  is_some-find-remove test k (x ∷ rs) r (fresh, u) h miss hit = elim (Bool-cases (key x == k)) [
    | inl same ↦ ground (
      arith,
      e.same_iff (key x) k,
      remove_of_IsFresh k rs (subst (λ j. IsFresh key j rs) ((e.same_iff (key x) k).0 same) fresh),
    )
    | inr other ↦ ground (arith, is_some-find-remove test k rs r u)
  ]

  -- Two queries that find rows of one unique key find one row.
  pub find_same_key :
      (t u : A → Bool) (rs : List A) (a b : A)
      → IsUnique key rs
      → find t rs ≡ some a
      → find u rs ≡ some b
      → key a ≡ key b
      → a ≡ b
  unfolding find
  find_same_key t u [] a b un ea eb same = cc
  find_same_key t u (x ∷ rs) a b (fresh, un) ea eb same = elim (Bool-cases (t x)) [
    | inl hit_t ↦ elim (Bool-cases (u x)) [
      | inl hit_u ↦ ground arith
      | inr miss_u ↦
          let x_is_a : x ≡ a = ground arith in
          absurd (
            All-find u (λ r. key r ≢ key x) rs b fresh (ground arith)
              (sym same ∙ ap key (sym x_is_a)))
    ]
    | inr miss_t ↦ elim (Bool-cases (u x)) [
      | inl hit_u ↦
          let x_is_b : x ≡ b = ground arith in
          absurd
            (All-find t (λ r. key r ≢ key x) rs a fresh (ground arith) (same ∙ ap key (sym x_is_b)))
      | inr miss_u ↦ find_same_key t u rs a b un (ground arith) (ground arith) same
    ]
  ]
