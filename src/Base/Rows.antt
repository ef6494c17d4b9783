-- ===== src/Base/Rows.antt =====
-- Tables as lists of rows: what `WHERE`, `UPDATE`, `DELETE`, `ORDER BY … DESC` and a primary key
-- that SQLite assigns do to them.
pub mod Find
pub mod Sorting
pub mod Removal
use Prim.Native.Nat.{ℕ, ◌+◌, ◌≤◌, ◌<◌, max}
use mathlib.Core.Path.{◌≡◌, refl, sym}
use mathlib.Core.Logic.{◌≢◌, inl, inr}
use mathlib.Core.Bool.{Bool, false}
use mathlib.Core.Option.{Option, none, some}
use mathlib.Core.List.{List, [], ◌∷◌, ◌++◌}
use native.Mathlib.Omega.{arith}
use poor_man_stack.Base.Tests.{Bool-cases, nat_eq, leb, if◌then◌else◌}
use poor_man_stack.Base.Lists.{All, All-imp}

module _ {ℓ} {A : Type ℓ} where
  -- `SELECT … WHERE test`, the first row.
  unfoldable pub find : (A → Bool) → List A → Option A
  find test [] = none
  find test (r ∷ rs) = if test r then some r else find test rs

  -- `SELECT … WHERE test`, every row.
  unfoldable pub select : (A → Bool) → List A → List A
  select test [] = []
  select test (r ∷ rs) = if test r then r ∷ select test rs else select test rs

  -- `UPDATE … WHERE test`.
  unfoldable pub update : (A → Bool) → (A → A) → List A → List A
  update test f [] = []
  update test f (r ∷ rs) = (if test r then f r else r) ∷ update test f rs

  -- `DELETE … WHERE test`.
  unfoldable pub remove : (A → Bool) → List A → List A
  remove test [] = []
  remove test (r ∷ rs) = if test r then remove test rs else r ∷ remove test rs

  module _ (key : A → ℕ) where
    unfoldable pub max_key : List A → ℕ
    max_key [] = 0
    max_key (r ∷ rs) = max (key r) (max_key rs)

    -- The id that `INTEGER PRIMARY KEY` gives a new row.
    unfoldable pub next_id : List A → ℕ
    unfolding max_key
    next_id rs = max_key rs + 1

    unfoldable pub insert_desc : A → List A → List A
    insert_desc r [] = r ∷ []
    insert_desc r (x ∷ xs) = if leb (key x) (key r) then r ∷ x ∷ xs else x ∷ insert_desc r xs

    -- `ORDER BY key DESC`.
    unfoldable pub sort_desc : List A → List A
    unfolding insert_desc
    sort_desc [] = []
    sort_desc (r ∷ rs) = insert_desc r (sort_desc rs)

module _ {ℓ κ} {A : Type ℓ} {K : Type κ} (key : A → K) where
  abbrev pub IsFresh : K → List A → Type κ
  IsFresh k rs = All (λ r. key r ≢ k) rs

  -- A `UNIQUE` column.
  abbrev pub IsUnique : List A → Type κ
  IsUnique [] = Unit
  IsUnique (r ∷ rs) = IsFresh (key r) rs × IsUnique rs

  pub IsFresh-append :
      (k : K) (rs : List A) (r : A) → IsFresh k rs → key r ≢ k → IsFresh k (rs ++ r ∷ [])
  IsFresh-append k [] r h ne = (ne, tt)
  IsFresh-append k (x ∷ rs) r (p, h) ne = (p, IsFresh-append k rs r h ne)

  pub IsUnique-append :
      (rs : List A) (r : A) → IsUnique rs → IsFresh (key r) rs → IsUnique (rs ++ r ∷ [])
  IsUnique-append [] r u h = (tt, tt)
  IsUnique-append (x ∷ rs) r (f, u) (p, h) =
      (IsFresh-append (key x) rs r f (λ e. p (sym e)), IsUnique-append rs r u h)

  module _ (test : A → Bool) where
    pub IsFresh-update :
        (f : A → A)
        → ((r : A) → key (f r) ≡ key r)
        → (k : K) (rs : List A) → IsFresh k rs
        → IsFresh k (update test f rs)
    unfolding update
    IsFresh-update f same k [] h = tt
    IsFresh-update f same k (r ∷ rs) (p, h) = ground (arith, same r, IsFresh-update f same k rs h)

    pub IsUnique-update :
        (f : A → A)
        → ((r : A) → key (f r) ≡ key r)
        → (rs : List A) → IsUnique rs
        → IsUnique (update test f rs)
    unfolding update
    IsUnique-update f same [] u = tt
    IsUnique-update f same (r ∷ rs) (h, u) =
        let kept : key (if test r then f r else r) ≡ key r = ground (arith, same r) in
        rw kept (IsFresh-update f same (key r) rs h, IsUnique-update f same rs u)

    pub IsFresh-remove : (k : K) (rs : List A) → IsFresh k rs → IsFresh k (remove test rs)
    unfolding remove
    IsFresh-remove k [] h = tt
    IsFresh-remove k (r ∷ rs) (p, h) = ground (arith, IsFresh-remove k rs h)

    pub IsUnique-remove : (rs : List A) → IsUnique rs → IsUnique (remove test rs)
    unfolding remove
    IsUnique-remove [] u = tt
    IsUnique-remove (r ∷ rs) (h, u) =
        ground (arith, IsFresh-remove (key r) rs h, IsUnique-remove rs u)

module _ {ℓ} {A : Type ℓ} (key : A → ℕ) where
  max_key-le : (rs : List A) → All (λ r. key r ≤ max_key key rs) rs
  unfolding max_key
  max_key-le [] = tt
  max_key-le (r ∷ rs) = (
    omega arith,
    All-imp (λ x. key x ≤ max_key key rs) (λ x. key x ≤ max_key key (r ∷ rs)) rs
        (λ x h. omega arith) (max_key-le rs),
  )

  -- A new id is above every id in use.
  pub next_id-above : (rs : List A) → All (λ r. key r < next_id key rs) rs
  unfolding next_id
  next_id-above rs =
      All-imp (λ x. key x ≤ max_key key rs) (λ x. key x < next_id key rs) rs (λ x h. omega arith)
        (max_key-le rs)

  pub next_id-IsFresh : (rs : List A) → IsFresh key (next_id key rs) rs
  next_id-IsFresh rs =
      All-imp (λ x. key x < next_id key rs) (λ x. key x ≢ next_id key rs) rs (λ x h. omega arith)
        (next_id-above rs)

  All-insert_desc :
      (P : A → Type 0) (r : A) (xs : List A) → P r → All P xs → All P (insert_desc key r xs)
  unfolding insert_desc
  All-insert_desc P r [] p h = (p, tt)
  All-insert_desc P r (x ∷ xs) p (q, h) = ground (arith, All-insert_desc P r xs p h)

  All-sort_desc : (P : A → Type 0) (xs : List A) → All P xs → All P (sort_desc key xs)
  unfolding sort_desc
  All-sort_desc P [] h = tt
  All-sort_desc P (x ∷ xs) (p, h) = All-insert_desc P x (sort_desc key xs) p (All-sort_desc P xs h)

  insert_desc-append :
      (r x : A) (xs : List A)
      → key r < key x
      → insert_desc key r (x ∷ xs) ≡ x ∷ insert_desc key r xs
  unfolding insert_desc
  insert_desc-append r x xs h = ground arith

  -- The newest row comes first.
  pub sort_desc-append :
      (rs : List A) (r : A)
      → All (λ x. key x < key r) rs
      → sort_desc key (rs ++ r ∷ []) ≡ r ∷ sort_desc key rs
  unfolding sort_desc
  sort_desc-append [] r h = unfold insert_desc in refl
  sort_desc-append (x ∷ rs) r (p, h) =
      rw (sort_desc-append rs r h) (insert_desc-append x r (sort_desc key rs) p)

module _ {ℓ} {A : Type ℓ} (test : A → Bool) where
  pub select-append : (xs ys : List A) → select test (xs ++ ys) ≡ select test xs ++ select test ys
  unfolding select
  select-append [] ys = refl
  select-append (x ∷ xs) ys = ground (arith, select-append xs ys)

  pub All-select {κ} : (P : A → Type κ) (xs : List A) → All P xs → All P (select test xs)
  unfolding select
  All-select P [] h = tt
  All-select P (x ∷ xs) (p, h) = ground (arith, All-select P xs h)

  pub All-update {κ} :
      (P : A → Type κ) (f : A → A) (xs : List A)
      → ((x : A) → P x → P (f x))
      → All P xs
      → All P (update test f xs)
  unfolding update
  All-update P f [] keep h = tt
  All-update P f (x ∷ xs) keep (p, h) = ground (arith, keep x p, All-update P f xs keep h)

  pub All-remove {κ} : (P : A → Type κ) (xs : List A) → All P xs → All P (remove test xs)
  unfolding remove
  All-remove P [] h = tt
  All-remove P (x ∷ xs) (p, h) = ground (arith, All-remove P xs h)

  -- What is left does not meet the test.
  pub All-remove_imp {κ μ} :
      (P : A → Type κ) (Q : A → Type μ) (xs : List A)
      → ((x : A) → P x → test x ≡ false → Q x)
      → All P xs
      → All Q (remove test xs)
  unfolding remove
  All-remove_imp P Q [] imp h = tt
  All-remove_imp P Q (x ∷ xs) imp (p, h) = elim (Bool-cases (test x)) [
    | inl gone ↦ rw (gone, remove) (All-remove_imp P Q xs imp h)
    | inr stays ↦ rw (stays, remove) (imp x p stays, All-remove_imp P Q xs imp h)
  ]
