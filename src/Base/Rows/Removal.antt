-- ===== src/Base/Rows/Removal.antt =====
-- Deletions one after another, and deletions of the rows that a query found.
use mathlib.Core.Path.{◌≡◌, refl, ap}
use mathlib.Core.Logic.{◌≢◌}
use mathlib.Core.Bool.{Bool, false, ◌||◌}
use mathlib.Core.Option.{none}
use mathlib.Core.List.{List, [], ◌∷◌, reverse, reverse_aux}
use native.Mathlib.Omega.{arith}
use Prim.Native.Nat.{ℕ}
use poor_man_stack.Base.Tests.{◌==◌, nat_eq, nat_beq_iff}
use poor_man_stack.Base.Lists.{All, All-zip, any}
use poor_man_stack.Base.Rows.{find, select, remove, IsUnique, IsFresh, insert_desc, sort_desc}

module _ {ℓ} {A : Type ℓ} where
  pub remove-false : (rs : List A) → remove (λ r. false) rs ≡ rs
  unfolding remove
  remove-false [] = refl
  remove-false (x ∷ rs) = ap (λ l. x ∷ l) (remove-false rs)

  pub remove-remove :
      (p q : A → Bool) (rs : List A) → remove p (remove q rs) ≡ remove (λ r. q r || p r) rs
  unfolding remove
  remove-remove p q [] = refl
  remove-remove p q (x ∷ rs) = ground (arith, remove-remove p q rs)

  -- Two tests that agree on the rows.
  pub remove-same :
      (p q : A → Bool) (rs : List A) → All (λ r. p r ≡ q r) rs → remove p rs ≡ remove q rs
  unfolding remove
  remove-same p q [] h = refl
  remove-same p q (x ∷ rs) (e, h) = ground (arith, remove-same p q rs h)

  pub remove-none : (p : A → Bool) (rs : List A) → find p rs ≡ none → remove p rs ≡ rs
  unfolding remove find
  remove-none p [] e = refl
  remove-none p (x ∷ rs) e = ground (arith, remove-none p rs)

  -- A deletion leaves no row that it looks for.
  pub find-remove_same : (p : A → Bool) (rs : List A) → find p (remove p rs) ≡ none
  unfolding find remove
  find-remove_same p [] = refl
  find-remove_same p (x ∷ rs) = ground (arith, find-remove_same p rs)

  any-insert_desc :
      (p : A → Bool) (key : A → ℕ) (r : A) (xs : List A)
      → any p (insert_desc key r xs) ≡ (p r || any p xs)
  unfolding insert_desc
  any-insert_desc p key r [] = refl
  any-insert_desc p key r (x ∷ xs) = ground (arith, any-insert_desc p key r xs)

  pub any-sort_desc :
      (p : A → Bool) (key : A → ℕ) (rs : List A) → any p (sort_desc key rs) ≡ any p rs
  unfolding sort_desc
  any-sort_desc p key [] = refl
  any-sort_desc p key (r ∷ rs) =
      ground (arith, any-sort_desc p key rs, any-insert_desc p key r (sort_desc key rs))

  any-reverse_aux :
      (p : A → Bool) (xs ys : List A) → any p (reverse_aux xs ys) ≡ (any p xs || any p ys)
  any-reverse_aux p [] ys = refl
  any-reverse_aux p (x ∷ xs) ys = ground (arith, any-reverse_aux p xs (x ∷ ys))

  pub any-reverse : (p : A → Bool) (xs : List A) → any p (reverse xs) ≡ any p xs
  any-reverse p xs = ground (arith, any-reverse_aux p xs [])

module _ {ℓ} {A : Type ℓ} (key : A → ℕ) where
  any-fresh :
      (t : A → Bool) (k : ℕ) (rs : List A)
      → IsFresh key k rs
      → any (λ b. key b == k) (select t rs) ≡ false
  unfolding select
  any-fresh t k [] h = refl
  any-fresh t k (x ∷ rs) (ne, h) = ground (arith, any-fresh t k rs h, nat_beq_iff (key x) k)

  -- With a unique key, the keys of the rows that a query finds are those of no other row.
  pub any-select :
      (t : A → Bool) (rs : List A)
      → IsUnique key rs
      → All (λ r. any (λ b. key b == key r) (select t rs) ≡ t r) rs
  unfolding select
  any-select t [] u = tt
  any-select t (x ∷ rs) (fresh, u) = (
    ground (arith, any-fresh t (key x) rs fresh, nat_beq_iff (key x) (key x)),
    All-zip (λ r. key r ≢ key x) (λ r. any (λ b. key b == key r) (select t rs) ≡ t r) _ rs
        (λ r ne same. ground (arith, same, nat_beq_iff (key x) (key r))) fresh (any-select t rs u),
  )
