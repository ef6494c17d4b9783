-- ===== src/Base/Outcomes/Checks.antt =====
-- Chains of checks that return the first failure.
use Prim.Native.Nat.{ℕ, ◌+◌}
use mathlib.Core.Path.{◌≡◌, refl, subst}
use mathlib.Core.Logic.{◌↔◌, inl, inr}
use mathlib.Core.Bool.{Bool, true, false}
use mathlib.Core.List.{List, [], ◌∷◌}
use native.Mathlib.Omega.{arith}
use poor_man_stack.Base.Outcomes.{Result-cases, Result, ok, err, require, ◌>>◌, ◌>>=◌}
use poor_man_stack.Base.Lists.{All, Pairs}

-- An error under the name that the caller gives it.
abbrev pub map_err {ℓ κ μ} :
    {E : Type ℓ} {F : Type κ} {A : Type μ} → (E → F) → Result E A → Result F A
map_err f (ok a) = ok a
map_err f (err e) = err (f e)

module _ {ℓ κ} {E : Type ℓ} {A : Type κ} where
  -- A loop of checks with an early return.
  unfoldable pub each_ok : (A → Result E (Unit {0})) → List A → Result E (Unit {0})
  each_ok check [] = ok tt
  each_ok check (x ∷ xs) = check x >> each_ok check xs

  -- The same, with the index.
  unfoldable pub each_indexed : (ℕ → A → Result E (Unit {0})) → ℕ → List A → Result E (Unit {0})
  each_indexed check i [] = ok tt
  each_indexed check i (x ∷ xs) = check i x >> each_indexed check (i + 1) xs

  pub each_ok_iff {μ} :
      (P : A → Type μ) (check : A → Result E (Unit {0}))
      → ((x : A) → (check x ≡ ok tt) ↔ P x)
      → (xs : List A) → (each_ok check xs ≡ ok tt) ↔ All P xs
  unfolding each_ok
  each_ok_iff P check h [] = (λ _. tt, λ _. refl)
  each_ok_iff P check h (x ∷ xs) = ground (arith, h x, each_ok_iff P check h xs)

  -- For a check whose verdict does not depend on the index.
  pub each_indexed_iff {μ} :
      (P : A → Type μ) (check : ℕ → A → Result E (Unit {0}))
      → ((i : ℕ) (x : A) → (check i x ≡ ok tt) ↔ P x)
      → (i : ℕ) (xs : List A) → (each_indexed check i xs ≡ ok tt) ↔ All P xs
  unfolding each_indexed
  each_indexed_iff P check h i [] = (λ _. tt, λ _. refl)
  each_indexed_iff P check h i (x ∷ xs) =
      ground (arith, h i x, each_indexed_iff P check h (i + 1) xs)

module _ {ℓ} {E : Type ℓ} where
  pub require_iff : (b : Bool) (e : E) → (require b e ≡ ok tt) ↔ (b ≡ true)
  require_iff true e = (λ _. refl, λ _. refl)
  require_iff false e = (λ h. cc, λ h. cc)

module _ {κ} {E : Type 0} {A : Type κ} {B : Type 0} where
  -- A loop that collects results and returns the first failure.
  unfoldable pub each_map : (A → Result E B) → List A → Result E (List B)
  each_map f [] = ok []
  each_map f (x ∷ xs) = do y ← f x; ys ← each_map f xs; ok (y ∷ ys)

  -- Every element with the result that the function gives for it.
  pub each_map-Pairs :
      (f : A → Result E B) (xs : List A) (ys : List B)
      → each_map f xs ≡ ok ys
      → Pairs (λ x y. f x ≡ ok y) xs ys
  unfolding each_map
  each_map-Pairs f [] [] e = tt
  each_map-Pairs f [] (y ∷ ys) e = absurd (ground arith)
  each_map-Pairs f (x ∷ xs) ys e = elim (Result-cases (f x)) [
    | inr (bad, failed) ↦ absurd (ground arith)
    | inl (z, first) ↦ elim (Result-cases (each_map f xs)) [
      | inr (bad, failed) ↦ absurd (ground arith)
      | inl (zs, rest) ↦
          let same : z ∷ zs ≡ ys = ground arith in
          subst (λ l. Pairs (λ x y. f x ≡ ok y) (x ∷ xs) l) same
            (first, each_map-Pairs f xs zs rest)
    ]
  ]

  each_map-total :
      (f : A → Result E B) (xs : List A)
      → All (λ x. (y : B) × (f x ≡ ok y)) xs
      → (ys : List B) × (each_map f xs ≡ ok ys)
  unfolding each_map
  each_map-total f [] h = ([], refl)
  each_map-total f (x ∷ xs) ((z, first), h) =
      let (zs, rest) = each_map-total f xs h in (z ∷ zs, ground arith)

  -- An element at which the function returns nothing stops the loop.
  each_map-all :
      (f : A → Result E B) (xs : List A) (ys : List B)
      → each_map f xs ≡ ok ys
      → All (λ x. (y : B) × (f x ≡ ok y)) xs
  each_map-all f xs ys e = go xs ys (each_map-Pairs f xs ys e)
    where
      go :
          (xs : List A) (ys : List B)
          → Pairs (λ x y. f x ≡ ok y) xs ys
          → All (λ x. (y : B) × (f x ≡ ok y)) xs
      go [] [] h = tt
      go [] (y ∷ ys) h = absurd h
      go (x ∷ xs) [] h = absurd h
      go (x ∷ xs) (y ∷ ys) (p, h) = ((y, p), go xs ys h)

  pub each_map-total_iff :
      (f : A → Result E B) (xs : List A)
      → ((ys : List B) × (each_map f xs ≡ ok ys)) ↔ All (λ x. (y : B) × (f x ≡ ok y)) xs
  each_map-total_iff f xs = (λ (ys, e). each_map-all f xs ys e, each_map-total f xs)

  pub each_map-same :
      (f g : A → Result E B) (xs : List A) → All (λ x. f x ≡ g x) xs → each_map f xs ≡ each_map g xs
  unfolding each_map
  each_map-same f g [] h = refl
  each_map-same f g (x ∷ xs) (e, h) = ground (arith, each_map-same f g xs h)
