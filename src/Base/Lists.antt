-- ===== src/Base/Lists.antt =====
-- Lists measured by native numbers, and predicates on their elements.
use Prim.Native.Nat.{ℕ, zero, suc, ◌+◌}
use mathlib.Core.Path.{◌≡◌, refl}
use mathlib.Core.Logic.{◌⊎◌, ◌↔◌}
use mathlib.Core.Bool.{Bool, true, false, ◌&&◌, ◌||◌}
use mathlib.Core.List.{List, [], ◌∷◌, ◌++◌}
use native.Mathlib.Omega.{arith}

module _ {ℓ} {A : Type ℓ} where
  abbrev pub length : List A → ℕ
  length [] = 0
  length (x ∷ xs) = suc (length xs)

  abbrev pub take : ℕ → List A → List A
  take zero xs = []
  take (suc n) [] = []
  take (suc n) (x ∷ xs) = x ∷ take n xs

  pub length-append : (xs ys : List A) → length (xs ++ ys) ≡ length xs + length ys
  length-append [] ys = omega arith
  length-append (x ∷ xs) ys = omega (arith, length-append xs ys)

  abbrev pub any : (A → Bool) → List A → Bool
  any p [] = false
  any p (x ∷ xs) = p x || any p xs

  abbrev pub all : (A → Bool) → List A → Bool
  all p [] = true
  all p (x ∷ xs) = p x && all p xs

module _ {ℓ κ} {A : Type ℓ} (P : A → Type κ) where
  abbrev pub All : List A → Type κ
  All [] = Unit
  All (x ∷ xs) = P x × All xs

  pub All-append : (xs ys : List A) → All xs → All ys → All (xs ++ ys)
  All-append [] ys _ h = h
  All-append (x ∷ xs) ys (p, k) h = (p, All-append xs ys k h)

module _ {ℓ κ} {A : Type ℓ} {P : A → Type κ} (p : A → Bool) where
  -- A loop that stops at the first element that passes decides "some element has the property".
  pub all-All_iff : ((x : A) → (p x ≡ true) ↔ P x) → (xs : List A) → (all p xs ≡ true) ↔ All P xs
  all-All_iff h [] = (λ _. tt, λ _. refl)
  all-All_iff h (x ∷ xs) = ground (arith, h x, all-All_iff h xs)

pub All-imp {ℓ κ μ} :
    {A : Type ℓ} (P : A → Type κ) (Q : A → Type μ) (xs : List A)
    → ((x : A) → P x → Q x)
    → All P xs
    → All Q xs
All-imp P Q [] imp h = tt
All-imp P Q (x ∷ xs) imp (p, h) = (imp x p, All-imp P Q xs imp h)

-- `len(xs) == 0`.
abbrev pub is_empty {ℓ} : {A : Type ℓ} → List A → Bool
is_empty [] = true
is_empty (x ∷ xs) = false

-- Some element has the property.
abbrev pub Any {ℓ} : {A : Type ℓ} → (A → Type 0) → List A → Type 0
Any P [] = ⊥
Any P (x ∷ xs) = P x ⊎ Any P xs

-- `slices.Contains`, and the like.
pub any-Any_iff {ℓ} :
    {A : Type ℓ} (P : A → Type 0) (p : A → Bool)
    → ((x : A) → (p x ≡ true) ↔ P x)
    → (xs : List A) → (any p xs ≡ true) ↔ Any P xs
any-Any_iff P p h [] = (λ e. cc, λ w. absurd w)
any-Any_iff P p h (x ∷ xs) = ground (arith, h x, any-Any_iff P p h xs)

-- Two lists of one length whose elements are related one by one.
abbrev pub Pairs {ℓ κ} : {A : Type ℓ} {B : Type κ} → (A → B → Type 0) → List A → List B → Type 0
Pairs R [] [] = Unit
Pairs R [] (y ∷ ys) = ⊥
Pairs R (x ∷ xs) [] = ⊥
Pairs R (x ∷ xs) (y ∷ ys) = R x y × Pairs R xs ys

pub Pairs-imp {ℓ κ μ} :
    {A : Type ℓ} {B : Type κ} (P : A → Type μ) (R : A → B → Type 0) (S : A → B → Type 0)
    (xs : List A) (ys : List B)
    → ((x : A) (y : B) → P x → R x y → S x y)
    → All P xs
    → Pairs R xs ys
    → Pairs S xs ys
Pairs-imp P R S [] [] imp h r = tt
Pairs-imp P R S [] (y ∷ ys) imp h r = absurd r
Pairs-imp P R S (x ∷ xs) [] imp h r = absurd r
Pairs-imp P R S (x ∷ xs) (y ∷ ys) imp (p, h) (r, rest) =
    (imp x y p r, Pairs-imp P R S xs ys imp h rest)

-- The element is in the list.
abbrev pub Has : {A : Type 0} → A → List A → Type 0
Has x = Any (λ y. y ≡ x)

pub Any-append {ℓ} :
    {A : Type ℓ} (P : A → Type 0) (xs ys : List A) → Any P (xs ++ ys) ↔ (Any P xs ⊎ Any P ys)
Any-append P [] ys = ground arith
Any-append P (x ∷ xs) ys = ground (arith, Any-append P xs ys)

-- Two properties that agree wherever a third one holds.
pub All_iff {ℓ} :
    {A : Type ℓ} (P Q R : A → Type 0) (xs : List A)
    → ((x : A) → P x → Q x ↔ R x)
    → All P xs
    → All Q xs ↔ All R xs
All_iff P Q R [] h good = (λ _. tt, λ _. tt)
All_iff P Q R (x ∷ xs) h (p, good) =
    let rest = All_iff P Q R xs h good in
    (λ (q, qs). ((h x p).0 q, rest.0 qs), λ (r, rs). ((h x p).1 r, rest.1 rs))

-- An element that passes makes `any` true.
pub any-each {ℓ} :
    {A : Type ℓ} (p : A → Bool) (xs : List A) → All (λ x. p x ≡ true → any p xs ≡ true) xs
any-each p [] = tt
any-each p (x ∷ xs) = (
  λ e. ground arith,
  All-imp (λ y. p y ≡ true → any p xs ≡ true) _ xs (λ y h e. let later = h e in ground arith)
      (any-each p xs),
)

pub All-zip {ℓ} :
    {A : Type ℓ} (P Q R : A → Type 0) (xs : List A)
    → ((x : A) → P x → Q x → R x)
    → All P xs
    → All Q xs
    → All R xs
All-zip P Q R [] h ps qs = tt
All-zip P Q R (x ∷ xs) h (p, ps) (q, qs) = (h x p q, All-zip P Q R xs h ps qs)
