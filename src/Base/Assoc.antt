-- ===== src/Base/Assoc.antt =====
-- Go maps with string keys, as association lists.
use mathlib.Core.Path.{◌≡◌, refl}
use mathlib.Core.Option.{Option, none, some}
use mathlib.Core.List.{List, [], ◌∷◌}
use native.Mathlib.Omega.{arith}
use mathlib.Core.Logic.{◌⊎◌, inl, inr}
use mathlib.Core.Bool.{true}
use poor_man_stack.Base.Lists.{All, Has}
use poor_man_stack.Base.Tests.{Bool-cases, is_some, ◌==◌, if◌then◌else◌}
use poor_man_stack.Base.Texts.{Text, text_beq_iff, text_eq}

abbrev pub Map {ℓ} : Type ℓ → Type ℓ
Map V = List (Text × V)

module _ {ℓ} {V : Type ℓ} where
  -- A read with the comma-ok form.
  unfoldable pub lookup : Text → Map V → Option V
  lookup wanted [] = none
  lookup wanted ((key, value) ∷ rest) = if key == wanted then some value else lookup wanted rest

  -- `delete(m, key)`.
  unfoldable pub delete : Text → Map V → Map V
  delete gone [] = []
  delete gone ((key, value) ∷ rest) =
      if key == gone then delete gone rest else (key, value) ∷ delete gone rest

  -- `m[key] = value`.
  unfoldable pub insert : Text → V → Map V → Map V
  insert key value [] = (key, value) ∷ []
  insert key value ((other, kept) ∷ rest) =
      if other == key then (key, value) ∷ rest else (other, kept) ∷ insert key value rest

  pub lookup-delete :
      (gone wanted : Text) (m : Map V)
      → lookup wanted (delete gone m) ≡ (if gone == wanted then none else lookup wanted m)
  unfolding lookup delete
  lookup-delete gone wanted [] = ground arith
  lookup-delete gone wanted ((key, value) ∷ rest) = ground (
    arith,
    lookup-delete gone wanted rest,
    text_beq_iff gone wanted,
    text_beq_iff key wanted,
    text_beq_iff key gone,
  )

  pub lookup-insert :
      (key wanted : Text) (value : V) (m : Map V)
      → lookup wanted (insert key value m) ≡ (if key == wanted then some value else lookup wanted m)
  unfolding insert lookup
  lookup-insert key wanted value [] = refl
  lookup-insert key wanted value ((other, kept) ∷ rest) = ground (
    arith,
    lookup-insert key wanted value rest,
    text_beq_iff key wanted,
    text_beq_iff other key,
    text_beq_iff other wanted,
  )

  -- `m[key] = make(key)` for every key.
  unfoldable pub insert_all : (Text → V) → List Text → Map V → Map V
  insert_all make [] m = m
  insert_all make (key ∷ keys) m = insert_all make keys (insert key (make key) m)

  pub insert_all-lookup :
      (make : Text → V) (keys : List Text) (m : Map V) (wanted : Text)
      → (Has wanted keys ⊎ (is_some (lookup wanted m) ≡ true))
      → is_some (lookup wanted (insert_all make keys m)) ≡ true
  unfolding insert_all
  insert_all-lookup make [] m wanted (inl e) = absurd e
  insert_all-lookup make [] m wanted (inr e) = e
  insert_all-lookup make (key ∷ keys) m wanted h =
      insert_all-lookup make keys (insert key (make key) m) wanted (later h)
    where
      later :
          (Has wanted (key ∷ keys) ⊎ (is_some (lookup wanted m) ≡ true))
          → Has wanted keys ⊎ (is_some (lookup wanted (insert key (make key) m)) ≡ true)
      later (inl (inl e)) =
          inr (ground (arith, lookup-insert key wanted (make key) m, text_beq_iff key wanted))
      later (inl (inr e)) = inl e
      later (inr e) =
          inr (ground (arith, lookup-insert key wanted (make key) m, text_beq_iff key wanted))

  pub insert-All {κ} :
      (P : V → Type κ) (key : Text) (value : V) (m : Map V)
      → P value
      → All (λ (e : Text × V). P e.1) m
      → All (λ (e : Text × V). P e.1) (insert key value m)
  unfolding insert
  insert-All P key value [] p h = (p, tt)
  insert-All P key value ((other, kept) ∷ rest) p (q, h) = elim (Bool-cases (other == key)) [
    | inl same ↦ rw same (p, h)
    | inr different ↦ rw different (q, insert-All P key value rest p h)
  ]
