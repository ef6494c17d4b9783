-- ===== src/Store/Stacks/FreeRevision.antt =====
-- `NextFreeRevision`: what it returns, and when it finds something.
use poor_man_stack.Base.{
  ℕ, zero, suc, ◌+◌, ◌≤◌, ◌<◌, Text, text_eq, nat_eq, Bool, true, ◌≡◌, refl, subst, none, some,
  List, [], ◌∷◌, length, ok, arith, Option-cases, inl, inr, is_some,
}
use native.Mathlib.Decide.{dec_lt}
use poor_man_stack.Base.Rows.{find, remove}
use poor_man_stack.Base.Rows.Find.{find-remove}
use poor_man_stack.Store.Stacks.{StackRevision, Tables, is_revision, free_from, next_free_revision}

length-remove-le {ℓ} :
    {A : Type ℓ} (test : A → Bool) (rows : List A) → length (remove test rows) ≤ length rows
unfolding remove
length-remove-le test [] = omega arith
length-remove-le test (r ∷ rows) = ground (arith, length-remove-le test rows)

length-remove-lt {ℓ} :
    {A : Type ℓ} (test : A → Bool) (rows : List A) (r : A)
    → find test rows ≡ some r
    → length (remove test rows) < length rows
unfolding find remove
length-remove-lt test [] r h = cc
length-remove-lt test (x ∷ rows) r h =
    ground (arith, length-remove-le test rows, length-remove-lt test rows r)

module _ (name : Text) where
  -- Rows of another revision do not matter to the search.
  free_from-remove :
      (attempts r c : ℕ) (rows : List StackRevision)
      → c < r
      → free_from name attempts r (remove (is_revision name c) rows)
        ≡ free_from name attempts r rows
  unfolding free_from
  free_from-remove zero r c rows h = refl
  free_from-remove (suc attempts) r c rows h =
      rw
        (
          find-remove (is_revision name r) (is_revision name c) rows (λ x gone. ground arith),
          free_from,
        )
        (ground (arith, free_from-remove attempts (r + 1) c rows))

  -- The search fails only if there are at least as many rows as attempts.
  free_from-none-le :
      (attempts r : ℕ) (rows : List StackRevision)
      → free_from name attempts r rows ≡ none
      → attempts ≤ length rows
  unfolding free_from
  free_from-none-le zero r rows h = omega arith
  free_from-none-le (suc attempts) r rows h = elim (Option-cases (find (is_revision name r) rows)) [
    | inl free ↦ absurd (ground arith)
    | inr (x, taken) ↦
        let fewer = length-remove-lt (is_revision name r) rows x taken in
        let ih =
          free_from-none-le attempts (r + 1) (remove (is_revision name r) rows)
            (rw (free_from-remove attempts (r + 1) r rows (omega arith)) (ground arith)) in
        omega arith
  ]

  abbrev IsNextFree : ℕ → ℕ → ℕ → List StackRevision → Type 0
  IsNextFree r bound found rows =
      (r ≤ found)
      × (found < bound)
      × (find (is_revision name found) rows ≡ none)
      × ((n : ℕ) → r ≤ n → n < found → is_some (find (is_revision name n) rows) ≡ true)

  free_from-some :
      (attempts r : ℕ) (rows : List StackRevision) (found : ℕ)
      → free_from name attempts r rows ≡ some found
      → IsNextFree r (r + attempts) found rows
  unfolding free_from
  free_from-some zero r rows found h = cc
  free_from-some (suc attempts) r rows found h =
      elim (Option-cases (find (is_revision name r) rows)) [
        | inl free ↦
            let same : r ≡ found = ground arith in
            (
              omega arith,
              omega arith,
              subst (λ n. find (is_revision name n) rows ≡ none) same free,
              λ n le lt. absurd (omega arith),
            )
        | inr (x, taken) ↦
            let ih : IsNextFree (r + 1) (r + 1 + attempts) found rows =
              free_from-some attempts (r + 1) rows found (ground arith) in
            (
              omega arith,
              omega arith,
              ih.2,
              λ n le lt. elim (dec_lt r n) [
                | yes later ↦ ih.3 n (omega arith) lt
                | no first ↦
                    let same : r ≡ n = omega arith in
                    subst (λ m. is_some (find (is_revision name m) rows) ≡ true) same
                      (rw taken refl)
              ],
            )
      ]

-- The revision returned is the smallest unused one of the stack that is not below the candidate,
-- and one is returned whenever fewer than 10000 revisions are stored.
pub next_free_revision_lem :
    (name : Text) (candidate : ℕ) (db : Tables)
    → length db.revisions < 10000
    → (found : ℕ) × (next_free_revision name candidate db ≡ ok found)
      × (candidate ≤ found)
      × (find (is_revision name found) db.revisions ≡ none)
      × ((n : ℕ)
          → candidate ≤ n
          → n < found
          → is_some (find (is_revision name n) db.revisions) ≡ true)
unfolding next_free_revision
next_free_revision_lem name candidate db few =
    elim (Option-cases (free_from name 10000 candidate db.revisions)) [
      | inl failed ↦
          absurd (omega (arith, free_from-none-le name 10000 candidate db.revisions failed))
      | inr (found, e) ↦
          let h = free_from-some name 10000 candidate db.revisions found e in
          (found, rw (e, next_free_revision), h.0, h.2, h.3)
    ]

pub next_free_revision-fresh :
    (name : Text) (candidate : ℕ) (db : Tables) (found : ℕ)
    → next_free_revision name candidate db ≡ ok found
    → find (is_revision name found) db.revisions ≡ none
unfolding next_free_revision
next_free_revision-fresh name candidate db found e =
    elim (Option-cases (free_from name 10000 candidate db.revisions)) [
      | inl failed ↦ absurd (ground arith)
      | inr (r, searched) ↦
          let same : r ≡ found = ground arith in
          subst (λ n. find (is_revision name n) db.revisions ≡ none) same
            (free_from-some name 10000 candidate db.revisions r searched).2
    ]
