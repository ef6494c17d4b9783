-- ===== src/Base/Texts/Cutting.antt =====
-- What `cut_prefix` and `cut_at` find.
use mathlib.Core.Path.{◌≡◌, subst, ap}
use mathlib.Core.Logic.{◌≢◌, inl, inr}
use mathlib.Core.Option.{some}
use mathlib.Core.List.{[], ◌∷◌, ◌++◌}
use native.Mathlib.Omega.{arith}
use Prim.Native.Nat.{ℕ}
use poor_man_stack.Base.Tests.{◌==◌, nat_eq, nat_beq_iff, Bool-cases, Option-cases}
use poor_man_stack.Base.Lists.{All}
use poor_man_stack.Base.Texts.{Text, cut_prefix, cut_at}

pub cut_prefix-eq-some : (p s : Text) {rest : Text} → cut_prefix p s ≡ some rest → s ≡ p ++ rest
unfolding cut_prefix
cut_prefix-eq-some [] s e = ground arith
cut_prefix-eq-some (c ∷ p) [] e = absurd (ground arith)
cut_prefix-eq-some (c ∷ p) (d ∷ s) e = elim (Bool-cases (c == d)) [
  | inr other ↦ absurd (ground arith)
  | inl same ↦
      let tail = cut_prefix-eq-some p s (rw same at e) in ground (arith, tail, nat_beq_iff c d)
]

pub cut_at-append :
    (sep : ℕ) (s t : Text) → All (λ c. c ≢ sep) s → cut_at sep (s ++ sep ∷ t) ≡ some (s, t)
unfolding cut_at
cut_at-append sep [] t h = ground (arith, nat_beq_iff sep sep)
cut_at-append sep (c ∷ s) t (ne, h) = ground (arith, cut_at-append sep s t h, nat_beq_iff c sep)

pub cut_at-eq-some :
    (sep : ℕ) (s before after : Text)
    → cut_at sep s ≡ some (before, after)
    → (s ≡ before ++ sep ∷ after) × All (λ c. c ≢ sep) before
unfolding cut_at
cut_at-eq-some sep [] before after e = absurd (ground arith)
cut_at-eq-some sep (c ∷ s) before after e = elim (Bool-cases (c == sep)) [
  | inl here ↦
      let first : [] ≡ before = ground arith in
      subst (λ x. (c ∷ s ≡ x ++ sep ∷ after) × All (λ c. c ≢ sep) x) first
        (ground (arith, nat_beq_iff c sep), tt)
  | inr further ↦ elim (Option-cases (cut_at sep s)) [
    | inl missing ↦ absurd (ground arith)
    | inr ((b, a), found) ↦
        let (parts, flat) = cut_at-eq-some sep s b a found in
        let first : c ∷ b ≡ before = ground arith in
        let second : a ≡ after = ground arith in
        subst (λ x. (c ∷ s ≡ x ++ sep ∷ after) × All (λ c. c ≢ sep) x) first
          (
            subst (λ y. c ∷ s ≡ c ∷ (b ++ sep ∷ y)) second (ap (λ z. c ∷ z) parts),
            (λ x. cc (further, (nat_beq_iff c sep).1 x), flat),
          )
  ]
]
