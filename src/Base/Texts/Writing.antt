-- ===== src/Base/Texts/Writing.antt =====
-- `strings.ReplaceAll` of one character, `strings.Join`, `path.Base` and `%d`.
use mathlib.Core.Path.{◌≡◌}
use mathlib.Core.Logic.{inl, inr}
use mathlib.Core.Bool.{true, false}
use mathlib.Core.Option.{none, some}
use mathlib.Core.List.{List, [], ◌∷◌, ◌++◌, reverse}
use native.Mathlib.Omega.{arith}
use Prim.Native.Nat.{ℕ, zero, suc, ◌+◌, ◌/◌, ◌%◌, ◌<◌}
use poor_man_stack.Base.Tests.{◌==◌, nat_eq, ltb, if◌then◌else◌, Bool-cases}
use poor_man_stack.Base.Texts.{Text, cut_at, text_eq}
use poor_man_stack.Base.Int.{ℤ, pos, negsuc}

unfoldable pub replace_char : ℕ → Text → Text → Text
replace_char old new [] = []
replace_char old new (c ∷ s) =
    let rest = replace_char old new s in if c == old then new ++ rest else c ∷ rest

unfoldable pub join : Text → List Text → Text
join sep [] = []
join sep (s ∷ []) = s
join sep (s ∷ t ∷ ts) = s ++ sep ++ join sep (t ∷ ts)

unfoldable pub trim_char : ℕ → Text → Text
trim_char sep [] = []
trim_char sep (c ∷ s) = elim (c == sep) [ true ↦ trim_char sep s | false ↦ c ∷ s ]

-- What stands before the first separator, or the whole text.
abbrev pub before : ℕ → Text → Text
before sep s = elim (cut_at sep s) [ none ↦ s | some (head, rest) ↦ head ]

-- `path.Base`: the last element of a path, found from its end.
unfoldable pub path_base : Text → Text
unfolding trim_char
path_base [] = b'.' ∷ []
path_base (c ∷ s) = elim (trim_char b'/' (reverse (c ∷ s))) [
  | [] ↦ b'/' ∷ []
  | d ∷ r ↦ reverse (before b'/' (d ∷ r))
]

-- The decimal digits of a number before a text, on fuel above the number.
unfoldable pub digits_before : ℕ → ℕ → Text → Text
digits_before zero n s = s
digits_before (suc fuel) n s = elim (ltb n 10) [
  | true ↦ (b'0' + n) ∷ s
  | false ↦ digits_before fuel (n / 10) ((b'0' + n % 10) ∷ s)
]

-- More fuel than the number changes nothing.
pub digits_before-fuel :
    (fuel more n : ℕ) (s : Text)
    → n < fuel
    → n < more
    → digits_before fuel n s ≡ digits_before more n s
unfolding digits_before
digits_before-fuel zero more n s lt mt = absurd (ground arith)
digits_before-fuel (suc fuel) zero n s lt mt = absurd (ground arith)
digits_before-fuel (suc fuel) (suc more) n s lt mt = elim (Bool-cases (ltb n 10)) [
  | inl small ↦ ground arith
  | inr big ↦
      let rest =
        digits_before-fuel fuel more (n / 10) ((b'0' + n % 10) ∷ s) (ground arith) (ground arith) in
      ground arith
]

-- `%d`.
unfoldable pub decimal_text : ℤ → Text
unfolding digits_before
decimal_text (pos n) = digits_before (suc n) n []
decimal_text (negsuc n) = b'-' ∷ digits_before (suc (suc n)) (suc n) []
