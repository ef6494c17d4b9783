-- ===== src/Base/Rows/Sorting.antt =====
-- `ORDER BY` on texts, and the order in which SQLite compares them.
use mathlib.Core.Bool.{Bool, true, false, ◌&&◌, ◌||◌}
use mathlib.Core.List.{List, [], ◌∷◌}
use poor_man_stack.Base.Tests.{◌==◌, nat_eq, ltb, if◌then◌else◌}
use poor_man_stack.Base.Texts.{Text}

-- Character by character.
abbrev pub text_leb : Text → Text → Bool
text_leb [] t = true
text_leb (a ∷ s) [] = false
text_leb (a ∷ s) (b ∷ t) = ltb a b || (a == b && text_leb s t)

module _ {ℓ} {A : Type ℓ} (in_order : A → A → Bool) where
  unfoldable pub insert_asc : A → List A → List A
  insert_asc r [] = r ∷ []
  insert_asc r (x ∷ xs) = if in_order r x then r ∷ x ∷ xs else x ∷ insert_asc r xs

  unfoldable pub sort_asc : List A → List A
  unfolding insert_asc
  sort_asc [] = []
  sort_asc (r ∷ rs) = insert_asc r (sort_asc rs)
