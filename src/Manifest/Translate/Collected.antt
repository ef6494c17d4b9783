-- ===== src/Manifest/Translate/Collected.antt =====
-- The sets of secrets and of volumes that the services of a manifest use.
use poor_man_stack.Base.{
  Text, text_eq, text_beq_iff, ◌==◌, ◌≡◌, ◌⊎◌, List, [], ◌∷◌, Any, any-Any_iff, Any-append, Has,
  arith, ◌↔◌,
}
use poor_man_stack.Manifest.Dsl.{Service}
use poor_man_stack.Manifest.Translate.{include, include_all, union_of}

include-Has_iff : (x y : Text) (set : List Text) → Has y (include x set) ↔ ((x ≡ y) ⊎ Has y set)
unfolding include
include-Has_iff x y set = ground (
  arith,
  any-Any_iff (λ z. z ≡ x) (λ z. z == x) (λ z. text_beq_iff z x) set,
  Any-append (λ z. z ≡ y) set (x ∷ []),
)

pub include_all-Has_iff :
    (xs set : List Text) (y : Text) → Has y (include_all xs set) ↔ (Has y xs ⊎ Has y set)
unfolding include_all
include_all-Has_iff [] set y = ground arith
include_all-Has_iff (x ∷ xs) set y =
    ground (arith, include_all-Has_iff xs (include x set) y, include-Has_iff x y set)

pub union_of-Has_iff :
    (pick : Service → List Text) (services : List (Text × Service)) (set : List Text) (y : Text)
    → Has y (union_of pick services set)
      ↔ (Any (λ (e : Text × Service). Has y (pick e.1)) services ⊎ Has y set)
unfolding union_of
union_of-Has_iff pick [] set y = ground arith
union_of-Has_iff pick ((name, s) ∷ services) set y = ground (
  arith,
  union_of-Has_iff pick services (include_all (pick s) set) y,
  include_all-Has_iff (pick s) set y,
)
