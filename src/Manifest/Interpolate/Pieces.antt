-- ===== src/Manifest/Interpolate/Pieces.antt =====
-- Texts as sequences of plain pieces and of names in `${…}`, and the replacement of one name.
use poor_man_stack.Base.{
  Text, ◌==◌, text_eq, nat_eq, nat_beq_iff, ◌≡◌, ◌≢◌, refl, ap, ◌∙◌, inl, inr, none, List, [], ◌∷◌,
  ◌++◌, ◌-◌, length, All, cut_prefix, cut_prefix-append, arith, Bool-cases,
}
use poor_man_stack.Manifest.Interpolate.{replace_from, hole_text}

pub data Piece : Type 0 where
  plain hole : Text → Piece

abbrev pub written : Piece → Text
written (plain s) = s
written (hole name) = hole_text name

abbrev pub render : List Piece → Text
render [] = []
render (p ∷ t) = written p ++ render t

-- A text without "$".
abbrev pub IsPlain : Text → Type 0
IsPlain = All (λ c. c ≢ b'$')

-- A name without "$" and "}".
abbrev pub IsName : Text → Type 0
IsName = All (λ c. (c ≢ b'$') × (c ≢ b'}'))

abbrev pub IsPiece : Piece → Type 0
IsPiece (plain s) = IsPlain s
IsPiece (hole name) = IsName name

pub name-IsPlain : (name : Text) → IsName name → IsPlain (b'{' ∷ name ++ b'}' ∷ [])
name-IsPlain name h = (ground arith, go name h)
  where
    go : (name : Text) → IsName name → IsPlain (name ++ b'}' ∷ [])
    go [] h = (ground arith, tt)
    go (c ∷ name) ((ne, nb), h) = (ne, go name h)

-- The rest of a match is passed over.
pub replace_from-skip :
    (old new w s : Text) → replace_from old new (length w) (w ++ s) ≡ replace_from old new 0 s
unfolding replace_from
replace_from-skip old new [] s = refl
replace_from-skip old new (c ∷ w) s = replace_from-skip old new w s

-- A name is found in no plain text.
pub replace_from-plain :
    (name new w s : Text)
    → IsPlain w
    → replace_from (hole_text name) new 0 (w ++ s) ≡ w ++ replace_from (hole_text name) new 0 s
unfolding replace_from
replace_from-plain name new [] s h = refl
replace_from-plain name new (c ∷ w) s (ne, h) =
    let missed : cut_prefix (hole_text name) (c ∷ (w ++ s)) ≡ none =
      unfold cut_prefix in ground (arith, nat_beq_iff b'$' c) in
    rw (missed, replace_from) (ap (λ x. c ∷ x) (replace_from-plain name new w s h))

cut_prefix-other_name :
    (name other s : Text)
    → IsName name
    → IsName other
    → name ≢ other
    → cut_prefix (name ++ b'}' ∷ []) ((other ++ b'}' ∷ []) ++ s) ≡ none
unfolding cut_prefix
cut_prefix-other_name [] [] s h k ne = absurd (ne refl)
cut_prefix-other_name [] (d ∷ other) s h ((kd, kb), k) ne = ground (arith, nat_beq_iff b'}' d)
cut_prefix-other_name (c ∷ name) [] s ((hd, hb), h) k ne = ground (arith, nat_beq_iff c b'}')
cut_prefix-other_name (c ∷ name) (d ∷ other) s (hc, h) (kd, k) ne = elim (Bool-cases (c == d)) [
  | inr different ↦ ground arith
  | inl same ↦
      let first = (nat_beq_iff c d).0 same in
      let rest = cut_prefix-other_name name other s h k (λ e. ne (cc (first, e))) in ground arith
]

pub replace_from-same :
    (name new s : Text)
    → replace_from (hole_text name) new 0 (hole_text name ++ s)
      ≡ new ++ replace_from (hole_text name) new 0 s
replace_from-same name new s =
    let body = b'{' ∷ name ++ b'}' ∷ [] in
    let found = cut_prefix-append (hole_text name) s in
    let rest = length (hole_text name) - 1 in
    let count : rest ≡ length body = omega arith in
    unfold replace_from in
    rw (found, replace_from)
      (ap (λ x. new ++ x)
        (ap (λ n. replace_from (hole_text name) new n (body ++ s)) count
          ∙ replace_from-skip (hole_text name) new body s))

pub replace_from-other :
    (name other new s : Text)
    → IsName name
    → IsName other
    → name ≢ other
    → replace_from (hole_text name) new 0 (hole_text other ++ s)
      ≡ hole_text other ++ replace_from (hole_text name) new 0 s
replace_from-other name other new s h k ne =
    let body = b'{' ∷ other ++ b'}' ∷ [] in
    let missed : cut_prefix (hole_text name) (hole_text other ++ s) ≡ none =
      unfold cut_prefix in cut_prefix-other_name name other s h k ne in
    unfold replace_from in
    rw (missed, replace_from)
      (ap (λ x. b'$' ∷ x) (replace_from-plain name new body s (name-IsPlain other k)))
