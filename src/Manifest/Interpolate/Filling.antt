-- ===== src/Manifest/Interpolate/Filling.antt =====
-- Texts as sequences of pieces: `strings.ReplaceAll` of a name in `${…}` fills it in.
use poor_man_stack.Base.{
  Text, ◌==◌, text_eq, text_beq_iff, nat_eq, ◌≡◌, refl, ap, ◌∙◌, subst, inl, inr, List, [], ◌∷◌,
  ◌++◌, All, Bool-cases, Map, if◌then◌else◌,
}
use poor_man_stack.Manifest.Interpolate.{replace_from, replace_each, placeholders, hole_text}
use poor_man_stack.Manifest.Interpolate.Pieces.{
  Piece, plain, hole, written, render, IsPlain, IsName, IsPiece, replace_from-plain,
  replace_from-same, replace_from-other,
}

-- Every piece with this name becomes plain.
abbrev pub fill_piece : Text → Text → Piece → Piece
fill_piece name new (plain s) = plain s
fill_piece name new (hole other) = if name == other then plain new else hole other

abbrev pub fill : Text → Text → List Piece → List Piece
fill name new [] = []
fill name new (p ∷ t) = fill_piece name new p ∷ fill name new t

pub fill_piece-IsPiece :
    (name new : Text) (p : Piece) → IsPlain new → IsPiece p → IsPiece (fill_piece name new p)
fill_piece-IsPiece name new (plain s) flat h = h
fill_piece-IsPiece name new (hole other) flat h = elim (Bool-cases (name == other)) [
  | inl same ↦ rw same flat
  | inr different ↦ rw different h
]

pub fill-IsPiece :
    (name new : Text) (t : List Piece) → IsPlain new → All IsPiece t → All IsPiece (fill name new t)
fill-IsPiece name new [] flat h = tt
fill-IsPiece name new (p ∷ t) flat (hp, h) =
    (fill_piece-IsPiece name new p flat hp, fill-IsPiece name new t flat h)

replace_from-piece :
    (name new s : Text) (p : Piece)
    → IsName name
    → IsPiece p
    → replace_from (hole_text name) new 0 (written p ++ s)
      ≡ written (fill_piece name new p) ++ replace_from (hole_text name) new 0 s
replace_from-piece name new s (plain w) h flat = replace_from-plain name new w s flat
replace_from-piece name new s (hole other) h k = elim (Bool-cases (name == other)) [
  | inl same ↦ rw same (
      subst
        (λ x.
          replace_from (hole_text name) new 0 (hole_text x ++ s)
          ≡ new ++ replace_from (hole_text name) new 0 s)
        ((text_beq_iff name other).0 same) (replace_from-same name new s))
  | inr different ↦
      rw different (
        replace_from-other name other new s h k
          (λ e. cc (different, (text_beq_iff name other).1 e)))
]

-- `strings.ReplaceAll` fills in the name.
pub replace_from-render :
    (name new : Text) (t : List Piece)
    → IsName name
    → All IsPiece t
    → replace_from (hole_text name) new 0 (render t) ≡ render (fill name new t)
replace_from-render name new [] h good = unfold replace_from in refl
replace_from-render name new (p ∷ t) h (hp, good) =
    replace_from-piece name new (render t) p h hp
    ∙ ap (λ x. written (fill_piece name new p) ++ x) (replace_from-render name new t h good)

-- A built-in name with a value in which no placeholder begins.
abbrev pub IsBuiltin : Text × Text → Type 0
IsBuiltin (name, value) = IsName name × IsPlain value

abbrev pub fill_each : Map Text → List Piece → List Piece
fill_each [] t = t
fill_each ((name, value) ∷ names) t = fill_each names (fill name value t)

pub fill_each-IsPiece :
    (names : Map Text) (t : List Piece)
    → All IsBuiltin names
    → All IsPiece t
    → All IsPiece (fill_each names t)
fill_each-IsPiece [] t h good = good
fill_each-IsPiece ((name, value) ∷ names) t ((hn, hv), h) good =
    fill_each-IsPiece names (fill name value t) h (fill-IsPiece name value t hv good)

pub replace_each-render :
    (names : Map Text) (t : List Piece)
    → All IsBuiltin names
    → All IsPiece t
    → replace_each (placeholders names) (render t) ≡ render (fill_each names t)
unfolding replace_each
replace_each-render [] t h good = refl
replace_each-render ((name, value) ∷ names) t ((hn, hv), h) good =
    ap (replace_each (placeholders names)) (replace_from-render name value t hn good)
    ∙ replace_each-render names (fill name value t) h (fill-IsPiece name value t hv good)
