-- ===== src/Manifest/Interpolate/Evaluation.antt =====
-- What a text stands for, and that `substitute` computes it.
use poor_man_stack.Base.{
  ℕ, Text, ◌==◌, text_eq, nat_eq, nat_beq_iff, ◌≡◌, ◌≢◌, refl, ap, ◌∙◌, inl, inr, Option, none,
  some, List, [], ◌∷◌, ◌++◌, ◌+◌, length, length-append, All, All-imp, cut_at, cut_at-append,
  cut_prefix, arith, Bool-cases, Map, lookup, if◌then◌else◌, Option-cases, is_empty, Result, ok,
  err,
}
use poor_man_stack.Manifest.Interpolate.{
  match_env, env_variable, expand_from, substitute, placeholders, replace_each, hole_text,
}
use poor_man_stack.Manifest.Interpolate.Pieces.{
  Piece, plain, hole, render, IsPlain, IsName, IsPiece, name-IsPlain,
}
use poor_man_stack.Manifest.Interpolate.Filling.{
  IsBuiltin, fill_piece, fill, fill_each, fill_each-IsPiece, replace_each-render,
}

-- A name that is not built in: the variable of the environment, or the text itself; with the
-- variable if it is not set.
abbrev pub variable_value : (Text → Option Text) → Text → Text × List Text
variable_value getenv name = elim (env_variable name) [
  | none ↦ (hole_text name, [])
  | some variable ↦ elim (getenv variable) [
    | none ↦ (hole_text name, variable ∷ [])
    | some value ↦ (value, [])
  ]
]

abbrev pub piece_value : (Text → Option Text) → Map Text → Piece → Text × List Text
piece_value getenv names (plain s) = (s, [])
piece_value getenv names (hole name) = elim (lookup name names) [
  | some value ↦ (value, [])
  | none ↦ variable_value getenv name
]

-- The values of the pieces in their order, and the variables that are not set.
abbrev pub evaluate : (Text → Option Text) → Map Text → List Piece → Text × List Text
evaluate getenv names [] = ([], [])
evaluate getenv names (p ∷ t) = (
  (piece_value getenv names p).0 ++ (evaluate getenv names t).0,
  (piece_value getenv names p).1 ++ (evaluate getenv names t).1,
)

expand_from-skip :
    (getenv : Text → Option Text) (w s : Text)
    → expand_from getenv (length w) (w ++ s) ≡ expand_from getenv 0 s
unfolding expand_from
expand_from-skip getenv [] s = refl
expand_from-skip getenv (c ∷ w) s = expand_from-skip getenv w s

expand_from-plain :
    (getenv : Text → Option Text) (w s : Text)
    → IsPlain w
    → expand_from getenv 0 (w ++ s) ≡ (w ++ (expand_from getenv 0 s).0, (expand_from getenv 0 s).1)
unfolding expand_from
expand_from-plain getenv [] s h = refl
expand_from-plain getenv (c ∷ w) s (ne, h) =
    let missed : match_env (c ∷ (w ++ s)) ≡ none =
      unfold match_env cut_prefix in ground (arith, nat_beq_iff b'$' c) in
    rw (missed, expand_from)
      (ap (λ (x : Text × List Text). (c ∷ x.0, x.1)) (expand_from-plain getenv w s h))

append-cons : (k s : Text) (c : ℕ) → (k ++ c ∷ []) ++ s ≡ k ++ c ∷ s
append-cons [] s c = refl
append-cons (d ∷ k) s c = ap (λ x. d ∷ x) (append-cons k s c)

cut_at-name :
    (name s : Text) → IsName name → cut_at b'}' ((name ++ b'}' ∷ []) ++ s) ≡ some (name, s)
cut_at-name name s h =
    ap (cut_at b'}') (append-cons name s b'}')
    ∙ cut_at-append b'}' name s (All-imp _ (λ c. c ≢ b'}') name (λ c (ne, nb). nb) h)

match_env-hole_none :
    (name s : Text)
    → IsName name
    → env_variable name ≡ none
    → match_env (hole_text name ++ s) ≡ none
match_env-hole_none name s h e =
    let cut = cut_at-name name s h in
    unfold match_env cut_prefix in rw (cut, match_env) (rw (e, match_env) refl)

match_env-hole_some :
    (name variable s : Text)
    → IsName name
    → env_variable name ≡ some variable
    → match_env (hole_text name ++ s) ≡ some (name, variable)
match_env-hole_some name variable s h e =
    let cut = cut_at-name name s h in
    unfold match_env cut_prefix in rw (cut, match_env) (rw (e, match_env) refl)

-- The characters of a match behind its first one.
expand_from-past :
    (getenv : Text → Option Text) (name s : Text)
    → expand_from getenv (length name + 2) ((b'{' ∷ name ++ b'}' ∷ []) ++ s)
      ≡ expand_from getenv 0 s
expand_from-past getenv name s =
    let body = b'{' ∷ name ++ b'}' ∷ [] in
    let count : length name + 2 ≡ length body = omega (arith, length-append name (b'}' ∷ [])) in
    ap (λ n. expand_from getenv n (body ++ s)) count ∙ expand_from-skip getenv body s

expand_from-hole :
    (getenv : Text → Option Text) (name s : Text)
    → IsName name
    → expand_from getenv 0 (hole_text name ++ s) ≡ (
      (variable_value getenv name).0 ++ (expand_from getenv 0 s).0,
      (variable_value getenv name).1 ++ (expand_from getenv 0 s).1,
    )
unfolding expand_from cut_prefix
expand_from-hole getenv name s h = elim (Option-cases (env_variable name)) [
  | inl other ↦
      let missed = match_env-hole_none name s h other in
      rw other (
        unfold expand_from in
        rw (missed, expand_from)
          (ap (λ (x : Text × List Text). (b'$' ∷ x.0, x.1))
            (expand_from-plain getenv (b'{' ∷ name ++ b'}' ∷ []) s (name-IsPlain name h))))
  | inr (variable, named) ↦
      let found = match_env-hole_some name variable s h named in
      let past = expand_from-past getenv name s in
      elim (Option-cases (getenv variable)) [
        | inl unset ↦ rw named (
            rw unset (
              unfold expand_from in
              rw (found, expand_from)
                (rw unset
                  (ap (λ (x : Text × List Text). (hole_text name ++ x.0, variable ∷ x.1)) past))))
        | inr (value, set) ↦ rw named (
            rw set (
              unfold expand_from in
              rw (found, expand_from)
                (rw set (ap (λ (x : Text × List Text). (value ++ x.0, x.1)) past))))
      ]
]

-- The pieces once the built-in names are filled in.
expand_from-render :
    (getenv : Text → Option Text) (t : List Piece)
    → All IsPiece t
    → expand_from getenv 0 (render t) ≡ evaluate getenv [] t
unfolding expand_from lookup
expand_from-render getenv [] h = refl
expand_from-render getenv (plain w ∷ t) (flat, h) =
    expand_from-plain getenv w (render t) flat
    ∙ ap (λ (x : Text × List Text). (w ++ x.0, x.1)) (expand_from-render getenv t h)
expand_from-render getenv (hole name ∷ t) (named, h) =
    expand_from-hole getenv name (render t) named
    ∙ unfold lookup in
      ap
        (λ (x : Text × List Text).
          ((variable_value getenv name).0 ++ x.0, (variable_value getenv name).1 ++ x.1))
        (expand_from-render getenv t h)

piece_value-fill_piece :
    (getenv : Text → Option Text) (names : Map Text) (name value : Text) (p : Piece)
    → piece_value getenv names (fill_piece name value p)
      ≡ piece_value getenv ((name, value) ∷ names) p
unfolding lookup
piece_value-fill_piece getenv names name value (plain w) = refl
piece_value-fill_piece getenv names name value (hole other) = elim (Bool-cases (name == other)) [
  | inl same ↦ rw (same, piece_value, lookup) refl
  | inr different ↦ rw (different, piece_value, lookup) refl
]

evaluate-fill :
    (getenv : Text → Option Text) (names : Map Text) (name value : Text) (t : List Piece)
    → evaluate getenv names (fill name value t) ≡ evaluate getenv ((name, value) ∷ names) t
evaluate-fill getenv names name value [] = refl
evaluate-fill getenv names name value (p ∷ t) =
    ap
      (λ (x : Text × List Text). (
        x.0 ++ (evaluate getenv names (fill name value t)).0,
        x.1 ++ (evaluate getenv names (fill name value t)).1,
      ))
      (piece_value-fill_piece getenv names name value p)
    ∙ ap
        (λ (x : Text × List Text). (
          (piece_value getenv ((name, value) ∷ names) p).0 ++ x.0,
          (piece_value getenv ((name, value) ∷ names) p).1 ++ x.1,
        ))
        (evaluate-fill getenv names name value t)

evaluate-fill_each :
    (getenv : Text → Option Text) (names : Map Text) (t : List Piece)
    → evaluate getenv [] (fill_each names t) ≡ evaluate getenv names t
evaluate-fill_each getenv [] t = refl
evaluate-fill_each getenv ((name, value) ∷ names) t =
    evaluate-fill_each getenv names (fill name value t) ∙ evaluate-fill getenv names name value t

abbrev pub evaluated : (Text → Option Text) → Map Text → List Piece → Result (List Text) Text
evaluated getenv names t =
    if is_empty (evaluate getenv names t).1
    then ok (evaluate getenv names t).0
    else err (evaluate getenv names t).1

-- A text made of pieces without "$" and of names in `${…}` without "$" and "}" is substituted piece
-- by piece, if the values of the built-in names have no "$": a built-in name gives its value, a name
-- `env:VAR` gives the value of VAR, any other name stays as written, and the call fails with the
-- variables that are not set, in order, if there are any.
pub substitute-evaluated :
    (getenv : Text → Option Text) (names : Map Text) (t : List Piece)
    → All IsBuiltin names
    → All IsPiece t
    → substitute getenv (placeholders names) (render t) ≡ evaluated getenv names t
substitute-evaluated getenv names t builtin good =
    let filled = replace_each-render names t builtin good in
    let value : expand_from getenv 0 (replace_each (placeholders names) (render t))
        ≡ evaluate getenv names t =
      ap (expand_from getenv 0) filled
      ∙ expand_from-render getenv (fill_each names t) (fill_each-IsPiece names t builtin good)
      ∙ evaluate-fill_each getenv names t in
    unfold substitute in
    ap (λ (x : Text × List Text). if is_empty x.1 then ok x.0 else err x.1) value
