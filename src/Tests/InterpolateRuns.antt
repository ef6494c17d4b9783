-- ===== src/Tests/InterpolateRuns.antt =====
-- A manifest with built-in names and a variable, visited in two orders.
use poor_man_stack.Base.{
  ◌&&◌, ap, text_beq_iff, Text, codes, ◌==◌, text_eq, nat_eq, nat_beq_iff, true, false, not, ◌≡◌,
  refl, Option, none, some, List, [], ◌∷◌, ◌++◌, all, All, all-All_iff, arith, Map, lookup,
  if◌then◌else◌, ok, err, cut_prefix, cut_at, each_map,
}
use poor_man_stack.Manifest.Dsl.{App, Service}
use poor_man_stack.Manifest.Interpolate.{
  replace_from, replace_each, env_variable, match_env, expand_from, substitute, interpolate_text,
  interpolate_list, interpolate_entry, interpolate_expose, interpolate_service, interpolate_app,
  interpolate, with_version, builtin_values, placeholders,
}
use poor_man_stack.Manifest.Interpolate.Pieces.{
  Piece, plain, hole, render, IsPlain, IsName, IsPiece,
}
use poor_man_stack.Manifest.Interpolate.Filling.{IsBuiltin}
use poor_man_stack.Manifest.Interpolate.Evaluation.{evaluated, substitute-evaluated}
use poor_man_stack.Manifest.Interpolate.Order.{
  IsTemplate, AppHas, ServiceHas, IsVisit, interpolate-order,
}

unfoldable pub interpolation : Unit {0}
unfolding replace_from replace_each env_variable match_env expand_from substitute interpolate_text
    interpolate_list interpolate_entry interpolate_expose interpolate_service interpolate_app
    interpolate cut_prefix cut_at each_map lookup
interpolation = tt

abbrev pub variables : Text → Option Text
variables name = if name == codes "TAG" then some (codes "v2") else none

abbrev image_pieces : List Piece
image_pieces =
    plain (codes "hub/") ∷ hole (codes "app") ∷ plain (codes ":") ∷ hole (codes "env:TAG") ∷ []

abbrev worker : Service
worker = record {
  image = codes "hub/${app}:${env:TAG}";
  replicas = none;
  run_once = false;
  skip_filelog = false;
  placement = [];
  command = [];
  entrypoint = [];
  env = (codes "HOST", codes "${domain}") ∷ [];
  volumes = [];
  secrets = [];
  expose = none;
  healthcheck = none;
  update = none;
}

abbrev mill : App
mill = record {
  name = codes "mill";
  env = codes "prod";
  domain = codes "a.org";
  version = [];
  registry = codes "hub";
  repo_url = [];
  env_file = [];
  secrets = [];
  services = (codes "worker", worker) ∷ [];
  backup_before_deploy = false;
  strict_backup = false;
}

abbrev values : Map Text
values = builtin_values (with_version mill)

substitute_run : substitute variables (placeholders values) worker.image ≡ ok (codes "hub/mill:v2")
unfolding interpolation
substitute_run = refl

unset_run :
    substitute variables (placeholders values) (codes "${env:NO}${env:X}")
    ≡ err (codes "NO" ∷ codes "X" ∷ [])
unfolding interpolation
unset_run = refl

-- The domain holds a placeholder, and the two orders give different texts.
abbrev nested : Map Text
nested = (codes "domain", codes "${env}.org") ∷ (codes "env", codes "prod") ∷ []

abbrev nested_reversed : Map Text
nested_reversed = (codes "env", codes "prod") ∷ (codes "domain", codes "${env}.org") ∷ []

nested_run :
    (substitute variables (placeholders nested) (codes "${domain}") ≡ ok (codes "prod.org"))
    × (substitute variables (placeholders nested_reversed) (codes "${domain}")
        ≡ ok (codes "${env}.org"))
unfolding interpolation
nested_run = (refl, refl)

text-IsPlain : (s : Text) → all (λ c. not (c == b'$')) s ≡ true → IsPlain s
text-IsPlain s = (all-All_iff (λ c. not (c == b'$')) (λ c. ground (arith, nat_beq_iff c b'$')) s).0

text-IsName : (s : Text) → all (λ c. not (c == b'$') && not (c == b'}')) s ≡ true → IsName s
text-IsName s =
    (all-All_iff (λ c. not (c == b'$') && not (c == b'}'))
      (λ c. ground (arith, nat_beq_iff c b'$', nat_beq_iff c b'}')) s).0

values-IsBuiltin : All IsBuiltin values
values-IsBuiltin =
    let builtin : (name value : Text)
        → all (λ c. not (c == b'$') && not (c == b'}')) name ≡ true
        → all (λ c. not (c == b'$')) value ≡ true
        → IsBuiltin (name, value) =
      λ name value h k. (text-IsName name h, text-IsPlain value k) in
    (
      builtin (codes "app") (codes "mill") refl refl,
      (
        builtin (codes "env") (codes "prod") refl refl,
        (
          builtin (codes "version") (codes "latest") refl refl,
          (
            builtin (codes "registry") (codes "hub") refl refl,
            (builtin (codes "domain") (codes "a.org") refl refl, tt),
          ),
        ),
      ),
    )

image_pieces-IsPiece : All IsPiece image_pieces
image_pieces-IsPiece = (
  text-IsPlain (codes "hub/") refl,
  (
    text-IsName (codes "app") refl,
    (text-IsPlain (codes ":") refl, (text-IsName (codes "env:TAG") refl, tt)),
  ),
)

substitute-evaluated_example :
    substitute variables (placeholders values) (render image_pieces)
    ≡ evaluated variables values image_pieces
substitute-evaluated_example =
    substitute-evaluated variables values image_pieces values-IsBuiltin image_pieces-IsPiece

abbrev swapped : Map Text → Map Text
swapped [] = []
swapped (a ∷ []) = a ∷ []
swapped (a ∷ b ∷ rest) = b ∷ a ∷ rest

swapped-IsVisit : IsVisit swapped values
swapped-IsVisit = record {
  same = λ name.
      unfold lookup in
      ground (arith, text_beq_iff (codes "app") name, text_beq_iff (codes "env") name);
  kept = λ (app, (env, rest)). (env, (app, rest));
}

plain-IsTemplate : (s : Text) → all (λ c. not (c == b'$')) s ≡ true → IsTemplate s
plain-IsTemplate s e = (plain s ∷ [], (text-IsPlain s e, tt), right s)
  where
    right : (s : Text) → s ++ [] ≡ s
    right [] = refl
    right (c ∷ s) = ap (λ x. c ∷ x) (right s)

worker-IsTemplate : ServiceHas IsTemplate worker
worker-IsTemplate = record {
  image = (image_pieces, image_pieces-IsPiece, refl);
  command = tt;
  entrypoint = tt;
  env = ((hole (codes "domain") ∷ [], (text-IsName (codes "domain") refl, tt), refl), tt);
  volumes = tt;
  expose = tt;
}

mill-IsTemplate : AppHas IsTemplate (with_version mill)
mill-IsTemplate = record {
  domain = plain-IsTemplate (codes "a.org") refl;
  registry = plain-IsTemplate (codes "hub") refl;
  version = plain-IsTemplate (codes "latest") refl;
  repo_url = plain-IsTemplate [] refl;
  env_file = plain-IsTemplate [] refl;
  secrets = tt;
  services = (worker-IsTemplate, tt);
}

interpolate-order_example :
    interpolate variables swapped mill ≡ interpolate variables (λ names. names) mill
interpolate-order_example =
    interpolate-order variables swapped mill swapped-IsVisit values-IsBuiltin mill-IsTemplate
