-- ===== src/Manifest/Interpolate.antt =====
-- `pmcluster/internal/manifest/interpolate.go`. The environment of the process is a parameter, and
-- so is the order in which the map of built-in placeholders is visited: one order for all texts,
-- where each loop of the code may have its own. The code changes the manifest in place; here a
-- failure gives no manifest, and every caller drops it then.
pub mod Pieces
pub mod Filling
pub mod Evaluation
pub mod Order
use poor_man_stack.Base.{
  ℕ, Text, codes, ◌+◌, ◌-◌, ◌==◌, text_eq, nat_eq, Bool, false, ◌&&◌, ◌||◌, Option, none, some,
  List, [], ◌∷◌, ◌++◌, zero, suc, Result, ok, err, ◌>>=◌, map_err, each_map, if◌then◌else◌, all,
  length, is_empty, cut_at, cut_prefix, Map,
}
use poor_man_stack.Manifest.Dsl.{App, Service, Expose}
use poor_man_stack.Manifest.Validate.{is_letter, is_decimal}

-- `strings.ReplaceAll`, with the number of characters of a match that are still to be passed over.
unfoldable pub replace_from : Text → Text → ℕ → Text → Text
replace_from old new skip [] = []
replace_from old new (suc skip) (c ∷ s) = replace_from old new skip s
replace_from old new zero (c ∷ s) = elim (cut_prefix old (c ∷ s)) [
  | none ↦ c ∷ replace_from old new zero s
  | some rest ↦ new ++ replace_from old new (length old - 1) s
]

-- The loop over the placeholders.
unfoldable pub replace_each : Map Text → Text → Text
unfolding replace_from
replace_each [] s = s
replace_each ((placeholder, value) ∷ rest) s =
    replace_each rest (replace_from placeholder value 0 s)

abbrev pub starts_variable : ℕ → Bool
starts_variable c = is_letter c || c == b'_'

abbrev pub is_variable : Text → Bool
is_variable [] = false
is_variable (c ∷ s) = starts_variable c && all (λ d. starts_variable d || is_decimal d) s

-- `env:([A-Za-z_][A-Za-z0-9_]*)`: the name of the variable.
unfoldable pub env_variable : Text → Option Text
env_variable body = elim (cut_prefix (codes "env:") body) [
  | none ↦ none
  | some name ↦ if is_variable name then some name else none
]

-- A match of `envVarRe` at the beginning, as what stands between the braces, in which no brace can
-- close, and the name.
unfoldable pub match_env : Text → Option (Text × Text)
unfolding env_variable
match_env s = elim (cut_prefix (codes "${") s) [
  | none ↦ none
  | some rest ↦ elim (cut_at b'}' rest) [
    | none ↦ none
    | some (body, after) ↦ elim (env_variable body) [ none ↦ none | some name ↦ some (body, name) ]
  ]
]

abbrev pub hole_text : Text → Text
hole_text body = b'$' ∷ b'{' ∷ body ++ b'}' ∷ []

-- `envVarRe.ReplaceAllStringFunc`: the text, and the variables that are not set.
unfoldable pub expand_from : (Text → Option Text) → ℕ → Text → Text × List Text
unfolding match_env
expand_from getenv skip [] = ([], [])
expand_from getenv (suc skip) (c ∷ s) = expand_from getenv skip s
expand_from getenv zero (c ∷ s) = elim (match_env (c ∷ s)) [
  | none ↦ let rest = expand_from getenv zero s in (c ∷ rest.0, rest.1)
  | some (body, name) ↦
      let rest = expand_from getenv (length body + 2) s in
      elim (getenv name) [
        | none ↦ (hole_text body ++ rest.0, name ∷ rest.1)
        | some value ↦ (value ++ rest.0, rest.1)
      ]
]

unfoldable pub substitute : (Text → Option Text) → Map Text → Text → Result (List Text) Text
unfolding replace_each expand_from
substitute getenv builtins s =
    let expanded = expand_from getenv 0 (replace_each builtins s) in
    if is_empty expanded.1 then ok expanded.0 else err expanded.1

-- Where a variable is missing.
pub data Place : Type 0 where
  in_app image host : Place
  command entrypoint volumes aliases : ℕ → Place
  env : Text → Place

pub data InterpolateFailure : Type 0 where
  missing : Option Text → Place → List Text → InterpolateFailure

module _ (subst_text : Text → Result (List Text) Text) where
  unfoldable pub interpolate_text : Option Text → Place → Text → Result InterpolateFailure Text
  interpolate_text service place s = map_err (missing service place) (subst_text s)

  unfoldable pub interpolate_list :
      Option Text → (ℕ → Place) → ℕ → List Text → Result InterpolateFailure (List Text)
  unfolding interpolate_text
  interpolate_list service place i [] = ok []
  interpolate_list service place i (s ∷ ss) = do
    v ← interpolate_text service (place i) s
    vs ← interpolate_list service place (i + 1) ss
    ok (v ∷ vs)

  unfoldable pub interpolate_entry : Text → Text × Text → Result InterpolateFailure (Text × Text)
  unfolding interpolate_text
  interpolate_entry service (key, value) = do
    v ← interpolate_text (some service) (env key) value
    ok (key, v)

  unfoldable pub interpolate_expose :
      Text → Option Expose → Result InterpolateFailure (Option Expose)
  unfolding interpolate_list
  interpolate_expose service none = ok none
  interpolate_expose service (some e) = do
    name ← interpolate_text (some service) host e.host
    others ← interpolate_list (some service) aliases 0 e.aliases
    ok (some (record e { host = name; aliases = others }))

  unfoldable pub interpolate_service : Text × Service → Result InterpolateFailure (Text × Service)
  unfolding interpolate_entry interpolate_expose
  interpolate_service (name, s) = do
    new_image ← interpolate_text (some name) image s.image
    new_command ← interpolate_list (some name) command 0 s.command
    new_entrypoint ← interpolate_list (some name) entrypoint 0 s.entrypoint
    new_env ← each_map (interpolate_entry name) s.env
    new_volumes ← interpolate_list (some name) volumes 0 s.volumes
    new_expose ← interpolate_expose name s.expose
    ok (
      name,
      record s {
        image = new_image;
        command = new_command;
        entrypoint = new_entrypoint;
        env = new_env;
        volumes = new_volumes;
        expose = new_expose;
      },
    )

  -- The fields in the code's order.
  unfoldable pub interpolate_app : App → Result InterpolateFailure App
  unfolding interpolate_service
  interpolate_app app = do
    domain ← interpolate_text none in_app app.domain
    registry ← interpolate_text none in_app app.registry
    version ← interpolate_text none in_app app.version
    repo_url ← interpolate_text none in_app app.repo_url
    env_file ← interpolate_text none in_app app.env_file
    secrets ← each_map (interpolate_text none in_app) app.secrets
    services ← each_map interpolate_service app.services
    ok (record app {
      domain = domain;
      registry = registry;
      version = version;
      repo_url = repo_url;
      env_file = env_file;
      secrets = secrets;
      services = services;
    })

abbrev pub with_version : App → App
with_version app = record app {
  version = if app.version == [] then codes "latest" else app.version;
}

-- The values of the built-in names.
abbrev pub builtin_values : App → Map Text
builtin_values app =
    (codes "app", app.name)
    ∷ (codes "env", app.env)
    ∷ (codes "version", app.version)
    ∷ (codes "registry", app.registry)
    ∷ (codes "domain", app.domain)
    ∷ []

-- The keys are the names in `${…}`.
abbrev pub placeholders : Map Text → Map Text
placeholders [] = []
placeholders ((name, value) ∷ rest) = (hole_text name, value) ∷ placeholders rest

unfoldable pub interpolate :
    (Text → Option Text) → (Map Text → Map Text) → App → Result InterpolateFailure App
unfolding substitute interpolate_app
interpolate getenv order app =
    let full = with_version app in
    interpolate_app (substitute getenv (placeholders (order (builtin_values full)))) full
