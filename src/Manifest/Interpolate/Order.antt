-- ===== src/Manifest/Interpolate/Order.antt =====
-- Interpolation does not depend on the order in which the built-in names are visited.
use poor_man_stack.Base.{
  ℕ, Text, text_eq, nat_eq, ◌≡◌, refl, sym, ap, ◌∙◌, subst, Option, none, some, List, [], ◌∷◌, ◌+◌,
  All, All-imp, arith, Map, lookup, if◌then◌else◌, is_empty, Result, ok, err, map_err,
  each_map-same,
}
use poor_man_stack.Manifest.Dsl.{App, Service, Expose}
use poor_man_stack.Manifest.Interpolate.{
  Place, in_app, image, host, command, entrypoint, volumes, aliases, env, missing, interpolate_text,
  interpolate_list, interpolate_entry, interpolate_expose, interpolate_service, interpolate_app,
  interpolate, with_version, builtin_values, placeholders, substitute,
}
use poor_man_stack.Manifest.Interpolate.Pieces.{Piece, plain, hole, render, IsPiece}
use poor_man_stack.Manifest.Interpolate.Filling.{IsBuiltin}
use poor_man_stack.Manifest.Interpolate.Evaluation.{piece_value, evaluate, substitute-evaluated}

-- A text in which every "$" begins a name in `${…}`.
abbrev pub IsTemplate : Text → Type 0
IsTemplate s = (t : List Piece) × All IsPiece t × (render t ≡ s)

module _ (P : Text → Type 0) where
  abbrev HasExposed : Option Expose → Type 0
  HasExposed none = Unit
  HasExposed (some e) = P e.host × All P e.aliases

  -- Every text of the service that is interpolated has the property.
  pub record ServiceHas (s : Service) : Type 0 where
    pub image : P s.image
    pub command : All P s.command
    pub entrypoint : All P s.entrypoint
    pub env : All (λ (e : Text × Text). P e.1) s.env
    pub volumes : All P s.volumes
    pub expose : HasExposed s.expose

  pub record AppHas (app : App) : Type 0 where
    pub domain : P app.domain
    pub registry : P app.registry
    pub version : P app.version
    pub repo_url : P app.repo_url
    pub env_file : P app.env_file
    pub secrets : All P app.secrets
    pub services : All (λ (e : Text × Service). ServiceHas e.1) app.services

-- Two substitutions that agree on the texts of a manifest.
module _ (f g : Text → Result (List Text) Text) where
  interpolate_text-same :
      (service : Option Text) (place : Place) (s : Text)
      → f s ≡ g s
      → interpolate_text f service place s ≡ interpolate_text g service place s
  unfolding interpolate_text
  interpolate_text-same service place s e = ap (map_err (missing service place)) e

  interpolate_list-same :
      (service : Option Text) (place : ℕ → Place) (i : ℕ) (ss : List Text)
      → All (λ s. f s ≡ g s) ss
      → interpolate_list f service place i ss ≡ interpolate_list g service place i ss
  unfolding interpolate_list
  interpolate_list-same service place i [] h = refl
  interpolate_list-same service place i (s ∷ ss) (e, h) = ground (
    arith,
    interpolate_text-same service (place i) s e,
    interpolate_list-same service place (i + 1) ss h,
  )

  interpolate_entry-same :
      (service : Text) (e : Text × Text)
      → f e.1 ≡ g e.1
      → interpolate_entry f service e ≡ interpolate_entry g service e
  unfolding interpolate_entry
  interpolate_entry-same service (key, value) e =
      ground (arith, interpolate_text-same (some service) (env key) value e)

  interpolate_expose-same :
      (service : Text) (o : Option Expose)
      → HasExposed (λ s. f s ≡ g s) o
      → interpolate_expose f service o ≡ interpolate_expose g service o
  unfolding interpolate_expose
  interpolate_expose-same service none h = refl
  interpolate_expose-same service (some e) (h, k) = ground (
    arith,
    interpolate_text-same (some service) host e.host h,
    interpolate_list-same (some service) aliases 0 e.aliases k,
  )

  interpolate_service-same :
      (e : Text × Service)
      → ServiceHas (λ s. f s ≡ g s) e.1
      → interpolate_service f e ≡ interpolate_service g e
  unfolding interpolate_service
  interpolate_service-same (name, s) h =
      let entries = each_map-same (interpolate_entry f name) (interpolate_entry g name) s.env (
        All-imp (λ (e : Text × Text). f e.1 ≡ g e.1) _ s.env (λ e. interpolate_entry-same name e)
          h.env) in
      rw
        (
          interpolate_text-same (some name) image s.image h.image,
          interpolate_list-same (some name) command 0 s.command h.command,
          interpolate_list-same (some name) entrypoint 0 s.entrypoint h.entrypoint,
          entries,
          interpolate_list-same (some name) volumes 0 s.volumes h.volumes,
          interpolate_expose-same name s.expose h.expose,
        )
        refl

  interpolate_app-same :
      (app : App) → AppHas (λ s. f s ≡ g s) app → interpolate_app f app ≡ interpolate_app g app
  unfolding interpolate_app
  interpolate_app-same app h =
      let secrets =
        each_map-same (interpolate_text f none in_app) (interpolate_text g none in_app) app.secrets
          (All-imp (λ s. f s ≡ g s) _ app.secrets (interpolate_text-same none in_app) h.secrets) in
      let services = each_map-same (interpolate_service f) (interpolate_service g) app.services (
        All-imp (λ (e : Text × Service). ServiceHas (λ s. f s ≡ g s) e.1) _ app.services
          interpolate_service-same h.services) in
      rw
        (
          interpolate_text-same none in_app app.domain h.domain,
          interpolate_text-same none in_app app.registry h.registry,
          interpolate_text-same none in_app app.version h.version,
          interpolate_text-same none in_app app.repo_url h.repo_url,
          interpolate_text-same none in_app app.env_file h.env_file,
          secrets,
          services,
        )
        refl

-- A property of every text, from another.
module _ (P Q : Text → Type 0) (imp : (s : Text) → P s → Q s) where
  HasExposed-imp : (o : Option Expose) → HasExposed P o → HasExposed Q o
  HasExposed-imp none h = tt
  HasExposed-imp (some e) (h, k) = (imp e.host h, All-imp P Q e.aliases imp k)

  ServiceHas-imp : (s : Service) → ServiceHas P s → ServiceHas Q s
  ServiceHas-imp s h = record {
    image = imp s.image h.image;
    command = All-imp P Q s.command imp h.command;
    entrypoint = All-imp P Q s.entrypoint imp h.entrypoint;
    env = All-imp (λ (e : Text × Text). P e.1) _ s.env (λ e. imp e.1) h.env;
    volumes = All-imp P Q s.volumes imp h.volumes;
    expose = HasExposed-imp s.expose h.expose;
  }

  AppHas-imp : (app : App) → AppHas P app → AppHas Q app
  AppHas-imp app h = record {
    domain = imp app.domain h.domain;
    registry = imp app.registry h.registry;
    version = imp app.version h.version;
    repo_url = imp app.repo_url h.repo_url;
    env_file = imp app.env_file h.env_file;
    secrets = All-imp P Q app.secrets imp h.secrets;
    services =
        All-imp (λ (e : Text × Service). ServiceHas P e.1) _ app.services (λ e. ServiceHas-imp e.1)
          h.services;
  }

evaluate-lookup :
    (getenv : Text → Option Text) (names others : Map Text) (t : List Piece)
    → ((name : Text) → lookup name names ≡ lookup name others)
    → evaluate getenv names t ≡ evaluate getenv others t
evaluate-lookup getenv names others [] same = refl
evaluate-lookup getenv names others (p ∷ t) same =
    let rest = evaluate-lookup getenv names others t same in
    let first = piece p in rw (first, rest) refl
  where
    piece : (p : Piece) → piece_value getenv names p ≡ piece_value getenv others p
    piece (plain s) = refl
    piece (hole name) = rw (same name, piece_value) refl

substitute-lookup :
    (getenv : Text → Option Text) (names others : Map Text) (s : Text)
    → All IsBuiltin names
    → All IsBuiltin others
    → ((name : Text) → lookup name names ≡ lookup name others)
    → IsTemplate s
    → substitute getenv (placeholders names) s ≡ substitute getenv (placeholders others) s
substitute-lookup getenv names others s h k same (t, good, e) =
    subst
      (λ x. substitute getenv (placeholders names) x ≡ substitute getenv (placeholders others) x) e
      (substitute-evaluated getenv names t h good
        ∙ ap (λ (x : Text × List Text). if is_empty x.1 then ok x.0 else err x.1)
            (evaluate-lookup getenv names others t same)
        ∙ sym (substitute-evaluated getenv others t k good))

-- An order of visiting that loses no name and invents none.
pub record IsVisit (order : Map Text → Map Text) (names : Map Text) : Type 0 where
  pub same : (name : Text) → lookup name (order names) ≡ lookup name names
  pub kept : All IsBuiltin names → All IsBuiltin (order names)

-- Interpolation gives the same manifest, or the same failure, in whatever order the built-in names
-- are visited, if their values have no "$" and every "$" in the texts of the manifest begins a name
-- in `${…}` that has no "$" and no "}".
pub interpolate-order :
    (getenv : Text → Option Text) (order : Map Text → Map Text) (app : App)
    → IsVisit order (builtin_values (with_version app))
    → All IsBuiltin (builtin_values (with_version app))
    → AppHas IsTemplate (with_version app)
    → interpolate getenv order app ≡ interpolate getenv (λ names. names) app
unfolding interpolate
interpolate-order getenv order app visit plain_values templates =
    let names = builtin_values (with_version app) in
    interpolate_app-same (substitute getenv (placeholders (order names)))
      (substitute getenv (placeholders names)) (with_version app)
      (AppHas-imp IsTemplate _
        (λ s.
          substitute-lookup getenv (order names) names s (visit.kept plain_values) plain_values
            visit.same)
        (with_version app) templates)
