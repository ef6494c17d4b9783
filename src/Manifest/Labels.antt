-- ===== src/Manifest/Labels.antt =====
-- `pmcluster/internal/manifest/compose_writer.go`: the labels of a service's deploy block.
use poor_man_stack.Base.{
  ℕ, Text, codes, text_eq, Bool, not, ◌&&◌, List, [], ◌∷◌, ◌++◌, map, Map, insert, if◌then◌else◌,
  is_empty, replace_char, join, decimal_text, ◌+◌,
}
use poor_man_stack.Base.Int.{pos}
use poor_man_stack.Manifest.Ir.{IrExpose}

-- `irApp`.
pub record IrApp : Type 0 where
  pub name : Text
  pub env : Text
  pub version : Text

unfoldable pub standard_labels : IrApp → Text → Map Text
standard_labels app service =
    (codes "service", service)
    ∷ (codes "application", app.name)
    ∷ (codes "environment", app.env)
    ∷ (codes "version", app.version)
    ∷ []

-- `labels[key] = value`, one after another.
unfoldable pub set_labels : List (Text × Text) → Map Text → Map Text
set_labels [] labels = labels
set_labels ((key, value) ∷ rest) labels = set_labels rest (insert key value labels)

unfoldable pub escape_compose : Text → Text
escape_compose s = replace_char b'$' (codes "$$") s

abbrev pub origin : Text → Text
origin host = codes "https://" ++ replace_char b'.' (codes "\\.") host

unfoldable pub build_origin_regex : IrExpose → Text
build_origin_regex exp =
    codes "^(" ++ join (codes "|") (map origin (exp.host ∷ exp.aliases)) ++ codes ")$"

abbrev pub scope_of : IrApp → Text → Text
scope_of app service = app.name ++ codes "-" ++ service

abbrev pub router : Text → Text → Text
router scope field = codes "traefik.http.routers." ++ scope ++ field

abbrev pub host_rule : Text → Text
host_rule host = codes "Host(`" ++ host ++ codes "`)"

-- The middleware that answers for the aliases' origins too.
unfoldable pub cors_labels : Text → IrExpose → List (Text × Text)
unfolding escape_compose build_origin_regex
cors_labels cors exp =
    let header : Text → Text =
      λ field. codes "traefik.http.middlewares." ++ cors ++ codes ".headers." ++ field in
    (header (codes "accesscontrolalloworiginlistregex"), escape_compose (build_origin_regex exp))
    ∷ (header (codes "accesscontrolallowcredentials"), codes "true")
    ∷ (header (codes "accesscontrolallowmethods"), codes "GET,POST,PUT,PATCH,DELETE,OPTIONS")
    ∷ (
      header (codes "accesscontrolallowheaders"),
      codes "Content-Type,Authorization,X-Pmcluster-Signature,X-Request-Id",
    )
    ∷ (header (codes "accesscontrolmaxage"), codes "600")
    ∷ (header (codes "addvaryheader"), codes "true")
    ∷ []

-- The router of one host.
unfoldable pub router_labels : Text → Text → Text → Bool → List (Text × Text)
router_labels scope host middleware cors_disabled =
    (router scope (codes ".rule"), host_rule host)
    ∷ (router scope (codes ".entrypoints"), codes "websecure")
    ∷ (router scope (codes ".tls"), codes "true")
    ∷ (if cors_disabled then [] else (router scope (codes ".middlewares"), middleware) ∷ [])

unfoldable pub alias_labels : Text → Text → Bool → ℕ → List Text → List (Text × Text)
unfolding router_labels
alias_labels scope middleware cors_disabled i [] = []
alias_labels scope middleware cors_disabled i (alias ∷ aliases) =
    router_labels (scope ++ codes "-alias" ++ decimal_text (pos i)) alias middleware cors_disabled
    ++ alias_labels scope middleware cors_disabled (i + 1) aliases

-- A middleware of its own for a service with aliases.
abbrev pub has_alias_cors : IrExpose → Bool
has_alias_cors exp = not (is_empty exp.aliases) && not exp.cors_disabled

abbrev pub middleware_of : Text → IrExpose → Text
middleware_of scope exp =
    if has_alias_cors exp then scope ++ codes "-cors@swarm" else codes "cors-default@file"

unfoldable pub traefik_labels : IrApp → Text → IrExpose → List (Text × Text)
unfolding cors_labels router_labels alias_labels
traefik_labels app service exp =
    let scope = scope_of app service in
    let middleware = middleware_of scope exp in
    (codes "traefik.enable", codes "true")
      ∷ (
        codes "traefik.http.services." ++ scope ++ codes ".loadbalancer.server.port",
        decimal_text exp.port,
      )
      ∷ (codes "traefik.docker.network", codes "traefik-net")
      ∷ (if has_alias_cors exp then cors_labels (scope ++ codes "-cors") exp else [])
    ++ router_labels scope exp.host middleware exp.cors_disabled
    ++ alias_labels scope middleware exp.cors_disabled 0 exp.aliases

unfoldable pub add_traefik_labels : Map Text → IrApp → Text → IrExpose → Map Text
unfolding set_labels traefik_labels
add_traefik_labels labels app service exp = set_labels (traefik_labels app service exp) labels
