-- ===== src/Deploy/Toolchain.antt =====
-- The stages of the manifest compiler as `Deploy` composes them: `manifest.TranslateIR` with the
-- compose writer, and `pmcluster/internal/stacks/resolver.go`. What stays a parameter is the
-- parser, the marshaller, the environment, and the texts of errors.
use poor_man_stack.Base.{
  ℕ, Text, Option, none, some, List, Result, ok, err, ◌>>=◌, map_err, Map, codes,
}
use poor_man_stack.Manifest.Dsl.{App}
use poor_man_stack.Manifest.Compose.{ComposeFile}
use poor_man_stack.Manifest.Interpolate.{InterpolateFailure, interpolate}
use poor_man_stack.Manifest.Validate.{Invalid, validate}
use poor_man_stack.Manifest.Translate.{Resolver, TranslateFailure, build_ir}
use poor_man_stack.Manifest.Writer.{write}
use poor_man_stack.Store.Configs.{ConfigTables, ConfigError, get_config}
use poor_man_stack.Deploy.World.{Payload, Compiler}

pub record Toolchain : Type 0 where
  pub parse : Text → Result Text App
  pub getenv : Text → Option Text
  -- The order in which the map of placeholders is visited.
  pub order : Map Text → Map Text
  pub marshal : ComposeFile → Result Text Text
  pub volume_root : Text
  pub show_interpolate : InterpolateFailure → Text
  pub show_invalid : Invalid → Text
  pub show_translate : TranslateFailure → Text
  pub show_config : Text → ConfigError → Text
  pub sha : Text → Text
  pub marshal_payload : Payload → List Text → Text
  pub marshal_rollback : ℕ → Option Text → Text

-- `StoreConfigResolver.ResolveConfig`, for a resolver that may have no store.
unfoldable pub resolve_stored : (Text → ConfigError → Text) → Option ConfigTables → Resolver
resolve_stored show none name = err (codes "config resolution unavailable (no store)")
resolve_stored show (some tables) name = elim (get_config name tables) [
  | err e ↦ err (show name e)
  | ok c ↦ ok c.content
]

-- `TranslateIR` with the compose writer.
unfoldable pub translate_ir : Toolchain → Option Resolver → App → Result Text Text
translate_ir tools resolver app = do
  ir ← map_err tools.show_translate (build_ir resolver app)
  write tools.marshal tools.volume_root ir

unfoldable pub compiler_of : Toolchain → Compiler
unfolding translate_ir resolve_stored
compiler_of tools = record {
  parse = tools.parse;
  interpolate = λ app. map_err tools.show_interpolate (interpolate tools.getenv tools.order app);
  validate = λ app. map_err tools.show_invalid (validate app);
  translate =
      λ tables app. translate_ir tools (some (resolve_stored tools.show_config (some tables))) app;
  sha = tools.sha;
  marshal_payload = tools.marshal_payload;
  marshal_rollback = tools.marshal_rollback;
}
