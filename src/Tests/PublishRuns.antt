-- ===== src/Tests/PublishRuns.antt =====
-- A deploy through the stages of the manifest compiler, of a manifest with placeholders.
use poor_man_stack.Base.{Text, true, codes, ◌≡◌, refl, inl, [], ◌∷◌, ◌++◌, join, map, ok, Result}
use poor_man_stack.Base.Rows.{find}
use poor_man_stack.Store.Configs.{get_config}
use poor_man_stack.Deploy.World.{Payload, Deployed, World, Fault}
use poor_man_stack.Deploy.Pipeline.{deploy}
use poor_man_stack.Deploy.Toolchain.{Toolchain, resolve_stored, translate_ir, compiler_of}
use poor_man_stack.Deploy.Published.{IsCompiled, deploy-IsCompiled}
use poor_man_stack.Manifest.Writer.{write}
use poor_man_stack.Tests.ManifestRuns.{web, shop, compiler}
use poor_man_stack.Manifest.Dsl.{App}
use poor_man_stack.Manifest.Compose.{ComposeService}
use poor_man_stack.Tests.InterpolateRuns.{variables, interpolation}
use poor_man_stack.Tests.DeployRuns.{swarm_of_names, empty_world, deploying}

abbrev template : App
template = record shop {
  services = (codes "web", record web { image = codes "${app}/web:${version}-${env:TAG}" }) ∷ [];
}

-- The image and the environment of each service, in place of YAML.
abbrev lines_of : Text × ComposeService → Text
lines_of (name, service) =
    name
    ++ codes " "
    ++ service.image
    ++ codes " "
    ++ join (codes " ") (map (λ (e : Text × Text). e.0 ++ codes "=" ++ e.1) service.environment)

abbrev shop_tools : Toolchain
shop_tools = record {
  parse = λ manifest. ok template;
  getenv = variables;
  order = λ names. names;
  marshal = λ file. ok (join (codes "\n") (file.version ∷ map lines_of file.services));
  volume_root = [];
  show_interpolate = λ e. codes "interpolate";
  show_invalid = λ e. codes "invalid";
  show_translate = λ e. codes "translate";
  show_config = λ name e. name;
  sha = λ t. t;
  marshal_payload = λ p steps. [];
  marshal_rollback = λ source payload. [];
}

abbrev mode_world : World swarm_of_names
mode_world = record empty_world {
  tables = record empty_world.tables {
    configs = record {
      configs =
          record {
            id = 1;
            scope = [];
            stack = [];
            name = codes "mode";
            kind = [];
            content = codes "fast";
            version = [];
            hash = [];
            created_at = 0;
            updated_at = 0;
            rendered_content = [];
            rendered_at = 0;
            rendered_hash = [];
          }
          ∷ [];
      versions = [];
    };
  };
}

abbrev shop_payload : Payload
shop_payload = record {
  app_name = [];
  repo_url = codes "git@host:shop";
  file = codes "stack.yml";
  version = codes "7";
  manifest = codes "app: shop";
}

publishing : Unit {0}
unfolding join deploying interpolation compiler resolve_stored translate_ir compiler_of get_config
    find write
publishing = tt

abbrev shop_text : Text
shop_text = codes "3.9\nweb shop/web:7-v2 PASS=/run/secrets/db MODE=fast PLAIN=x"

abbrev after : World swarm_of_names × Result Fault Deployed
after = deploy swarm_of_names (compiler_of shop_tools) 100 shop_payload mode_world

abbrev done : Deployed
done = record {
  stack_name = codes "shop";
  revision = 100;
  rendered_yaml = shop_text;
  changed = true;
}

publish_run :
    deploy swarm_of_names (compiler_of shop_tools) 100 shop_payload mode_world ≡ (after.0, ok done)
unfolding publishing
publish_run = refl

deploy-IsCompiled_example :
    IsCompiled shop_tools shop_payload mode_world.tables.configs (codes "shop") shop_text
deploy-IsCompiled_example =
    deploy-IsCompiled swarm_of_names shop_tools 100 shop_payload mode_world after.0 done (inl refl)
      publish_run
