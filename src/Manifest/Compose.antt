-- ===== src/Manifest/Compose.antt =====
-- `pmcluster/internal/manifest/compose.go`: the document that is marshalled. A pointer is an Option,
-- an absent map or list an empty one, as `omitempty` has it.
use poor_man_stack.Base.{Text, Bool, Option, List, Map}
use poor_man_stack.Base.Int.{ℤ}

pub record ComposeHealthcheck : Type 0 where
  pub test : List Text
  pub interval : Text
  pub timeout : Text
  pub retries : ℤ

pub record ComposeUpdate : Type 0 where
  pub parallelism : ℤ
  pub delay : Text
  pub order : Text

pub record ComposeDeploy : Type 0 where
  pub replicas : Option ℤ
  pub labels : Map Text
  pub placement : Option (List Text)
  pub restart_condition : Text
  pub update_config : Option ComposeUpdate

pub record ComposeService : Type 0 where
  pub image : Text
  pub command : List Text
  pub entrypoint : List Text
  pub environment : List (Text × Text)
  pub volumes : List Text
  pub networks : List Text
  pub secrets : List Text
  pub healthcheck : Option ComposeHealthcheck
  pub deploy : ComposeDeploy

pub record ComposeVolume : Type 0 where
  pub driver : Text
  pub external : Bool
  pub driver_opts : Map Text

pub record ComposeNetwork : Type 0 where
  pub driver : Text
  pub external : Bool

pub record ComposeSecret : Type 0 where
  pub external : Bool

pub record ComposeFile : Type 0 where
  pub version : Text
  pub services : Map ComposeService
  pub volumes : Map ComposeVolume
  pub networks : Map ComposeNetwork
  pub secrets : Map ComposeSecret
