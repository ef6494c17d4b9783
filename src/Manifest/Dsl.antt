-- ===== src/Manifest/Dsl.antt =====
-- `pmcluster/pkg/dsl/types.go`. A Go map is the list of its entries in the order in which a loop
-- happens to visit them.
use poor_man_stack.Base.{Text, Bool, Option, List}
use poor_man_stack.Base.Int.{ℤ}

pub record Expose : Type 0 where
  pub port : ℤ
  pub host : Text
  pub aliases : List Text
  pub cors_disabled : Bool

pub record Healthcheck : Type 0 where
  pub type : Text
  pub path : Text
  pub test : List Text
  pub interval : Text
  pub timeout : Text
  pub retries : ℤ

pub record Update : Type 0 where
  pub parallelism : ℤ
  pub delay : Text
  pub order : Text

pub record Service : Type 0 where
  pub image : Text
  pub replicas : Option ℤ
  pub run_once : Bool
  pub skip_filelog : Bool
  pub placement : Text
  pub command : List Text
  pub entrypoint : List Text
  pub env : List (Text × Text)
  pub volumes : List Text
  pub secrets : List Text
  pub expose : Option Expose
  pub healthcheck : Option Healthcheck
  pub update : Option Update

pub record App : Type 0 where
  pub name : Text
  pub env : Text
  pub domain : Text
  pub version : Text
  pub registry : Text
  pub repo_url : Text
  pub env_file : Text
  pub secrets : List Text
  pub services : List (Text × Service)
  pub backup_before_deploy : Bool
  pub strict_backup : Bool
