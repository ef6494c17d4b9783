-- ===== src/Manifest/Ir.antt =====
-- `pmcluster/internal/manifest/ir.go`: what the translation of a manifest hands to a writer.
use poor_man_stack.Base.{Text, Bool, Option, List}
use poor_man_stack.Base.Int.{ℤ}

pub record IrExpose : Type 0 where
  pub port : ℤ
  pub host : Text
  pub aliases : List Text
  pub cors_disabled : Bool

pub record IrHealthcheck : Type 0 where
  pub type : Text
  pub path : Text
  pub test : List Text
  pub interval : Text
  pub timeout : Text
  pub retries : ℤ

pub record IrUpdate : Type 0 where
  pub parallelism : ℤ
  pub delay : Text
  pub order : Text

pub record IrService : Type 0 where
  pub name : Text
  pub image : Text
  pub command : List Text
  pub entrypoint : List Text
  pub env : List (Text × Text)
  pub volumes : List Text
  pub secrets : List Text
  pub expose : Option IrExpose
  pub healthcheck : Option IrHealthcheck
  pub run_once : Bool
  pub replicas : ℤ
  pub placement : Text
  pub update : Option IrUpdate
  pub skip_filelog : Bool

pub record Ir : Type 0 where
  pub name : Text
  pub env : Text
  pub version : Text
  pub services : List IrService
  pub volumes : List Text
  pub secrets : List Text
