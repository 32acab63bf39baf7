-- ===== src/Domain/Bindings.antt =====
-- rust/crates/baselineops-domain/src/model/bindings.rs. The observations of a state are a
-- `BTreeMap` by step: a list in the order of the keys.
use baseline_ops.Prelude.{ℕ, String, Option, List}
use baseline_ops.Domain.Ids.{ActionId, CapabilityId, LogicalResourceId, Digest, DateTime}
use baseline_ops.Domain.Json.{JsonMap}
use baseline_ops.Domain.Primitives.{OsFamily}
use baseline_ops.Prelude.{String-discrete, ℕ_discrete}

pub record HostIdentity : Type 0 where
  pub host_id : String
  pub boot_id : String
  pub session_id : String
  pub hostname : String
  pub os_family : OsFamily
  pub os_version : String
  pub architecture : String
  pub fingerprint : Digest

pub record ToolIdentity : Type 0 where
  pub name : String
  pub version : String
  pub build_digest : Option Digest

pub data SourceKind : Type 0 where
  local_file bundled remote api : SourceKind

pub record SourceIdentity : Type 0 where
  pub kind : SourceKind
  pub locator : String
  pub digest : Digest

pub record InputIdentity : Type 0 where
  pub digest : Digest
  pub size_bytes : ℕ

pub data ResourceKind : Type 0 where
  file directory_manifest : ResourceKind

pub record ResourceBinding : Type 0 where
  pub logical_id : LogicalResourceId
  pub kind : ResourceKind
  pub digest : Digest
  pub size_bytes : ℕ

pub record ObservedValue : Type 0 where
  pub capability : CapabilityId
  pub parameters_digest : Digest
  pub observed_at : DateTime
  pub facts : JsonMap

pub record ObservedState : Type 0 where
  pub captured_at : DateTime
  pub digest : Digest
  pub values : List (ActionId × ObservedValue)

unfoldable pub HostIdentity-discrete : Discrete HostIdentity
HostIdentity-discrete = hlevel (String-discrete, ℕ_discrete)

unfoldable pub ToolIdentity-discrete : Discrete ToolIdentity
ToolIdentity-discrete = hlevel (String-discrete, ℕ_discrete)

unfoldable pub SourceIdentity-discrete : Discrete SourceIdentity
SourceIdentity-discrete = hlevel (String-discrete, ℕ_discrete)

unfoldable pub InputIdentity-discrete : Discrete InputIdentity
InputIdentity-discrete = hlevel ℕ_discrete

unfoldable pub ResourceBinding-discrete : Discrete ResourceBinding
ResourceBinding-discrete = hlevel (String-discrete, ℕ_discrete)
