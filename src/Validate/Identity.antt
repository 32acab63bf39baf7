-- ===== src/Validate/Identity.antt =====
-- The checks of validate.rs on hosts, tools, sources and observed states. `Canonical` is what they
-- call outside: `canonical_json_digest` (serde_json and sha2) at each type that they digest, and
-- the text of an identifier (uuid).
use baseline_ops.Prelude.{String, ◌==◌, not, List, map, is_empty, reject_if, each, ◌>>=◌, ◌>>◌}
use baseline_ops.Domain.Ids.{ActionId, CapabilityId, Digest}
use baseline_ops.Domain.Json.{JsonMap, DomainResult, validation}
use baseline_ops.Domain.Primitives.{OsFamily}
use baseline_ops.Domain.Bindings.{
  HostIdentity, ToolIdentity, SourceIdentity, ObservedValue, ObservedState,
}
use baseline_ops.Validate.Text.{validate_nonempty}
use baseline_ops.Validate.Json.{validate_json_map}

pub record HostFingerprintPayload : Type 0 where
  pub host_id : String
  pub boot_id : String
  pub session_id : String
  pub hostname : String
  pub os_family : OsFamily
  pub os_version : String
  pub architecture : String

pub record Canonical : Type 0 where
  pub show_action : ActionId → String
  pub host_digest : HostFingerprintPayload → DomainResult Digest
  pub facts_digest : List (ActionId × CapabilityId × Digest × JsonMap) → DomainResult Digest
  pub parameters_digest : JsonMap → DomainResult Digest

module _ (c : Canonical) where
  -- `HostIdentityV3::calculated_fingerprint`
  abbrev pub calculated_fingerprint : HostIdentity → DomainResult Digest
  calculated_fingerprint host = c.host_digest (record {
    host_id = host.host_id;
    boot_id = host.boot_id;
    session_id = host.session_id;
    hostname = host.hostname;
    os_family = host.os_family;
    os_version = host.os_version;
    architecture = host.architecture;
  })

  unfoldable pub validate_host_identifiers : HostIdentity → DomainResult Unit
  validate_host_identifiers host = do
    validate_nonempty "host ID" host.host_id 256
    validate_nonempty "boot ID" host.boot_id 256
    validate_nonempty "session ID" host.session_id 256

  unfoldable pub validate_host_platform : HostIdentity → DomainResult Unit
  validate_host_platform host = do
    validate_nonempty "hostname" host.hostname 255
    validate_nonempty "OS version" host.os_version 128
    validate_nonempty "architecture" host.architecture 64

  unfoldable pub validate_host_fingerprint : HostIdentity → DomainResult Unit
  validate_host_fingerprint host = do
    fingerprint ← calculated_fingerprint host
    reject_if (not (fingerprint == host.fingerprint))
        (validation "host fingerprint does not match the host identity fields")

  -- `HostIdentityV3::validate`
  unfoldable pub validate_host : HostIdentity → DomainResult Unit
  unfolding validate_host_identifiers validate_host_platform validate_host_fingerprint
  validate_host host = do
    validate_host_identifiers host
    validate_host_platform host
    validate_host_fingerprint host

  -- `ObservedStateV3::calculated_digest`
  abbrev pub observed_digest : ObservedState → DomainResult Digest
  observed_digest state = c.facts_digest (
      map
        (λ ((step, value) : ActionId × ObservedValue).
          (step, value.capability, value.parameters_digest, value.facts))
        state.values)

  unfoldable pub validate_observed_value : ActionId × ObservedValue → DomainResult Unit
  validate_observed_value (step, value) = do
    validate_nonempty "observed-state capability ID" value.capability 128
    validate_json_map "observed-state facts" value.facts

  -- `ObservedStateV3::validate`
  unfoldable pub validate_observed_state : ObservedState → DomainResult Unit
  unfolding validate_observed_value
  validate_observed_state state = do
    reject_if (is_empty state.values)
        (validation "observed state must contain at least one capability value")
    each validate_observed_value state.values
    digest ← observed_digest state
    reject_if (not (digest == state.digest))
        (validation "observed-state digest does not match its captured values")

unfoldable pub validate_tool : ToolIdentity → DomainResult Unit
validate_tool tool = do
  validate_nonempty "tool name" tool.name 128
  validate_nonempty "tool version" tool.version 128

unfoldable pub validate_source : SourceIdentity → DomainResult Unit
validate_source source = validate_nonempty "source locator" source.locator 2048
