-- ===== src/Domain/Json.antt =====
-- serde_json's `Value` as the domain crate walks it (a crate type: its six kinds are the documented
-- ones; a number is kept as the text that serde_json prints for it), and the domain's errors.
-- `JsonMap` is rust/crates/baselineops-domain/src/model/primitives.rs; the members of a map stand in
-- the order in which the program iterates over them, which is the order of their keys.
use baseline_ops.Prelude.{ℕ, String, Bool, Outcome, String-discrete}

mutual
  pub data Value : Type 0 where
    null : Value
    boolean : Bool → Value
    number : String → Value
    string : String → Value
    array : Items → Value
    object : Members → Value

  pub data Items : Type 0 where
    nil : Items
    cons : Value → Items → Items

  pub data Members : Type 0 where
    end : Members
    member : String → Value → Members → Members

abbrev pub JsonMap : Type 0
JsonMap = Members

unfoldable pub Members-discrete : Discrete Members
Members-discrete = hlevel String-discrete

-- error.rs. The causes that other crates report (I/O, UTF-8, serde) are kept as texts.
pub data DomainError : Type 0 where
  read : (path source : String) → DomainError
  limit_exceeded : (limit_name : String) → (limit : ℕ) → DomainError
  utf8 : String → DomainError
  json : String → DomainError
  validation : String → DomainError

abbrev pub DomainResult : Type 0 → Type 0
DomainResult = Outcome DomainError
