-- ===== src/Nsc.antt =====
-- The claims of pkg/nsc: conversions.go, helpers.go, createuser.go, createoperator.go. The types of the jwt
-- library are records with the fields that the code sets. Its constructors of claims, the encoder,
-- and the key pairs are parameters.
pub mod User
pub mod Operator
pub mod Types
mod Tests
use nats_account_operator.Common.{
  String, ◌==◌, ℕ, Bool, true, false, Option, none, some, List, [], ◌∷◌, if◌then◌else◌, map,
}

-- An int64 of the source is copied only.
pub data ℤ : Type 0 where
  pos negsuc : ℕ → ℤ

unfoldable pub get_default_from_ptr {ℓ} : {A : Type ℓ} → Option A → A → A
get_default_from_ptr none def = def
get_default_from_ptr (some v) def = v

-- The limits of a spec.
pub record SpecNatsLimits : Type 0 where
  pub subs : Option ℤ
  pub data_bytes : Option ℤ
  pub payload : Option ℤ

pub record NatsLimits : Type 0 where
  pub subs : ℤ
  pub data_bytes : ℤ
  pub payload : ℤ

unfoldable pub convert_to_nats_limits : SpecNatsLimits → NatsLimits → NatsLimits
unfolding get_default_from_ptr
convert_to_nats_limits limits defaults = record {
  subs = get_default_from_ptr limits.subs defaults.subs;
  data_bytes = get_default_from_ptr limits.data_bytes defaults.data_bytes;
  payload = get_default_from_ptr limits.payload defaults.payload;
}

pub record SpecAccountLimits : Type 0 where
  pub imports : Option ℤ
  pub exports : Option ℤ
  pub wildcard_exports : Option Bool
  pub disallow_bearer : Bool
  pub conn : Option ℤ
  pub leaf_node_conn : Option ℤ

pub record AccountLimits : Type 0 where
  pub imports : ℤ
  pub exports : ℤ
  pub wildcard_exports : Bool
  pub disallow_bearer : Bool
  pub conn : ℤ
  pub leaf_node_conn : ℤ

unfoldable pub convert_to_account_limits : SpecAccountLimits → AccountLimits → AccountLimits
unfolding get_default_from_ptr
convert_to_account_limits limits defaults = record {
  imports = get_default_from_ptr limits.imports defaults.imports;
  exports = get_default_from_ptr limits.exports defaults.exports;
  wildcard_exports = get_default_from_ptr limits.wildcard_exports defaults.wildcard_exports;
  disallow_bearer = limits.disallow_bearer;
  conn = get_default_from_ptr limits.conn defaults.conn;
  leaf_node_conn = get_default_from_ptr limits.leaf_node_conn defaults.leaf_node_conn;
}

-- `StartEndTime` of the source, and `TimeRange` of the library.
pub record StartEndTime : Type 0 where
  pub start : String
  pub end : String

pub record TimeRange : Type 0 where
  pub start : String
  pub end : String

-- A nil slice, which is `none`, stays nil.
unfoldable pub convert_to_nats_time_ranges : Option (List StartEndTime) → Option (List TimeRange)
convert_to_nats_time_ranges none = none
convert_to_nats_time_ranges (some times) =
    some (map (λ v. record { start = v.start; end = v.end }) times)
