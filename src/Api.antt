-- ===== src/Api.antt =====
-- The types of api/accounts/v1alpha1 that the four resources share (common_types.go,
-- keypairable_types.go, status_types.go, constants.go). Each resource has a child module.
pub mod Account
pub mod User
pub mod Operator
pub mod SigningKey
pub mod Links
pub mod Lifecycle
use nats_account_operator.Common.{String}

pub record KeyPair : Type 0 where
  pub public_key : String
  pub seed_secret_name : String

-- The API version and the kind are inferred from where the reference is used.
pub record InferredObjectReference : Type 0 where
  pub namespace : String
  pub name : String

pub record TypedObjectReference : Type 0 where
  pub api_version : String
  pub kind : String
  pub name : String
  pub namespace : String
  pub uid : String

pub record SigningKeyEmbeddedStatus : Type 0 where
  pub name : String
  pub key_pair : KeyPair

pub record KeyPairReference : Type 0 where
  pub reference : InferredObjectReference
  pub public_key : String

abbrev pub seed_secret_ready : String
seed_secret_ready = "SeedSecretReady"
