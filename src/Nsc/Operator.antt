-- ===== src/Nsc/Operator.antt =====
-- `CreateOperatorClaims` of pkg/nsc/createoperator.go.
pub mod Claims
use Prim.Native.String.{◌++◌}
use nats_account_operator.Common.{String, ℕ, Option, none, some, List, map}
use nats_account_operator.Errors.{Error, plain, wrapped, error_text}
use nats_account_operator.Api.{KeyPair, KeyPairReference, SigningKeyEmbeddedStatus}
use nats_account_operator.Api.Operator.{OperatorStatus}
use nats_account_operator.Controller.{Outcome, ok, failed}

-- The fields of the spec that are claims.
pub record OperatorSpec : Type 0 where
  pub account_server_url : String
  pub operator_service_urls : List String

-- `OperatorClaims` of the library, with the fields of its `Operator`.
pub record OperatorClaims : Type 0 where
  pub subject : String
  pub name : String
  pub issued_at : ℕ
  pub signing_keys : List String
  pub account_server_url : String
  pub operator_service_urls : List String
  pub system_account : String
  pub type : String

module _ {K : Type 0} (new_operator_claims : String → OperatorClaims) (operator_claim : String)
    (encode : OperatorClaims → K → Outcome String) where
  pub operator_claims :
      String
      → OperatorSpec
      → List SigningKeyEmbeddedStatus
      → KeyPairReference
      → KeyPair
      → ℕ
      → OperatorClaims
  operator_claims name spec signing_keys system_account key_pair now =
      record (new_operator_claims key_pair.public_key) {
        name = name;
        issued_at = now;
        signing_keys = map (λ (sk : SigningKeyEmbeddedStatus). sk.key_pair.public_key) signing_keys;
        account_server_url = spec.account_server_url;
        operator_service_urls = spec.operator_service_urls;
        system_account = system_account.public_key;
        type = operator_claim;
      }

  pub encoded : OperatorClaims → Outcome String → Outcome (OperatorClaims × String)
  encoded claims (failed err) =
      failed (wrapped ("failed to encode operator claims: " ++ error_text err) err)
  encoded claims (ok ojwt) = ok (claims, ojwt)

  pub create_with :
      String
      → OperatorSpec
      → List SigningKeyEmbeddedStatus
      → Option KeyPairReference
      → Option KeyPair
      → ℕ
      → K
      → Outcome (OperatorClaims × String)
  unfolding operator_claims encoded
  create_with name spec signing_keys none key_pair now signing_key =
      failed (plain "cannot create operator without a resolved system account")
  create_with name spec signing_keys (some account) none now signing_key =
      failed (plain "cannot create operator without a key pair")
  create_with name spec signing_keys (some account) (some key_pair) now signing_key =
      let claims = operator_claims name spec signing_keys account key_pair now in
      encoded claims (encode claims signing_key)

  -- `now` is the time in seconds.
  pub create_operator_claims :
      String → OperatorSpec → OperatorStatus → ℕ → K → Outcome (OperatorClaims × String)
  unfolding create_with
  create_operator_claims name spec status now signing_key =
      create_with name spec status.signing_keys status.resolved_system_account status.key_pair now
        signing_key
