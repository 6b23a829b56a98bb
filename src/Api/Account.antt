-- ===== src/Api/Account.antt =====
-- The status of an Account: account_lifecycle.go of api/accounts/v1alpha1, and `AccountStatus` of
-- account_types.go. The conditions stand in `accessor`, with the clock that the marks read.
pub mod Calls
use Prim.Native.String.{◌++◌}
use nats_account_operator.Common.{String, Bool, Option, none, some, List, [], ◌∷◌, length, decimal}
use nats_account_operator.Conditions.{
  Condition, ConditionSet, Accessor, condition_ready, new_living_condition_set, get_condition,
  is_happy, initialize_conditions, mark_true, mark_true_with_reason, mark_false, mark_unknown,
}
use nats_account_operator.Api.{
  KeyPair, InferredObjectReference, SigningKeyEmbeddedStatus, seed_secret_ready,
}

pub record AccountStatus : Type 0 where
  pub accessor : Accessor
  pub key_pair : Option KeyPair
  pub signing_keys : List SigningKeyEmbeddedStatus
  pub operator_ref : Option InferredObjectReference

abbrev pub operator_resolved : String
operator_resolved = "OperatorResolved"

abbrev pub issuer_resolved : String
issuer_resolved = "IssuerResolved"

abbrev pub signing_keys_updated : String
signing_keys_updated = "SigningKeysUpdated"

abbrev pub jwt_secret_ready : String
jwt_secret_ready = "JWTSecretReady"

abbrev pub jwt_pushed : String
jwt_pushed = "JWTPushed"

abbrev pub account_types : List String
account_types =
    condition_ready ∷ seed_secret_ready ∷ operator_resolved ∷ issuer_resolved ∷ signing_keys_updated
    ∷ jwt_secret_ready ∷ jwt_pushed ∷ []

unfoldable pub account_condition_set : ConditionSet
unfolding new_living_condition_set
account_condition_set = new_living_condition_set account_types

abbrev manage : (ConditionSet → Accessor → Accessor) → AccountStatus → AccountStatus
manage f s = record s { accessor = f account_condition_set s.accessor }

pub get_condition_of : String → AccountStatus → Option Condition
get_condition_of t s = get_condition t s.accessor

pub is_ready : AccountStatus → Bool
is_ready s = is_happy account_condition_set s.accessor

pub initialize_status : AccountStatus → AccountStatus
initialize_status = manage initialize_conditions

pub mark_operator_resolved : InferredObjectReference → AccountStatus → AccountStatus
mark_operator_resolved ref s =
    manage (λ r. mark_true r operator_resolved) (record s { operator_ref = some ref })

pub mark_operator_resolve_failed : String → String → AccountStatus → AccountStatus
mark_operator_resolve_failed reason message s =
    manage (λ r. mark_false r operator_resolved reason message) (record s { operator_ref = none })

pub mark_operator_resolve_unknown : String → String → AccountStatus → AccountStatus
mark_operator_resolve_unknown reason message s =
    manage (λ r. mark_unknown r operator_resolved reason message) (record s { operator_ref = none })

pub mark_issuer_resolved : AccountStatus → AccountStatus
mark_issuer_resolved = manage (λ r. mark_true r issuer_resolved)

pub mark_issuer_resolve_failed : String → String → AccountStatus → AccountStatus
mark_issuer_resolve_failed reason message =
    manage (λ r. mark_false r issuer_resolved reason message)

pub mark_issuer_resolve_unknown : String → String → AccountStatus → AccountStatus
mark_issuer_resolve_unknown reason message =
    manage (λ r. mark_unknown r issuer_resolved reason message)

pub mark_signing_keys_updated : List SigningKeyEmbeddedStatus → AccountStatus → AccountStatus
mark_signing_keys_updated signing_keys s =
    manage
      (λ r.
        mark_true_with_reason r signing_keys_updated "Signing keys updated"
          ("Found " ++ decimal (length signing_keys) ++ " signing keys"))
      (record s { signing_keys = signing_keys })

pub mark_signing_keys_update_failed : String → String → AccountStatus → AccountStatus
mark_signing_keys_update_failed reason message s =
    manage (λ r. mark_false r signing_keys_updated reason message) (record s { signing_keys = [] })

pub mark_signing_keys_update_unknown : String → String → AccountStatus → AccountStatus
mark_signing_keys_update_unknown reason message s =
    manage (λ r. mark_unknown r signing_keys_updated reason message)
      (record s { signing_keys = [] })

pub mark_jwt_secret_ready : AccountStatus → AccountStatus
mark_jwt_secret_ready = manage (λ r. mark_true r jwt_secret_ready)

pub mark_jwt_secret_failed : String → String → AccountStatus → AccountStatus
mark_jwt_secret_failed reason message = manage (λ r. mark_false r jwt_secret_ready reason message)

pub mark_jwt_secret_unknown : String → String → AccountStatus → AccountStatus
mark_jwt_secret_unknown reason message =
    manage (λ r. mark_unknown r jwt_secret_ready reason message)

pub mark_seed_secret_ready : KeyPair → AccountStatus → AccountStatus
mark_seed_secret_ready kp s =
    manage (λ r. mark_true r seed_secret_ready) (record s { key_pair = some kp })

pub mark_seed_secret_failed : String → String → AccountStatus → AccountStatus
mark_seed_secret_failed reason message s =
    manage (λ r. mark_false r seed_secret_ready reason message) (record s { key_pair = none })

pub mark_seed_secret_unknown : String → String → AccountStatus → AccountStatus
mark_seed_secret_unknown reason message s =
    manage (λ r. mark_unknown r seed_secret_ready reason message) (record s { key_pair = none })

pub mark_jwt_pushed : AccountStatus → AccountStatus
mark_jwt_pushed = manage (λ r. mark_true r jwt_pushed)

pub mark_jwt_push_failed : String → String → AccountStatus → AccountStatus
mark_jwt_push_failed reason message = manage (λ r. mark_false r jwt_pushed reason message)

pub mark_jwt_push_unknown : String → String → AccountStatus → AccountStatus
mark_jwt_push_unknown reason message = manage (λ r. mark_unknown r jwt_pushed reason message)
