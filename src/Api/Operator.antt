-- ===== src/Api/Operator.antt =====
-- The status of an Operator: operator_lifecycle.go of api/accounts/v1alpha1, and `OperatorStatus`
-- of operator_types.go. The conditions stand in `accessor`, with the clock that the marks read.
-- `OperatorConditionSeedSecretReady` is the text of `KeyPairableConditionSeedSecretReady`, which
-- the set of types therefore lists twice.
pub mod Calls
use Prim.Native.String.{◌++◌}
use nats_account_operator.Common.{String, Bool, Option, none, some, List, [], ◌∷◌, length, decimal}
use nats_account_operator.Conditions.{
  Condition, ConditionSet, Accessor, condition_ready, new_living_condition_set, get_condition,
  is_happy, initialize_conditions, mark_true, mark_true_with_reason, mark_false, mark_unknown,
}
use nats_account_operator.Api.{
  KeyPair, KeyPairReference, SigningKeyEmbeddedStatus, seed_secret_ready,
}

pub record OperatorStatus : Type 0 where
  pub accessor : Accessor
  pub key_pair : Option KeyPair
  pub signing_keys : List SigningKeyEmbeddedStatus
  pub resolved_system_account : Option KeyPairReference

abbrev pub system_account_resolved : String
system_account_resolved = "SystemAccountResolved"

abbrev pub signing_keys_updated : String
signing_keys_updated = "SigningKeysUpdated"

abbrev pub jwt_secret_ready : String
jwt_secret_ready = "JWTSecretReady"

abbrev pub operator_seed_secret_ready : String
operator_seed_secret_ready = "SeedSecretReady"

abbrev pub operator_types : List String
operator_types =
    condition_ready ∷ seed_secret_ready ∷ system_account_resolved ∷ signing_keys_updated
    ∷ jwt_secret_ready ∷ operator_seed_secret_ready ∷ []

unfoldable pub operator_condition_set : ConditionSet
unfolding new_living_condition_set
operator_condition_set = new_living_condition_set operator_types

abbrev manage : (ConditionSet → Accessor → Accessor) → OperatorStatus → OperatorStatus
manage f s = record s { accessor = f operator_condition_set s.accessor }

pub get_condition_of : String → OperatorStatus → Option Condition
get_condition_of t s = get_condition t s.accessor

unfoldable pub is_ready : OperatorStatus → Bool
is_ready s = is_happy operator_condition_set s.accessor

unfoldable pub initialize_status : OperatorStatus → OperatorStatus
initialize_status = manage initialize_conditions

unfoldable pub mark_system_account_resolved : KeyPairReference → OperatorStatus → OperatorStatus
mark_system_account_resolved ref s =
    manage (λ r. mark_true r system_account_resolved)
      (record s { resolved_system_account = some ref })

unfoldable pub mark_system_account_resolve_failed :
    String → String → OperatorStatus → OperatorStatus
mark_system_account_resolve_failed reason message s =
    manage (λ r. mark_false r system_account_resolved reason message)
      (record s { resolved_system_account = none })

unfoldable pub mark_system_account_resolve_unknown :
    String → String → OperatorStatus → OperatorStatus
mark_system_account_resolve_unknown reason message s =
    manage (λ r. mark_unknown r system_account_resolved reason message)
      (record s { resolved_system_account = none })

unfoldable pub mark_signing_keys_updated :
    List SigningKeyEmbeddedStatus → OperatorStatus → OperatorStatus
mark_signing_keys_updated signing_keys s =
    manage
      (λ r.
        mark_true_with_reason r signing_keys_updated signing_keys_updated
          ("Found " ++ decimal (length signing_keys) ++ " signing keys"))
      (record s { signing_keys = signing_keys })

unfoldable pub mark_signing_keys_update_failed : String → String → OperatorStatus → OperatorStatus
mark_signing_keys_update_failed reason message s =
    manage (λ r. mark_false r signing_keys_updated reason message) (record s { signing_keys = [] })

unfoldable pub mark_signing_keys_update_unknown : String → String → OperatorStatus → OperatorStatus
mark_signing_keys_update_unknown reason message s =
    manage (λ r. mark_unknown r signing_keys_updated reason message)
      (record s { signing_keys = [] })

unfoldable pub mark_jwt_secret_ready : OperatorStatus → OperatorStatus
mark_jwt_secret_ready = manage (λ r. mark_true r jwt_secret_ready)

unfoldable pub mark_jwt_secret_failed : String → String → OperatorStatus → OperatorStatus
mark_jwt_secret_failed reason message = manage (λ r. mark_false r jwt_secret_ready reason message)

unfoldable pub mark_jwt_secret_unknown : String → String → OperatorStatus → OperatorStatus
mark_jwt_secret_unknown reason message =
    manage (λ r. mark_unknown r jwt_secret_ready reason message)

unfoldable pub mark_seed_secret_ready : KeyPair → OperatorStatus → OperatorStatus
mark_seed_secret_ready ref s =
    manage (λ r. mark_true r operator_seed_secret_ready) (record s { key_pair = some ref })

unfoldable pub mark_seed_secret_failed : String → String → OperatorStatus → OperatorStatus
mark_seed_secret_failed reason message s =
    manage (λ r. mark_false r operator_seed_secret_ready reason message)
      (record s { key_pair = none })

unfoldable pub mark_seed_secret_unknown : String → String → OperatorStatus → OperatorStatus
mark_seed_secret_unknown reason message s =
    manage (λ r. mark_unknown r operator_seed_secret_ready reason message)
      (record s { key_pair = none })
