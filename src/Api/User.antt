-- ===== src/Api/User.antt =====
-- The status of a User: user_lifecycle.go of api/accounts/v1alpha1, and `UserStatus` of
-- user_types.go. The conditions stand in `accessor`, with the clock that the marks read.
pub mod Calls
use nats_account_operator.Common.{String, Bool, Option, none, some, List, [], ◌∷◌}
use nats_account_operator.Conditions.{
  Condition, ConditionSet, Accessor, condition_ready, new_living_condition_set, get_condition,
  is_happy, initialize_conditions, mark_true, mark_false, mark_unknown,
}
use nats_account_operator.Api.{KeyPair, InferredObjectReference, seed_secret_ready}

pub record UserStatus : Type 0 where
  pub accessor : Accessor
  pub key_pair : Option KeyPair
  pub account_ref : Option InferredObjectReference

abbrev pub account_resolved : String
account_resolved = "AccountResolved"

abbrev pub issuer_resolved : String
issuer_resolved = "IssuerResolved"

abbrev pub jwt_secret_ready : String
jwt_secret_ready = "JWTSecretReady"

abbrev pub credentials_secret_ready : String
credentials_secret_ready = "CredentialsSecretReady"

abbrev pub user_types : List String
user_types =
    condition_ready ∷ seed_secret_ready ∷ account_resolved ∷ issuer_resolved ∷ jwt_secret_ready
    ∷ credentials_secret_ready ∷ []

unfoldable pub user_condition_set : ConditionSet
unfolding new_living_condition_set
user_condition_set = new_living_condition_set user_types

abbrev manage : (ConditionSet → Accessor → Accessor) → UserStatus → UserStatus
manage f s = record s { accessor = f user_condition_set s.accessor }

pub get_condition_of : String → UserStatus → Option Condition
get_condition_of t s = get_condition t s.accessor

unfoldable pub is_ready : UserStatus → Bool
is_ready s = is_happy user_condition_set s.accessor

unfoldable pub initialize_status : UserStatus → UserStatus
initialize_status = manage initialize_conditions

unfoldable pub mark_account_resolved : InferredObjectReference → UserStatus → UserStatus
mark_account_resolved ref s =
    manage (λ r. mark_true r account_resolved) (record s { account_ref = some ref })

unfoldable pub mark_account_resolve_failed : String → String → UserStatus → UserStatus
mark_account_resolve_failed reason message s =
    manage (λ r. mark_false r account_resolved reason message) (record s { account_ref = none })

unfoldable pub mark_account_resolve_unknown : String → String → UserStatus → UserStatus
mark_account_resolve_unknown reason message s =
    manage (λ r. mark_unknown r account_resolved reason message) (record s { account_ref = none })

unfoldable pub mark_issuer_resolved : UserStatus → UserStatus
mark_issuer_resolved = manage (λ r. mark_true r issuer_resolved)

unfoldable pub mark_issuer_resolve_failed : String → String → UserStatus → UserStatus
mark_issuer_resolve_failed reason message =
    manage (λ r. mark_false r issuer_resolved reason message)

unfoldable pub mark_issuer_resolve_unknown : String → String → UserStatus → UserStatus
mark_issuer_resolve_unknown reason message =
    manage (λ r. mark_unknown r issuer_resolved reason message)

unfoldable pub mark_jwt_secret_ready : UserStatus → UserStatus
mark_jwt_secret_ready = manage (λ r. mark_true r jwt_secret_ready)

unfoldable pub mark_jwt_secret_failed : String → String → UserStatus → UserStatus
mark_jwt_secret_failed reason message = manage (λ r. mark_false r jwt_secret_ready reason message)

unfoldable pub mark_jwt_secret_unknown : String → String → UserStatus → UserStatus
mark_jwt_secret_unknown reason message =
    manage (λ r. mark_unknown r jwt_secret_ready reason message)

unfoldable pub mark_seed_secret_ready : KeyPair → UserStatus → UserStatus
mark_seed_secret_ready ref s =
    manage (λ r. mark_true r seed_secret_ready) (record s { key_pair = some ref })

unfoldable pub mark_seed_secret_failed : String → String → UserStatus → UserStatus
mark_seed_secret_failed reason message s =
    manage (λ r. mark_false r seed_secret_ready reason message) (record s { key_pair = none })

unfoldable pub mark_seed_secret_unknown : String → String → UserStatus → UserStatus
mark_seed_secret_unknown reason message s =
    manage (λ r. mark_unknown r seed_secret_ready reason message) (record s { key_pair = none })

unfoldable pub mark_credentials_secret_ready : UserStatus → UserStatus
mark_credentials_secret_ready = manage (λ r. mark_true r credentials_secret_ready)

unfoldable pub mark_credentials_secret_failed : String → String → UserStatus → UserStatus
mark_credentials_secret_failed reason message =
    manage (λ r. mark_false r credentials_secret_ready reason message)

unfoldable pub mark_credentials_secret_unknown : String → String → UserStatus → UserStatus
mark_credentials_secret_unknown reason message =
    manage (λ r. mark_unknown r credentials_secret_ready reason message)
