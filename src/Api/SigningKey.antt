-- ===== src/Api/SigningKey.antt =====
-- The status of a SigningKey: signingkey_lifecycle.go of api/accounts/v1alpha1, and
-- `SigningKeyStatus` of signingkey_types.go. The conditions stand in `accessor`, with the clock
-- that the marks read.
pub mod Calls
pub mod Fields
use nats_account_operator.Common.{String, Bool, Option, none, some, List, [], ◌∷◌}
use nats_account_operator.Conditions.{
  Condition, ConditionSet, Accessor, condition_ready, new_living_condition_set, get_condition,
  is_happy, initialize_conditions, mark_true, mark_false, mark_unknown,
}
use nats_account_operator.Api.{KeyPair, TypedObjectReference, seed_secret_ready}

pub record SigningKeyStatus : Type 0 where
  pub accessor : Accessor
  pub key_pair : Option KeyPair
  pub owner_ref : Option TypedObjectReference

pub record SigningKeyOwnerReference : Type 0 where
  pub api_version : String
  pub kind : String
  pub name : String

pub record SigningKeySpec : Type 0 where
  pub seed_secret_name : String
  pub owner_ref : SigningKeyOwnerReference

-- The fields of the object that the controllers read. A missing label map is the empty one.
pub record SigningKey : Type 0 where
  pub name : String
  pub namespace : String
  pub labels : List (String × String)
  pub spec : SigningKeySpec
  pub status : SigningKeyStatus

abbrev pub owner_resolved : String
owner_resolved = "OwnerResolved"

abbrev pub signing_key_types : List String
signing_key_types = condition_ready ∷ seed_secret_ready ∷ owner_resolved ∷ []

unfoldable pub signing_key_condition_set : ConditionSet
unfolding new_living_condition_set
signing_key_condition_set = new_living_condition_set signing_key_types

abbrev manage : (ConditionSet → Accessor → Accessor) → SigningKeyStatus → SigningKeyStatus
manage f s = record s { accessor = f signing_key_condition_set s.accessor }

pub get_condition_of : String → SigningKeyStatus → Option Condition
get_condition_of t s = get_condition t s.accessor

unfoldable pub is_ready : SigningKeyStatus → Bool
is_ready s = is_happy signing_key_condition_set s.accessor

unfoldable pub initialize_status : SigningKeyStatus → SigningKeyStatus
initialize_status = manage initialize_conditions

unfoldable pub mark_seed_secret_ready : String → String → SigningKeyStatus → SigningKeyStatus
mark_seed_secret_ready public_key seed_secret_name s =
    manage (λ r. mark_true r seed_secret_ready)
      (record s {
        key_pair = some (record { public_key = public_key; seed_secret_name = seed_secret_name });
      })

unfoldable pub mark_seed_secret_failed : String → String → SigningKeyStatus → SigningKeyStatus
mark_seed_secret_failed reason message s =
    manage (λ r. mark_false r seed_secret_ready reason message) (record s { key_pair = none })

unfoldable pub mark_seed_secret_unknown : String → String → SigningKeyStatus → SigningKeyStatus
mark_seed_secret_unknown reason message s =
    manage (λ r. mark_unknown r seed_secret_ready reason message) (record s { key_pair = none })

unfoldable pub mark_owner_resolved : TypedObjectReference → SigningKeyStatus → SigningKeyStatus
mark_owner_resolved ref s =
    manage (λ r. mark_true r owner_resolved) (record s { owner_ref = some ref })

unfoldable pub mark_owner_resolve_failed : String → String → SigningKeyStatus → SigningKeyStatus
mark_owner_resolve_failed reason message s =
    manage (λ r. mark_false r owner_resolved reason message) (record s { owner_ref = none })

unfoldable pub mark_owner_resolve_unknown : String → String → SigningKeyStatus → SigningKeyStatus
mark_owner_resolve_unknown reason message s =
    manage (λ r. mark_unknown r owner_resolved reason message) (record s { owner_ref = none })
