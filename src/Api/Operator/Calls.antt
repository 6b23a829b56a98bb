-- ===== src/Api/Operator/Calls.antt =====
-- Sequences of calls of the methods of `OperatorStatus`, and what a ready Operator has.
mod Tests
use Prim.Native.String.{◌++◌}
use nats_account_operator.Common.{
  String, ◌==◌, ◌≡◌, ◌≢◌, refl, ℕ, Bool, true, false, Option, none, some, List, [], ◌∷◌, arith,
  length, decimal,
}
use nats_account_operator.Conditions.{ConditionSet, new_living_condition_set, contains, is_happy}
use nats_account_operator.Conditions.Sets.{IsProper, new_condition_set-IsProper}
use nats_account_operator.Conditions.Runs.{
  Mark, set_true, set_true_with_reason, set_false, set_unknown, initialize, apply, IsAside, blank,
}
use nats_account_operator.Api.Links.{raises, lowers}
use nats_account_operator.Api.Lifecycle.{Lifecycle, run_calls, IsTracked, ready_has}
use nats_account_operator.Api.{KeyPair, KeyPairReference, SigningKeyEmbeddedStatus}
use nats_account_operator.Api.Operator.{
  OperatorStatus, operator_condition_set, operator_types, is_ready, jwt_secret_ready,
  operator_seed_secret_ready, signing_keys_updated, system_account_resolved,
  mark_system_account_resolved, mark_system_account_resolve_failed,
  mark_system_account_resolve_unknown, mark_signing_keys_updated, mark_signing_keys_update_failed,
  mark_signing_keys_update_unknown, mark_jwt_secret_ready, mark_jwt_secret_failed,
  mark_jwt_secret_unknown, mark_seed_secret_ready, mark_seed_secret_failed,
  mark_seed_secret_unknown, initialize_status,
}

pub data OperatorCall : Type 0 where
  to_system_account_resolved : KeyPairReference → OperatorCall
  to_system_account_resolve_failed : String → String → OperatorCall
  to_system_account_resolve_unknown : String → String → OperatorCall
  to_signing_keys_updated : List SigningKeyEmbeddedStatus → OperatorCall
  to_signing_keys_update_failed : String → String → OperatorCall
  to_signing_keys_update_unknown : String → String → OperatorCall
  to_jwt_secret_ready : OperatorCall
  to_jwt_secret_failed : String → String → OperatorCall
  to_jwt_secret_unknown : String → String → OperatorCall
  to_seed_secret_ready : KeyPair → OperatorCall
  to_seed_secret_failed : String → String → OperatorCall
  to_seed_secret_unknown : String → String → OperatorCall
  to_initialize : OperatorCall

unfoldable pub call : OperatorCall → OperatorStatus → OperatorStatus
call (to_system_account_resolved x) s = mark_system_account_resolved x s
call (to_system_account_resolve_failed reason message) s =
    mark_system_account_resolve_failed reason message s
call (to_system_account_resolve_unknown reason message) s =
    mark_system_account_resolve_unknown reason message s
call (to_signing_keys_updated x) s = mark_signing_keys_updated x s
call (to_signing_keys_update_failed reason message) s =
    mark_signing_keys_update_failed reason message s
call (to_signing_keys_update_unknown reason message) s =
    mark_signing_keys_update_unknown reason message s
call to_jwt_secret_ready s = mark_jwt_secret_ready s
call (to_jwt_secret_failed reason message) s = mark_jwt_secret_failed reason message s
call (to_jwt_secret_unknown reason message) s = mark_jwt_secret_unknown reason message s
call (to_seed_secret_ready x) s = mark_seed_secret_ready x s
call (to_seed_secret_failed reason message) s = mark_seed_secret_failed reason message s
call (to_seed_secret_unknown reason message) s = mark_seed_secret_unknown reason message s
call to_initialize s = initialize_status s

-- The mark that a call makes.
abbrev pub mark_of : OperatorCall → Mark
mark_of (to_system_account_resolved _) = set_true system_account_resolved
mark_of (to_system_account_resolve_failed reason message) =
    set_false system_account_resolved reason message
mark_of (to_system_account_resolve_unknown reason message) =
    set_unknown system_account_resolved reason message
mark_of (to_signing_keys_updated x) =
    set_true_with_reason signing_keys_updated signing_keys_updated
      ("Found " ++ decimal (length x) ++ " signing keys")
mark_of (to_signing_keys_update_failed reason message) =
    set_false signing_keys_updated reason message
mark_of (to_signing_keys_update_unknown reason message) =
    set_unknown signing_keys_updated reason message
mark_of to_jwt_secret_ready = set_true jwt_secret_ready
mark_of (to_jwt_secret_failed reason message) = set_false jwt_secret_ready reason message
mark_of (to_jwt_secret_unknown reason message) = set_unknown jwt_secret_ready reason message
mark_of (to_seed_secret_ready _) = set_true operator_seed_secret_ready
mark_of (to_seed_secret_failed reason message) = set_false operator_seed_secret_ready reason message
mark_of (to_seed_secret_unknown reason message) =
    set_unknown operator_seed_secret_ready reason message
mark_of to_initialize = initialize

pub accessor-call :
    (c : OperatorCall) (s : OperatorStatus)
    → (call c s).accessor ≡ apply operator_condition_set (mark_of c) s.accessor
unfolding call mark_system_account_resolved mark_system_account_resolve_failed
    mark_system_account_resolve_unknown mark_signing_keys_updated mark_signing_keys_update_failed
    mark_signing_keys_update_unknown mark_jwt_secret_ready mark_jwt_secret_failed
    mark_jwt_secret_unknown mark_seed_secret_ready mark_seed_secret_failed mark_seed_secret_unknown
    initialize_status
accessor-call (to_system_account_resolved x) s = refl
accessor-call _ s = refl

pub mark_of-IsAside : (c : OperatorCall) → IsAside operator_condition_set.happy (mark_of c)
unfolding operator_condition_set
mark_of-IsAside (to_system_account_resolved x) = refl
mark_of-IsAside to_initialize = tt
mark_of-IsAside _ = refl

pub operator_set-IsProper : IsProper operator_condition_set
unfolding operator_condition_set new_living_condition_set
operator_set-IsProper = (new_condition_set-IsProper "Ready" operator_types).0

abbrev pub operator_lifecycle : Lifecycle OperatorStatus OperatorCall
operator_lifecycle = record {
  set = operator_condition_set;
  proper = operator_set-IsProper;
  accessor = λ s. s.accessor;
  call = call;
  mark_of = mark_of;
  accessor-call = accessor-call;
  aside = mark_of-IsAside;
}

key_pair-dependent : contains operator_condition_set.dependents operator_seed_secret_ready ≡ true
unfolding contains operator_condition_set
key_pair-dependent = refl

key_pair-raise :
    (c : OperatorCall) (s : OperatorStatus)
    → raises (mark_of c) operator_seed_secret_ready ≡ true
    → (call c s).key_pair ≢ none
unfolding call mark_system_account_resolved mark_system_account_resolve_failed
    mark_system_account_resolve_unknown mark_signing_keys_updated mark_signing_keys_update_failed
    mark_signing_keys_update_unknown mark_jwt_secret_ready mark_jwt_secret_failed
    mark_jwt_secret_unknown mark_seed_secret_ready mark_seed_secret_failed mark_seed_secret_unknown
    initialize_status
key_pair-raise (to_system_account_resolved x) s h = ground arith
key_pair-raise _ s h = ground arith

key_pair-keep :
    (c : OperatorCall) (s : OperatorStatus)
    → lowers (mark_of c) operator_seed_secret_ready ≡ false
    → s.key_pair ≢ none
    → (call c s).key_pair ≢ none
unfolding call mark_system_account_resolved mark_system_account_resolve_failed
    mark_system_account_resolve_unknown mark_signing_keys_updated mark_signing_keys_update_failed
    mark_signing_keys_update_unknown mark_jwt_secret_ready mark_jwt_secret_failed
    mark_jwt_secret_unknown mark_seed_secret_ready mark_seed_secret_failed mark_seed_secret_unknown
    initialize_status
key_pair-keep (to_system_account_resolved x) s h k = ground arith
key_pair-keep _ s h k = ground arith

abbrev key_pair-IsTracked :
    IsTracked operator_lifecycle operator_seed_secret_ready (λ s. s.key_pair ≢ none)
key_pair-IsTracked = record {
  dependent = key_pair-dependent;
  raise = key_pair-raise;
  keep = key_pair-keep;
}

system_account-dependent : contains operator_condition_set.dependents system_account_resolved ≡ true
unfolding contains operator_condition_set
system_account-dependent = refl

system_account-raise :
    (c : OperatorCall) (s : OperatorStatus)
    → raises (mark_of c) system_account_resolved ≡ true
    → (call c s).resolved_system_account ≢ none
unfolding call mark_system_account_resolved mark_system_account_resolve_failed
    mark_system_account_resolve_unknown mark_signing_keys_updated mark_signing_keys_update_failed
    mark_signing_keys_update_unknown mark_jwt_secret_ready mark_jwt_secret_failed
    mark_jwt_secret_unknown mark_seed_secret_ready mark_seed_secret_failed mark_seed_secret_unknown
    initialize_status
system_account-raise (to_system_account_resolved x) s h = ground arith
system_account-raise _ s h = ground arith

system_account-keep :
    (c : OperatorCall) (s : OperatorStatus)
    → lowers (mark_of c) system_account_resolved ≡ false
    → s.resolved_system_account ≢ none
    → (call c s).resolved_system_account ≢ none
unfolding call mark_system_account_resolved mark_system_account_resolve_failed
    mark_system_account_resolve_unknown mark_signing_keys_updated mark_signing_keys_update_failed
    mark_signing_keys_update_unknown mark_jwt_secret_ready mark_jwt_secret_failed
    mark_jwt_secret_unknown mark_seed_secret_ready mark_seed_secret_failed mark_seed_secret_unknown
    initialize_status
system_account-keep (to_system_account_resolved x) s h k = ground arith
system_account-keep _ s h k = ground arith

abbrev system_account-IsTracked :
    IsTracked operator_lifecycle system_account_resolved (λ s. s.resolved_system_account ≢ none)
system_account-IsTracked = record {
  dependent = system_account-dependent;
  raise = system_account-raise;
  keep = system_account-keep;
}

abbrev pub blank_operator : (ℕ → ℕ) → OperatorStatus
blank_operator clock = record {
  accessor = blank clock;
  key_pair = none;
  signing_keys = [];
  resolved_system_account = none;
}

-- After any sequence of calls of the methods of an OperatorStatus that starts from a status with
-- no conditions, an Operator that is ready has a key pair and a resolved system account.
pub operator_ready :
    (clock : ℕ → ℕ) (cs : List OperatorCall)
    → let s = run_calls operator_lifecycle cs (blank_operator clock) in
      is_ready s ≡ true → (s.key_pair ≢ none) × (s.resolved_system_account ≢ none)
unfolding is_ready
operator_ready clock cs h = (
  ready_has operator_lifecycle operator_seed_secret_ready (λ s. s.key_pair ≢ none)
      key_pair-IsTracked clock (blank_operator clock) refl cs h,
  ready_has operator_lifecycle system_account_resolved (λ s. s.resolved_system_account ≢ none)
      system_account-IsTracked clock (blank_operator clock) refl cs h,
)
