-- ===== src/Api/Account/Calls.antt =====
-- Sequences of calls of the methods of `AccountStatus`, and what a ready Account has.
mod Tests
use Prim.Native.String.{◌++◌}
use nats_account_operator.Common.{
  String, ◌==◌, ◌≡◌, ◌≢◌, refl, ℕ, Bool, true, false, Option, none, some, List, [], ◌∷◌, arith,
  length, decimal,
}
use nats_account_operator.Conditions.{ConditionSet, new_living_condition_set, contains, is_happy}
use nats_account_operator.Conditions.Sets.{IsProper, new_condition_set-IsProper}
use nats_account_operator.Conditions.Runs.{
  Mark, set_true, set_true_with_reason, set_false, set_unknown, initialize, apply, IsAside, blank,
}
use nats_account_operator.Api.Links.{raises, lowers}
use nats_account_operator.Api.Lifecycle.{Lifecycle, run_calls, IsTracked, ready_has}
use nats_account_operator.Api.{
  InferredObjectReference, KeyPair, SigningKeyEmbeddedStatus, seed_secret_ready,
}
use nats_account_operator.Api.Account.{
  AccountStatus, account_condition_set, account_types, is_ready, issuer_resolved, jwt_pushed,
  jwt_secret_ready, operator_resolved, signing_keys_updated, mark_operator_resolved,
  mark_operator_resolve_failed, mark_operator_resolve_unknown, mark_issuer_resolved,
  mark_issuer_resolve_failed, mark_issuer_resolve_unknown, mark_signing_keys_updated,
  mark_signing_keys_update_failed, mark_signing_keys_update_unknown, mark_jwt_secret_ready,
  mark_jwt_secret_failed, mark_jwt_secret_unknown, mark_seed_secret_ready, mark_seed_secret_failed,
  mark_seed_secret_unknown, mark_jwt_pushed, mark_jwt_push_failed, mark_jwt_push_unknown,
  initialize_status,
}

pub data AccountCall : Type 0 where
  to_operator_resolved : InferredObjectReference → AccountCall
  to_operator_resolve_failed : String → String → AccountCall
  to_operator_resolve_unknown : String → String → AccountCall
  to_issuer_resolved : AccountCall
  to_issuer_resolve_failed : String → String → AccountCall
  to_issuer_resolve_unknown : String → String → AccountCall
  to_signing_keys_updated : List SigningKeyEmbeddedStatus → AccountCall
  to_signing_keys_update_failed : String → String → AccountCall
  to_signing_keys_update_unknown : String → String → AccountCall
  to_jwt_secret_ready : AccountCall
  to_jwt_secret_failed : String → String → AccountCall
  to_jwt_secret_unknown : String → String → AccountCall
  to_seed_secret_ready : KeyPair → AccountCall
  to_seed_secret_failed : String → String → AccountCall
  to_seed_secret_unknown : String → String → AccountCall
  to_jwt_pushed : AccountCall
  to_jwt_push_failed : String → String → AccountCall
  to_jwt_push_unknown : String → String → AccountCall
  to_initialize : AccountCall

pub call : AccountCall → AccountStatus → AccountStatus
call (to_operator_resolved x) s = mark_operator_resolved x s
call (to_operator_resolve_failed reason message) s = mark_operator_resolve_failed reason message s
call (to_operator_resolve_unknown reason message) s = mark_operator_resolve_unknown reason message s
call to_issuer_resolved s = mark_issuer_resolved s
call (to_issuer_resolve_failed reason message) s = mark_issuer_resolve_failed reason message s
call (to_issuer_resolve_unknown reason message) s = mark_issuer_resolve_unknown reason message s
call (to_signing_keys_updated x) s = mark_signing_keys_updated x s
call (to_signing_keys_update_failed reason message) s =
    mark_signing_keys_update_failed reason message s
call (to_signing_keys_update_unknown reason message) s =
    mark_signing_keys_update_unknown reason message s
call to_jwt_secret_ready s = mark_jwt_secret_ready s
call (to_jwt_secret_failed reason message) s = mark_jwt_secret_failed reason message s
call (to_jwt_secret_unknown reason message) s = mark_jwt_secret_unknown reason message s
call (to_seed_secret_ready x) s = mark_seed_secret_ready x s
call (to_seed_secret_failed reason message) s = mark_seed_secret_failed reason message s
call (to_seed_secret_unknown reason message) s = mark_seed_secret_unknown reason message s
call to_jwt_pushed s = mark_jwt_pushed s
call (to_jwt_push_failed reason message) s = mark_jwt_push_failed reason message s
call (to_jwt_push_unknown reason message) s = mark_jwt_push_unknown reason message s
call to_initialize s = initialize_status s

-- The mark that a call makes.
abbrev pub mark_of : AccountCall → Mark
mark_of (to_operator_resolved _) = set_true operator_resolved
mark_of (to_operator_resolve_failed reason message) = set_false operator_resolved reason message
mark_of (to_operator_resolve_unknown reason message) = set_unknown operator_resolved reason message
mark_of to_issuer_resolved = set_true issuer_resolved
mark_of (to_issuer_resolve_failed reason message) = set_false issuer_resolved reason message
mark_of (to_issuer_resolve_unknown reason message) = set_unknown issuer_resolved reason message
mark_of (to_signing_keys_updated x) =
    set_true_with_reason signing_keys_updated "Signing keys updated"
      ("Found " ++ decimal (length x) ++ " signing keys")
mark_of (to_signing_keys_update_failed reason message) =
    set_false signing_keys_updated reason message
mark_of (to_signing_keys_update_unknown reason message) =
    set_unknown signing_keys_updated reason message
mark_of to_jwt_secret_ready = set_true jwt_secret_ready
mark_of (to_jwt_secret_failed reason message) = set_false jwt_secret_ready reason message
mark_of (to_jwt_secret_unknown reason message) = set_unknown jwt_secret_ready reason message
mark_of (to_seed_secret_ready _) = set_true seed_secret_ready
mark_of (to_seed_secret_failed reason message) = set_false seed_secret_ready reason message
mark_of (to_seed_secret_unknown reason message) = set_unknown seed_secret_ready reason message
mark_of to_jwt_pushed = set_true jwt_pushed
mark_of (to_jwt_push_failed reason message) = set_false jwt_pushed reason message
mark_of (to_jwt_push_unknown reason message) = set_unknown jwt_pushed reason message
mark_of to_initialize = initialize

pub accessor-call :
    (c : AccountCall) (s : AccountStatus)
    → (call c s).accessor ≡ apply account_condition_set (mark_of c) s.accessor
unfolding call mark_operator_resolved mark_operator_resolve_failed mark_operator_resolve_unknown
    mark_issuer_resolved mark_issuer_resolve_failed mark_issuer_resolve_unknown
    mark_signing_keys_updated mark_signing_keys_update_failed mark_signing_keys_update_unknown
    mark_jwt_secret_ready mark_jwt_secret_failed mark_jwt_secret_unknown mark_seed_secret_ready
    mark_seed_secret_failed mark_seed_secret_unknown mark_jwt_pushed mark_jwt_push_failed
    mark_jwt_push_unknown initialize_status
accessor-call (to_operator_resolved x) s = refl
accessor-call _ s = refl

pub mark_of-IsAside : (c : AccountCall) → IsAside account_condition_set.happy (mark_of c)
unfolding account_condition_set
mark_of-IsAside (to_operator_resolved x) = refl
mark_of-IsAside to_initialize = tt
mark_of-IsAside _ = refl

pub account_set-IsProper : IsProper account_condition_set
unfolding account_condition_set new_living_condition_set
account_set-IsProper = (new_condition_set-IsProper "Ready" account_types).0

abbrev pub account_lifecycle : Lifecycle AccountStatus AccountCall
account_lifecycle = record {
  set = account_condition_set;
  proper = account_set-IsProper;
  accessor = λ s. s.accessor;
  call = call;
  mark_of = mark_of;
  accessor-call = accessor-call;
  aside = mark_of-IsAside;
}

key_pair-dependent : contains account_condition_set.dependents seed_secret_ready ≡ true
unfolding contains account_condition_set
key_pair-dependent = refl

key_pair-raise :
    (c : AccountCall) (s : AccountStatus)
    → raises (mark_of c) seed_secret_ready ≡ true
    → (call c s).key_pair ≢ none
unfolding call mark_operator_resolved mark_operator_resolve_failed mark_operator_resolve_unknown
    mark_issuer_resolved mark_issuer_resolve_failed mark_issuer_resolve_unknown
    mark_signing_keys_updated mark_signing_keys_update_failed mark_signing_keys_update_unknown
    mark_jwt_secret_ready mark_jwt_secret_failed mark_jwt_secret_unknown mark_seed_secret_ready
    mark_seed_secret_failed mark_seed_secret_unknown mark_jwt_pushed mark_jwt_push_failed
    mark_jwt_push_unknown initialize_status
key_pair-raise (to_operator_resolved x) s h = ground arith
key_pair-raise _ s h = ground arith

key_pair-keep :
    (c : AccountCall) (s : AccountStatus)
    → lowers (mark_of c) seed_secret_ready ≡ false
    → s.key_pair ≢ none
    → (call c s).key_pair ≢ none
unfolding call mark_operator_resolved mark_operator_resolve_failed mark_operator_resolve_unknown
    mark_issuer_resolved mark_issuer_resolve_failed mark_issuer_resolve_unknown
    mark_signing_keys_updated mark_signing_keys_update_failed mark_signing_keys_update_unknown
    mark_jwt_secret_ready mark_jwt_secret_failed mark_jwt_secret_unknown mark_seed_secret_ready
    mark_seed_secret_failed mark_seed_secret_unknown mark_jwt_pushed mark_jwt_push_failed
    mark_jwt_push_unknown initialize_status
key_pair-keep (to_operator_resolved x) s h k = ground arith
key_pair-keep _ s h k = ground arith

abbrev key_pair-IsTracked : IsTracked account_lifecycle seed_secret_ready (λ s. s.key_pair ≢ none)
key_pair-IsTracked = record {
  dependent = key_pair-dependent;
  raise = key_pair-raise;
  keep = key_pair-keep;
}

operator_ref-dependent : contains account_condition_set.dependents operator_resolved ≡ true
unfolding contains account_condition_set
operator_ref-dependent = refl

operator_ref-raise :
    (c : AccountCall) (s : AccountStatus)
    → raises (mark_of c) operator_resolved ≡ true
    → (call c s).operator_ref ≢ none
unfolding call mark_operator_resolved mark_operator_resolve_failed mark_operator_resolve_unknown
    mark_issuer_resolved mark_issuer_resolve_failed mark_issuer_resolve_unknown
    mark_signing_keys_updated mark_signing_keys_update_failed mark_signing_keys_update_unknown
    mark_jwt_secret_ready mark_jwt_secret_failed mark_jwt_secret_unknown mark_seed_secret_ready
    mark_seed_secret_failed mark_seed_secret_unknown mark_jwt_pushed mark_jwt_push_failed
    mark_jwt_push_unknown initialize_status
operator_ref-raise (to_operator_resolved x) s h = ground arith
operator_ref-raise _ s h = ground arith

operator_ref-keep :
    (c : AccountCall) (s : AccountStatus)
    → lowers (mark_of c) operator_resolved ≡ false
    → s.operator_ref ≢ none
    → (call c s).operator_ref ≢ none
unfolding call mark_operator_resolved mark_operator_resolve_failed mark_operator_resolve_unknown
    mark_issuer_resolved mark_issuer_resolve_failed mark_issuer_resolve_unknown
    mark_signing_keys_updated mark_signing_keys_update_failed mark_signing_keys_update_unknown
    mark_jwt_secret_ready mark_jwt_secret_failed mark_jwt_secret_unknown mark_seed_secret_ready
    mark_seed_secret_failed mark_seed_secret_unknown mark_jwt_pushed mark_jwt_push_failed
    mark_jwt_push_unknown initialize_status
operator_ref-keep (to_operator_resolved x) s h k = ground arith
operator_ref-keep _ s h k = ground arith

abbrev operator_ref-IsTracked :
    IsTracked account_lifecycle operator_resolved (λ s. s.operator_ref ≢ none)
operator_ref-IsTracked = record {
  dependent = operator_ref-dependent;
  raise = operator_ref-raise;
  keep = operator_ref-keep;
}

abbrev pub blank_account : (ℕ → ℕ) → AccountStatus
blank_account clock = record {
  accessor = blank clock;
  key_pair = none;
  signing_keys = [];
  operator_ref = none;
}

-- After any sequence of calls of the methods of an AccountStatus that starts from a status with
-- no conditions, an Account that is ready has a key pair and a resolved operator reference.
pub account_ready :
    (clock : ℕ → ℕ) (cs : List AccountCall)
    → let s = run_calls account_lifecycle cs (blank_account clock) in
      is_ready s ≡ true → (s.key_pair ≢ none) × (s.operator_ref ≢ none)
unfolding is_ready
account_ready clock cs h = (
  ready_has account_lifecycle seed_secret_ready (λ s. s.key_pair ≢ none) key_pair-IsTracked clock
      (blank_account clock) refl cs h,
  ready_has account_lifecycle operator_resolved (λ s. s.operator_ref ≢ none) operator_ref-IsTracked
      clock (blank_account clock) refl cs h,
)
