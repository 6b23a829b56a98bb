-- ===== src/Api/User/Calls.antt =====
-- Sequences of calls of the methods of `UserStatus`, and what a ready User has.
mod Tests
use nats_account_operator.Common.{
  String, ◌==◌, ◌≡◌, ◌≢◌, refl, ℕ, Bool, true, false, Option, none, some, List, [], ◌∷◌, arith,
  length, decimal,
}
use nats_account_operator.Conditions.{ConditionSet, new_living_condition_set, contains, is_happy}
use nats_account_operator.Conditions.Sets.{IsProper, new_condition_set-IsProper}
use nats_account_operator.Conditions.Runs.{
  Mark, set_true, set_true_with_reason, set_false, set_unknown, initialize, apply, IsAside, blank,
}
use nats_account_operator.Api.Links.{raises, lowers}
use nats_account_operator.Api.Lifecycle.{Lifecycle, run_calls, IsTracked, ready_has}
use nats_account_operator.Api.{InferredObjectReference, KeyPair, seed_secret_ready}
use nats_account_operator.Api.User.{
  UserStatus, user_condition_set, user_types, is_ready, account_resolved, credentials_secret_ready,
  issuer_resolved, jwt_secret_ready, mark_account_resolved, mark_account_resolve_failed,
  mark_account_resolve_unknown, mark_issuer_resolved, mark_issuer_resolve_failed,
  mark_issuer_resolve_unknown, mark_jwt_secret_ready, mark_jwt_secret_failed,
  mark_jwt_secret_unknown, mark_seed_secret_ready, mark_seed_secret_failed,
  mark_seed_secret_unknown, mark_credentials_secret_ready, mark_credentials_secret_failed,
  mark_credentials_secret_unknown, initialize_status,
}

pub data UserCall : Type 0 where
  to_account_resolved : InferredObjectReference → UserCall
  to_account_resolve_failed : String → String → UserCall
  to_account_resolve_unknown : String → String → UserCall
  to_issuer_resolved : UserCall
  to_issuer_resolve_failed : String → String → UserCall
  to_issuer_resolve_unknown : String → String → UserCall
  to_jwt_secret_ready : UserCall
  to_jwt_secret_failed : String → String → UserCall
  to_jwt_secret_unknown : String → String → UserCall
  to_seed_secret_ready : KeyPair → UserCall
  to_seed_secret_failed : String → String → UserCall
  to_seed_secret_unknown : String → String → UserCall
  to_credentials_secret_ready : UserCall
  to_credentials_secret_failed : String → String → UserCall
  to_credentials_secret_unknown : String → String → UserCall
  to_initialize : UserCall

unfoldable pub call : UserCall → UserStatus → UserStatus
call (to_account_resolved x) s = mark_account_resolved x s
call (to_account_resolve_failed reason message) s = mark_account_resolve_failed reason message s
call (to_account_resolve_unknown reason message) s = mark_account_resolve_unknown reason message s
call to_issuer_resolved s = mark_issuer_resolved s
call (to_issuer_resolve_failed reason message) s = mark_issuer_resolve_failed reason message s
call (to_issuer_resolve_unknown reason message) s = mark_issuer_resolve_unknown reason message s
call to_jwt_secret_ready s = mark_jwt_secret_ready s
call (to_jwt_secret_failed reason message) s = mark_jwt_secret_failed reason message s
call (to_jwt_secret_unknown reason message) s = mark_jwt_secret_unknown reason message s
call (to_seed_secret_ready x) s = mark_seed_secret_ready x s
call (to_seed_secret_failed reason message) s = mark_seed_secret_failed reason message s
call (to_seed_secret_unknown reason message) s = mark_seed_secret_unknown reason message s
call to_credentials_secret_ready s = mark_credentials_secret_ready s
call (to_credentials_secret_failed reason message) s =
    mark_credentials_secret_failed reason message s
call (to_credentials_secret_unknown reason message) s =
    mark_credentials_secret_unknown reason message s
call to_initialize s = initialize_status s

-- The mark that a call makes.
abbrev pub mark_of : UserCall → Mark
mark_of (to_account_resolved _) = set_true account_resolved
mark_of (to_account_resolve_failed reason message) = set_false account_resolved reason message
mark_of (to_account_resolve_unknown reason message) = set_unknown account_resolved reason message
mark_of to_issuer_resolved = set_true issuer_resolved
mark_of (to_issuer_resolve_failed reason message) = set_false issuer_resolved reason message
mark_of (to_issuer_resolve_unknown reason message) = set_unknown issuer_resolved reason message
mark_of to_jwt_secret_ready = set_true jwt_secret_ready
mark_of (to_jwt_secret_failed reason message) = set_false jwt_secret_ready reason message
mark_of (to_jwt_secret_unknown reason message) = set_unknown jwt_secret_ready reason message
mark_of (to_seed_secret_ready _) = set_true seed_secret_ready
mark_of (to_seed_secret_failed reason message) = set_false seed_secret_ready reason message
mark_of (to_seed_secret_unknown reason message) = set_unknown seed_secret_ready reason message
mark_of to_credentials_secret_ready = set_true credentials_secret_ready
mark_of (to_credentials_secret_failed reason message) =
    set_false credentials_secret_ready reason message
mark_of (to_credentials_secret_unknown reason message) =
    set_unknown credentials_secret_ready reason message
mark_of to_initialize = initialize

pub accessor-call :
    (c : UserCall) (s : UserStatus)
    → (call c s).accessor ≡ apply user_condition_set (mark_of c) s.accessor
unfolding call mark_account_resolved mark_account_resolve_failed mark_account_resolve_unknown
    mark_issuer_resolved mark_issuer_resolve_failed mark_issuer_resolve_unknown
    mark_jwt_secret_ready mark_jwt_secret_failed mark_jwt_secret_unknown mark_seed_secret_ready
    mark_seed_secret_failed mark_seed_secret_unknown mark_credentials_secret_ready
    mark_credentials_secret_failed mark_credentials_secret_unknown initialize_status
accessor-call (to_account_resolved x) s = refl
accessor-call _ s = refl

pub mark_of-IsAside : (c : UserCall) → IsAside user_condition_set.happy (mark_of c)
unfolding user_condition_set
mark_of-IsAside (to_account_resolved x) = refl
mark_of-IsAside to_initialize = tt
mark_of-IsAside _ = refl

pub user_set-IsProper : IsProper user_condition_set
unfolding user_condition_set new_living_condition_set
user_set-IsProper = (new_condition_set-IsProper "Ready" user_types).0

abbrev pub user_lifecycle : Lifecycle UserStatus UserCall
user_lifecycle = record {
  set = user_condition_set;
  proper = user_set-IsProper;
  accessor = λ s. s.accessor;
  call = call;
  mark_of = mark_of;
  accessor-call = accessor-call;
  aside = mark_of-IsAside;
}

key_pair-dependent : contains user_condition_set.dependents seed_secret_ready ≡ true
unfolding contains user_condition_set
key_pair-dependent = refl

key_pair-raise :
    (c : UserCall) (s : UserStatus)
    → raises (mark_of c) seed_secret_ready ≡ true
    → (call c s).key_pair ≢ none
unfolding call mark_account_resolved mark_account_resolve_failed mark_account_resolve_unknown
    mark_issuer_resolved mark_issuer_resolve_failed mark_issuer_resolve_unknown
    mark_jwt_secret_ready mark_jwt_secret_failed mark_jwt_secret_unknown mark_seed_secret_ready
    mark_seed_secret_failed mark_seed_secret_unknown mark_credentials_secret_ready
    mark_credentials_secret_failed mark_credentials_secret_unknown initialize_status
key_pair-raise (to_account_resolved x) s h = ground arith
key_pair-raise _ s h = ground arith

key_pair-keep :
    (c : UserCall) (s : UserStatus)
    → lowers (mark_of c) seed_secret_ready ≡ false
    → s.key_pair ≢ none
    → (call c s).key_pair ≢ none
unfolding call mark_account_resolved mark_account_resolve_failed mark_account_resolve_unknown
    mark_issuer_resolved mark_issuer_resolve_failed mark_issuer_resolve_unknown
    mark_jwt_secret_ready mark_jwt_secret_failed mark_jwt_secret_unknown mark_seed_secret_ready
    mark_seed_secret_failed mark_seed_secret_unknown mark_credentials_secret_ready
    mark_credentials_secret_failed mark_credentials_secret_unknown initialize_status
key_pair-keep (to_account_resolved x) s h k = ground arith
key_pair-keep _ s h k = ground arith

abbrev key_pair-IsTracked : IsTracked user_lifecycle seed_secret_ready (λ s. s.key_pair ≢ none)
key_pair-IsTracked = record {
  dependent = key_pair-dependent;
  raise = key_pair-raise;
  keep = key_pair-keep;
}

account_ref-dependent : contains user_condition_set.dependents account_resolved ≡ true
unfolding contains user_condition_set
account_ref-dependent = refl

account_ref-raise :
    (c : UserCall) (s : UserStatus)
    → raises (mark_of c) account_resolved ≡ true
    → (call c s).account_ref ≢ none
unfolding call mark_account_resolved mark_account_resolve_failed mark_account_resolve_unknown
    mark_issuer_resolved mark_issuer_resolve_failed mark_issuer_resolve_unknown
    mark_jwt_secret_ready mark_jwt_secret_failed mark_jwt_secret_unknown mark_seed_secret_ready
    mark_seed_secret_failed mark_seed_secret_unknown mark_credentials_secret_ready
    mark_credentials_secret_failed mark_credentials_secret_unknown initialize_status
account_ref-raise (to_account_resolved x) s h = ground arith
account_ref-raise _ s h = ground arith

account_ref-keep :
    (c : UserCall) (s : UserStatus)
    → lowers (mark_of c) account_resolved ≡ false
    → s.account_ref ≢ none
    → (call c s).account_ref ≢ none
unfolding call mark_account_resolved mark_account_resolve_failed mark_account_resolve_unknown
    mark_issuer_resolved mark_issuer_resolve_failed mark_issuer_resolve_unknown
    mark_jwt_secret_ready mark_jwt_secret_failed mark_jwt_secret_unknown mark_seed_secret_ready
    mark_seed_secret_failed mark_seed_secret_unknown mark_credentials_secret_ready
    mark_credentials_secret_failed mark_credentials_secret_unknown initialize_status
account_ref-keep (to_account_resolved x) s h k = ground arith
account_ref-keep _ s h k = ground arith

abbrev account_ref-IsTracked : IsTracked user_lifecycle account_resolved (λ s. s.account_ref ≢ none)
account_ref-IsTracked = record {
  dependent = account_ref-dependent;
  raise = account_ref-raise;
  keep = account_ref-keep;
}

abbrev pub blank_user : (ℕ → ℕ) → UserStatus
blank_user clock = record { accessor = blank clock; key_pair = none; account_ref = none }

-- After any sequence of calls of the methods of a UserStatus that starts from a status with no
-- conditions, a User that is ready has a key pair and a resolved account reference.
pub user_ready :
    (clock : ℕ → ℕ) (cs : List UserCall)
    → let s = run_calls user_lifecycle cs (blank_user clock) in
      is_ready s ≡ true → (s.key_pair ≢ none) × (s.account_ref ≢ none)
unfolding is_ready
user_ready clock cs h = (
  ready_has user_lifecycle seed_secret_ready (λ s. s.key_pair ≢ none) key_pair-IsTracked clock
      (blank_user clock) refl cs h,
  ready_has user_lifecycle account_resolved (λ s. s.account_ref ≢ none) account_ref-IsTracked clock
      (blank_user clock) refl cs h,
)
