-- ===== src/Api/SigningKey/Calls.antt =====
-- Sequences of calls of the methods of `SigningKeyStatus`, and what a ready SigningKey has.
mod Tests
use nats_account_operator.Common.{
  String, ◌==◌, ◌≡◌, ◌≢◌, refl, ℕ, Bool, true, false, Option, none, some, List, [], ◌∷◌, arith,
  length, decimal,
}
use nats_account_operator.Conditions.{ConditionSet, new_living_condition_set, contains, is_happy}
use nats_account_operator.Conditions.Sets.{IsProper, new_condition_set-IsProper}
use nats_account_operator.Conditions.Runs.{
  Mark, set_true, set_true_with_reason, set_false, set_unknown, initialize, apply, IsAside, blank,
}
use nats_account_operator.Api.Links.{raises, lowers}
use nats_account_operator.Api.Lifecycle.{Lifecycle, run_calls, IsTracked, ready_has}
use nats_account_operator.Api.{TypedObjectReference, seed_secret_ready}
use nats_account_operator.Api.SigningKey.{
  SigningKeyStatus, signing_key_condition_set, signing_key_types, is_ready, owner_resolved,
  mark_seed_secret_ready, mark_seed_secret_failed, mark_seed_secret_unknown, mark_owner_resolved,
  mark_owner_resolve_failed, mark_owner_resolve_unknown, initialize_status,
}

pub data SigningKeyCall : Type 0 where
  to_seed_secret_ready : String → String → SigningKeyCall
  to_seed_secret_failed : String → String → SigningKeyCall
  to_seed_secret_unknown : String → String → SigningKeyCall
  to_owner_resolved : TypedObjectReference → SigningKeyCall
  to_owner_resolve_failed : String → String → SigningKeyCall
  to_owner_resolve_unknown : String → String → SigningKeyCall
  to_initialize : SigningKeyCall

unfoldable pub call : SigningKeyCall → SigningKeyStatus → SigningKeyStatus
call (to_seed_secret_ready public_key seed_secret_name) s =
    mark_seed_secret_ready public_key seed_secret_name s
call (to_seed_secret_failed reason message) s = mark_seed_secret_failed reason message s
call (to_seed_secret_unknown reason message) s = mark_seed_secret_unknown reason message s
call (to_owner_resolved x) s = mark_owner_resolved x s
call (to_owner_resolve_failed reason message) s = mark_owner_resolve_failed reason message s
call (to_owner_resolve_unknown reason message) s = mark_owner_resolve_unknown reason message s
call to_initialize s = initialize_status s

-- The mark that a call makes.
abbrev pub mark_of : SigningKeyCall → Mark
mark_of (to_seed_secret_ready _ _) = set_true seed_secret_ready
mark_of (to_seed_secret_failed reason message) = set_false seed_secret_ready reason message
mark_of (to_seed_secret_unknown reason message) = set_unknown seed_secret_ready reason message
mark_of (to_owner_resolved _) = set_true owner_resolved
mark_of (to_owner_resolve_failed reason message) = set_false owner_resolved reason message
mark_of (to_owner_resolve_unknown reason message) = set_unknown owner_resolved reason message
mark_of to_initialize = initialize

pub accessor-call :
    (c : SigningKeyCall) (s : SigningKeyStatus)
    → (call c s).accessor ≡ apply signing_key_condition_set (mark_of c) s.accessor
unfolding call mark_seed_secret_ready mark_seed_secret_failed mark_seed_secret_unknown
    mark_owner_resolved mark_owner_resolve_failed mark_owner_resolve_unknown initialize_status
accessor-call (to_seed_secret_ready public_key seed_secret_name) s = refl
accessor-call _ s = refl

pub mark_of-IsAside : (c : SigningKeyCall) → IsAside signing_key_condition_set.happy (mark_of c)
unfolding signing_key_condition_set
mark_of-IsAside (to_seed_secret_ready public_key seed_secret_name) = refl
mark_of-IsAside to_initialize = tt
mark_of-IsAside _ = refl

pub signing_key_set-IsProper : IsProper signing_key_condition_set
unfolding signing_key_condition_set new_living_condition_set
signing_key_set-IsProper = (new_condition_set-IsProper "Ready" signing_key_types).0

abbrev pub signing_key_lifecycle : Lifecycle SigningKeyStatus SigningKeyCall
signing_key_lifecycle = record {
  set = signing_key_condition_set;
  proper = signing_key_set-IsProper;
  accessor = λ s. s.accessor;
  call = call;
  mark_of = mark_of;
  accessor-call = accessor-call;
  aside = mark_of-IsAside;
}

key_pair-dependent : contains signing_key_condition_set.dependents seed_secret_ready ≡ true
unfolding contains signing_key_condition_set
key_pair-dependent = refl

key_pair-raise :
    (c : SigningKeyCall) (s : SigningKeyStatus)
    → raises (mark_of c) seed_secret_ready ≡ true
    → (call c s).key_pair ≢ none
unfolding call mark_seed_secret_ready mark_seed_secret_failed mark_seed_secret_unknown
    mark_owner_resolved mark_owner_resolve_failed mark_owner_resolve_unknown initialize_status
key_pair-raise (to_seed_secret_ready public_key seed_secret_name) s h = ground arith
key_pair-raise _ s h = ground arith

key_pair-keep :
    (c : SigningKeyCall) (s : SigningKeyStatus)
    → lowers (mark_of c) seed_secret_ready ≡ false
    → s.key_pair ≢ none
    → (call c s).key_pair ≢ none
unfolding call mark_seed_secret_ready mark_seed_secret_failed mark_seed_secret_unknown
    mark_owner_resolved mark_owner_resolve_failed mark_owner_resolve_unknown initialize_status
key_pair-keep (to_seed_secret_ready public_key seed_secret_name) s h k = ground arith
key_pair-keep _ s h k = ground arith

abbrev key_pair-IsTracked :
    IsTracked signing_key_lifecycle seed_secret_ready (λ s. s.key_pair ≢ none)
key_pair-IsTracked = record {
  dependent = key_pair-dependent;
  raise = key_pair-raise;
  keep = key_pair-keep;
}

owner_ref-dependent : contains signing_key_condition_set.dependents owner_resolved ≡ true
unfolding contains signing_key_condition_set
owner_ref-dependent = refl

owner_ref-raise :
    (c : SigningKeyCall) (s : SigningKeyStatus)
    → raises (mark_of c) owner_resolved ≡ true
    → (call c s).owner_ref ≢ none
unfolding call mark_seed_secret_ready mark_seed_secret_failed mark_seed_secret_unknown
    mark_owner_resolved mark_owner_resolve_failed mark_owner_resolve_unknown initialize_status
owner_ref-raise (to_seed_secret_ready public_key seed_secret_name) s h = ground arith
owner_ref-raise _ s h = ground arith

owner_ref-keep :
    (c : SigningKeyCall) (s : SigningKeyStatus)
    → lowers (mark_of c) owner_resolved ≡ false
    → s.owner_ref ≢ none
    → (call c s).owner_ref ≢ none
unfolding call mark_seed_secret_ready mark_seed_secret_failed mark_seed_secret_unknown
    mark_owner_resolved mark_owner_resolve_failed mark_owner_resolve_unknown initialize_status
owner_ref-keep (to_seed_secret_ready public_key seed_secret_name) s h k = ground arith
owner_ref-keep _ s h k = ground arith

abbrev owner_ref-IsTracked :
    IsTracked signing_key_lifecycle owner_resolved (λ s. s.owner_ref ≢ none)
owner_ref-IsTracked = record {
  dependent = owner_ref-dependent;
  raise = owner_ref-raise;
  keep = owner_ref-keep;
}

abbrev pub blank_signing_key : (ℕ → ℕ) → SigningKeyStatus
blank_signing_key clock = record { accessor = blank clock; key_pair = none; owner_ref = none }

-- After any sequence of calls of the methods of a SigningKeyStatus that starts from a status with
-- no conditions, a SigningKey that is ready has a key pair and a resolved owner reference.
pub signing_key_ready :
    (clock : ℕ → ℕ) (cs : List SigningKeyCall)
    → let s = run_calls signing_key_lifecycle cs (blank_signing_key clock) in
      is_ready s ≡ true → (s.key_pair ≢ none) × (s.owner_ref ≢ none)
unfolding is_ready
signing_key_ready clock cs h = (
  ready_has signing_key_lifecycle seed_secret_ready (λ s. s.key_pair ≢ none) key_pair-IsTracked
      clock (blank_signing_key clock) refl cs h,
  ready_has signing_key_lifecycle owner_resolved (λ s. s.owner_ref ≢ none) owner_ref-IsTracked clock
      (blank_signing_key clock) refl cs h,
)
