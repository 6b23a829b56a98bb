-- ===== src/Api/Account/Calls/Tests.antt =====
-- A Account that becomes ready, after a failed mark.
use nats_account_operator.Common.{◌≡◌, ◌≢◌, refl, true, none, List, [], ◌∷◌}
use nats_account_operator.Api.{InferredObjectReference, KeyPair}
use nats_account_operator.Conditions.{
  is_happy, mark_true, mark_true_with_reason, mark_false, initialize_conditions,
}
use nats_account_operator.Api.Lifecycle.{run_calls}
use nats_account_operator.Api.Account.{
  is_ready, account_condition_set, mark_operator_resolved, mark_operator_resolve_failed,
  mark_operator_resolve_unknown, mark_issuer_resolved, mark_issuer_resolve_failed,
  mark_issuer_resolve_unknown, mark_signing_keys_updated, mark_signing_keys_update_failed,
  mark_signing_keys_update_unknown, mark_jwt_secret_ready, mark_jwt_secret_failed,
  mark_jwt_secret_unknown, mark_seed_secret_ready, mark_seed_secret_failed,
  mark_seed_secret_unknown, mark_jwt_pushed, mark_jwt_push_failed, mark_jwt_push_unknown,
  initialize_status,
}
use nats_account_operator.Api.Account.Calls.{
  AccountCall, call, to_seed_secret_failed, to_initialize, to_issuer_resolved, to_jwt_pushed,
  to_jwt_secret_ready, to_operator_resolved, to_seed_secret_ready, to_signing_keys_updated,
  account_lifecycle, blank_account, account_ready,
}

abbrev key : KeyPair
key = record { public_key = "UPUB"; seed_secret_name = "seed" }

abbrev ref : InferredObjectReference
ref = record { namespace = "nats"; name = "owner" }

abbrev calls : List AccountCall
calls =
    to_initialize
    ∷ to_seed_secret_failed "NotFound" "no secret"
    ∷ to_operator_resolved ref
    ∷ to_issuer_resolved
    ∷ to_signing_keys_updated []
    ∷ to_jwt_secret_ready
    ∷ to_seed_secret_ready key
    ∷ to_jwt_pushed
    ∷ []

calls_ready : is_ready (run_calls account_lifecycle calls (blank_account (λ n. n))) ≡ true
unfolding is_ready call mark_operator_resolved mark_operator_resolve_failed
    mark_operator_resolve_unknown mark_issuer_resolved mark_issuer_resolve_failed
    mark_issuer_resolve_unknown mark_signing_keys_updated mark_signing_keys_update_failed
    mark_signing_keys_update_unknown mark_jwt_secret_ready mark_jwt_secret_failed
    mark_jwt_secret_unknown mark_seed_secret_ready mark_seed_secret_failed mark_seed_secret_unknown
    mark_jwt_pushed mark_jwt_push_failed mark_jwt_push_unknown initialize_status is_happy mark_true
    mark_true_with_reason mark_false initialize_conditions account_condition_set
calls_ready = refl

account_ready_example :
    let s = run_calls account_lifecycle calls (blank_account (λ n. n)) in
    (s.key_pair ≢ none) × (s.operator_ref ≢ none)
account_ready_example = account_ready (λ n. n) calls calls_ready
