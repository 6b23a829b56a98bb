-- ===== src/Api/Operator/Calls/Tests.antt =====
-- A Operator that becomes ready, after a failed mark.
use nats_account_operator.Common.{◌≡◌, ◌≢◌, refl, true, none, List, [], ◌∷◌}
use nats_account_operator.Api.{KeyPair, KeyPairReference}
use nats_account_operator.Conditions.{
  is_happy, mark_true, mark_true_with_reason, mark_false, initialize_conditions,
}
use nats_account_operator.Api.Lifecycle.{run_calls}
use nats_account_operator.Api.Operator.{
  is_ready, operator_condition_set, mark_system_account_resolved,
  mark_system_account_resolve_failed, mark_system_account_resolve_unknown,
  mark_signing_keys_updated, mark_signing_keys_update_failed, mark_signing_keys_update_unknown,
  mark_jwt_secret_ready, mark_jwt_secret_failed, mark_jwt_secret_unknown, mark_seed_secret_ready,
  mark_seed_secret_failed, mark_seed_secret_unknown, initialize_status,
}
use nats_account_operator.Api.Operator.Calls.{
  OperatorCall, call, to_seed_secret_failed, to_initialize, to_jwt_secret_ready,
  to_seed_secret_ready, to_signing_keys_updated, to_system_account_resolved, operator_lifecycle,
  blank_operator, operator_ready,
}

abbrev key : KeyPair
key = record { public_key = "UPUB"; seed_secret_name = "seed" }

abbrev account : KeyPairReference
account = record { reference = record { namespace = "nats"; name = "system" }; public_key = "ASYS" }

abbrev calls : List OperatorCall
calls =
    to_initialize
    ∷ to_seed_secret_failed "NotFound" "no secret"
    ∷ to_system_account_resolved account
    ∷ to_signing_keys_updated []
    ∷ to_jwt_secret_ready
    ∷ to_seed_secret_ready key
    ∷ []

calls_ready : is_ready (run_calls operator_lifecycle calls (blank_operator (λ n. n))) ≡ true
unfolding is_ready call mark_system_account_resolved mark_system_account_resolve_failed
    mark_system_account_resolve_unknown mark_signing_keys_updated mark_signing_keys_update_failed
    mark_signing_keys_update_unknown mark_jwt_secret_ready mark_jwt_secret_failed
    mark_jwt_secret_unknown mark_seed_secret_ready mark_seed_secret_failed mark_seed_secret_unknown
    initialize_status is_happy mark_true mark_true_with_reason mark_false initialize_conditions
    operator_condition_set
calls_ready = refl

operator_ready_example :
    let s = run_calls operator_lifecycle calls (blank_operator (λ n. n)) in
    (s.key_pair ≢ none) × (s.resolved_system_account ≢ none)
operator_ready_example = operator_ready (λ n. n) calls calls_ready
