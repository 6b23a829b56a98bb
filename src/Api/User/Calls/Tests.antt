-- ===== src/Api/User/Calls/Tests.antt =====
-- A User that becomes ready, after a failed mark.
use nats_account_operator.Common.{◌≡◌, ◌≢◌, refl, true, none, List, [], ◌∷◌}
use nats_account_operator.Api.{InferredObjectReference, KeyPair}
use nats_account_operator.Conditions.{
  is_happy, mark_true, mark_true_with_reason, mark_false, initialize_conditions,
}
use nats_account_operator.Api.Lifecycle.{run_calls}
use nats_account_operator.Api.User.{
  is_ready, user_condition_set, mark_account_resolved, mark_account_resolve_failed,
  mark_account_resolve_unknown, mark_issuer_resolved, mark_issuer_resolve_failed,
  mark_issuer_resolve_unknown, mark_jwt_secret_ready, mark_jwt_secret_failed,
  mark_jwt_secret_unknown, mark_seed_secret_ready, mark_seed_secret_failed,
  mark_seed_secret_unknown, mark_credentials_secret_ready, mark_credentials_secret_failed,
  mark_credentials_secret_unknown, initialize_status,
}
use nats_account_operator.Api.User.Calls.{
  UserCall, call, to_seed_secret_failed, to_account_resolved, to_credentials_secret_ready,
  to_initialize, to_issuer_resolved, to_jwt_secret_ready, to_seed_secret_ready, user_lifecycle,
  blank_user, user_ready,
}

abbrev key : KeyPair
key = record { public_key = "UPUB"; seed_secret_name = "seed" }

abbrev ref : InferredObjectReference
ref = record { namespace = "nats"; name = "owner" }

abbrev calls : List UserCall
calls =
    to_initialize
    ∷ to_seed_secret_failed "NotFound" "no secret"
    ∷ to_account_resolved ref
    ∷ to_issuer_resolved
    ∷ to_jwt_secret_ready
    ∷ to_seed_secret_ready key
    ∷ to_credentials_secret_ready
    ∷ []

calls_ready : is_ready (run_calls user_lifecycle calls (blank_user (λ n. n))) ≡ true
unfolding is_ready call mark_account_resolved mark_account_resolve_failed
    mark_account_resolve_unknown mark_issuer_resolved mark_issuer_resolve_failed
    mark_issuer_resolve_unknown mark_jwt_secret_ready mark_jwt_secret_failed mark_jwt_secret_unknown
    mark_seed_secret_ready mark_seed_secret_failed mark_seed_secret_unknown
    mark_credentials_secret_ready mark_credentials_secret_failed mark_credentials_secret_unknown
    initialize_status is_happy mark_true mark_true_with_reason mark_false initialize_conditions
    user_condition_set
calls_ready = refl

user_ready_example :
    let s = run_calls user_lifecycle calls (blank_user (λ n. n)) in
    (s.key_pair ≢ none) × (s.account_ref ≢ none)
user_ready_example = user_ready (λ n. n) calls calls_ready
