-- ===== src/Api/SigningKey/Calls/Tests.antt =====
-- A SigningKey that becomes ready, after a failed mark.
use nats_account_operator.Common.{◌≡◌, ◌≢◌, refl, true, none, List, [], ◌∷◌}
use nats_account_operator.Api.{TypedObjectReference}
use nats_account_operator.Conditions.{
  is_happy, mark_true, mark_true_with_reason, mark_false, initialize_conditions,
}
use nats_account_operator.Api.Lifecycle.{run_calls}
use nats_account_operator.Api.SigningKey.{
  is_ready, signing_key_condition_set, mark_seed_secret_ready, mark_seed_secret_failed,
  mark_seed_secret_unknown, mark_owner_resolved, mark_owner_resolve_failed,
  mark_owner_resolve_unknown, initialize_status,
}
use nats_account_operator.Api.SigningKey.Calls.{
  SigningKeyCall, call, to_seed_secret_failed, to_initialize, to_owner_resolved,
  to_seed_secret_ready, signing_key_lifecycle, blank_signing_key, signing_key_ready,
}

abbrev owner : TypedObjectReference
owner = record {
  api_version = "accounts.nats.io/v1alpha1";
  kind = "Account";
  name = "owner";
  namespace = "nats";
  uid = "1";
}

abbrev calls : List SigningKeyCall
calls =
    to_initialize
    ∷ to_seed_secret_failed "NotFound" "no secret"
    ∷ to_seed_secret_ready "UPUB" "seed"
    ∷ to_owner_resolved owner
    ∷ []

calls_ready : is_ready (run_calls signing_key_lifecycle calls (blank_signing_key (λ n. n))) ≡ true
unfolding is_ready call mark_seed_secret_ready mark_seed_secret_failed mark_seed_secret_unknown
    mark_owner_resolved mark_owner_resolve_failed mark_owner_resolve_unknown initialize_status
    is_happy mark_true mark_true_with_reason mark_false initialize_conditions
    signing_key_condition_set
calls_ready = refl

signing_key_ready_example :
    let s = run_calls signing_key_lifecycle calls (blank_signing_key (λ n. n)) in
    (s.key_pair ≢ none) × (s.owner_ref ≢ none)
signing_key_ready_example = signing_key_ready (λ n. n) calls calls_ready
