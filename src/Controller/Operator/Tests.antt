-- ===== src/Controller/Operator/Tests.antt =====
-- An Operator that was ready, in a cluster without faults.
use nats_account_operator.Common.{
  String, ◌⊎◌, ℕ, ◌≡◌, ◌≢◌, refl, sym, ◌∙◌, true, false, none, some, List, [], ◌∷◌, arith,
}
use nats_account_operator.Errors.{plain}
use nats_account_operator.Conditions.{
  is_happy, mark_true, mark_true_with_reason, initialize_conditions,
}
use nats_account_operator.Api.Operator.{
  is_ready, initialize_status, operator_condition_set, mark_system_account_resolved,
  mark_signing_keys_updated, mark_jwt_secret_ready, mark_seed_secret_ready,
}
use nats_account_operator.Api.Operator.Calls.{
  OperatorCall, call, to_system_account_resolved, to_signing_keys_updated, to_jwt_secret_ready,
  to_seed_secret_ready, operator_lifecycle, blank_operator,
}
use nats_account_operator.Api.{TypedObjectReference, SigningKeyEmbeddedStatus}
use nats_account_operator.Controller.Resolve.{key_pairable}
use nats_account_operator.Controller.Objects.{signing_key}
use nats_account_operator.Controller.Operator.Watches.{
  is_operator_kind, owner_request, signing_key_requests, signing_key_requests_lem,
}
use nats_account_operator.Api.SigningKey.{
  SigningKey, is_ready as key_ready, mark_seed_secret_ready as mark_key_ready, mark_owner_resolved,
  signing_key_condition_set,
}
use nats_account_operator.Api.SigningKey.Calls.{
  call as key_call, SigningKeyCall, to_seed_secret_ready as key_seed_ready, to_owner_resolved,
  signing_key_lifecycle, blank_signing_key,
}
use nats_account_operator.Api.Lifecycle.{run_calls}
use nats_account_operator.Exec.{pure, raise, modify, expect, on_error, ◌>>=◌}
use nats_account_operator.Cluster.{
  Store, write, fetch, get_secret, put, create_at, create_secret, change,
}
use nats_account_operator.Cluster.Writes.{IsKeyed, write-IsKeyed}
use nats_account_operator.Resources.{
  apply_options, immutable, with_deletion_prevention, set_label, named, name_seed, filled, own,
  build_key_pair_secret,
}
use nats_account_operator.Resources.Built.{controlled_elsewhere}
use nats_account_operator.Controller.{
  ok, failed, ◌and_then◌, wrap_failure, found, Secret, set_field, without,
}
use nats_account_operator.Controller.SigningKey.{updated}
use nats_account_operator.Controller.SigningKey.Reconcile.{is_zero}
use nats_account_operator.Controller.Base.{
  create_seed_secret, seed_from, reconcile_seed_secret, is_owned,
}
use nats_account_operator.Controller.Base.Kept.{IsForeign}
use nats_account_operator.Controller.Base.Tests.{lib, lib-SetsController, faults}
use nats_account_operator.Controller.Operator.{Operator, Env, client_operator, mark, owned_keys}
use nats_account_operator.Controller.Operator.Keys.{key_of, keys_of, owned_keys_lem}
use nats_account_operator.Controller.Operator.Reconcile.{reconcile_body, after_seed, start}
use nats_account_operator.Controller.Operator.Reconcile.Safe.{
  reconcile_operator-secrets, reconcile_operator_ready,
}

abbrev calls : List OperatorCall
calls =
    to_system_account_resolved
      (record { reference = record { namespace = "nats"; name = "system" }; public_key = "ASYS" })
    ∷ to_signing_keys_updated []
    ∷ to_jwt_secret_ready
    ∷ to_seed_secret_ready (record { public_key = "OPUB"; seed_secret_name = "main-seed" })
    ∷ []

-- The Operator's seed secret is gone.
abbrev main : Operator
main = record {
  meta = record { name = "main"; namespace = "nats"; uid = "3"; labels = [] };
  spec = record {
    jwt_secret_name = "main-jwt";
    seed_secret_name = "main-seed";
    system_account_ref = "system";
    claims = record { account_server_url = ""; operator_service_urls = [] };
  };
  status = run_calls operator_lifecycle calls (blank_operator (λ n. n));
}

abbrev env : Env ℕ String String
env = record {
  lib = lib;
  create_operator = ok "SO";
  faults = faults;
  get_operator = found main;
  get_account = λ ns n. failed (plain "no account");
  list_signing_keys = λ ns. found none;
  now = 0;
  new_operator_claims = λ s. record {
    subject = s;
    name = "";
    issued_at = 0;
    signing_keys = [];
    account_server_url = "";
    operator_service_urls = [];
    system_account = "";
    type = "";
  };
  operator_claim = "operator";
  encode = λ c k. ok c.subject;
  as_claims = λ c. c.subject;
  same_status = λ s t. false;
  update_status = λ o. updated;
  append_error = λ a b. b;
  quote = λ s. s;
}

-- The Secret of another controller that stands where the Operator's seed would.
abbrev taken : Secret
taken = record {
  name = "main-seed";
  namespace = "nats";
  immutable = false;
  owner_references = (record { kind = "Database"; name = "db"; uid = "9"; controller = true }) ∷ [];
  finalizers = [];
  labels = [];
  data_fields = ("seed.nk", "SO") ∷ [];
}

abbrev with_taken : Store
with_taken = write "nats" "main-seed" (some taken) (λ ns n. none)

taken-IsForeign : IsForeign (client_operator main) taken
unfolding controlled_elsewhere is_owned
taken-IsForeign = (refl, refl)

taken_there : with_taken "nats" "main-seed" ≡ some taken
unfolding write
taken_there = refl

none-IsKeyed : IsKeyed (λ ns n. none)
none-IsKeyed ns n s h = ground arith

with_taken-IsKeyed : IsKeyed with_taken
with_taken-IsKeyed =
    write-IsKeyed (λ ns n. none) "nats" "main-seed" (some taken) (refl, refl) none-IsKeyed

reconcile_operator-secrets_example :
    (reconcile_body env main (start env with_taken main)).1.secrets "nats" "main-seed" ≡ some taken
reconcile_operator-secrets_example =
    reconcile_operator-secrets env lib-SetsController main with_taken with_taken-IsKeyed "nats"
      "main-seed" taken taken-IsForeign taken_there

still_ready :
    is_ready (reconcile_body env main (start env (λ ns n. none) main)).1.object.status ≡ true
unfolding reconcile_body after_seed start mark change modify is_zero reconcile_seed_secret seed_from
    create_seed_secret get_secret fetch create_secret create_at put build_key_pair_secret
    apply_options immutable with_deletion_prevention own named name_seed set_label filled set_field
    without ◌and_then◌ wrap_failure controlled_elsewhere expect on_error pure raise ◌>>=◌ is_ready
    initialize_status mark_seed_secret_ready mark_system_account_resolved mark_signing_keys_updated
    mark_jwt_secret_ready call is_happy mark_true mark_true_with_reason initialize_conditions
    operator_condition_set
still_ready = refl

reconcile_operator_ready_example :
    let status = (reconcile_body env main (start env (λ ns n. none) main)).1.object.status in
    (status.key_pair ≢ none) × (status.resolved_system_account ≢ none)
reconcile_operator_ready_example =
    reconcile_operator_ready env lib-SetsController main (λ ns n. none) none-IsKeyed
      ((λ n. n), calls, refl) still_ready

abbrev key_calls : List SigningKeyCall
key_calls =
    key_seed_ready "SKPUB" "sk-seed"
    ∷ to_owner_resolved (record {
      api_version = "accounts.nats.io/v1alpha1";
      kind = "Operator";
      name = "main";
      namespace = "nats";
      uid = "3";
    })
    ∷ []

abbrev key : List SigningKeyCall → SigningKey
key cs = record {
  name = "sk";
  namespace = "nats";
  labels = [];
  spec = record {
    seed_secret_name = "sk-seed";
    owner_ref = record { api_version = "v"; kind = "Operator"; name = "main" };
  };
  status = run_calls signing_key_lifecycle cs (blank_signing_key (λ n. n));
}

-- A ready key of the Operator, and one without an owner.
abbrev keys : List SigningKey
keys = key key_calls ∷ key [] ∷ []

owned_keys_lem_example : owned_keys main keys ≡ some (keys_of main keys)
owned_keys_lem_example =
    owned_keys_lem main keys (((λ n. n), key_calls, refl), (((λ n. n), [], refl), tt))

abbrev owner_ref : TypedObjectReference
owner_ref = record {
  api_version = "accounts.nats.io/v1alpha1";
  kind = "Operator";
  name = "main";
  namespace = "nats";
  uid = "3";
}

abbrev counted : List SigningKeyEmbeddedStatus
counted =
    record { name = "sk"; key_pair = record { public_key = "SKPUB"; seed_secret_name = "sk-seed" } }
    ∷ []

key_counted : key_of main (key key_calls) ≡ counted
unfolding key_call key_ready mark_key_ready mark_owner_resolved is_happy mark_true
    initialize_conditions signing_key_condition_set
key_counted = refl

counted_ne : counted ≢ []
counted_ne h = ground arith

signing_key_requests_lem_example :
    let requests = signing_key_requests {S = ℕ} (key_pairable (signing_key (key key_calls))) in
    (ref : TypedObjectReference) × ((key key_calls).status.owner_ref ≡ some ref)
    × ((ref.api_version ≡ "accounts.nats.io/v1alpha1")
          × (ref.kind ≡ "Operator")
          × (requests ≡ ("nats", "main") ∷ [])
        ⊎ (¬ ((ref.api_version ≡ "accounts.nats.io/v1alpha1") × (ref.kind ≡ "Operator")))
          × (requests ≡ []))
signing_key_requests_lem_example =
    signing_key_requests_lem ℕ main (key key_calls) (λ e. counted_ne (sym key_counted ∙ e))

-- The change of the key enqueues its Operator.
key_requests :
    signing_key_requests {S = ℕ} (key_pairable (signing_key (key key_calls)))
    ≡ ("nats", "main") ∷ []
unfolding signing_key_requests owner_request is_operator_kind key_call mark_key_ready
    mark_owner_resolved
key_requests = refl
