-- ===== src/Controller/SigningKey/Reconcile/Tests.antt =====
-- A SigningKey of an Account, in a cluster that has no secret for it.
use nats_account_operator.Common.{◌==◌, ◌≡◌, ◌≢◌, refl, ℕ, true, false, none, some, [], ◌∷◌, arith}
use nats_account_operator.Errors.{plain}
use nats_account_operator.Api.{TypedObjectReference}
use nats_account_operator.Api.SigningKey.{
  SigningKey, is_ready, initialize_status, mark_owner_resolved, mark_seed_secret_ready,
  signing_key_condition_set,
}
use nats_account_operator.Conditions.{is_happy, mark_true, initialize_conditions}
use nats_account_operator.Api.SigningKey.Fields.{owner_ref-mark_owner_resolved}
use nats_account_operator.Api.SigningKey.Calls.{blank_signing_key}
use nats_account_operator.Helpers.Total.{IsReached}
use nats_account_operator.Controller.{
  ok, failed, found, not_found, Secret, get_or_empty, get_field, or_empty,
}
use nats_account_operator.Controller.SigningKey.{
  Env, Owner, account, updated, ensure_owner_resolved, resolve_type, resolve_owner, resolve_valid,
  validate_owner_requirements, check_selector, check_match, owner_reference, reconcile_labels,
  label_owner, update_label, after_update,
}
use nats_account_operator.Controller.SigningKey.Resolved.{
  IsAllowed, ensure_owner_resolved-IsAllowed,
}
use nats_account_operator.Controller.SigningKey.Reconcile.{
  ensure_key_pair, from_secret, new_secret, create_secret, reconcile_body, after_owner,
  after_labels, is_zero, wrap_key_pair, ready_with,
}
use nats_account_operator.Controller.SigningKey.Reconcile.Reached.{
  reconcile_body-IsReached, reconcile_body_ready,
}

abbrev signing_key : SigningKey
signing_key = record {
  name = "key";
  namespace = "nats";
  labels = ("team", "a") ∷ [];
  spec = record {
    seed_secret_name = "seed";
    owner_ref = record {
      api_version = "accounts.nats.io/v1alpha1";
      kind = "Account";
      name = "acme";
    };
  };
  status = blank_signing_key (λ n. n);
}

abbrev acme : Owner ℕ
acme = record {
  api_version = "accounts.nats.io/v1alpha1";
  kind = "Account";
  name = "acme";
  namespace = "nats";
  uid = "1";
  signing_keys_selector = some 0;
}

-- A cluster with the Account "acme", whose selector asks for the label "team" to be "a". A key pair
-- is a number.
abbrev env : Env ℕ ℕ
env = record {
  get_signing_key = found signing_key;
  scheme_new = λ v k. account;
  gvk_text = λ v k. k;
  get_owner = λ t ns n. found acme;
  as_selector = λ s. ok (λ l. get_or_empty "team" l == "a");
  update_object = λ sk. failed (plain "conflict");
  get_secret = λ ns n. not_found (plain "no secret");
  create_account = ok 7;
  create_operator = ok 8;
  seed = λ k. ok "SA";
  public_key = λ k. ok "A";
  set_controller_reference = λ s. ok s;
  create_secret = λ s. none;
  same_status = λ s t. false;
  update_status = λ sk. updated;
  append_error = λ a b. b;
  quote = λ s. s;
  wrap_in_sprintf = λ e. "";
  bad_request = λ s. plain s;
}

abbrev acme_ref : TypedObjectReference
acme_ref = record {
  api_version = "accounts.nats.io/v1alpha1";
  kind = "Account";
  name = "acme";
  namespace = "nats";
  uid = "1";
}

acme_resolved : (ensure_owner_resolved env signing_key).0.status.owner_ref ≡ some acme_ref
unfolding ensure_owner_resolved resolve_type resolve_owner resolve_valid validate_owner_requirements
    check_selector check_match owner_reference get_or_empty
acme_resolved = owner_ref-mark_owner_resolved acme_ref (blank_signing_key (λ n. n))

ensure_owner_resolved-IsAllowed_example :
    (owner : Owner ℕ) × (acme_ref ≡ owner_reference env owner) × IsAllowed env signing_key owner
ensure_owner_resolved-IsAllowed_example =
    ensure_owner_resolved-IsAllowed env signing_key acme_ref acme_resolved

abbrev acme_secret : Secret
acme_secret = new_secret env signing_key "SA" "A"

never_stored : (sk stored : SigningKey) → env.update_object sk ≡ ok stored → IsReached stored
never_stored sk stored h = absurd (ground arith)

reconcile_body-IsReached_example : IsReached (reconcile_body env signing_key).object
reconcile_body-IsReached_example =
    reconcile_body-IsReached env never_stored signing_key ((λ n. n), [], refl)

-- The same cluster, whose SigningKey has the label of its owner and a secret.
abbrev settled : Env ℕ ℕ
settled = record env { get_secret = λ ns n. found acme_secret }

abbrev labelled : SigningKey
labelled = record signing_key { labels = ("accounts.nats.io/account", "acme") ∷ ("team", "a") ∷ [] }

labelled_ready : is_ready (reconcile_body settled labelled).object.status ≡ true
unfolding reconcile_body after_owner after_labels is_zero ensure_key_pair wrap_key_pair from_secret
    ready_with new_secret ensure_owner_resolved resolve_type resolve_owner resolve_valid
    validate_owner_requirements check_selector check_match owner_reference get_or_empty get_field
    or_empty reconcile_labels label_owner update_label after_update is_ready initialize_status
    mark_owner_resolved mark_seed_secret_ready is_happy mark_true initialize_conditions
    signing_key_condition_set
labelled_ready = refl

reconcile_body_ready_example :
    let after = (reconcile_body settled labelled).object in
    (after.status.key_pair ≢ none) × (after.status.owner_ref ≢ none)
reconcile_body_ready_example =
    reconcile_body_ready settled never_stored labelled ((λ n. n), [], refl) labelled_ready
