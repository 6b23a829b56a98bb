-- ===== src/Controller/User/Tests.antt =====
-- A User of a ready Account, in a cluster without faults.
use nats_account_operator.Common.{
  String, ◌==◌, ℕ, ◌≡◌, ◌≢◌, ◌⊎◌, ◌↔◌, refl, true, false, none, some, List, [], ◌∷◌, arith,
}
use nats_account_operator.Errors.{plain}
use nats_account_operator.Conditions.{
  Condition, status_true, error, is_happy, mark_true, initialize_conditions, get_condition,
}
use nats_account_operator.Api.User.{
  is_ready, initialize_status, user_condition_set, mark_account_resolved, mark_issuer_resolved,
  mark_jwt_secret_ready, mark_seed_secret_ready, mark_credentials_secret_ready,
}
use nats_account_operator.Api.User.Calls.{
  UserCall, call, to_seed_secret_ready, to_account_resolved, to_issuer_resolved,
  to_jwt_secret_ready, to_credentials_secret_ready, user_lifecycle, blank_user,
}
use nats_account_operator.Api.SigningKey.{SigningKey}
use nats_account_operator.Api.Account.{account_condition_set}
use nats_account_operator.Api.Account.Calls.{blank_account}
use nats_account_operator.Api.Lifecycle.{run_calls}
use nats_account_operator.Nsc.User.{UserClaims, Permission, zero_limits}
use nats_account_operator.Exec.{or_panic, done, pure, raise, modify, expect, on_error, ◌>>=◌}
use nats_account_operator.Cluster.{
  World, Store, write, fetch, get_secret, put, create_at, create_secret, change,
}
use nats_account_operator.Cluster.Writes.{IsKeyed, write-IsKeyed}
use nats_account_operator.Resources.{
  apply_options, set_label, named, name_seed, filled, own, build_key_pair_secret,
}
use nats_account_operator.Resources.Built.{controlled_elsewhere, failed_ne}
use nats_account_operator.Controller.{
  ok, failed, ◌and_then◌, wrap_failure, found, not_found, Secret, Nkeys, get_or_empty, set_field,
  without,
}
use nats_account_operator.Controller.SigningKey.{updated}
use nats_account_operator.Controller.SigningKey.Reconcile.{is_zero}
use nats_account_operator.Controller.Resolve.{client_object, key_pairable}
use nats_account_operator.Controller.Base.{
  create_seed_secret, seed_from, reconcile_seed_secret, is_owned,
}
use nats_account_operator.Controller.Base.Kept.{IsForeign}
use nats_account_operator.Controller.Base.Tests.{lib, lib-SetsController, faults}
use nats_account_operator.Controller.Objects.{
  Account, Resource, account, signing_key, resolve_signing_key_owner, owner_made, owner_from,
  initialized, is_account_ready,
}
use nats_account_operator.Controller.User.{
  check_owner, User, Env, client_user, mark, validate_account_selector, resolve_account,
}
use nats_account_operator.Controller.User.Allowed.{
  IsAllowed, validate_account_selector_lem, IsOwnedBy, resolve_account_lem,
}
use nats_account_operator.Controller.User.Reconcile.{reconcile_body, after_seed, start}
use nats_account_operator.Controller.User.Reconcile.Safe.{
  IsReached, reconcile_body-secrets, reconcile_user_ready,
}

abbrev calls : List UserCall
calls =
    to_seed_secret_ready (record { public_key = "USU"; seed_secret_name = "alice-seed" })
    ∷ to_account_resolved (record { namespace = "nats"; name = "acme" })
    ∷ to_issuer_resolved
    ∷ to_jwt_secret_ready
    ∷ to_credentials_secret_ready
    ∷ []

abbrev anything : Permission
anything = record { allow = none; deny = none }

-- The User was ready once, and its seed secret is gone.
abbrev alice : User
alice = record {
  meta = record { name = "alice"; namespace = "nats"; uid = "1"; labels = ("team", "a") ∷ [] };
  spec = record {
    issuer = record {
      api_version = "accounts.nats.io/v1alpha1";
      kind = "Account";
      name = "acme";
      namespace = "";
      uid = "";
    };
    jwt_secret_name = "alice-jwt";
    seed_secret_name = "alice-seed";
    credentials_secret_name = "alice-creds";
    claims = record {
      permissions = none;
      limits = record {
        nats_limits = record { subs = none; data_bytes = none; payload = none };
        src = none;
        times = none;
        locale = "";
      };
      bearer_token = none;
    };
  };
  status = run_calls user_lifecycle calls (blank_user (λ n. n));
}

abbrev acme : Account ℕ
acme = record {
  meta = record { name = "acme"; namespace = "nats"; uid = "2"; labels = [] };
  users_namespace_selector = none;
  users_selector = some 0;
  status = blank_account (λ n. n);
}

abbrev nkeys : Nkeys String ℕ
nkeys = record {
  decode_prefix = λ s. ok 2;
  same_prefix = λ p q. true;
  prefix_text = λ p. "account";
  from_seed = λ s. s;
  seed = λ k. ok k;
  public_key = λ k. ok k;
}

abbrev new_claims : String → UserClaims
new_claims subject = record {
  subject = subject;
  name = "";
  publish = anything;
  subscribe = anything;
  resp = none;
  limits = zero_limits;
  bearer_token = false;
  allowed_connection_types = none;
  issuer_account = "";
}

-- The Account's selector asks for the label "team" to be "a".
abbrev env : Env ℕ String ℕ String
env = record {
  lib = lib;
  nkeys = nkeys;
  account_prefix = 2;
  create_user = ok "SU";
  faults = faults;
  get_user = found alice;
  scheme_new = λ v k. ok client_object;
  get_object = λ v k ns n. found (key_pairable (account acme));
  get_operator = λ ns n. not_found (plain "no operator");
  get_namespace = λ n. ok (record { name = n; labels = [] });
  as_selector = λ s. ok (λ l. get_or_empty "team" l == "a");
  update_user = λ u. failed (plain "conflict");
  new_user_claims = new_claims;
  encode = λ c k. ok c.subject;
  as_claims = λ c. c.subject;
  same_status = λ s t. false;
  update_status = λ u. updated;
  append_error = λ a b. b;
  gvk_text = λ v k. k;
  object_text = λ o. "object";
  quote = λ s. s;
}

-- The Secret of another controller that stands where the User's seed would.
abbrev taken : Secret
taken = record {
  name = "alice-seed";
  namespace = "nats";
  immutable = false;
  owner_references = (record { kind = "Database"; name = "db"; uid = "9"; controller = true }) ∷ [];
  finalizers = [];
  labels = [];
  data_fields = ("seed.nk", "SU") ∷ [];
}

abbrev with_taken : Store
with_taken = write "nats" "alice-seed" (some taken) (λ ns n. none)

taken-IsForeign : IsForeign (client_user alice) taken
unfolding controlled_elsewhere is_owned
taken-IsForeign = (refl, refl)

taken_there : with_taken "nats" "alice-seed" ≡ some taken
unfolding write
taken_there = refl

none-IsKeyed : IsKeyed (λ ns n. none)
none-IsKeyed ns n s h = ground arith

with_taken-IsKeyed : IsKeyed with_taken
with_taken-IsKeyed =
    write-IsKeyed (λ ns n. none) "nats" "alice-seed" (some taken) (refl, refl) none-IsKeyed

reconcile_body-secrets_example :
    (reconcile_body env alice (start env with_taken alice)).1.secrets "nats" "alice-seed"
    ≡ some taken
reconcile_body-secrets_example =
    reconcile_body-secrets env lib-SetsController alice with_taken with_taken-IsKeyed "nats"
      "alice-seed" taken taken-IsForeign taken_there

never_stored : (usr stored : User) → env.update_user usr ≡ ok stored → IsReached stored
never_stored usr stored h = absurd (failed_ne h)

still_ready :
    is_ready (reconcile_body env alice (start env (λ ns n. none) alice)).1.object.status ≡ true
unfolding reconcile_body after_seed start mark change modify is_zero reconcile_seed_secret seed_from
    create_seed_secret get_secret fetch create_secret create_at put build_key_pair_secret
    apply_options own named name_seed set_label filled set_field without ◌and_then◌ wrap_failure
    controlled_elsewhere expect on_error pure raise ◌>>=◌ is_ready initialize_status
    mark_seed_secret_ready mark_account_resolved mark_issuer_resolved mark_jwt_secret_ready
    mark_credentials_secret_ready call is_happy mark_true initialize_conditions user_condition_set
still_ready = refl

reconcile_user_ready_example :
    let status = (reconcile_body env alice (start env (λ ns n. none) alice)).1.object.status in
    (status.key_pair ≢ none) × (status.account_ref ≢ none)
reconcile_user_ready_example =
    reconcile_user_ready env lib-SetsController alice (λ ns n. none) none-IsKeyed never_stored
      ((λ n. n), calls, refl) still_ready

abbrev initial : World User
initial = start env (λ ns n. none) alice

validate_account_selector_lem_example :
    validate_account_selector env acme alice initial ≡ (done tt, initial) ↔ IsAllowed env acme alice
validate_account_selector_lem_example = validate_account_selector_lem env acme alice initial

abbrev true_condition : String → Condition
true_condition t = record {
  type = t;
  status = status_true;
  severity = error;
  last_transition_time = 0;
  reason = "";
  message = "";
}

-- The Account when it is ready, and a SigningKey of it.
abbrev ready_acme : Account ℕ
ready_acme = record acme {
  status = record acme.status {
    accessor = record { conditions = true_condition "Ready" ∷ []; clock = λ n. n };
  };
}

abbrev key : SigningKey
key = record {
  name = "key";
  namespace = "nats";
  labels = [];
  spec = record {
    seed_secret_name = "key-seed";
    owner_ref = record { api_version = "v"; kind = "Account"; name = "acme" };
  };
  status = record {
    accessor = record { conditions = true_condition "OwnerResolved" ∷ []; clock = λ n. n };
    key_pair = none;
    owner_ref = some (record {
      api_version = "v";
      kind = "Account";
      name = "acme";
      namespace = "nats";
      uid = "2";
    });
  };
}

abbrev signed : Env ℕ String ℕ String
signed = record env { get_object = λ v k ns n. found (key_pairable (account ready_acme)) }

acme_resolved :
    resolve_account signed (signing_key key) initial ≡ (done (initialized ready_acme), initial)
unfolding resolve_account resolve_signing_key_owner owner_made owner_from check_owner initialized
    is_account_ready or_panic expect on_error pure ◌>>=◌ initialize_conditions get_condition
    account_condition_set
acme_resolved = refl

abbrev keyed_issuer : Resource ℕ
keyed_issuer = signing_key key

resolve_account_lem_example :
    (keyed_issuer ≡ account (initialized ready_acme))
    ⊎ ((sk : SigningKey) × (keyed_issuer ≡ signing_key sk)
        × IsOwnedBy signed sk (initialized ready_acme))
resolve_account_lem_example =
    resolve_account_lem signed (signing_key key) (initialized ready_acme) initial initial
      acme_resolved
