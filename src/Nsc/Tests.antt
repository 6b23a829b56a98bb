-- ===== src/Nsc/Tests.antt =====
-- Claims of a User with permissions and of a ready Operator. A key pair is its public key.
use nats_account_operator.Common.{
  String, ◌==◌, ◌≡◌, ◌⊎◌, refl, true, false, Option, none, some, List, [], ◌∷◌,
}
use nats_account_operator.Api.{KeyPair, KeyPairReference}
use nats_account_operator.Api.Operator.{
  is_ready, operator_condition_set, initialize_status, mark_seed_secret_ready,
  mark_system_account_resolved, mark_signing_keys_updated, mark_jwt_secret_ready,
}
use nats_account_operator.Api.Operator.Calls.{
  OperatorCall, to_initialize, to_seed_secret_ready, to_system_account_resolved,
  to_signing_keys_updated, to_jwt_secret_ready, call, operator_lifecycle, blank_operator,
}
use nats_account_operator.Api.Lifecycle.{run_calls}
use nats_account_operator.Conditions.{
  is_happy, mark_true, mark_true_with_reason, initialize_conditions,
}
use nats_account_operator.Controller.{Outcome, ok, failed}
use nats_account_operator.Errors.{Error, wrapped, error_text}
use Prim.Native.String.{◌++◌}
use nats_account_operator.Nsc.{ℤ}
use nats_account_operator.Nsc.User.{UserSpec, UserPermissions, UserClaims, Permission, user_claims}
use nats_account_operator.Nsc.User.Claims.{
  FollowsLimits, FollowsPermissions, limits-user_claims, issuer_account-user_claims,
}
use nats_account_operator.Nsc.Operator.{OperatorSpec, OperatorClaims, create_operator_claims}
use nats_account_operator.Nsc.Operator.Claims.{Describes, create_operator_claims_ready}

abbrev anything : Permission
anything = record { allow = none; deny = none }

abbrev fresh : String → UserClaims
fresh subject = record {
  subject = subject;
  name = "";
  publish = anything;
  subscribe = anything;
  resp = none;
  limits = record {
    src = none;
    times = none;
    locale = "";
    nats_limits = record { subs = ℤ.negsuc 0; data_bytes = ℤ.negsuc 0; payload = ℤ.negsuc 0 };
  };
  bearer_token = false;
  allowed_connection_types = none;
  issuer_account = "";
}

abbrev spec : UserSpec
spec = record {
  permissions = some (record { publish = anything; subscribe = anything; resp = none });
  limits = record {
    nats_limits = record { subs = some (ℤ.pos 5); data_bytes = none; payload = none };
    src = none;
    times = none;
    locale = "";
  };
  bearer_token = some true;
}

abbrev acme : Option KeyPair
acme = some (record { public_key = "A"; seed_secret_name = "seed" })

abbrev identity : String → Outcome String
identity k = ok k

abbrev encode_user : UserClaims → String → Outcome String
encode_user c k = ok "jwt"

abbrev bob : UserClaims
bob = user_claims fresh identity encode_user "U" "bob" spec acme "S"

limits-user_claims_example :
    (spec.permissions ≡ none) × FollowsLimits spec (fresh "U") bob
    ⊎ ((permissions : UserPermissions) × (spec.permissions ≡ some permissions)
        × FollowsPermissions permissions bob)
limits-user_claims_example = limits-user_claims fresh identity encode_user "U" "bob" "S" spec acme

issuer_account-user_claims_example :
    ((kp : KeyPair) × (acme ≡ some kp)
      × ((kp.public_key == "S") ≡ false)
      × (bob.issuer_account ≡ kp.public_key))
    ⊎ (((acme ≡ none) ⊎ ((kp : KeyPair) × (acme ≡ some kp) × (kp.public_key ≡ "S")))
        × (bob.issuer_account ≡ ""))
issuer_account-user_claims_example =
    issuer_account-user_claims fresh identity encode_user "U" "bob" "S" spec acme

abbrev new_operator : String → OperatorClaims
new_operator subject = record {
  subject = subject;
  name = "";
  issued_at = 0;
  signing_keys = [];
  account_server_url = "";
  operator_service_urls = [];
  system_account = "";
  type = "";
}

abbrev encode_operator : OperatorClaims → String → Outcome String
encode_operator c k = ok "jwt"

abbrev calls : List OperatorCall
calls =
    to_initialize
    ∷ to_seed_secret_ready (record { public_key = "O"; seed_secret_name = "seed" })
    ∷ to_system_account_resolved
        (record { reference = record { namespace = "nats"; name = "system" }; public_key = "ASYS" })
    ∷ to_signing_keys_updated []
    ∷ to_jwt_secret_ready
    ∷ []

operator_is_ready : is_ready (run_calls operator_lifecycle calls (blank_operator (λ n. n))) ≡ true
unfolding is_ready call initialize_status mark_seed_secret_ready mark_system_account_resolved
    mark_signing_keys_updated mark_jwt_secret_ready is_happy mark_true mark_true_with_reason
    initialize_conditions operator_condition_set
operator_is_ready = refl

abbrev urls : OperatorSpec
urls = record { account_server_url = ""; operator_service_urls = [] }

create_operator_claims_ready_example :
    let s = run_calls operator_lifecycle calls (blank_operator (λ n. n)) in
    let result =
      create_operator_claims new_operator "operator" encode_operator "main" urls s 0 "O" in
    (account : KeyPairReference) × (key_pair : KeyPair) × (claims : OperatorClaims)
    × (s.resolved_system_account ≡ some account)
    × (s.key_pair ≡ some key_pair)
    × Describes new_operator "operator" "main" urls s.signing_keys account key_pair 0 claims
    × (((token : String) × (encode_operator claims "O" ≡ ok token) × (result ≡ ok (claims, token)))
        ⊎ ((err : Error) × (encode_operator claims "O" ≡ failed err)
            × (result
                ≡ failed (wrapped ("failed to encode operator claims: " ++ error_text err) err))))
create_operator_claims_ready_example =
    create_operator_claims_ready new_operator "operator" encode_operator (λ n. n) calls "main" urls
      0 "O" operator_is_ready
