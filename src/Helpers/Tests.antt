-- ===== src/Helpers/Tests.antt =====
-- The signing keys of an Account with one key that it has already and one that is new.
use nats_account_operator.Common.{String, ◌≡◌, refl, some, List, [], ◌∷◌, All}
use nats_account_operator.Api.{SigningKeyEmbeddedStatus}
use nats_account_operator.Api.SigningKey.{
  SigningKey, is_ready, initialize_status, mark_owner_resolved, mark_seed_secret_ready,
  signing_key_condition_set,
}
use nats_account_operator.Conditions.{is_happy, mark_true, initialize_conditions}
use nats_account_operator.Api.SigningKey.Calls.{
  SigningKeyCall, to_initialize, to_seed_secret_ready, to_owner_resolved, call,
  signing_key_lifecycle, blank_signing_key,
}
use nats_account_operator.Api.Lifecycle.{run_calls}
use nats_account_operator.Helpers.{
  lookup, delete, insert, with_key, owned_entry, item_entry, add_entry, collect, keep, left,
  next_signing_keys,
}
use nats_account_operator.Helpers.Tables.{UniqueNames}
use nats_account_operator.Helpers.Next.{
  IsRange, latest, lookup-next_signing_keys, next_signing_keys-UniqueNames, next_signing_keys_idem,
}
use nats_account_operator.Helpers.Total.{IsReached, next_signing_keys_total}

abbrev calls : String → String → List SigningKeyCall
calls key uid =
    to_initialize
    ∷ to_seed_secret_ready key "seed"
    ∷ to_owner_resolved (record {
      api_version = "accounts.nats.io/v1alpha1";
      kind = "Account";
      name = "acme";
      namespace = "nats";
      uid = uid;
    })
    ∷ []

abbrev made : String → String → String → SigningKey
made name key uid = record {
  name = name;
  namespace = "nats";
  labels = [];
  spec = record {
    seed_secret_name = "seed";
    owner_ref = record {
      api_version = "accounts.nats.io/v1alpha1";
      kind = "Account";
      name = "acme";
    };
  };
  status = run_calls signing_key_lifecycle (calls key uid) (blank_signing_key (λ n. n));
}

abbrev items : List SigningKey
items = made "a" "A1" "1" ∷ made "b" "A2" "1" ∷ made "c" "A3" "2" ∷ []

abbrev current : List SigningKeyEmbeddedStatus
current =
    record { name = "b"; key_pair = record { public_key = "A0"; seed_secret_name = "seed" } } ∷ []

-- A range in the order of the list.
abbrev in_order : List SigningKeyEmbeddedStatus → List SigningKeyEmbeddedStatus
in_order t = t

range : IsRange in_order
range = record { same = λ n t. refl; unique = λ t u. u }

items-IsReached : All IsReached items
items-IsReached = (
  ((λ n. n), calls "A1" "1", refl),
  (((λ n. n), calls "A2" "1", refl), (((λ n. n), calls "A3" "2", refl), tt)),
)

next_signing_keys_total_example :
    (out : List SigningKeyEmbeddedStatus) × (next_signing_keys in_order "1" current items
      ≡ some out)
next_signing_keys_total_example = next_signing_keys_total in_order "1" current items items-IsReached

abbrev result : List SigningKeyEmbeddedStatus
result =
    record { name = "b"; key_pair = record { public_key = "A2"; seed_secret_name = "seed" } }
    ∷ record { name = "a"; key_pair = record { public_key = "A1"; seed_secret_name = "seed" } }
    ∷ []

returned : next_signing_keys in_order "1" current items ≡ some result
unfolding next_signing_keys collect item_entry owned_entry with_key add_entry insert delete keep
    left lookup is_ready call initialize_status mark_owner_resolved mark_seed_secret_ready is_happy
    mark_true initialize_conditions signing_key_condition_set
returned = refl

lookup-next_signing_keys_example : lookup "b" result ≡ latest "1" "b" items
lookup-next_signing_keys_example =
    lookup-next_signing_keys in_order range "1" "b" current items result returned

next_signing_keys-UniqueNames_example : UniqueNames result
next_signing_keys-UniqueNames_example =
    next_signing_keys-UniqueNames in_order range "1" current items result returned

next_signing_keys_idem_example : next_signing_keys in_order "1" result items ≡ some result
next_signing_keys_idem_example =
    next_signing_keys_idem in_order range "1" current items result returned
