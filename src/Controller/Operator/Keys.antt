-- ===== src/Controller/Operator/Keys.antt =====
-- The signing keys that `ensureSigningKeysUpdated` of
-- internal/controller/accounts/operator_controller.go collects.
use nats_account_operator.Common.{
  ◌==◌, ◌&&◌, ◌≡◌, ◌≢◌, refl, inl, inr, Bool, false, Option, none, some, List, [], ◌∷◌, ◌++◌, All,
  Bool-cases, if◌then◌else◌,
}
use nats_account_operator.Api.{KeyPair, TypedObjectReference, SigningKeyEmbeddedStatus}
use nats_account_operator.Api.SigningKey.{SigningKey, is_ready}
use nats_account_operator.Helpers.Total.{IsReached, reached_ready}
use nats_account_operator.Controller.Operator.{
  Operator, entry, add_key, is_owner, item, keys_from, owned_keys,
}

-- A reference to the Operator by its name and namespace.
abbrev pub names_owner : Operator → Option TypedObjectReference → Bool
names_owner o none = false
names_owner o (some ref) = (ref.namespace == o.meta.namespace) && (ref.name == o.meta.name)

abbrev pub with_key_pair : SigningKey → Option KeyPair → List SigningKeyEmbeddedStatus
with_key_pair sk none = []
with_key_pair sk (some key_pair) = record { name = sk.name; key_pair = key_pair } ∷ []

-- What one signing key adds: itself, when it is ready and names the Operator as its owner.
abbrev pub key_of : Operator → SigningKey → List SigningKeyEmbeddedStatus
key_of o sk =
    if is_ready sk.status
    then (if names_owner o sk.status.owner_ref then with_key_pair sk sk.status.key_pair else [])
    else []

abbrev pub keys_of : Operator → List SigningKey → List SigningKeyEmbeddedStatus
keys_of o [] = []
keys_of o (sk ∷ sks) = key_of o sk ++ keys_of o sks

is_owner_lem :
    (o : Operator) (ref : TypedObjectReference) → names_owner o (some ref) ≡ is_owner o ref
unfolding is_owner
is_owner_lem o ref = refl

owned_item :
    (o : Operator) (sk : SigningKey) (rest : List SigningKeyEmbeddedStatus)
    (r : Option TypedObjectReference) (k : Option KeyPair)
    → sk.status.key_pair ≡ k
    → k ≢ none
    → r ≢ none
    → item o sk rest r
      ≡ some ((if names_owner o r then with_key_pair sk sk.status.key_pair else []) ++ rest)
unfolding item add_key entry
owned_item o sk rest none k e f h = absurd (h refl)
owned_item o sk rest (some ref) none e f h = absurd (f refl)
owned_item o sk rest (some ref) (some kp) e f h = elim (Bool-cases (is_owner o ref)) [
  | inl q ↦ rw (is_owner_lem o ref, q, e) refl
  | inr q ↦ rw (is_owner_lem o ref, q) refl
]

-- The keys that ensureSigningKeysUpdated collects are those, in their order, that are ready and
-- whose owner reference has the name and the namespace of the Operator, each with its key pair;
-- and no nil pointer is dereferenced, when the methods of SigningKeyStatus made the status of each
-- key.
pub owned_keys_lem :
    (o : Operator) (sks : List SigningKey)
    → All IsReached sks
    → owned_keys o sks ≡ some (keys_of o sks)
unfolding owned_keys keys_from
owned_keys_lem o [] a = refl
owned_keys_lem o (sk ∷ sks) (r, a) = elim (Bool-cases (is_ready sk.status)) [
  | inr q ↦ rw (owned_keys_lem o sks a, q) refl
  | inl q ↦
      let (k, n) = reached_ready sk r q in
      rw (owned_keys_lem o sks a, q)
        (owned_item o sk (keys_of o sks) sk.status.owner_ref sk.status.key_pair refl k n)
]
