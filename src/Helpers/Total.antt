-- ===== src/Helpers/Total.antt =====
-- `NextSigningKeys` of pkg/helpers/signingkeys.go dereferences the owner reference and the key pair
-- of a ready SigningKey.
use nats_account_operator.Common.{
  String, ◌==◌, ◌≡◌, ◌≢◌, refl, inl, inr, true, Option, none, some, List, [], ◌∷◌, ◌++◌, arith,
  Bool-cases, Option-cases, All, ℕ,
}
use nats_account_operator.Api.{KeyPair, TypedObjectReference, SigningKeyEmbeddedStatus}
use nats_account_operator.Api.SigningKey.{SigningKey, is_ready}
use nats_account_operator.Api.SigningKey.Calls.{
  SigningKeyCall, signing_key_lifecycle, blank_signing_key, signing_key_ready,
}
use nats_account_operator.Api.Lifecycle.{run_calls}
use nats_account_operator.Helpers.{
  keep, with_key, owned_entry, item_entry, add_entry, collect, next_signing_keys,
}

-- The status is one that the methods of `SigningKeyStatus` made.
abbrev pub IsReached : SigningKey → Type 0
IsReached sk =
    (clock : ℕ → ℕ) × (cs : List SigningKeyCall) × (sk.status
      ≡ run_calls signing_key_lifecycle cs (blank_signing_key clock))

pub reached_ready :
    (sk : SigningKey)
    → IsReached sk
    → is_ready sk.status ≡ true
    → (sk.status.key_pair ≢ none) × (sk.status.owner_ref ≢ none)
reached_ready sk (clock, cs, q) h = rw q (signing_key_ready clock cs (rw q at h))

some_ne : {o : Option SigningKeyEmbeddedStatus} → some o ≢ none
some_ne h = ground arith

with_key_defined : (name : String) (k : Option KeyPair) → k ≢ none → with_key name k ≢ none
unfolding with_key
with_key_defined name none f h = f refl
with_key_defined name (some k) f h = ground arith

owned_entry_defined :
    (owner_uid : String) (sk : SigningKey) (o : Option TypedObjectReference)
    → sk.status.key_pair ≢ none
    → o ≢ none
    → owned_entry owner_uid sk o ≢ none
unfolding owned_entry
owned_entry_defined owner_uid sk none k f h = f refl
owned_entry_defined owner_uid sk (some o) k f h = elim (Bool-cases (o.uid == owner_uid)) [
  | inl q ↦ with_key_defined sk.name sk.status.key_pair k (rw q at h)
  | inr q ↦ some_ne (rw q at h)
]

item_entry_defined :
    (owner_uid : String) (sk : SigningKey)
    → (is_ready sk.status ≡ true → (sk.status.key_pair ≢ none) × (sk.status.owner_ref ≢ none))
    → item_entry owner_uid sk ≢ none
unfolding item_entry
item_entry_defined owner_uid sk f h = elim (Bool-cases (is_ready sk.status)) [
  | inl q ↦ owned_entry_defined owner_uid sk sk.status.owner_ref (f q).0 (f q).1 (rw q at h)
  | inr q ↦ some_ne (rw q at h)
]

collect_total :
    (owner_uid : String) (items : List SigningKey) (t : List SigningKeyEmbeddedStatus)
    → All IsReached items
    → (t' : List SigningKeyEmbeddedStatus) × (collect owner_uid items t ≡ some t')
unfolding collect
collect_total owner_uid [] t a = (t, refl)
collect_total owner_uid (sk ∷ sks) t a =
    elim (Option-cases (add_entry (item_entry owner_uid sk) t)) [
      | inl q ↦ absurd (
          item_entry_defined owner_uid sk (reached_ready sk a.0) (unfold add_entry in ground arith))
      | inr (s, q) ↦ let (t', k) = collect_total owner_uid sks s a.1 in (t', rw q k)
    ]

-- `NextSigningKeys` returns, without a nil dereference, whatever the keys of the resource and the
-- order of the map are, when the methods of `SigningKeyStatus` made the status of each item from a
-- status with no conditions.
pub next_signing_keys_total :
    (order : List SigningKeyEmbeddedStatus → List SigningKeyEmbeddedStatus) (owner_uid : String)
    (current : List SigningKeyEmbeddedStatus) (items : List SigningKey)
    → All IsReached items
    → (out : List SigningKeyEmbeddedStatus) × (next_signing_keys order owner_uid current items
        ≡ some out)
unfolding next_signing_keys
next_signing_keys_total order owner_uid current items a =
    let (t, c) = collect_total owner_uid items [] a in
    ((keep current t).0 ++ order (keep current t).1, rw c refl)
