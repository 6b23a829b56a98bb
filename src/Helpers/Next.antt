-- ===== src/Helpers/Next.antt =====
-- What `NextSigningKeys` of pkg/helpers/signingkeys.go returns.
use nats_account_operator.Common.{
  String, ◌==◌, ◌≡◌, refl, sym, ◌∙◌, ap, ◌⊎◌, inl, inr, Bool, false, Option, none, some, List, [],
  ◌∷◌, ◌++◌, ◌&&◌, arith, Bool-cases, Option-cases, if◌then◌else◌,
}
use mathlib.Core.List.{append-nil}
use mathlib.Core.Path.{subst}
use nats_account_operator.Api.{KeyPair, TypedObjectReference, SigningKeyEmbeddedStatus}
use nats_account_operator.Api.SigningKey.{SigningKey, is_ready}
use nats_account_operator.Helpers.{
  lookup, insert, keep, with_key, owned_entry, item_entry, add_entry, collect, next_signing_keys,
}
use nats_account_operator.Helpers.Tables.{
  UniqueNames, lookup-delete_ne, lookup-append, lookup-append_some, insert-UniqueNames,
  append-UniqueNames, Divides, keep-Divides, keep-UniqueNames, keep_rest-UniqueNames, keep_all,
  no_names,
}

-- What Go says of `range` over a map: each entry is visited once, in any order.
pub record IsRange (order : List SigningKeyEmbeddedStatus → List SigningKeyEmbeddedStatus)
    : Type 0 where
  pub same : (n : String) (t : List SigningKeyEmbeddedStatus) → lookup n (order t) ≡ lookup n t
  pub unique : (t : List SigningKeyEmbeddedStatus) → UniqueNames t → UniqueNames (order t)

pub is_owned : String → Option TypedObjectReference → Bool
is_owned owner_uid none = false
is_owned owner_uid (some owner_ref) = owner_ref.uid == owner_uid

pub embedded : String → Option KeyPair → Option SigningKeyEmbeddedStatus
embedded name none = none
embedded name (some key_pair) = some (record { name = name; key_pair = key_pair })

pub first_of :
    Option SigningKeyEmbeddedStatus
    → Option SigningKeyEmbeddedStatus
    → Option SigningKeyEmbeddedStatus
first_of none d = d
first_of (some e) d = some e

pub entry : String → SigningKey → Option SigningKeyEmbeddedStatus
unfolding is_owned embedded
entry owner_uid sk =
    if is_ready sk.status && is_owned owner_uid sk.status.owner_ref
    then embedded sk.name sk.status.key_pair
    else none

-- The last of the items with a name that are ready and owned by the resource.
pub latest : String → String → List SigningKey → Option SigningKeyEmbeddedStatus
unfolding first_of entry
latest owner_uid n [] = none
latest owner_uid n (sk ∷ sks) =
    first_of (latest owner_uid n sks) (if sk.name == n then entry owner_uid sk else none)

item_entry_lem :
    (owner_uid : String) (sk : SigningKey) (o : Option SigningKeyEmbeddedStatus)
    → item_entry owner_uid sk ≡ some o
    → o ≡ entry owner_uid sk
unfolding item_entry owned_entry with_key entry is_owned embedded
item_entry_lem owner_uid sk o h = ground arith

entry_name :
    (owner_uid : String) (sk : SigningKey) (e : SigningKeyEmbeddedStatus)
    → entry owner_uid sk ≡ some e
    → e.name ≡ sk.name
unfolding entry is_owned embedded
entry_name owner_uid sk e h = ground arith

some_inj : (s t : List SigningKeyEmbeddedStatus) → some s ≡ some t → s ≡ t
some_inj s t h = ground arith

lookup-insert :
    (n : String) (e : SigningKeyEmbeddedStatus) (t : List SigningKeyEmbeddedStatus)
    → lookup n (insert e t) ≡ (if e.name == n then some e else lookup n t)
unfolding insert lookup
lookup-insert n e t = elim (Bool-cases (e.name == n)) [
  | inl q ↦ rw q refl
  | inr q ↦ rw q (lookup-delete_ne e.name n t q)
]

lookup-add :
    (owner_uid n : String) (sk : SigningKey) (o : Option SigningKeyEmbeddedStatus)
    (t t' : List SigningKeyEmbeddedStatus)
    → o ≡ entry owner_uid sk
    → add_entry (some o) t ≡ some t'
    → lookup n t' ≡ first_of (if sk.name == n then entry owner_uid sk else none) (lookup n t)
unfolding add_entry first_of
lookup-add owner_uid n sk none t t' q h = ground arith
lookup-add owner_uid n sk (some e) t t' q h =
    let same : e.name ≡ sk.name = entry_name owner_uid sk e (sym q) in
    rw (sym q, sym same) ground (arith, lookup-insert n e t)

-- One round of the loop over the items.
round :
    (owner_uid : String) (sk : SigningKey) (t t' : List SigningKeyEmbeddedStatus)
    → add_entry (item_entry owner_uid sk) t ≡ some t'
    → (o : Option SigningKeyEmbeddedStatus) × (o ≡ entry owner_uid sk)
      × (add_entry (some o) t ≡ some t')
round owner_uid sk t t' h = elim (Option-cases (item_entry owner_uid sk)) [
  | inl q ↦ absurd (unfold add_entry in ground arith)
  | inr (o, q) ↦ (o, item_entry_lem owner_uid sk o q, sym (ap (λ x. add_entry x t) q) ∙ h)
]

add_entry-UniqueNames :
    (o : Option SigningKeyEmbeddedStatus) (t t' : List SigningKeyEmbeddedStatus)
    → add_entry (some o) t ≡ some t'
    → UniqueNames t
    → UniqueNames t'
unfolding add_entry
add_entry-UniqueNames none t t' h u = rw (some_inj t t' h) at u
add_entry-UniqueNames (some e) t t' h u =
    subst (λ l. UniqueNames l) (some_inj (insert e t) t' h) (insert-UniqueNames e t u)

collect-UniqueNames :
    (owner_uid : String) (items : List SigningKey) (t t' : List SigningKeyEmbeddedStatus)
    → collect owner_uid items t ≡ some t'
    → UniqueNames t
    → UniqueNames t'
unfolding collect
collect-UniqueNames owner_uid [] t t' h u = rw (some_inj t t' h) at u
collect-UniqueNames owner_uid (sk ∷ sks) t t' h u =
    elim (Option-cases (add_entry (item_entry owner_uid sk) t)) [
      | inl q ↦ absurd (ground arith)
      | inr (s, q) ↦
          let (o, _, k) = round owner_uid sk t s q in
          collect-UniqueNames owner_uid sks s t' (rw q at h) (add_entry-UniqueNames o t s k u)
    ]

first_of_assoc :
    (a b c : Option SigningKeyEmbeddedStatus)
    → first_of (first_of a b) c ≡ first_of a (first_of b c)
unfolding first_of
first_of_assoc none b c = refl
first_of_assoc (some e) b c = refl

first_of-none : (a : Option SigningKeyEmbeddedStatus) → first_of a none ≡ a
unfolding first_of
first_of-none none = refl
first_of-none (some e) = refl

lookup-collect :
    (owner_uid n : String) (items : List SigningKey) (t t' : List SigningKeyEmbeddedStatus)
    → collect owner_uid items t ≡ some t'
    → lookup n t' ≡ first_of (latest owner_uid n items) (lookup n t)
unfolding collect latest first_of
lookup-collect owner_uid n [] t t' h = ap (lookup n) (sym (some_inj t t' h))
lookup-collect owner_uid n (sk ∷ sks) t t' h =
    elim (Option-cases (add_entry (item_entry owner_uid sk) t)) [
      | inl q ↦ absurd (ground arith)
      | inr (s, q) ↦
          let (o, e, k) = round owner_uid sk t s q in
          lookup-collect owner_uid n sks s t' (rw q at h)
          ∙ ap (first_of (latest owner_uid n sks)) (lookup-add owner_uid n sk o t s e k)
          ∙ sym (
              first_of_assoc (latest owner_uid n sks)
                (if sk.name == n then entry owner_uid sk else none) (lookup n t))
    ]

-- The range over an empty map visits nothing.
order_nil :
    (order : List SigningKeyEmbeddedStatus → List SigningKeyEmbeddedStatus)
    → IsRange order
    → order [] ≡ []
order_nil order range = no_names (order []) (λ n. range.same n [] ∙ unfold lookup in refl)

module _ (order : List SigningKeyEmbeddedStatus → List SigningKeyEmbeddedStatus)
    (range : IsRange order) where
  abbrev Result :
      String
      → List SigningKeyEmbeddedStatus
      → List SigningKey
      → List SigningKeyEmbeddedStatus
      → Type 0
  Result owner_uid current items out = next_signing_keys order owner_uid current items ≡ some out

  -- What is returned, in terms of the map that the loop over the items builds.
  parts :
      (owner_uid : String) (current : List SigningKeyEmbeddedStatus) (items : List SigningKey)
      (out : List SigningKeyEmbeddedStatus)
      → Result owner_uid current items out
      → (t : List SigningKeyEmbeddedStatus) × (collect owner_uid items [] ≡ some t)
        × (out ≡ (keep current t).0 ++ order (keep current t).1)
  unfolding next_signing_keys
  parts owner_uid current items out h = elim (Option-cases (collect owner_uid items [])) [
    | inl q ↦ absurd (ground arith)
    | inr (t, q) ↦
        (t, q, sym (some_inj ((keep current t).0 ++ order (keep current t).1) out (rw q at h)))
  ]

  split :
      (n : String) (t : List SigningKeyEmbeddedStatus)
      (r : List SigningKeyEmbeddedStatus × List SigningKeyEmbeddedStatus)
      → Divides n t r
      → lookup n (r.0 ++ order r.1) ≡ lookup n t
  split n t r d = elim d [
    | inl (e, k, m, l) ↦ lookup-append_some n r.0 (order r.1) e k ∙ sym m
    | inr (k, l) ↦ lookup-append n r.0 (order r.1) k ∙ range.same n r.1 ∙ l
  ]

  -- When range visits each entry of a map once, in any order: if NextSigningKeys returns, the
  -- keys returned are those of the items that are ready and owned by the resource, each with the
  -- key pair of the last such item of its name, whatever keys the resource had.
  pub lookup-next_signing_keys :
      (owner_uid n : String) (current : List SigningKeyEmbeddedStatus) (items : List SigningKey)
      (out : List SigningKeyEmbeddedStatus)
      → next_signing_keys order owner_uid current items ≡ some out
      → lookup n out ≡ latest owner_uid n items
  unfolding lookup latest
  lookup-next_signing_keys owner_uid n current items out h =
      let (t, c, q) = parts owner_uid current items out h in
      rw q (
        split n t (keep current t) (keep-Divides n current t)
        ∙ lookup-collect owner_uid n items [] t c
        ∙ first_of-none (latest owner_uid n items))

  apart :
      (n : String) (t : List SigningKeyEmbeddedStatus)
      (r : List SigningKeyEmbeddedStatus × List SigningKeyEmbeddedStatus)
      → Divides n t r
      → (lookup n r.0 ≡ none) ⊎ (lookup n (order r.1) ≡ none)
  apart n t r d = elim d [ inl (e, k, m, l) ↦ inr (range.same n r.1 ∙ l) | inr (k, l) ↦ inl k ]

  -- When range visits each entry of a map once, in any order, no name stands twice in the keys
  -- that NextSigningKeys returns.
  pub next_signing_keys-UniqueNames :
      (owner_uid : String) (current : List SigningKeyEmbeddedStatus) (items : List SigningKey)
      (out : List SigningKeyEmbeddedStatus)
      → next_signing_keys order owner_uid current items ≡ some out
      → UniqueNames out
  next_signing_keys-UniqueNames owner_uid current items out h =
      let (t, c, q) = parts owner_uid current items out h in
      rw q (
        append-UniqueNames (keep current t).0 (order (keep current t).1)
          (keep-UniqueNames current t)
          (range.unique (keep current t).1
            (keep_rest-UniqueNames current t (collect-UniqueNames owner_uid items [] t c tt)))
          (λ n. apart n t (keep current t) (keep-Divides n current t)))

  -- When range visits each entry of a map once, in any order: a second call of NextSigningKeys,
  -- with the keys that the first returned and the same items, returns them again in the same
  -- order. It is no update.
  pub next_signing_keys_idem :
      (owner_uid : String) (current : List SigningKeyEmbeddedStatus) (items : List SigningKey)
      (out : List SigningKeyEmbeddedStatus)
      → next_signing_keys order owner_uid current items ≡ some out
      → next_signing_keys order owner_uid out items ≡ some out
  unfolding next_signing_keys
  next_signing_keys_idem owner_uid current items out h =
      let (t, c, q) = parts owner_uid current items out (unfold next_signing_keys in h) in
      let k : keep out t ≡ (out, []) =
        keep_all out t (next_signing_keys-UniqueNames owner_uid current items out h) (λ n.
          lookup-collect owner_uid n items [] t c
          ∙ first_of-none (latest owner_uid n items)
          ∙ sym (lookup-next_signing_keys owner_uid n current items out h)) in
      rw (c, k) (ap some (ap (λ l. out ++ l) (order_nil order range) ∙ append-nil out))
