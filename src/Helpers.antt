-- ===== src/Helpers.antt =====
-- `NextSigningKeys` of pkg/helpers/signingkeys.go. A Go map is the list of its values, which hold
-- their keys.
pub mod Tables
pub mod Next
pub mod Total
mod Tests
use nats_account_operator.Common.{
  String, ◌==◌, Bool, true, false, Option, none, some, List, [], ◌∷◌, ◌++◌, if◌then◌else◌, ◌>>=◌,
}
use nats_account_operator.Api.{KeyPair, TypedObjectReference, SigningKeyEmbeddedStatus}
use nats_account_operator.Api.SigningKey.{SigningKey, is_ready}

pub lookup : String → List SigningKeyEmbeddedStatus → Option SigningKeyEmbeddedStatus
lookup n [] = none
lookup n (e ∷ es) = if e.name == n then some e else lookup n es

pub delete : String → List SigningKeyEmbeddedStatus → List SigningKeyEmbeddedStatus
delete n [] = []
delete n (e ∷ es) = let rest = delete n es in if e.name == n then rest else e ∷ rest

pub insert :
    SigningKeyEmbeddedStatus → List SigningKeyEmbeddedStatus → List SigningKeyEmbeddedStatus
unfolding delete
insert e es = e ∷ delete e.name es

-- What the loop over the items adds for a ready item: `none` is the panic on a nil pointer.
pub with_key : String → Option KeyPair → Option (Option SigningKeyEmbeddedStatus)
with_key name none = none
with_key name (some key_pair) = some (some (record { name = name; key_pair = key_pair }))

pub owned_entry :
    String → SigningKey → Option TypedObjectReference → Option (Option SigningKeyEmbeddedStatus)
unfolding with_key
owned_entry owner_uid sk none = none
owned_entry owner_uid sk (some owner_ref) =
    if owner_ref.uid == owner_uid then with_key sk.name sk.status.key_pair else some none

pub item_entry : String → SigningKey → Option (Option SigningKeyEmbeddedStatus)
unfolding owned_entry
item_entry owner_uid sk =
    if is_ready sk.status then owned_entry owner_uid sk sk.status.owner_ref else some none

-- The body of the loop over the items.
pub add_entry :
    Option (Option SigningKeyEmbeddedStatus)
    → List SigningKeyEmbeddedStatus
    → Option (List SigningKeyEmbeddedStatus)
unfolding insert
add_entry none t = none
add_entry (some none) t = some t
add_entry (some (some e)) t = some (insert e t)

-- The loop over the items of the list, which builds `nextSKsByName`.
pub collect :
    String
    → List SigningKey
    → List SigningKeyEmbeddedStatus
    → Option (List SigningKeyEmbeddedStatus)
unfolding item_entry add_entry
collect owner_uid [] t = some t
collect owner_uid (sk ∷ sks) t = do
  t' ← add_entry (item_entry owner_uid sk) t
  collect owner_uid sks t'

abbrev pub kept :
    Option SigningKeyEmbeddedStatus
    → List SigningKeyEmbeddedStatus × List SigningKeyEmbeddedStatus
    → List SigningKeyEmbeddedStatus × List SigningKeyEmbeddedStatus
kept none rest = rest
kept (some next) rest = (next ∷ rest.0, rest.1)

pub left :
    Option SigningKeyEmbeddedStatus
    → String
    → List SigningKeyEmbeddedStatus
    → List SigningKeyEmbeddedStatus
unfolding delete
left none n t = t
left (some _) n t = delete n t

-- The loop over the current keys: what it keeps, and what it leaves in `nextSKsByName`.
pub keep :
    List SigningKeyEmbeddedStatus
    → List SigningKeyEmbeddedStatus
    → List SigningKeyEmbeddedStatus × List SigningKeyEmbeddedStatus
unfolding lookup left
keep [] t = ([], t)
keep (e ∷ es) t = let next = lookup e.name t in kept next (keep es (left next e.name t))

-- `order` is the order in which `range` visits the entries of a map, which Go leaves open.
pub next_signing_keys :
    (List SigningKeyEmbeddedStatus → List SigningKeyEmbeddedStatus)
    → String
    → List SigningKeyEmbeddedStatus
    → List SigningKey
    → Option (List SigningKeyEmbeddedStatus)
unfolding collect keep
next_signing_keys order owner_uid current items = do
  t ← collect owner_uid items []
  some ((keep current t).0 ++ order (keep current t).1)
