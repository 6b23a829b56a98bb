-- ===== src/Controller/Operator/Watches.antt =====
-- Which Operators a change of another object enqueues: the functions that `SetupWithManager` of
-- internal/controller/accounts/operator_controller.go gives to the watches. A request is a namespace
-- and a name. Two GroupVersionKinds are compared by the texts that they are parsed from.
use nats_account_operator.Common.{
  String, ◌==◌, eq_iff, ◌≡◌, ◌≢◌, ◌⊎◌, ◌↔◌, refl, inl, inr, Bool, true, Option-cases, ◌&&◌, Option,
  none, some, List, [], ◌∷◌, arith, Bool-cases, if◌then◌else◌,
}
use nats_account_operator.Api.{TypedObjectReference, InferredObjectReference}
use nats_account_operator.Api.SigningKey.{SigningKey, is_ready}
use nats_account_operator.Controller.Resolve.{Object, key_pairable}
use nats_account_operator.Controller.Objects.{Resource, account, signing_key}
use nats_account_operator.Controller.Operator.{Operator}
use nats_account_operator.Controller.Operator.Keys.{names_owner, key_of}

abbrev pub Request : Type 0
Request = String × String

unfoldable pub operator_request : Option InferredObjectReference → List Request
operator_request none = []
operator_request (some ref) = (ref.namespace, ref.name) ∷ []

unfoldable pub account_requests : {S : Type 0} → Object (Resource S) → List Request
unfolding operator_request
account_requests (key_pairable (account a)) = operator_request a.status.operator_ref
account_requests obj = []

unfoldable pub is_operator_kind : TypedObjectReference → Bool
is_operator_kind ref = (ref.api_version == "accounts.nats.io/v1alpha1") && (ref.kind == "Operator")

unfoldable pub owner_request : Option TypedObjectReference → List Request
unfolding is_operator_kind
owner_request none = []
owner_request (some ref) = if is_operator_kind ref then (ref.namespace, ref.name) ∷ [] else []

unfoldable pub signing_key_requests : {S : Type 0} → Object (Resource S) → List Request
unfolding owner_request
signing_key_requests (key_pairable (signing_key sk)) = owner_request sk.status.owner_ref
signing_key_requests obj = []

owner_named :
    (o : Operator) (ref : TypedObjectReference)
    → names_owner o (some ref) ≡ true
    → (ref.namespace ≡ o.meta.namespace) × (ref.name ≡ o.meta.name)
owner_named o ref h = (
  ground (arith, eq_iff ref.namespace o.meta.namespace, eq_iff ref.name o.meta.name),
  ground (arith, eq_iff ref.namespace o.meta.namespace, eq_iff ref.name o.meta.name),
)

not_named : (o : Operator) → names_owner o none ≢ true
not_named o h = ground arith

counted :
    (o : Operator) (sk : SigningKey) → key_of o sk ≢ [] → names_owner o sk.status.owner_ref ≡ true
counted o sk h = elim (Bool-cases (names_owner o sk.status.owner_ref)) [
  | inl q ↦ q
  | inr q ↦ elim (Bool-cases (is_ready sk.status)) [
    | inl p ↦ absurd (h (rw (p, q) refl))
    | inr p ↦ absurd (h (rw p refl))
  ]
]

is_operator_kind_iff :
    (ref : TypedObjectReference)
    → (is_operator_kind ref ≡ true)
      ↔ ((ref.api_version ≡ "accounts.nats.io/v1alpha1") × (ref.kind ≡ "Operator"))
unfolding is_operator_kind
is_operator_kind_iff ref =
    let a = eq_iff ref.api_version "accounts.nats.io/v1alpha1" in
    let b = eq_iff ref.kind "Operator" in
    (λ e. (a.0 (ground arith), b.0 (ground arith)), λ e. ground (arith, a.1 e.0, b.1 e.1))

-- When an Operator counts a SigningKey among its own, the key has an owner reference. If this has
-- the API version of the group and the kind of an Operator, a change of the key enqueues that
-- Operator and nothing else; if either differs, it enqueues nothing, although the key is counted.
pub signing_key_requests_lem :
    (S : Type 0) (o : Operator) (sk : SigningKey)
    → key_of o sk ≢ []
    → let requests = signing_key_requests {S = S} (key_pairable (signing_key sk)) in
      (ref : TypedObjectReference) × (sk.status.owner_ref ≡ some ref)
      × ((ref.api_version ≡ "accounts.nats.io/v1alpha1")
            × (ref.kind ≡ "Operator")
            × (requests ≡ (o.meta.namespace, o.meta.name) ∷ [])
          ⊎ (¬ ((ref.api_version ≡ "accounts.nats.io/v1alpha1") × (ref.kind ≡ "Operator")))
            × (requests ≡ []))
unfolding signing_key_requests owner_request
signing_key_requests_lem S o sk h = elim (Option-cases sk.status.owner_ref) [
  | inl e ↦ absurd (not_named o (rw e at (counted o sk h)))
  | inr (ref, e) ↦
      let (a, b) = owner_named o ref (rw e at (counted o sk h)) in
      (
        ref,
        e,
        elim (Bool-cases (is_operator_kind ref)) [
          | inl k ↦ let (v, w) = (is_operator_kind_iff ref).0 k in inl (v, w, rw (e, k, a, b) refl)
          | inr k ↦ inr (λ vw. let q = (is_operator_kind_iff ref).1 vw in cc, rw (e, k) refl)
        ],
      )
]
