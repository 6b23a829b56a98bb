-- ===== src/Controller/Resolve/Resolved.antt =====
-- Which issuers `resolveIssuer` of internal/controller/accounts/base_controller.go gives.
use nats_account_operator.Common.{
  String, ◌==◌, ◌≡◌, ◌≢◌, refl, sym, inl, inr, true, arith, Bool-cases, if◌then◌else◌,
}
use nats_account_operator.Errors.{Error}
use nats_account_operator.Conditions.{
  Accessor, initialize_conditions, is_happy, is_true, get_top_level_condition,
}
use nats_account_operator.Api.{TypedObjectReference}
use nats_account_operator.Controller.{Outcome, ok, failed, Fetched, found, not_found, unreadable}
use nats_account_operator.Controller.Resolve.{
  KeyPairable, Object, key_pairable, other_object, Made, client_object, not_an_object, check_ready,
  check_object, issuer_namespace, check_made, resolve_issuer,
}

failed_ne : {V : Type 0} {e : Error} {k : V} → failed e ≢ ok k
failed_ne h = ground arith

ok_inj : {V : Type 0} (j k : V) → ok j ≡ ok k → j ≡ k
ok_inj j k h = ground arith

abbrev pub conditions_of : {V : Type 0} → KeyPairable V → V → Accessor
conditions_of methods k = initialize_conditions (methods.condition_set k) (methods.get_status k)

abbrev pub started : {V : Type 0} → KeyPairable V → V → V
started methods k = methods.set_status (conditions_of methods k) k

module _ {V : Type 0} (methods : KeyPairable V) (scheme_new : String → String → Outcome Made)
    (get : String → String → Fetched (Object V)) (gvk_text : String → String → String) where
  -- The issuer comes from an object that the client finds under the name of the reference, in its
  -- namespace or, when it has none, in the fallback; and it is ready.
  abbrev pub IsResolved : TypedObjectReference → String → V → Type 0
  IsResolved ref fallback_namespace k =
      (scheme_new ref.api_version ref.kind ≡ ok client_object)
      × ((stored : V) × (get (if ref.namespace == "" then fallback_namespace else ref.namespace)
              ref.name
            ≡ found (key_pairable stored))
          × (k ≡ started methods stored)
          × (is_happy (methods.condition_set stored) (conditions_of methods stored) ≡ true))

  ready_ok :
      (j k : V)
      → check_ready methods scheme_new get gvk_text j ≡ ok k
      → (k ≡ started methods j)
        × (is_happy (methods.condition_set j) (conditions_of methods j) ≡ true)
  unfolding check_ready is_happy
  ready_ok j k h =
      elim (Bool-cases
        (is_true (get_top_level_condition (methods.condition_set j) (conditions_of methods j)))) [
          | inl q ↦ (sym (ok_inj (started methods j) k (rw q at h)), q)
          | inr q ↦ absurd (failed_ne (rw q at h))
        ]

  object_ok :
      (ref : TypedObjectReference) (namespace : String) (k : V) (o : Fetched (Object V))
      → check_object methods scheme_new get gvk_text ref namespace o ≡ ok k
      → (stored : V) × (o ≡ found (key_pairable stored))
        × (k ≡ started methods stored)
        × (is_happy (methods.condition_set stored) (conditions_of methods stored) ≡ true)
  unfolding check_object
  object_ok ref namespace k (found (key_pairable j)) h =
      let (e, q) = ready_ok j k h in (j, refl, e, q)
  object_ok ref namespace k (found other_object) h = absurd (failed_ne h)
  object_ok ref namespace k (not_found err) h = absurd (failed_ne h)
  object_ok ref namespace k (unreadable err) h = absurd (failed_ne h)

  made_ok :
      (ref : TypedObjectReference) (fallback_namespace : String) (k : V) (o : Outcome Made)
      → scheme_new ref.api_version ref.kind ≡ o
      → check_made methods scheme_new get gvk_text ref fallback_namespace o ≡ ok k
      → IsResolved ref fallback_namespace k
  unfolding check_made issuer_namespace
  made_ok ref fallback_namespace k (failed err) e h = absurd (failed_ne h)
  made_ok ref fallback_namespace k (ok not_an_object) e h = absurd (failed_ne h)
  made_ok ref fallback_namespace k (ok client_object) e h = (e, object_ok ref _ k _ h)

  -- Whatever issuer `resolveIssuer` gives, its kind is one that the scheme knows, the client finds it
  -- under the name of the reference, in the namespace of the reference or else in the fallback one,
  -- and it is ready once its conditions are initialized.
  pub resolve_issuer-IsResolved :
      (ref : TypedObjectReference) (fallback_namespace : String) (k : V)
      → resolve_issuer methods scheme_new get gvk_text ref fallback_namespace ≡ ok k
      → IsResolved ref fallback_namespace k
  unfolding resolve_issuer
  resolve_issuer-IsResolved ref fallback_namespace k h =
      made_ok ref fallback_namespace k (scheme_new ref.api_version ref.kind) refl h
