-- ===== src/Controller/SigningKey/Resolved.antt =====
-- Which owners `ensureOwnerResolved` of signingkey_controller.go (internal/controller/accounts)
-- accepts.
use nats_account_operator.Common.{
  String, ◌==◌, eq_of_==, ◌≡◌, ◌≢◌, refl, sym, ◌∙◌, inl, inr, Bool, true, Option, none, some, List,
  arith, Bool-cases, Option-cases,
}
use nats_account_operator.Errors.{Error}
use nats_account_operator.Api.{TypedObjectReference}
use nats_account_operator.Api.SigningKey.{SigningKey}
use nats_account_operator.Api.SigningKey.Fields.{
  owner_ref-mark_owner_resolved, owner_ref-mark_owner_resolve_failed,
  owner_ref-mark_owner_resolve_unknown,
}
use nats_account_operator.Controller.{Outcome, ok, failed, Fetched, found, not_found, unreadable}
use nats_account_operator.Controller.SigningKey.{
  Env, Owner, OwnerType, account, operator, unsupported, check_match, check_selector,
  validate_owner_requirements, owner_reference, resolve_valid, resolve_owner, resolve_type,
  ensure_owner_resolved,
}

some_error_ne : {err : Error} → some err ≢ none
some_error_ne h = ground arith

some_ne : {ref : TypedObjectReference} → none ≢ some ref
some_ne h = ground arith

ref_inj : {r s : TypedObjectReference} → some r ≡ some s → r ≡ s
ref_inj h = ground arith

module _ {S K : Type 0} (env : Env S K) where
  -- The selector of the owner, if there is one, compiles and matches the labels.
  abbrev pub Selects : Option S → SigningKey → Type 0
  Selects none sk = Unit
  Selects (some selector) sk =
      (matches : List (String × String) → Bool) × (env.as_selector selector ≡ ok matches)
      × (matches sk.labels ≡ true)

  -- An Account or Operator that the client finds under the name of the reference, in the namespace
  -- of the SigningKey and with a selector that admits it.
  abbrev pub IsAllowed : SigningKey → Owner S → Type 0
  IsAllowed sk owner =
      (type : OwnerType) × (env.scheme_new sk.spec.owner_ref.api_version sk.spec.owner_ref.kind
        ≡ type)
      × (type ≢ unsupported)
      × (env.get_owner type sk.namespace sk.spec.owner_ref.name ≡ found owner)
      × (owner.namespace ≡ sk.namespace)
      × Selects owner.signing_keys_selector sk

  match_valid :
      (sk : SigningKey) (selector : S) (o : Outcome (List (String × String) → Bool))
      → check_match env sk o ≡ none
      → (matches : List (String × String) → Bool) × (o ≡ ok matches) × (matches sk.labels ≡ true)
  unfolding check_match
  match_valid sk selector (failed err) h = absurd (ground arith)
  match_valid sk selector (ok matches) h = (matches, refl, ground arith)

  selector_valid : (sk : SigningKey) (o : Option S) → check_selector env sk o ≡ none → Selects o sk
  unfolding check_selector
  selector_valid sk none h = tt
  selector_valid sk (some selector) h = match_valid sk selector (env.as_selector selector) h

  requirements_valid :
      (owner : Owner S) (sk : SigningKey)
      → validate_owner_requirements env owner sk ≡ none
      → (owner.namespace ≡ sk.namespace) × Selects owner.signing_keys_selector sk
  unfolding validate_owner_requirements
  requirements_valid owner sk h = elim (Bool-cases (owner.namespace == sk.namespace)) [
    | inl q ↦ (
      eq_of_== owner.namespace sk.namespace q,
      selector_valid sk owner.signing_keys_selector (rw q at h),
    )
    | inr q ↦ absurd (some_error_ne (rw q at h))
  ]

  fetched_resolved :
      (sk : SigningKey) (ref : TypedObjectReference) (o : Fetched (Owner S))
      → (resolve_owner env sk o).0.status.owner_ref ≡ some ref
      → (owner : Owner S) × (o ≡ found owner)
        × (ref ≡ owner_reference env owner)
        × (owner.namespace ≡ sk.namespace)
        × Selects owner.signing_keys_selector sk
  unfolding resolve_owner resolve_valid
  fetched_resolved sk ref (not_found err) h =
      absurd (some_ne (sym (owner_ref-mark_owner_resolve_failed _ _ sk.status) ∙ h))
  fetched_resolved sk ref (unreadable err) h =
      absurd (some_ne (sym (owner_ref-mark_owner_resolve_unknown _ _ sk.status) ∙ h))
  fetched_resolved sk ref (found owner) h =
      elim (Option-cases (validate_owner_requirements env owner sk)) [
        | inl q ↦
            let (n, m) = requirements_valid owner sk q in
            (
              owner,
              refl,
              ref_inj (
                  sym (rw q at h)
                  ∙ owner_ref-mark_owner_resolved (owner_reference env owner) sk.status),
              n,
              m,
            )
        | inr (err, q) ↦
            absurd (some_ne (sym (owner_ref-mark_owner_resolve_failed _ _ sk.status) ∙ (rw q at h)))
      ]

  type_resolved :
      (sk : SigningKey) (ref : TypedObjectReference) (type : OwnerType)
      → (resolve_type env sk type).0.status.owner_ref ≡ some ref
      → (owner : Owner S) × (type ≢ unsupported)
        × (env.get_owner type sk.namespace sk.spec.owner_ref.name ≡ found owner)
        × (ref ≡ owner_reference env owner)
        × (owner.namespace ≡ sk.namespace)
        × Selects owner.signing_keys_selector sk
  unfolding resolve_type
  type_resolved sk ref unsupported h =
      absurd (some_ne (sym (owner_ref-mark_owner_resolve_failed _ _ sk.status) ∙ h))
  type_resolved sk ref account h =
      let (owner, p, q, n, m) =
        fetched_resolved sk ref (env.get_owner account sk.namespace sk.spec.owner_ref.name) h in
      (owner, (λ e. ground arith), p, q, n, m)
  type_resolved sk ref operator h =
      let (owner, p, q, n, m) =
        fetched_resolved sk ref (env.get_owner operator sk.namespace sk.spec.owner_ref.name) h in
      (owner, (λ e. ground arith), p, q, n, m)

  -- When `ensureOwnerResolved` leaves an owner reference in the status, it names an Account or an
  -- Operator that was read from the namespace of the SigningKey, and whose selector, if it has one,
  -- compiles and matches the labels of the SigningKey.
  pub ensure_owner_resolved-IsAllowed :
      (sk : SigningKey) (ref : TypedObjectReference)
      → (ensure_owner_resolved env sk).0.status.owner_ref ≡ some ref
      → (owner : Owner S) × (ref ≡ owner_reference env owner) × IsAllowed sk owner
  unfolding ensure_owner_resolved
  ensure_owner_resolved-IsAllowed sk ref h =
      let type = env.scheme_new sk.spec.owner_ref.api_version sk.spec.owner_ref.kind in
      let (owner, s, p, q, n, m) = type_resolved sk ref type h in
      (owner, q, (type, refl, s, p, n, m))
