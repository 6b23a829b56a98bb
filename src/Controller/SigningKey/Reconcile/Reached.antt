-- ===== src/Controller/SigningKey/Reconcile/Reached.antt =====
-- The status that `Reconcile` of signingkey_controller.go (internal/controller/accounts) leaves.
use nats_account_operator.Common.{
  String, ◌==◌, ◌≡◌, ◌≢◌, refl, sym, ◌∙◌, ap, inl, inr, true, Option, none, some, [], ◌∷◌, ◌++◌,
  Bool-cases, Option-cases,
}
use nats_account_operator.Errors.{Error, CtrlResult}
use nats_account_operator.Api.{TypedObjectReference}
use nats_account_operator.Api.SigningKey.{SigningKey, is_ready, initialize_status}
use nats_account_operator.Api.SigningKey.Calls.{
  SigningKeyCall, to_owner_resolved, to_owner_resolve_failed, to_owner_resolve_unknown,
  to_seed_secret_ready, to_initialize, call, signing_key_lifecycle, blank_signing_key,
}
use nats_account_operator.Api.Lifecycle.{run_calls-snoc}
use nats_account_operator.Helpers.Total.{IsReached, reached_ready}
use nats_account_operator.Controller.{
  Outcome, ok, failed, Fetched, found, not_found, unreadable, Secret, get_or_empty, set_field,
}
use nats_account_operator.Controller.SigningKey.{
  Env, Owner, OwnerType, account, operator, unsupported, validate_owner_requirements,
  owner_reference, resolve_valid, resolve_owner, resolve_type, ensure_owner_resolved, after_update,
  update_label, label_owner, reconcile_labels, with_status,
}
use nats_account_operator.Controller.SigningKey.Reconcile.{
  Ended, ready_with, create_secret, with_public_key, with_seed, with_key_pair, from_secret,
  create_key_pair, is_zero, ensure_key_pair, wrap_key_pair, after_labels, after_owner,
  reconcile_body,
}

IsReached-call :
    (c : SigningKeyCall) (sk : SigningKey) → IsReached sk → IsReached (with_status (call c) sk)
IsReached-call c sk (clock, cs, q) = (
  clock,
  cs ++ c ∷ [],
  ap (call c) q ∙ sym (run_calls-snoc signing_key_lifecycle cs c (blank_signing_key clock)),
)

abbrev labelled : String → String → SigningKey → SigningKey
labelled label name sk = record sk { labels = set_field label name sk.labels }

module _ {S K : Type 0} (env : Env S K) where
  -- The client writes back into the object what the server stores, whose status is one that this
  -- controller wrote.
  abbrev pub StoresReached : Type 0
  StoresReached = (sk stored : SigningKey) → env.update_object sk ≡ ok stored → IsReached stored

  valid-IsReached :
      (owner : Owner S) (sk : SigningKey) (o : Option Error)
      → IsReached sk
      → IsReached (resolve_valid env owner sk o).0
  unfolding resolve_valid call
  valid-IsReached owner sk none h =
      IsReached-call (to_owner_resolved (owner_reference env owner)) sk h
  valid-IsReached owner sk (some err) h = IsReached-call (to_owner_resolve_failed _ _) sk h

  fetched-IsReached :
      (sk : SigningKey) (o : Fetched (Owner S))
      → IsReached sk
      → IsReached (resolve_owner env sk o).0
  unfolding resolve_owner call
  fetched-IsReached sk (found owner) h =
      valid-IsReached owner sk (validate_owner_requirements env owner sk) h
  fetched-IsReached sk (not_found err) h = IsReached-call (to_owner_resolve_failed _ _) sk h
  fetched-IsReached sk (unreadable err) h = IsReached-call (to_owner_resolve_unknown _ _) sk h

  type-IsReached :
      (sk : SigningKey) (type : OwnerType) → IsReached sk → IsReached (resolve_type env sk type).0
  unfolding resolve_type call
  type-IsReached sk unsupported h = IsReached-call (to_owner_resolve_failed _ _) sk h
  type-IsReached sk account h =
      fetched-IsReached sk (env.get_owner account sk.namespace sk.spec.owner_ref.name) h
  type-IsReached sk operator h =
      fetched-IsReached sk (env.get_owner operator sk.namespace sk.spec.owner_ref.name) h

  module _ (stores : StoresReached) where
    stored-IsReached :
        (sk : SigningKey) (o : Outcome SigningKey)
        → env.update_object sk ≡ o
        → IsReached sk
        → IsReached (after_update env sk o).0
    unfolding after_update
    stored-IsReached sk (ok stored) e h = stores sk stored e
    stored-IsReached sk (failed err) e h = h

    update-IsReached :
        (label name : String) (sk : SigningKey)
        → IsReached sk
        → IsReached (update_label env label name sk).0
    unfolding update_label
    update-IsReached label name sk h = elim (Bool-cases (get_or_empty label sk.labels == name)) [
      | inl q ↦ rw q h
      | inr q ↦ rw q (
          stored-IsReached (labelled label name sk) (env.update_object (labelled label name sk))
            refl h)
    ]

    label-IsReached :
        (o : Option TypedObjectReference) (sk : SigningKey)
        → IsReached sk
        → IsReached (label_owner env o sk).0
    unfolding label_owner
    label-IsReached none sk h = h
    label-IsReached (some ref) sk h = elim (Bool-cases (ref.kind == "Operator")) [
      | inl q ↦ rw q (update-IsReached _ _ sk h)
      | inr q ↦ elim (Bool-cases (ref.kind == "Account")) [
        | inl p ↦ rw (q, p) (update-IsReached _ _ sk h)
        | inr p ↦ rw (q, p) h
      ]
    ]

  ready_with-IsReached :
      (public_key : String) (sk : SigningKey)
      → IsReached sk
      → IsReached (ready_with env public_key sk)
  unfolding ready_with call
  ready_with-IsReached public_key sk h =
      IsReached-call (to_seed_secret_ready public_key sk.spec.seed_secret_name) sk h

  created-IsReached :
      (sk : SigningKey) (public_key : String) (o : Outcome Secret)
      → IsReached sk
      → IsReached (create_secret env sk public_key o).object
  unfolding create_secret
  created-IsReached sk public_key (failed err) h = h
  created-IsReached sk public_key (ok secret) h = elim (Option-cases (env.create_secret secret)) [
    | inl q ↦ rw q (ready_with-IsReached public_key sk h)
    | inr (err, q) ↦ rw q h
  ]

  public_key-IsReached :
      (sk : SigningKey) (seed : String) (o : Outcome String)
      → IsReached sk
      → IsReached (with_public_key env sk seed o).object
  unfolding with_public_key
  public_key-IsReached sk seed (failed err) h = h
  public_key-IsReached sk seed (ok public_key) h = created-IsReached sk public_key _ h

  seed-IsReached :
      (sk : SigningKey) (kp : K) (o : Outcome String)
      → IsReached sk
      → IsReached (with_seed env sk kp o).object
  unfolding with_seed
  seed-IsReached sk kp (failed err) h = h
  seed-IsReached sk kp (ok seed) h = public_key-IsReached sk seed (env.public_key kp) h

  secret-IsReached :
      (sk : SigningKey) (o : Fetched Secret)
      → IsReached sk
      → IsReached (from_secret env sk o).object
  unfolding from_secret with_key_pair
  secret-IsReached sk (found secret) h = ready_with-IsReached _ sk h
  secret-IsReached sk (unreadable err) h = h
  secret-IsReached sk (not_found err) h = pair_reached (create_key_pair env sk.spec.owner_ref.kind)
    where
      pair_reached : (o : Outcome K) → IsReached (with_key_pair env sk o).object
      pair_reached (failed err) = h
      pair_reached (ok kp) = seed-IsReached sk kp (env.seed kp) h

  wrap-IsReached :
      (e : Ended) (o : Option Error) → IsReached e.object → IsReached (wrap_key_pair env e o).object
  unfolding wrap_key_pair
  wrap-IsReached e none h = h
  wrap-IsReached e (some err) h = h

  labels-IsReached :
      (r : SigningKey × (CtrlResult × Option Error))
      → IsReached r.0
      → IsReached (after_labels env r).object
  unfolding after_labels ensure_key_pair
  labels-IsReached (sk, (result, some err)) h = h
  labels-IsReached (sk, (result, none)) h = elim (Bool-cases (is_zero result)) [
    | inl q ↦ rw q (
        wrap-IsReached (ensure_key_pair env sk) (ensure_key_pair env sk).err
          (secret-IsReached sk (env.get_secret sk.namespace sk.spec.seed_secret_name) h))
    | inr q ↦ rw q h
  ]

  owner-IsReached :
      StoresReached
      → (r : SigningKey × Option Error) → IsReached r.0
      → IsReached (after_owner env r).object
  unfolding after_owner reconcile_labels call
  owner-IsReached stores (sk, none) h =
      labels-IsReached (label_owner env sk.status.owner_ref sk)
        (label-IsReached stores sk.status.owner_ref sk h)
  owner-IsReached stores (sk, some err) h = IsReached-call (to_owner_resolve_failed _ _) sk h

  -- On every path of `Reconcile`, errors included, the status of the SigningKey is one that the
  -- methods of `SigningKeyStatus` can reach, when the status before was reached so, and so was the
  -- status of whatever object the server returns from the update of the labels.
  pub reconcile_body-IsReached :
      ((sk stored : SigningKey) → env.update_object sk ≡ ok stored → IsReached stored)
      → (sk : SigningKey) → IsReached sk
      → IsReached (reconcile_body env sk).object
  unfolding reconcile_body ensure_owner_resolved call
  reconcile_body-IsReached stores sk h =
      let started = with_status initialize_status sk in
      owner-IsReached stores (ensure_owner_resolved env started) (
        type-IsReached started (env.scheme_new sk.spec.owner_ref.api_version sk.spec.owner_ref.kind)
          (IsReached-call to_initialize sk h))

  -- A SigningKey that is ready after `Reconcile` has a key pair and an owner reference, when the
  -- methods of `SigningKeyStatus` reached the status before, and the status of whatever object the
  -- server returns from the update of the labels.
  pub reconcile_body_ready :
      ((sk stored : SigningKey) → env.update_object sk ≡ ok stored → IsReached stored)
      → (sk : SigningKey) → IsReached sk
      → let after = (reconcile_body env sk).object in
        is_ready after.status ≡ true
        → (after.status.key_pair ≢ none) × (after.status.owner_ref ≢ none)
  reconcile_body_ready stores sk h =
      reached_ready (reconcile_body env sk).object (reconcile_body-IsReached stores sk h)
