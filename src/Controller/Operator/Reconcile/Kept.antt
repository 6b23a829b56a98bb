-- ===== src/Controller/Operator/Reconcile/Kept.antt =====
-- What `Reconcile` of internal/controller/accounts/operator_controller.go keeps.
use nats_account_operator.Common.{
  String, sym, ap, Option, none, some, List, inl, inr, Bool-cases, Option-cases,
}
use nats_account_operator.Errors.{Error, CtrlResult, mark_condition, mark_error, into_condition}
use nats_account_operator.Conditions.{get_condition, is_true}
use nats_account_operator.Api.{seed_secret_ready}
use nats_account_operator.Api.SigningKey.{SigningKey}
use nats_account_operator.Api.Operator.Calls.{
  OperatorCall, to_system_account_resolved, to_system_account_resolve_failed,
  to_system_account_resolve_unknown, to_signing_keys_updated, to_jwt_secret_ready,
  to_jwt_secret_failed, to_jwt_secret_unknown, to_seed_secret_ready, to_seed_secret_failed,
  to_seed_secret_unknown, to_initialize, call,
}
use nats_account_operator.Exec.{Exec}
use nats_account_operator.Exec.Ensures.{
  Ensures, Any, Ensures-pure, Ensures-raise, Ensures-gets, Ensures-if, Ensures-bind,
  Ensures-on_error, Ensures-expect, Ensures-or_panic,
}
use nats_account_operator.Cluster.{World, Store}
use nats_account_operator.Cluster.Writes.{IsKept, Ensures-change, Ensures-get_secret}
use nats_account_operator.Resources.{immutable, with_deletion_prevention, apply_options}
use nats_account_operator.Resources.Built.{SetsController, KeepOwners, ok_inj}
use nats_account_operator.Controller.{
  ◌and_then◌, wrap_failure, Fetched, found, not_found, unreadable, Secret,
}
use nats_account_operator.Controller.Base.Kept.{
  IsForeign, Ensures-reconcile_seed_secret, Ensures-jwt_from,
}
use nats_account_operator.Controller.SigningKey.Reconcile.{is_zero}
use nats_account_operator.Controller.Operator.{
  Operator, client_operator, Env, mark, mark_and_return, owned_keys, keys_listed,
  ensure_signing_keys_updated, check_account, ensure_system_account_resolved,
}
use nats_account_operator.Controller.Operator.Reconcile.{
  reconcile_jwt_secret, keys_failed, after_seed, seed_options, reconcile_body,
}

-- The options of the seed secret leave the owner references.
seed_options-KeepOwners : {S K C : Type 0} (env : Env S K C) → KeepOwners (seed_options env)
unfolding apply_options immutable with_deletion_prevention ◌and_then◌ wrap_failure
seed_options-KeepOwners env s t h = ap (λ x. x.owner_references) (sym (ok_inj _ t h))

-- A property of the Operator that every method of its status keeps.
abbrev pub IsStable : (Operator → Type 0) → Type 0
IsStable G = (c : OperatorCall) (o : Operator) → G o → G (record o { status = call c o.status })

module _ {G : Operator → Type 0} (stable : IsStable G) (F : Secret → Type 0) (start : Store) where
  -- Either method that `MarkCondition` may choose.
  mark_condition-call :
      (c d : String → String → OperatorCall) (err : Error) (o : Operator)
      → G o
      → G (record o {
        status = mark_condition err (λ r m. call (c r m)) (λ r m. call (d r m)) o.status;
      })
  unfolding mark_condition mark_error
  mark_condition-call c d err o h = elim (Option-cases (into_condition err)) [
    | inl q ↦ rw q (stable (d _ _) o h)
    | inr (k, q) ↦ elim (Bool-cases k.failure) [
      | inl p ↦ rw (q, p) (stable (c _ _) o h)
      | inr p ↦ rw (q, p) (stable (d _ _) o h)
    ]
  ]

  mark-Kept :
      {E : Type 0} (c : OperatorCall) → Ensures {E = E} (IsKept F G start) Any (mark (call c))
  unfolding mark
  mark-Kept c = Ensures-change F G start (λ o. record o { status = call c o.status }) (stable c)

  mark_and_return-Kept :
      {A : Type 0} {Q : A → Type 0} (c d : String → String → OperatorCall) (err : Error)
      → Ensures
          (IsKept F G start)
          Q
          (mark_and_return (λ r m. call (c r m)) (λ r m. call (d r m)) err)
  unfolding mark_and_return mark
  mark_and_return-Kept c d err =
      Ensures-bind _ _ (Ensures-change F G start _ (mark_condition-call c d err))
        λ _ _. Ensures-raise _

module _ {S K C : Type 0} (env : Env S K C) (laws : SetsController env.lib) {G : Operator → Type 0}
    (stable : IsStable G) (o : Operator) (start : Store) where
  abbrev F : Secret → Type 0
  F = IsForeign (client_operator o)

  abbrev Keeps : {E A : Type 0} → Exec (World Operator) E A → Type 0
  Keeps m = Ensures (IsKept F G start) Any m

  keys_listed-Kept : (l : Fetched (Option (List SigningKey))) → Keeps (keys_listed env o l)
  unfolding keys_listed call
  keys_listed-Kept (found none) = Ensures-pure _ tt
  keys_listed-Kept (found (some sks)) =
      Ensures-bind _ _ (Ensures-or_panic (owned_keys o sks))
        λ keys _. mark-Kept stable F start (to_signing_keys_updated keys)
  keys_listed-Kept (not_found err) = Ensures-raise _
  keys_listed-Kept (unreadable err) = Ensures-raise _

  keys_failed-Kept :
      {A : Type 0} {Q : A → Type 0} (e : Fetched (Unit {0}))
      → Ensures (IsKept F G start) Q (keys_failed env e)
  unfolding keys_failed
  keys_failed-Kept (found x) = Ensures-raise _
  keys_failed-Kept (not_found err) = Ensures-raise _
  keys_failed-Kept (unreadable err) = Ensures-raise _

  account-Kept : Keeps (ensure_system_account_resolved env o)
  unfolding ensure_system_account_resolved check_account call
  account-Kept = Ensures-bind _ _ (Ensures-expect (env.get_account _ _) _) λ acc _.
      Ensures-if (is_true (get_condition seed_secret_ready acc.status.accessor)) _ _
        (Ensures-bind _ _ (Ensures-or_panic acc.status.key_pair)
          λ kp _. mark-Kept stable F start (to_system_account_resolved _))
        (Ensures-raise _)

  jwt-Kept : (seed : String) → Keeps (reconcile_jwt_secret env o seed)
  unfolding reconcile_jwt_secret
  jwt-Kept seed = Ensures-bind _ _ (Ensures-expect (env.lib.parse_seed seed) _) λ kp _.
      Ensures-bind _ _ (Ensures-gets (λ w. w.object.status)) λ status _.
        Ensures-bind _ _ (Ensures-expect _ _) λ claims _.
          Ensures-bind _ _ (Ensures-get_secret F G start env.faults _ _) λ got r.
            Ensures-bind _ _
              (Ensures-jwt_from env.lib laws env.faults (client_operator o) G start _ _ got r)
              λ _ _. Ensures-pure _ tt

  after_seed-Kept : (seed : String) (result : CtrlResult) → Keeps (after_seed env o seed result)
  unfolding after_seed ensure_signing_keys_updated call
  after_seed-Kept seed result =
      Ensures-if (is_zero result) _ _
        (Ensures-bind _ _
          (Ensures-on_error _ _ account-Kept (
            mark_and_return-Kept stable F start to_system_account_resolve_failed
              to_system_account_resolve_unknown))
          λ _ _.
            Ensures-bind _ _
              (Ensures-on_error _ _ (keys_listed-Kept (env.list_signing_keys o.meta.namespace))
                keys_failed-Kept)
              λ _ _.
                Ensures-bind _ _
                  (Ensures-on_error _ _ (jwt-Kept seed) (
                    mark_and_return-Kept stable F start to_jwt_secret_failed to_jwt_secret_unknown))
                  λ _ _.
                    Ensures-bind _ _ (mark-Kept stable F start to_jwt_secret_ready)
                      λ _ _. Ensures-pure _ tt)
        (Ensures-pure _ tt)

  pub Ensures-reconcile_body :
      Ensures (IsKept (IsForeign (client_operator o)) G start) Any (reconcile_body env o)
  unfolding reconcile_body call
  Ensures-reconcile_body = Ensures-bind _ _ (mark-Kept stable F start to_initialize) λ _ _.
      Ensures-bind _ _
        (Ensures-on_error _ _
          (Ensures-reconcile_seed_secret env.lib laws env.faults (client_operator o) G start
            (seed_options env) (seed_options-KeepOwners env) env.create_operator)
          (mark_and_return-Kept stable F start to_seed_secret_failed to_seed_secret_unknown))
        λ seeded _.
          Ensures-bind _ _ (mark-Kept stable F start (to_seed_secret_ready _))
            λ _ _. after_seed-Kept _ _
