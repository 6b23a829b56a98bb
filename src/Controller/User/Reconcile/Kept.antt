-- ===== src/Controller/User/Reconcile/Kept.antt =====
-- What `Reconcile` of internal/controller/accounts/user_controller.go leaves as it was, and the status
-- that it ends with.
use nats_account_operator.Common.{String, []}
use nats_account_operator.Errors.{CtrlResult}
use nats_account_operator.Api.User.Calls.{
  to_account_resolved, to_account_resolve_failed, to_account_resolve_unknown, to_issuer_resolved,
  to_issuer_resolve_failed, to_issuer_resolve_unknown, to_jwt_secret_ready, to_jwt_secret_failed,
  to_jwt_secret_unknown, to_seed_secret_ready, to_seed_secret_failed, to_seed_secret_unknown,
  to_initialize, call,
}
use nats_account_operator.Exec.{Exec}
use nats_account_operator.Exec.Ensures.{
  Ensures, Any, Ensures-pure, Ensures-gets, Ensures-if, Ensures-bind, Ensures-on_error,
  Ensures-or_raise, Ensures-expect, Ensures-or_panic, Ensures-weaken,
}
use nats_account_operator.Cluster.{World, Store}
use nats_account_operator.Cluster.Writes.{IsKept, Ensures-get_secret, Ensures-reading}
use nats_account_operator.Resources.Built.{SetsController, none-KeepOwners}
use nats_account_operator.Controller.{Secret}
use nats_account_operator.Controller.Base.Kept.{
  IsForeign, Ensures-reconcile_seed_secret, Ensures-jwt_from,
}
use nats_account_operator.Controller.Objects.{Account, Resource}
use nats_account_operator.Controller.SigningKey.Reconcile.{is_zero}
use nats_account_operator.Controller.User.{User, Env, client_user}
use nats_account_operator.Controller.User.Credentials.Kept.{Ensures-credentials}
use nats_account_operator.Controller.User.Reconcile.{
  user_claims_of, reconcile_jwt_secret, after_jwt, after_labels, after_seed, reconcile_body,
}
use nats_account_operator.Controller.User.Kept.{
  IsStable, Ensures-mark, Ensures-mark_and_raise, Ensures-validate, Ensures-resolve_account,
  Ensures-reconcile_labels,
}

module _ {S K P C : Type 0} (env : Env S K P C) (laws : SetsController env.lib) {G : User → Type 0}
    (stable : IsStable env G) (usr : User) (store : Store) where
  abbrev F : Secret → Type 0
  F = IsForeign (client_user usr)

  abbrev Keeps : {E A : Type 0} → Exec (World User) E A → Type 0
  Keeps m = Ensures (IsKept F G store) Any m

  claims_kept : (acc : Account S) (kp : K) → Keeps (user_claims_of env usr acc kp)
  unfolding user_claims_of
  claims_kept acc kp = Ensures-bind _ _ (Ensures-gets (λ w. w.object.status)) λ status _.
      Ensures-bind _ _ (Ensures-or_panic status.key_pair)
        λ k _. Ensures-weaken _ (Ensures-expect _ _) (λ _ _. tt)

  jwt_kept :
      (acc : Account S) (key_pairable : Resource S)
      → Keeps (reconcile_jwt_secret env usr acc key_pairable)
  unfolding reconcile_jwt_secret call
  jwt_kept acc key_pairable =
      Ensures-bind _ _
        (Ensures-on_error _ _ (Ensures-reading F G store env.faults _) (
          Ensures-mark_and_raise stable F store to_issuer_resolve_failed to_issuer_resolve_unknown
            _))
        λ kp _. Ensures-bind _ _ (Ensures-mark stable F store to_issuer_resolved) λ _ _.
          Ensures-bind _ _ (claims_kept acc kp) λ claims _.
            Ensures-bind _ _ (Ensures-get_secret F G store env.faults _ _)
              λ o r. Ensures-jwt_from env.lib laws env.faults (client_user usr) G store _ _ o r

  after_jwt_kept :
      (acc : Account S) (seed : String) (jwt : String × CtrlResult)
      → Keeps (after_jwt env usr acc seed jwt)
  unfolding after_jwt
  after_jwt_kept acc seed (ujwt, result) =
      Ensures-if (is_zero result) _ _
        (Ensures-bind _ _
          (Ensures-or_raise _ _ (Ensures-credentials env laws stable usr store acc ujwt seed))
          λ _ _. Ensures-pure _ tt)
        (Ensures-pure _ tt)

  after_labels_kept :
      (acc : Account S) (key_pairable : Resource S) (seed : String) (result : CtrlResult)
      → Keeps (after_labels env usr acc key_pairable seed result)
  unfolding after_labels call
  after_labels_kept acc key_pairable seed result =
      Ensures-if (is_zero result) _ _
        (Ensures-bind _ _
          (Ensures-on_error _ _ (jwt_kept acc key_pairable)
            (Ensures-mark_and_raise stable F store to_jwt_secret_failed to_jwt_secret_unknown _))
          λ jwt _.
            Ensures-bind _ _ (Ensures-mark stable F store to_jwt_secret_ready)
              λ _ _. after_jwt_kept acc seed jwt)
        (Ensures-pure _ tt)

  after_seed_kept : (seed : String) (result : CtrlResult) → Keeps (after_seed env usr seed result)
  unfolding after_seed call
  after_seed_kept seed result =
      Ensures-if (is_zero result) _ _
        (Ensures-bind _ _
          (Ensures-on_error _ _ (Ensures-expect _ _) (
            Ensures-mark_and_raise stable F store to_issuer_resolve_failed to_issuer_resolve_unknown
              _))
          λ k _.
            Ensures-bind _ _ (Ensures-or_raise _ _ (Ensures-resolve_account env stable F store k))
              λ acc _.
                Ensures-bind _ _
                  (Ensures-on_error _ _ (Ensures-validate env stable F store acc usr) (
                    Ensures-mark_and_raise stable F store to_account_resolve_failed
                      to_account_resolve_unknown _))
                  λ _ _.
                    Ensures-bind _ _ (Ensures-mark stable F store (to_account_resolved _)) λ _ _.
                      Ensures-bind _ _
                        (Ensures-or_raise _ _ (Ensures-reconcile_labels env stable F store))
                        λ r _. after_labels_kept acc k seed r)
        (Ensures-pure _ tt)

  pub Ensures-reconcile_body :
      Ensures (IsKept (IsForeign (client_user usr)) G store) Any (reconcile_body env usr)
  unfolding reconcile_body call
  Ensures-reconcile_body = Ensures-bind _ _ (Ensures-mark stable F store to_initialize) λ _ _.
      Ensures-bind _ _
        (Ensures-on_error _ _
          (Ensures-reconcile_seed_secret env.lib laws env.faults (client_user usr) G store []
            none-KeepOwners env.create_user)
          (Ensures-mark_and_raise stable F store to_seed_secret_failed to_seed_secret_unknown _))
        λ seeded _.
          Ensures-bind _ _ (Ensures-mark stable F store (to_seed_secret_ready _))
            λ _ _. after_seed_kept _ _
