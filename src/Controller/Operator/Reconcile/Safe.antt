-- ===== src/Controller/Operator/Reconcile/Safe.antt =====
-- Which Secrets `Reconcile` of internal/controller/accounts/operator_controller.go leaves as they
-- were, and the status that it ends with.
use nats_account_operator.Common.{
  String, ◌≡◌, ◌≢◌, sym, ◌∙◌, ap, ℕ, true, none, some, List, [], ◌∷◌, ◌++◌,
}
use nats_account_operator.Api.Operator.{is_ready}
use nats_account_operator.Api.Operator.Calls.{
  OperatorCall, call, operator_lifecycle, blank_operator, operator_ready,
}
use nats_account_operator.Api.Lifecycle.{run_calls, run_calls-snoc}
use nats_account_operator.Exec.Ensures.{Any, Post-kept}
use nats_account_operator.Cluster.{Store}
use nats_account_operator.Cluster.Writes.{IsKeyed, IsKept}
use nats_account_operator.Resources.Built.{SetsController}
use nats_account_operator.Controller.{Secret}
use nats_account_operator.Controller.Base.Kept.{IsForeign}
use nats_account_operator.Controller.Operator.{Operator, Env, client_operator}
use nats_account_operator.Controller.Operator.Reconcile.{reconcile_body, start}
use nats_account_operator.Controller.Operator.Reconcile.Kept.{IsStable, Ensures-reconcile_body}

abbrev pub IsReached : Operator → Type 0
IsReached o =
    (clock : ℕ → ℕ) × (cs : List OperatorCall) × (o.status
      ≡ run_calls operator_lifecycle cs (blank_operator clock))

IsReached-IsStable : IsStable IsReached
IsReached-IsStable c o (clock, cs, q) = (
  clock,
  cs ++ c ∷ [],
  ap (call c) q ∙ sym (run_calls-snoc operator_lifecycle cs c (blank_operator clock)),
)

Any-IsStable : IsStable Any
Any-IsStable c o h = tt

module _ {S K C : Type 0} (env : Env S K C) (laws : SetsController env.lib) (o : Operator)
    (secrets : Store) (keyed : IsKeyed secrets) where
  after-IsKept :
      (G : Operator → Type 0)
      → IsStable G
      → G o
      → IsKept
          (IsForeign (client_operator o))
          G
          secrets
          (reconcile_body env o (start env secrets o)).1
  unfolding start
  after-IsKept G stable g =
      Post-kept (IsKept (IsForeign (client_operator o)) G secrets)
        (reconcile_body env o (start env secrets o))
        ((Ensures-reconcile_body env laws stable o secrets).at (start env secrets o)
          (record { of_object = g; kept = λ ns n s f e. e; keyed = keyed }))

  -- Whatever calls of the server fail, and on every path of Reconcile of an Operator, also one
  -- that panics: a Secret that another object controls, and of which the Operator is no owner, is
  -- stored afterwards under the same name as it was. This assumes that SetControllerReference
  -- changes owner references only, does nothing a second time and refuses what another object
  -- controls, and that every Secret is stored under its own name.
  pub reconcile_operator-secrets :
      (namespace name : String) (s : Secret)
      → IsForeign (client_operator o) s
      → secrets namespace name ≡ some s
      → (reconcile_body env o (start env secrets o)).1.secrets namespace name ≡ some s
  reconcile_operator-secrets = (after-IsKept Any Any-IsStable tt).kept

  -- An Operator that is ready after Reconcile, on any path, has a key pair and a resolved system
  -- account, when the methods of OperatorStatus reached the status before; this assumes that
  -- SetControllerReference changes owner references only, does nothing a second time and refuses
  -- what another object controls, and that every Secret is stored under its own name.
  pub reconcile_operator_ready :
      IsReached o
      → let status = (reconcile_body env o (start env secrets o)).1.object.status in
        is_ready status ≡ true → (status.key_pair ≢ none) × (status.resolved_system_account ≢ none)
  reconcile_operator_ready h r =
      let (clock, cs, q) = (after-IsKept IsReached IsReached-IsStable h).of_object in
      rw q (operator_ready clock cs (rw q at r))
