-- ===== src/Controller/Operator/Reconcile.antt =====
-- `Reconcile` and `reconcileJWTSecret` of internal/controller/accounts/operator_controller.go.
pub mod Kept
pub mod Safe
use Prim.Native.String.{◌++◌}
use nats_account_operator.Common.{
  String, ◌==◌, ℕ, Bool, true, false, ◌&&◌, Option, none, some, List, [], ◌∷◌, if◌then◌else◌,
}
use nats_account_operator.Errors.{
  Error, plain, wrapped, error_text, CtrlResult, no_result, as_result, mark_condition,
  condition_failed, reason_unknown_error,
}
use nats_account_operator.Conditions.{get_condition, is_true}
use nats_account_operator.Api.{
  KeyPair, TypedObjectReference, SigningKeyEmbeddedStatus, KeyPairReference, seed_secret_ready,
}
use nats_account_operator.Api.SigningKey.{SigningKey, is_ready}
use nats_account_operator.Api.Operator.{
  OperatorStatus, initialize_status, mark_seed_secret_ready, mark_seed_secret_failed,
  mark_seed_secret_unknown, mark_system_account_resolved, mark_system_account_resolve_failed,
  mark_system_account_resolve_unknown, mark_signing_keys_updated, mark_jwt_secret_ready,
  mark_jwt_secret_failed, mark_jwt_secret_unknown,
}
use nats_account_operator.Nsc.Operator.{OperatorSpec, OperatorClaims, create_operator_claims}
use nats_account_operator.Exec.{
  Exec, Result, done, raised, panicked, pure, raise, panic, gets, ◌>>=◌, on_error, expect, or_panic,
}
use nats_account_operator.Cluster.{
  ObjectMeta, ClientObject, operator_type, World, Store, Verdict, change, get_secret,
}
use nats_account_operator.Resources.{Library, SecretOption, immutable, with_deletion_prevention}
use nats_account_operator.Controller.{Outcome, ok, failed, Fetched, found, not_found, unreadable}
use nats_account_operator.Controller.SigningKey.{Update, updated, conflict, update_failed}
use nats_account_operator.Controller.SigningKey.Reconcile.{is_zero, second}
use nats_account_operator.Controller.Base.{
  because, terminal_failure, reconcile_seed_secret, jwt_from,
}
use nats_account_operator.Controller.Objects.{Account}
use nats_account_operator.Controller.Operator.{
  Operator, client_operator, Env, Returned, Run, mark, mark_and_return, ensure_signing_keys_updated,
  ensure_system_account_resolved,
}

module _ {S K C : Type 0} (env : Env S K C) where
  unfoldable pub reconcile_jwt_secret : Operator → String → Run Error CtrlResult
  reconcile_jwt_secret o seed = do
    kp ←
        expect (env.lib.parse_seed seed)
          (terminal_failure reason_unknown_error "failed to get signing key from seed: ")
    status ← gets (λ w. w.object.status)
    (want_claims, next_jwt) ←
        expect
          (create_operator_claims env.new_operator_claims env.operator_claim env.encode o.meta.name
            o.spec.claims status env.now kp)
          (terminal_failure reason_unknown_error "failed to create account JWT claims: ")
    got ← get_secret env.faults o.meta.namespace o.spec.jwt_secret_name
    (_, result) ←
        jwt_from env.lib env.faults (client_operator o) (env.as_claims want_claims) next_jwt got
    pure result

  abbrev pub half_minute : CtrlResult
  half_minute = record { requeue = false; requeue_after = 30000000000 }

  unfoldable pub keys_failed : {A : Type 0} → Fetched (Unit {0}) → Run Returned A
  keys_failed (not_found err) = raise (half_minute, none)
  keys_failed (unreadable err) = raise (no_result, some err)
  keys_failed (found x) = raise (no_result, none)

  unfoldable pub after_seed : Operator → String → CtrlResult → Run Returned Returned
  after_seed o seed result =
      if is_zero result
      then (do
        _ ←
            on_error (ensure_system_account_resolved env o) (
              mark_and_return mark_system_account_resolve_failed
                mark_system_account_resolve_unknown)
        _ ← on_error (ensure_signing_keys_updated env o) keys_failed
        result' ←
            on_error (reconcile_jwt_secret o seed)
              (mark_and_return mark_jwt_secret_failed mark_jwt_secret_unknown)
        _ ← mark mark_jwt_secret_ready
        pure (result', none))
      else pure (result, none)

  abbrev pub seed_options : List SecretOption
  seed_options = immutable ∷ with_deletion_prevention ∷ []

  -- The body of `Reconcile`, without the deferred update of the status.
  unfoldable pub reconcile_body : Operator → Run Returned Returned
  reconcile_body o = do
    _ ← mark initialize_status
    (kp, (seed, result)) ←
        on_error
          (reconcile_seed_secret env.lib env.faults (client_operator o) env.create_operator
            o.spec.seed_secret_name seed_options)
          (mark_and_return mark_seed_secret_failed mark_seed_secret_unknown)
    _ ← mark (mark_seed_secret_ready kp)
    after_seed o seed result

  abbrev status_error : Error → Error
  status_error = because "failed to update operator status: "

  unfoldable pub after_status_update : Returned → Update → Returned
  after_status_update r updated = r
  after_status_update (result, err) (update_failed err2) =
      (result, some (env.append_error err (status_error err2)))
  after_status_update (result, none) (conflict err2) = (second, none)
  after_status_update (result, some err) (conflict err2) =
      (result, some (env.append_error (some err) (status_error err2)))

  -- The deferred function.
  unfoldable pub update_status : OperatorStatus → Operator → Returned → Returned
  unfolding after_status_update
  update_status original o r =
      if env.same_status original o.status then r else after_status_update r (env.update_status o)

  unfoldable pub finish :
      OperatorStatus → Result Returned Returned × World Operator → Option Returned × World Operator
  unfolding update_status
  finish original (done r, w) = (some (update_status original w.object r), w)
  finish original (raised r, w) = (some (update_status original w.object r), w)
  finish original (panicked, w) = (none, w)

  unfoldable pub start : Store → Operator → World Operator
  start secrets o = record { object = o; secrets = secrets; calls = 0 }

  unfoldable pub reconcile_fetched :
      Store → Fetched Operator → Option Returned × Option (World Operator)
  unfolding finish start reconcile_body
  reconcile_fetched secrets (not_found err) = (some (no_result, none), none)
  reconcile_fetched secrets (unreadable err) = (some (no_result, some err), none)
  reconcile_fetched secrets (found o) =
      let r = finish o.status (reconcile_body o (start secrets o)) in (r.0, some r.1)

  unfoldable pub reconcile : Store → Option Returned × Option (World Operator)
  unfolding reconcile_fetched
  reconcile secrets = reconcile_fetched secrets env.get_operator
