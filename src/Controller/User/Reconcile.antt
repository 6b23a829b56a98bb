-- ===== src/Controller/User/Reconcile.antt =====
-- `Reconcile` and `reconcileJWTSecret` of internal/controller/accounts/user_controller.go.
pub mod Kept
pub mod Safe
use Prim.Native.String.{◌++◌}
use nats_account_operator.Common.{
  String, ℕ, Bool, true, false, Option, none, some, List, [], ◌∷◌, if◌then◌else◌,
}
use nats_account_operator.Errors.{
  Error, wrapped, error_text, CtrlResult, no_result, condition_failed, reason_unknown_error,
}
use nats_account_operator.Api.{KeyPair, InferredObjectReference}
use nats_account_operator.Api.User.{
  UserStatus, initialize_status, mark_seed_secret_ready, mark_seed_secret_failed,
  mark_seed_secret_unknown, mark_issuer_resolved, mark_issuer_resolve_failed,
  mark_issuer_resolve_unknown, mark_account_resolved, mark_account_resolve_failed,
  mark_account_resolve_unknown, mark_jwt_secret_ready, mark_jwt_secret_failed,
  mark_jwt_secret_unknown,
}
use nats_account_operator.Nsc.User.{UserClaims, create_user_claims}
use nats_account_operator.Exec.{
  Exec, Result, done, raised, panicked, pure, raise, gets, ◌>>=◌, on_error, expect, or_panic,
}
use nats_account_operator.Cluster.{World, Store, get_secret, reading}
use nats_account_operator.Controller.{
  Outcome, ok, failed, Fetched, found, not_found, unreadable, Secret,
}
use nats_account_operator.Controller.Issuer.{load_issuer_seed}
use nats_account_operator.Controller.Resolve.{resolve_issuer}
use nats_account_operator.Controller.Base.{
  terminal_failure, because, reconcile_seed_secret, jwt_from,
}
use nats_account_operator.Controller.Objects.{Account, Resource, issuer_of, resource_methods}
use nats_account_operator.Controller.SigningKey.{Update, updated, conflict, update_failed}
use nats_account_operator.Controller.SigningKey.Reconcile.{is_zero, second}
use nats_account_operator.Controller.User.{
  User, Env, mark, client_user, Action, Returned, returned, mark_and_raise, resolve_account,
  validate_account_selector, reconcile_labels,
}
use nats_account_operator.Controller.User.Credentials.{reconcile_user_credential_secret}

module _ {S K P C : Type 0} (env : Env S K P C) where
  abbrev pub Run : Type 0 → Type 0
  Run A = Exec (World User) Returned A

  -- The claims of the User, whose key pair is set by now, and the JWT for them.
  unfoldable pub user_claims_of : User → Account S → K → Action env (UserClaims × String)
  user_claims_of usr acc issuer_kp = do
    status ← gets (λ w. w.object.status)
    kp ← or_panic status.key_pair
    expect
        (create_user_claims env.new_user_claims env.nkeys.public_key env.encode kp.public_key
          usr.meta.name usr.spec.claims acc.status.key_pair issuer_kp)
        (terminal_failure reason_unknown_error "failed to create user JWT claims: ")

  unfoldable pub reconcile_jwt_secret :
      User → Account S → Resource S → Action env (String × CtrlResult)
  reconcile_jwt_secret usr acc key_pairable = do
    issuer_kp ←
        on_error
          (reading env.faults (λ get.
            load_issuer_seed env.nkeys get env.quote (issuer_of key_pairable) env.account_prefix))
          (mark_and_raise mark_issuer_resolve_failed mark_issuer_resolve_unknown (λ e. e))
    _ ← mark mark_issuer_resolved
    (want_claims, next_jwt) ← user_claims_of usr acc issuer_kp
    got ← get_secret env.faults usr.meta.namespace usr.spec.jwt_secret_name
    jwt_from env.lib env.faults (client_user usr) (env.as_claims want_claims) next_jwt got

  unfoldable pub after_jwt : User → Account S → String → String × CtrlResult → Run Returned
  after_jwt usr acc seed (ujwt, result) =
      if is_zero result
      then (do
        result' ← on_error (reconcile_user_credential_secret env usr acc ujwt seed) (λ e.
            raise (no_result, some (because "failed to reconcile user credential secret: " e)))
        pure (result', none))
      else pure (result, none)

  unfoldable pub after_labels : User → Account S → Resource S → String → CtrlResult → Run Returned
  after_labels usr acc key_pairable seed result =
      if is_zero result
      then (do
        jwt ←
            on_error (reconcile_jwt_secret usr acc key_pairable)
              (mark_and_raise mark_jwt_secret_failed mark_jwt_secret_unknown returned)
        _ ← mark mark_jwt_secret_ready
        after_jwt usr acc seed jwt)
      else pure (result, none)

  unfoldable pub after_seed : User → String → CtrlResult → Run Returned
  after_seed usr seed result =
      if is_zero result
      then (do
        key_pairable ←
            on_error
              (expect
                (resolve_issuer resource_methods env.scheme_new
                  (env.get_object usr.spec.issuer.api_version usr.spec.issuer.kind) env.gvk_text
                  usr.spec.issuer usr.meta.namespace)
                (λ e. e))
              (mark_and_raise mark_issuer_resolve_failed mark_issuer_resolve_unknown returned)
        acc ← on_error (resolve_account env key_pairable) (λ e. raise (returned e))
        _ ←
            on_error (validate_account_selector env acc usr)
              (mark_and_raise mark_account_resolve_failed mark_account_resolve_unknown returned)
        _ ← mark (
            mark_account_resolved (record { namespace = acc.meta.namespace; name = acc.meta.name }))
        labelled ← on_error (reconcile_labels env) (λ e. raise (no_result, some e))
        after_labels usr acc key_pairable seed labelled)
      else pure (result, none)

  -- The body of `Reconcile`, without the deferred update of the status.
  unfoldable pub reconcile_body : User → Run Returned
  reconcile_body usr = do
    _ ← mark initialize_status
    (kp, (seed, result)) ←
        on_error
          (reconcile_seed_secret env.lib env.faults (client_user usr) env.create_user
            usr.spec.seed_secret_name [])
          (mark_and_raise mark_seed_secret_failed mark_seed_secret_unknown returned)
    _ ← mark (mark_seed_secret_ready kp)
    after_seed usr seed result

  unfoldable pub after_status_update : Returned → Update → Returned
  after_status_update r updated = r
  after_status_update (result, err) (update_failed err2) =
      (result, some (env.append_error err err2))
  after_status_update (result, none) (conflict err2) = (second, none)
  after_status_update (result, some err) (conflict err2) =
      (result, some (env.append_error (some err) err2))

  -- The deferred function.
  unfoldable pub update_status : UserStatus → User → Returned → Returned
  unfolding after_status_update
  update_status original usr r =
      if env.same_status original usr.status
      then r
      else after_status_update r (env.update_status usr)

  -- A panic is not recovered.
  unfoldable pub finish :
      UserStatus → Result Returned Returned × World User → Option Returned × World User
  unfolding update_status
  finish original (done r, w) = (some (update_status original w.object r), w)
  finish original (raised r, w) = (some (update_status original w.object r), w)
  finish original (panicked, w) = (none, w)

  unfoldable pub start : Store → User → World User
  start secrets usr = record { object = usr; secrets = secrets; calls = 0 }

  unfoldable pub reconcile_fetched : Store → Fetched User → Option Returned × Option (World User)
  unfolding finish start reconcile_body
  reconcile_fetched secrets (not_found err) = (some (no_result, none), none)
  reconcile_fetched secrets (unreadable err) = (some (no_result, some err), none)
  reconcile_fetched secrets (found usr) =
      let r = finish usr.status (reconcile_body usr (start secrets usr)) in (r.0, some r.1)

  unfoldable pub reconcile : Store → Option Returned × Option (World User)
  unfolding reconcile_fetched
  reconcile secrets = reconcile_fetched secrets env.get_user
