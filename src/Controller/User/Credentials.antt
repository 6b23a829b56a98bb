-- ===== src/Controller/User/Credentials.antt =====
-- The credentials secret of a User: `getCAIfExists` and `reconcileUserCredentialSecret` of
-- internal/controller/accounts/user_controller.go.
pub mod Kept
use Prim.Native.String.{◌++◌}
use nats_account_operator.Common.{
  String, ℕ, Bool, true, false, Option, none, some, List, [], ◌∷◌, if◌then◌else◌,
}
use nats_account_operator.Errors.{
  Error, error_text, CtrlResult, no_result, requeue_result, reason_unknown_error,
}
use nats_account_operator.Api.{InferredObjectReference}
use nats_account_operator.Api.User.{
  mark_credentials_secret_ready, mark_credentials_secret_failed, mark_credentials_secret_unknown,
}
use nats_account_operator.Exec.{Exec, pure, raise, panic, ◌>>=◌, on_error, expect}
use nats_account_operator.Cluster.{World, write_error, get_secret, create_secret, update_secret}
use nats_account_operator.Resources.{new_secret, build_credentials_secret}
use nats_account_operator.Controller.{
  Outcome, ok, failed, Fetched, found, not_found, unreadable, Secret, get_field, or_empty,
}
use nats_account_operator.Controller.Base.{because}
use nats_account_operator.Controller.Objects.{Account, Operator, TlsConfig, SecretKeySelector}
use nats_account_operator.Controller.User.{User, Env, mark, client_user, Action}

module _ {S K P C : Type 0} (env : Env S K P C) where
  -- `errInternalNotFound`, and no error, are `none`.
  unfoldable pub ca_from : SecretKeySelector → Fetched Secret → Action env (Option String)
  ca_from selector (found s) = pure (get_field selector.key s.data_fields)
  ca_from selector (not_found err) = pure none
  ca_from selector (unreadable err) = raise err

  unfoldable pub ca_of_file : Operator → Option SecretKeySelector → Action env (Option String)
  ca_of_file op none = panic
  ca_of_file op (some selector) = do
    s ← get_secret env.faults op.meta.namespace selector.name
    ca_from selector s

  unfoldable pub ca_of_config : Operator → Option TlsConfig → Action env (Option String)
  ca_of_config op none = pure none
  ca_of_config op (some config) = ca_of_file op config.ca_file

  unfoldable pub ca_of_operator : Fetched Operator → Action env (Option String)
  ca_of_operator (found op) = ca_of_config op op.tls_config
  ca_of_operator (not_found err) = raise err
  ca_of_operator (unreadable err) = raise err

  unfoldable pub get_ca_if_exists : Option InferredObjectReference → Action env (Option String)
  get_ca_if_exists none = pure none
  get_ca_if_exists (some ref) = ca_of_operator (env.get_operator ref.namespace ref.name)

  unfoldable pub fail_credentials : {A : Type 0} → Error → Action env A
  fail_credentials err = do
    _ ← mark (mark_credentials_secret_failed reason_unknown_error (error_text err))
    raise err

  unfoldable pub create_credentials_secret : User → String → String → String → Action env CtrlResult
  create_credentials_secret usr ujwt seed ca = do
    secret ←
        on_error
          (expect
            (build_credentials_secret env.lib new_secret ca (client_user usr)
              usr.spec.credentials_secret_name ujwt seed)
            (λ e. e))
          fail_credentials
    _ ← on_error (create_secret env.faults secret) (λ e. fail_credentials (write_error e))
    _ ← mark mark_credentials_secret_ready
    pure requeue_result

  unfoldable pub update_credentials : Secret → Action env CtrlResult
  update_credentials want = do
    _ ←
        on_error (update_secret env.faults want)
          (λ e. fail_credentials (because "failed to update credentials secret: " (write_error e)))
    _ ← mark mark_credentials_secret_ready
    pure requeue_result

  unfoldable pub keep_credentials : Action env CtrlResult
  keep_credentials = do _ ← mark mark_credentials_secret_ready; pure no_result

  unfoldable pub ensure_credentials_secret_up_to_date :
      User → String → String → Secret → String → Action env CtrlResult
  ensure_credentials_secret_up_to_date usr ujwt seed got ca = do
    want ←
        on_error
          (expect
            (build_credentials_secret env.lib got ca (client_user usr)
              usr.spec.credentials_secret_name ujwt seed)
            (because "failed to build desired credentials secret: "))
          fail_credentials
    if env.lib.same_secret got want then keep_credentials else update_credentials want

  unfoldable pub credentials_from :
      User → String → String → String → Fetched Secret → Action env CtrlResult
  credentials_from usr ujwt seed ca (not_found err) = create_credentials_secret usr ujwt seed ca
  credentials_from usr ujwt seed ca (found got) =
      ensure_credentials_secret_up_to_date usr ujwt seed got ca
  credentials_from usr ujwt seed ca (unreadable err) = do
    _ ← mark (mark_credentials_secret_unknown reason_unknown_error (error_text err))
    raise err

  unfoldable pub reconcile_user_credential_secret :
      User → Account S → String → String → Action env CtrlResult
  unfolding or_empty
  reconcile_user_credential_secret usr acc ujwt seed = do
    ca ← get_ca_if_exists acc.status.operator_ref
    got ← get_secret env.faults usr.meta.namespace usr.spec.credentials_secret_name
    credentials_from usr ujwt seed (or_empty ca) got
