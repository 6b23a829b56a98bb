-- ===== src/Controller/User/Credentials/Kept.antt =====
-- What the reconciliation of the credentials secret, in user_controller.go of
-- internal/controller/accounts, keeps.
use nats_account_operator.Common.{String, Option, none, some}
use nats_account_operator.Errors.{Error}
use nats_account_operator.Api.{InferredObjectReference}
use nats_account_operator.Api.User.{mark_credentials_secret_ready}
use nats_account_operator.Api.User.Calls.{
  to_credentials_secret_ready, to_credentials_secret_failed, to_credentials_secret_unknown, call,
}
use nats_account_operator.Exec.{Exec, pure, ◌>>=◌}
use nats_account_operator.Exec.Ensures.{
  Ensures, Any, Ensures-pure, Ensures-raise, Ensures-panic, Ensures-if, Ensures-bind,
  Ensures-on_error, Ensures-expect,
}
use nats_account_operator.Cluster.{World, Store}
use nats_account_operator.Cluster.Writes.{
  IsKept, IsRead, ReadOf, Ensures-get_secret, Ensures-create_secret, Ensures-update_secret,
}
use nats_account_operator.Resources.Built.{SetsController, build_credentials_secret-IsBuilt}
use nats_account_operator.Controller.{Fetched, found, not_found, unreadable, Secret, or_empty}
use nats_account_operator.Controller.Base.Kept.{IsForeign, built-IsFree}
use nats_account_operator.Controller.Objects.{Account, Operator, TlsConfig, SecretKeySelector}
use nats_account_operator.Controller.User.{User, Env, mark, client_user}
use nats_account_operator.Controller.User.Credentials.{
  ca_from, ca_of_file, ca_of_config, ca_of_operator, get_ca_if_exists, fail_credentials,
  create_credentials_secret, update_credentials, keep_credentials,
  ensure_credentials_secret_up_to_date, credentials_from, reconcile_user_credential_secret,
}
use nats_account_operator.Controller.User.Kept.{IsStable, Ensures-mark}

module _ {S K P C : Type 0} (env : Env S K P C) (laws : SetsController env.lib) {G : User → Type 0}
    (stable : IsStable env G) (usr : User) (start : Store) where
  abbrev F : Secret → Type 0
  F = IsForeign (client_user usr)

  abbrev Keeps : {E A : Type 0} → Exec (World User) E A → Type 0
  Keeps m = Ensures (IsKept F G start) Any m

  ca_from_kept :
      (selector : SecretKeySelector) (o : Fetched Secret) → Keeps (ca_from env selector o)
  unfolding ca_from
  ca_from_kept selector (found s) = Ensures-pure _ tt
  ca_from_kept selector (not_found err) = Ensures-pure _ tt
  ca_from_kept selector (unreadable err) = Ensures-raise _

  ca_of_file_kept : (op : Operator) (o : Option SecretKeySelector) → Keeps (ca_of_file env op o)
  unfolding ca_of_file
  ca_of_file_kept op none = Ensures-panic
  ca_of_file_kept op (some selector) =
      Ensures-bind _ _ (Ensures-get_secret F G start env.faults _ _) λ o _. ca_from_kept selector o

  ca_of_config_kept : (op : Operator) (o : Option TlsConfig) → Keeps (ca_of_config env op o)
  unfolding ca_of_config
  ca_of_config_kept op none = Ensures-pure _ tt
  ca_of_config_kept op (some config) = ca_of_file_kept op config.ca_file

  ca_of_operator_kept : (o : Fetched Operator) → Keeps (ca_of_operator env o)
  unfolding ca_of_operator
  ca_of_operator_kept (found op) = ca_of_config_kept op op.tls_config
  ca_of_operator_kept (not_found err) = Ensures-raise _
  ca_of_operator_kept (unreadable err) = Ensures-raise _

  ca_kept : (o : Option InferredObjectReference) → Keeps (get_ca_if_exists env o)
  unfolding get_ca_if_exists
  ca_kept none = Ensures-pure _ tt
  ca_kept (some ref) = ca_of_operator_kept (env.get_operator ref.namespace ref.name)

  fail-IsKept :
      {A : Type 0} {Q : A → Type 0} (err : Error)
      → Ensures (IsKept F G start) Q (fail_credentials env err)
  unfolding fail_credentials call
  fail-IsKept err =
      Ensures-bind _ _ (Ensures-mark stable F start (to_credentials_secret_failed _ _))
        λ _ _. Ensures-raise _

  ready_kept :
      {A : Type 0} (a : A) → Keeps {E = Error} (mark mark_credentials_secret_ready >>= λ _. pure a)
  unfolding call
  ready_kept a =
      Ensures-bind _ _ (Ensures-mark stable F start to_credentials_secret_ready)
        λ _ _. Ensures-pure a tt

  create_credentials_kept :
      (ujwt seed ca : String) → Keeps (create_credentials_secret env usr ujwt seed ca)
  unfolding create_credentials_secret
  create_credentials_kept ujwt seed ca =
      Ensures-bind _ _ (Ensures-on_error _ _ (Ensures-expect _ _) fail-IsKept) λ secret _.
        Ensures-bind _ _
          (Ensures-on_error _ _ (Ensures-create_secret F G start env.faults secret)
            (λ e. fail-IsKept _))
          λ _ _. ready_kept _

  ensure_credentials_kept :
      (ujwt seed : String) (got : Secret) (ca : String)
      → IsRead F G start usr.meta.namespace usr.spec.credentials_secret_name got
      → Keeps (ensure_credentials_secret_up_to_date env usr ujwt seed got ca)
  unfolding ensure_credentials_secret_up_to_date keep_credentials update_credentials
  ensure_credentials_kept ujwt seed got ca r =
      Ensures-bind _ _ (Ensures-on_error _ _ (Ensures-expect _ _) fail-IsKept) λ want e.
        let (_, _, b) =
          build_credentials_secret-IsBuilt env.lib laws (client_user usr) got ca
            usr.spec.credentials_secret_name ujwt seed want e in
        let free =
          built-IsFree env.lib laws env.faults (client_user usr) G start
            usr.spec.credentials_secret_name _ got want r b in
        Ensures-if (env.lib.same_secret got want) _ _ (ready_kept _) (
          Ensures-bind _ _
            (Ensures-on_error _ _ (Ensures-update_secret F G start env.faults want free)
              (λ e. fail-IsKept _))
            λ _ _. ready_kept _)

  credentials_from_kept :
      (ujwt seed ca : String) (o : Fetched Secret)
      → ReadOf F G start usr.meta.namespace usr.spec.credentials_secret_name o
      → Keeps (credentials_from env usr ujwt seed ca o)
  unfolding credentials_from call
  credentials_from_kept ujwt seed ca (not_found err) r = create_credentials_kept ujwt seed ca
  credentials_from_kept ujwt seed ca (found got) r = ensure_credentials_kept ujwt seed got ca r
  credentials_from_kept ujwt seed ca (unreadable err) r =
      Ensures-bind _ _ (Ensures-mark stable F start (to_credentials_secret_unknown _ _))
        λ _ _. Ensures-raise _

  pub Ensures-credentials :
      (acc : Account S) (ujwt seed : String)
      → Ensures
          (IsKept (IsForeign (client_user usr)) G start)
          Any
          (reconcile_user_credential_secret env usr acc ujwt seed)
  unfolding reconcile_user_credential_secret
  Ensures-credentials acc ujwt seed = Ensures-bind _ _ (ca_kept acc.status.operator_ref) λ ca _.
      Ensures-bind _ _ (Ensures-get_secret F G start env.faults _ _)
        λ o r. credentials_from_kept ujwt seed (or_empty ca) o r
