-- ===== src/Controller/User.antt =====
-- `UserReconciler` of internal/controller/accounts/user_controller.go. The state of an action is the
-- cluster with the User; the other reads and what `fmt` prints are the fields of `Env`.
pub mod Kept
mod Tests
pub mod Allowed
pub mod Credentials
pub mod Reconcile
use Prim.Native.String.{◌++◌}
use nats_account_operator.Common.{
  String, ◌==◌, ℕ, Bool, true, false, Option, none, some, List, [], ◌∷◌, if◌then◌else◌,
}
use nats_account_operator.Errors.{
  Error, plain, wrapped, error_text, CtrlResult, no_result, requeue_result, as_result,
  mark_condition, condition_failed, condition_unknown, reason_unknown_error,
}
use nats_account_operator.Api.{KeyPair, TypedObjectReference, InferredObjectReference}
use nats_account_operator.Api.User.{
  UserStatus, mark_account_resolve_failed, mark_account_resolve_unknown, mark_account_resolved,
}
use nats_account_operator.Nsc.User.{UserSpec, UserClaims}
use nats_account_operator.Exec.{Exec, pure, raise, gets, ◌>>=◌, on_error, expect, expect_some}
use nats_account_operator.Cluster.{ObjectMeta, ClientObject, user_type, World, Verdict, change}
use nats_account_operator.Resources.{Library, label_account_name}
use nats_account_operator.Controller.{
  Outcome, ok, failed, Fetched, found, not_found, unreadable, get_or_empty, set_field, Nkeys,
}
use nats_account_operator.Controller.SigningKey.{Update}
use nats_account_operator.Controller.Resolve.{Object, key_pairable, other_object, Made}
use nats_account_operator.Controller.Base.{terminal, temporary, because}
use nats_account_operator.Controller.Objects.{
  Account, Operator, Resource, account, operator, signing_key, initialized, is_account_ready,
  resolve_signing_key_owner,
}

pub record Spec : Type 0 where
  pub issuer : TypedObjectReference
  pub jwt_secret_name : String
  pub seed_secret_name : String
  pub credentials_secret_name : String
  pub claims : UserSpec

pub record User : Type 0 where
  pub meta : ObjectMeta
  pub spec : Spec
  pub status : UserStatus

abbrev pub client_user : User → ClientObject
client_user usr = record {
  type = user_type;
  meta = usr.meta;
  seed_secret_name = usr.spec.seed_secret_name;
  jwt_secret_name = usr.spec.jwt_secret_name;
}

pub record Namespace : Type 0 where
  pub name : String
  pub labels : List (String × String)

-- `P` is the type of prefixes of seeds, and `C` that of decoded claims.
pub record Env (S K P C : Type 0) : Type 0 where
  pub lib : Library K C
  pub nkeys : Nkeys K P
  pub account_prefix : P
  pub create_user : Outcome K
  pub faults : ℕ → Verdict
  pub get_user : Fetched User
  pub scheme_new : String → String → Outcome Made
  pub get_object : String → String → String → String → Fetched (Object (Resource S))
  pub get_operator : String → String → Fetched Operator
  pub get_namespace : String → Outcome Namespace
  pub as_selector : S → Outcome (List (String × String) → Bool)
  pub update_user : User → Outcome User
  pub new_user_claims : String → UserClaims
  pub encode : UserClaims → K → Outcome String
  pub as_claims : UserClaims → C
  pub same_status : UserStatus → UserStatus → Bool
  pub update_status : User → Update
  pub append_error : Option Error → Error → Error
  pub gvk_text : String → String → String
  pub object_text : Object (Resource S) → String
  pub quote : String → String

-- What `Reconcile` returns, at its end or early.
abbrev pub Returned : Type 0
Returned = CtrlResult × Option Error

unfoldable pub mark : {E : Type 0} → (UserStatus → UserStatus) → Exec (World User) E (Unit {0})
unfolding change
mark f = change (λ usr. record usr { status = f usr.status })

-- `MarkCondition`, and the error stays.
unfoldable pub mark_and_raise :
    {A E : Type 0}
    → (String → String → UserStatus → UserStatus)
    → (String → String → UserStatus → UserStatus)
    → (Error → E)
    → Error
    → Exec (World User) E A
mark_and_raise failure unknown f err = do
  _ ← mark (mark_condition err failure unknown)
  raise (f err)

abbrev pub returned : Error → Returned
returned err = as_result (some err)

module _ {S K P C : Type 0} (env : Env S K P C) where
  abbrev pub Action : Type 0 → Type 0
  Action A = Exec (World User) Error A

  -- `MatchNamespaceSelector` of pkg/helpers/selectors.go.
  unfoldable pub match_with : Namespace → Outcome (List (String × String) → Bool) → Outcome Bool
  match_with ns (ok matches) = ok (matches ns.labels)
  match_with ns (failed err) = failed (because "failed to compile label selector: " err)

  unfoldable pub match_namespace_selector : String → Namespace → Option S → Outcome Bool
  match_namespace_selector parent_namespace ns none = ok (parent_namespace == ns.name)
  match_namespace_selector parent_namespace ns (some selector) =
      match_with ns (env.as_selector selector)

  abbrev not_allowed : String → Error
  not_allowed message = terminal (condition_failed "NotAllowed" (plain message))

  unfoldable pub check_users_selector : User → Option S → Action (Unit {0})
  check_users_selector usr none = pure tt
  check_users_selector usr (some selector) = do
    matches ←
        expect (env.as_selector selector)
          (λ e. terminal (because "failed to parse account.spec.usersSelector: " e))
    if matches usr.meta.labels
        then pure tt
        else raise (not_allowed "account.spec.usersSelector does not match user labels")

  unfoldable pub check_namespace : Account S → User → Bool → Action (Unit {0})
  check_namespace acc usr valid =
      if valid
      then check_users_selector usr acc.users_selector
      else raise (not_allowed "account.spec.usersNamespaceSelector does not match user namespace")

  unfoldable pub validate_account_selector : Account S → User → Action (Unit {0})
  validate_account_selector acc usr = do
    ns ←
        expect (env.get_namespace usr.meta.namespace)
          (λ e. temporary (because "failed to get user namespace: " e))
    valid ←
        expect (match_namespace_selector acc.meta.namespace ns acc.users_namespace_selector)
          (λ e. terminal (because "failed to validate users namespace selector: " e))
    check_namespace acc usr valid

  unfoldable pub refuse_owner : Object (Resource S) → Action (Account S)
  refuse_owner owner = do
    _ ← mark (
        mark_account_resolve_failed "InvalidSigningKeyOwner"
          ("user issuer is not owned by an Account, got: " ++ env.object_text owner))
    raise (terminal (plain "user issuer is not owned by an Account"))

  unfoldable pub check_owner : Object (Resource S) → Action (Account S)
  check_owner (key_pairable (account a)) =
      if is_account_ready (initialized a)
      then pure (initialized a)
      else raise (temporary (condition_unknown "NotReady" (plain "signing key owner is not ready")))
  check_owner owner = refuse_owner owner

  unfoldable pub resolve_account : Resource S → Action (Account S)
  resolve_account (account a) = pure a
  resolve_account (signing_key sk) = do
    owner ←
        on_error (resolve_signing_key_owner env.scheme_new env.get_object env.gvk_text sk)
          (mark_and_raise mark_account_resolve_failed mark_account_resolve_unknown (λ e. e))
    check_owner owner
  resolve_account (operator o) = do
    _ ← mark (
        mark_account_resolve_failed "UnsupportedIssuer" (
          "invalid keypair, expected Account or SigningKey, got: "
          ++ env.object_text (key_pairable (operator o))))
    raise (terminal (plain "invalid keypair, expected Account or SigningKey"))

  -- The server's answer is written into the object.
  unfoldable pub update_user : (User → User) → Action (Unit {0})
  update_user f = do
    _ ← change f
    usr ← gets (λ w. w.object)
    stored ← expect (env.update_user usr) (λ e. e)
    change (λ _. stored)

  unfoldable pub label_account : User → Option InferredObjectReference → Action CtrlResult
  label_account usr none = pure no_result
  label_account usr (some ref) =
      if get_or_empty label_account_name usr.meta.labels == ref.name then pure no_result else do
        _ ← update_user (λ u. record u {
          meta = record u.meta { labels = set_field label_account_name ref.name u.meta.labels };
        })
        pure requeue_result

  unfoldable pub reconcile_labels : Action CtrlResult
  reconcile_labels = do usr ← gets (λ w. w.object); label_account usr usr.status.account_ref
