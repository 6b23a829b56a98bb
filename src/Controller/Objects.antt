-- ===== src/Controller/Objects.antt =====
-- The objects that issue JWTs, with what the User controller (internal/controller/accounts) reads
-- of them, and `resolveSigningKeyOwner` of base_controller.go. `S` is the type of label selectors.
use Prim.Native.String.{◌++◌}
use nats_account_operator.Common.{String, Bool, Option, if◌then◌else◌}
use nats_account_operator.Errors.{
  Error, plain, error_text, condition_failed, condition_unknown, reason_unknown_error,
}
use nats_account_operator.Conditions.{
  ConditionSet, Accessor, condition_ready, initialize_conditions, get_condition, is_true,
}
use nats_account_operator.Api.{TypedObjectReference}
use nats_account_operator.Api.Account.{AccountStatus, account_condition_set}
use nats_account_operator.Api.Operator.{OperatorStatus, operator_condition_set}
use nats_account_operator.Api.SigningKey.{SigningKey, signing_key_condition_set, owner_resolved}
use nats_account_operator.Exec.{Exec, raise, ◌>>=◌, expect, or_panic}
use nats_account_operator.Cluster.{ObjectMeta}
use nats_account_operator.Controller.{Outcome, ok, failed, Fetched, found, not_found, unreadable}
use nats_account_operator.Controller.Issuer.{Issuer}
use nats_account_operator.Controller.Resolve.{
  KeyPairable, Object, Made, client_object, not_an_object,
}
use nats_account_operator.Controller.Base.{temporary, because}

pub record Account (S : Type 0) : Type 0 where
  pub meta : ObjectMeta
  pub users_namespace_selector : Option S
  pub users_selector : Option S
  pub status : AccountStatus

pub record SecretKeySelector : Type 0 where
  pub name : String
  pub key : String

pub record TlsConfig : Type 0 where
  pub ca_file : Option SecretKeySelector

pub record Operator : Type 0 where
  pub meta : ObjectMeta
  pub tls_config : Option TlsConfig
  pub status : OperatorStatus

pub data Resource (S : Type 0) : Type 0 where
  account : Account S → Resource S
  operator : Operator → Resource S
  signing_key : SigningKey → Resource S

module _ {S : Type 0} where
  -- `GetName`, `GetNamespace` and `GetKeyPair`.
  abbrev pub issuer_of : Resource S → Issuer
  issuer_of (account a) = record {
    name = a.meta.name;
    namespace = a.meta.namespace;
    key_pair = a.status.key_pair;
  }
  issuer_of (operator o) = record {
    name = o.meta.name;
    namespace = o.meta.namespace;
    key_pair = o.status.key_pair;
  }
  issuer_of (signing_key sk) = record {
    name = sk.name;
    namespace = sk.namespace;
    key_pair = sk.status.key_pair;
  }

  -- `GetConditionSet`.
  abbrev pub condition_set_of : Resource S → ConditionSet
  condition_set_of (account a) = account_condition_set
  condition_set_of (operator o) = operator_condition_set
  condition_set_of (signing_key sk) = signing_key_condition_set

  -- `GetStatus`, for its conditions.
  abbrev pub conditions_of : Resource S → Accessor
  conditions_of (account a) = a.status.accessor
  conditions_of (operator o) = o.status.accessor
  conditions_of (signing_key sk) = sk.status.accessor

  abbrev pub with_account_conditions : Accessor → Account S → Account S
  with_account_conditions c a = record a { status = record a.status { accessor = c } }

  abbrev pub with_conditions : Accessor → Resource S → Resource S
  with_conditions c (account a) = account (with_account_conditions c a)
  with_conditions c (operator o) = operator (record o { status = record o.status { accessor = c } })
  with_conditions c (signing_key sk) =
      signing_key (record sk { status = record sk.status { accessor = c } })

  abbrev pub resource_methods : KeyPairable (Resource S)
  resource_methods = record {
    issuer = issuer_of;
    condition_set = condition_set_of;
    get_status = conditions_of;
    set_status = with_conditions;
  }

  -- The Account with its missing conditions initialized.
  unfoldable pub initialized : Account S → Account S
  initialized a =
      with_account_conditions (initialize_conditions account_condition_set a.status.accessor) a

  unfoldable pub is_account_ready : Account S → Bool
  is_account_ready a = is_true (get_condition condition_ready a.status.accessor)

abbrev invalid_owner : String → Error
invalid_owner message = temporary (condition_failed "InvalidSigningKeyOwner" (plain message))

module _ {S : Type 0} (scheme_new : String → String → Outcome Made)
    (get : String → String → String → String → Fetched (Object (Resource S)))
    (gvk_text : String → String → String) where
  unfoldable pub owner_from :
      TypedObjectReference → Fetched (Object (Resource S)) → Outcome (Object (Resource S))
  owner_from ref (found owner) = ok owner
  owner_from ref (not_found err) = failed (
      temporary (
        condition_failed "NotFound" (
          plain (
            gvk_text ref.api_version ref.kind
            ++ ", "
            ++ ref.namespace
            ++ "/"
            ++ ref.name
            ++ ": not found"))))
  owner_from ref (unreadable err) = failed (
      condition_unknown reason_unknown_error
        (because "failed to get owner object from client: " err))

  unfoldable pub owner_made : TypedObjectReference → Outcome Made → Outcome (Object (Resource S))
  unfolding owner_from
  owner_made ref (failed err) =
      failed (invalid_owner ("unsupported GroupVersionKind: " ++ error_text err))
  owner_made ref (ok not_an_object) = failed (
      invalid_owner (
        "runtime.Object cannot be converted to client.Object: "
        ++ gvk_text ref.api_version ref.kind))
  owner_made ref (ok client_object) =
      owner_from ref (get ref.api_version ref.kind ref.namespace ref.name)

  unfoldable pub resolve_signing_key_owner :
      {W : Type 0} → SigningKey → Exec W Error (Object (Resource S))
  resolve_signing_key_owner sk =
      if is_true (get_condition owner_resolved sk.status.accessor)
      then (do
        ref ← or_panic sk.status.owner_ref
        expect (owner_made ref (scheme_new ref.api_version ref.kind)) (λ e. e))
      else raise (
          temporary
            (condition_unknown "NotReady" (plain "signing key owner has not been resolved")))
