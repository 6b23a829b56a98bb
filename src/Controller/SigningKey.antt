-- ===== src/Controller/SigningKey.antt =====
-- `SigningKeyReconciler` of internal/controller/accounts/signingkey_controller.go. The calls of the
-- cluster and of the key library, and what `fmt` prints, are the fields of `Env`.
pub mod Reconcile
pub mod Resolved
use Prim.Native.String.{◌++◌}
use nats_account_operator.Common.{
  String, ◌==◌, ℕ, Bool, true, false, not, Option, none, some, List, [], ◌∷◌, if◌then◌else◌,
}
use nats_account_operator.Errors.{
  Error, plain, wrapped, error_text, CtrlResult, no_result, requeue_result, as_result,
  terminal_error, reason_unknown_error,
}
use nats_account_operator.Api.{TypedObjectReference}
use nats_account_operator.Api.SigningKey.{
  SigningKey, SigningKeyStatus, SigningKeyOwnerReference, initialize_status, mark_owner_resolved,
  mark_owner_resolve_failed, mark_owner_resolve_unknown, mark_seed_secret_ready,
}
use nats_account_operator.Controller.{
  Outcome, ok, failed, Fetched, found, not_found, unreadable, get_or_empty, set_field, Secret,
  seed_key, public_key_key,
}

-- The Go types that an owner can have.
pub data OwnerType : Type 0 where
  account operator unsupported : OwnerType

-- An object that the client reads, with the label selector of its spec. `S` is the type of selectors.
pub record Owner (S : Type 0) : Type 0 where
  pub api_version : String
  pub kind : String
  pub name : String
  pub namespace : String
  pub uid : String
  pub signing_keys_selector : Option S

pub data Update : Type 0 where
  updated : Update
  conflict update_failed : Error → Update

pub record Env (S K : Type 0) : Type 0 where
  pub get_signing_key : Fetched SigningKey
  pub scheme_new : String → String → OwnerType
  pub gvk_text : String → String → String
  pub get_owner : OwnerType → String → String → Fetched (Owner S)
  pub as_selector : S → Outcome (List (String × String) → Bool)
  pub update_object : SigningKey → Outcome SigningKey
  pub get_secret : String → String → Fetched Secret
  pub create_account : Outcome K
  pub create_operator : Outcome K
  pub seed : K → Outcome String
  pub public_key : K → Outcome String
  pub set_controller_reference : Secret → Outcome Secret
  pub create_secret : Secret → Option Error
  pub same_status : SigningKeyStatus → SigningKeyStatus → Bool
  pub update_status : SigningKey → Update
  pub append_error : Option Error → Error → Error
  pub quote : String → String
  pub wrap_in_sprintf : Error → String
  pub bad_request : String → Error

abbrev pub with_status : (SigningKeyStatus → SigningKeyStatus) → SigningKey → SigningKey
with_status f sk = record sk { status = f sk.status }

module _ {S K : Type 0} (env : Env S K) where
  pub check_match : SigningKey → Outcome (List (String × String) → Bool) → Option Error
  check_match sk (failed err) =
      some (wrapped ("failed to parse signing key label selector: " ++ error_text err) err)
  check_match sk (ok matches) =
      if matches sk.labels
      then none
      else some (plain "signing key does not match selector requirements")

  pub check_selector : SigningKey → Option S → Option Error
  unfolding check_match
  check_selector sk none = none
  check_selector sk (some selector) = check_match sk (env.as_selector selector)

  -- The owner is an Account or an Operator here: `ensure_owner_resolved` has read one.
  pub validate_owner_requirements : Owner S → SigningKey → Option Error
  unfolding check_selector
  validate_owner_requirements owner sk =
      if owner.namespace == sk.namespace
      then check_selector sk owner.signing_keys_selector
      else some (
          plain (
            "owner namespace "
            ++ env.quote owner.namespace
            ++ " does not match signing key namespace "
            ++ env.quote sk.namespace))

  pub owner_reference : Owner S → TypedObjectReference
  owner_reference owner = record {
    api_version = owner.api_version;
    kind = owner.kind;
    name = owner.name;
    namespace = owner.namespace;
    uid = owner.uid;
  }

  pub resolve_valid : Owner S → SigningKey → Option Error → SigningKey × Option Error
  unfolding owner_reference
  resolve_valid owner sk none = (with_status (mark_owner_resolved (owner_reference owner)) sk, none)
  resolve_valid owner sk (some err) = (
    with_status
        (mark_owner_resolve_failed "NotAllowed"
          ("SigningKey does not match selector requirements: " ++ env.wrap_in_sprintf err))
        sk,
    terminal_error (some err),
  )

  pub resolve_owner : SigningKey → Fetched (Owner S) → SigningKey × Option Error
  unfolding resolve_valid validate_owner_requirements
  resolve_owner sk (found owner) = resolve_valid owner sk (validate_owner_requirements owner sk)
  resolve_owner sk (not_found err) =
      let ref = sk.spec.owner_ref in
      (
        with_status
            (mark_owner_resolve_failed "NotFound" (
              env.gvk_text ref.api_version ref.kind
              ++ ", "
              ++ sk.namespace
              ++ "/"
              ++ ref.name
              ++ ": not found"))
            sk,
        some err,
      )
  resolve_owner sk (unreadable err) = (
    with_status
        (mark_owner_resolve_unknown reason_unknown_error
          ("failed to resolve owner reference: " ++ error_text err))
        sk,
    some err,
  )

  pub resolve_type : SigningKey → OwnerType → SigningKey × Option Error
  unfolding resolve_owner
  resolve_type sk unsupported = (
    with_status
        (mark_owner_resolve_failed "UnsupportedOwnerKind"
          "owner must be one of Account or Operator")
        sk,
    none,
  )
  resolve_type sk account =
      resolve_owner sk (env.get_owner account sk.namespace sk.spec.owner_ref.name)
  resolve_type sk operator =
      resolve_owner sk (env.get_owner operator sk.namespace sk.spec.owner_ref.name)

  pub ensure_owner_resolved : SigningKey → SigningKey × Option Error
  unfolding resolve_type
  ensure_owner_resolved sk =
      resolve_type sk (env.scheme_new sk.spec.owner_ref.api_version sk.spec.owner_ref.kind)

  pub after_update : SigningKey → Outcome SigningKey → SigningKey × (CtrlResult × Option Error)
  after_update sk (ok stored) = (stored, (requeue_result, none))
  after_update sk (failed err) = (sk, (no_result, some err))

  pub update_label : String → String → SigningKey → SigningKey × (CtrlResult × Option Error)
  unfolding after_update get_or_empty
  update_label label name sk =
      let labelled = record sk { labels = set_field label name sk.labels } in
      if get_or_empty label sk.labels == name
      then (sk, (no_result, none))
      else after_update labelled (env.update_object labelled)

  pub label_owner :
      Option TypedObjectReference → SigningKey → SigningKey × (CtrlResult × Option Error)
  unfolding update_label
  label_owner none sk = (sk, (no_result, none))
  label_owner (some ref) sk =
      if ref.kind == "Operator"
      then update_label "accounts.nats.io/operator" ref.name sk
      else if ref.kind == "Account"
      then update_label "accounts.nats.io/account" ref.name sk
      else (sk, (no_result, none))

  pub reconcile_labels : SigningKey → SigningKey × (CtrlResult × Option Error)
  unfolding label_owner
  reconcile_labels sk = label_owner sk.status.owner_ref sk
