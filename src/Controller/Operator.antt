-- ===== src/Controller/Operator.antt =====
-- `OperatorReconciler` of internal/controller/accounts/operator_controller.go. The state of an action
-- is the cluster with the Operator; the other reads are the fields of `Env`.
pub mod Reconcile
pub mod Keys
pub mod Watches
mod Tests
use Prim.Native.String.{◌++◌}
use nats_account_operator.Common.{
  String, ◌==◌, ℕ, Bool, true, false, ◌&&◌, Option, none, some, List, [], ◌∷◌, if◌then◌else◌,
}
use nats_account_operator.Errors.{
  Error, plain, wrapped, error_text, CtrlResult, no_result, as_result, mark_condition,
  condition_failed, reason_unknown_error,
}
use nats_account_operator.Conditions.{get_condition, is_true}
use nats_account_operator.Api.{
  KeyPair, TypedObjectReference, SigningKeyEmbeddedStatus, KeyPairReference, seed_secret_ready,
}
use nats_account_operator.Api.SigningKey.{SigningKey, is_ready}
use nats_account_operator.Api.Operator.{
  OperatorStatus, initialize_status, mark_seed_secret_ready, mark_seed_secret_failed,
  mark_seed_secret_unknown, mark_system_account_resolved, mark_system_account_resolve_failed,
  mark_system_account_resolve_unknown, mark_signing_keys_updated, mark_jwt_secret_ready,
  mark_jwt_secret_failed, mark_jwt_secret_unknown,
}
use nats_account_operator.Nsc.Operator.{OperatorSpec, OperatorClaims, create_operator_claims}
use nats_account_operator.Exec.{
  Exec, Result, done, raised, panicked, pure, raise, panic, gets, ◌>>=◌, on_error, expect, or_panic,
}
use nats_account_operator.Cluster.{
  ObjectMeta, ClientObject, operator_type, World, Store, Verdict, change, get_secret,
}
use nats_account_operator.Resources.{Library, SecretOption, immutable, with_deletion_prevention}
use nats_account_operator.Controller.{Outcome, ok, failed, Fetched, found, not_found, unreadable}
use nats_account_operator.Controller.SigningKey.{Update, updated, conflict, update_failed}
use nats_account_operator.Controller.SigningKey.Reconcile.{is_zero, second}
use nats_account_operator.Controller.Base.{
  because, terminal_failure, reconcile_seed_secret, jwt_from,
}
use nats_account_operator.Controller.Objects.{Account}

pub record Spec : Type 0 where
  pub jwt_secret_name : String
  pub seed_secret_name : String
  pub system_account_ref : String
  pub claims : OperatorSpec

pub record Operator : Type 0 where
  pub meta : ObjectMeta
  pub spec : Spec
  pub status : OperatorStatus

abbrev pub client_operator : Operator → ClientObject
client_operator o = record {
  type = operator_type;
  meta = o.meta;
  seed_secret_name = o.spec.seed_secret_name;
  jwt_secret_name = o.spec.jwt_secret_name;
}

-- A list of signing keys may be a nil pointer, without an error.
pub record Env (S K C : Type 0) : Type 0 where
  pub lib : Library K C
  pub create_operator : Outcome K
  pub faults : ℕ → Verdict
  pub get_operator : Fetched Operator
  pub get_account : String → String → Outcome (Account S)
  pub list_signing_keys : String → Fetched (Option (List SigningKey))
  pub now : ℕ
  pub new_operator_claims : String → OperatorClaims
  pub operator_claim : String
  pub encode : OperatorClaims → K → Outcome String
  pub as_claims : OperatorClaims → C
  pub same_status : OperatorStatus → OperatorStatus → Bool
  pub update_status : Operator → Update
  pub append_error : Option Error → Error → Error
  pub quote : String → String

abbrev pub Returned : Type 0
Returned = CtrlResult × Option Error

abbrev pub Run : Type 0 → Type 0 → Type 0
Run E A = Exec (World Operator) E A

unfoldable pub mark : {E : Type 0} → (OperatorStatus → OperatorStatus) → Run E (Unit {0})
unfolding change
mark f = change (λ o. record o { status = f o.status })

-- `MarkCondition`, and then the early return.
unfoldable pub mark_and_return :
    {A : Type 0}
    → (String → String → OperatorStatus → OperatorStatus)
    → (String → String → OperatorStatus → OperatorStatus)
    → Error
    → Run Returned A
mark_and_return failure unknown err = do
  _ ← mark (mark_condition err failure unknown)
  raise (as_result (some err))

-- The loop over the signing keys: `none` is a nil pointer that is dereferenced.
unfoldable pub entry : SigningKey → Option KeyPair → Option SigningKeyEmbeddedStatus
entry sk none = none
entry sk (some key_pair) = some (record { name = sk.name; key_pair = key_pair })

unfoldable pub add_key :
    SigningKey
    → List SigningKeyEmbeddedStatus
    → Option SigningKeyEmbeddedStatus
    → Option (List SigningKeyEmbeddedStatus)
add_key sk rest none = none
add_key sk rest (some e) = some (e ∷ rest)

unfoldable pub is_owner : Operator → TypedObjectReference → Bool
is_owner o ref = (ref.namespace == o.meta.namespace) && (ref.name == o.meta.name)

unfoldable pub item :
    Operator
    → SigningKey
    → List SigningKeyEmbeddedStatus
    → Option TypedObjectReference
    → Option (List SigningKeyEmbeddedStatus)
unfolding add_key entry
item o sk rest none = none
item o sk rest (some ref) =
    if is_owner o ref then add_key sk rest (entry sk sk.status.key_pair) else some rest

unfoldable pub keys_from :
    Operator
    → SigningKey
    → Option (List SigningKeyEmbeddedStatus)
    → Option (List SigningKeyEmbeddedStatus)
unfolding item
keys_from o sk none = none
keys_from o sk (some rest) =
    if is_ready sk.status then item o sk rest sk.status.owner_ref else some rest

unfoldable pub owned_keys : Operator → List SigningKey → Option (List SigningKeyEmbeddedStatus)
unfolding keys_from
owned_keys o [] = some []
owned_keys o (sk ∷ sks) = keys_from o sk (owned_keys o sks)

module _ {S K C : Type 0} (env : Env S K C) where
  unfoldable pub keys_listed :
      Operator → Fetched (Option (List SigningKey)) → Run (Fetched (Unit {0})) (Unit {0})
  keys_listed o (found none) = pure tt
  keys_listed o (found (some sks)) = do
    keys ← or_panic (owned_keys o sks)
    mark (mark_signing_keys_updated keys)
  keys_listed o (not_found err) = raise (not_found err)
  keys_listed o (unreadable err) = raise (unreadable err)

  unfoldable pub ensure_signing_keys_updated : Operator → Run (Fetched (Unit {0})) (Unit {0})
  ensure_signing_keys_updated o = keys_listed o (env.list_signing_keys o.meta.namespace)

  unfoldable pub check_account : Account S → Run Error (Unit {0})
  check_account acc =
      if is_true (get_condition seed_secret_ready acc.status.accessor)
      then (do
        kp ← or_panic acc.status.key_pair
        mark (
            mark_system_account_resolved (record {
              reference = record { namespace = acc.meta.namespace; name = acc.meta.name };
              public_key = kp.public_key;
            })))
      else raise (condition_failed "NotReady" (plain "system account KeyPair not ready"))

  unfoldable pub ensure_system_account_resolved : Operator → Run Error (Unit {0})
  ensure_system_account_resolved o = do
    acc ← expect (env.get_account o.meta.namespace o.spec.system_account_ref) (λ e.
        condition_failed "NotFound" (
          because ("failed to get system account, " ++ env.quote o.spec.system_account_ref ++ ": ")
            e))
    check_account acc
