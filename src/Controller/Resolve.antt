-- ===== src/Controller/Resolve.antt =====
-- `resolveIssuer` of internal/controller/accounts/base_controller.go. The scheme, the client and the
-- text of a GroupVersionKind are parameters.
pub mod Resolved
mod Tests
use Prim.Native.String.{◌++◌}
use nats_account_operator.Common.{
  String, ◌==◌, Bool, true, false, Option, none, some, if◌then◌else◌,
}
use nats_account_operator.Errors.{
  Error, plain, wrapped, error_text, condition_error, result_error, requeue_result, no_result,
  reason_unknown_error,
}
use nats_account_operator.Conditions.{
  ConditionSet, Accessor, initialize_conditions, get_top_level_condition, is_true,
}
use nats_account_operator.Api.{TypedObjectReference}
use nats_account_operator.Controller.{Outcome, ok, failed, Fetched, found, not_found, unreadable}
use nats_account_operator.Controller.Issuer.{Issuer}

-- The methods of the interface `KeyPairable` that the code calls, for the objects of a type `V`.
pub record KeyPairable (V : Type 0) : Type 0 where
  pub issuer : V → Issuer
  pub condition_set : V → ConditionSet
  pub get_status : V → Accessor
  pub set_status : Accessor → V → V

-- An object of the cluster.
pub data Object (V : Type 0) : Type 0 where
  key_pairable : V → Object V
  other_object : Object V

-- What the scheme makes for a kind: whether the value is an object of the client.
pub data Made : Type 0 where
  client_object not_an_object : Made

abbrev temporary : String → String → Error
temporary reason message = result_error requeue_result (condition_error true reason (plain message))

abbrev terminal : String → String → Error
terminal reason message = result_error no_result (condition_error true reason (plain message))

module _ {V : Type 0} (methods : KeyPairable V) (scheme_new : String → String → Outcome Made)
    (get : String → String → Fetched (Object V)) (gvk_text : String → String → String) where
  -- The conditions are initialized in the object that is returned.
  pub check_ready : V → Outcome V
  check_ready k =
      let conditions = initialize_conditions (methods.condition_set k) (methods.get_status k) in
      let started = methods.set_status conditions k in
      if is_true (get_top_level_condition (methods.condition_set k) conditions)
      then ok started
      else failed (temporary "NotReady" "issuer seed secret is not ready")

  pub check_object : TypedObjectReference → String → Fetched (Object V) → Outcome V
  unfolding check_ready
  check_object ref namespace (found (key_pairable k)) = check_ready k
  check_object ref namespace (found other_object) =
      failed (terminal "UnsupportedIssuer" "issuer does not implement KeyPairable interface")
  check_object ref namespace (not_found err) = failed (
      temporary "NotFound" (
        gvk_text ref.api_version ref.kind ++ ", " ++ namespace ++ "/" ++ ref.name ++ ": not found"))
  check_object ref namespace (unreadable err) = failed (
      condition_error false reason_unknown_error
        (wrapped ("failed to get issuer object from client: " ++ error_text err) err))

  pub issuer_namespace : TypedObjectReference → String → String
  issuer_namespace ref fallback_namespace =
      if ref.namespace == "" then fallback_namespace else ref.namespace

  pub check_made : TypedObjectReference → String → Outcome Made → Outcome V
  unfolding check_object issuer_namespace
  check_made ref fallback_namespace (failed err) =
      failed (terminal "UnsupportedIssuer" ("unsupported GroupVersionKind: " ++ error_text err))
  check_made ref fallback_namespace (ok not_an_object) = failed (
      terminal "UnsupportedIssuer" (
        "runtime.Object cannot be converted to client.Object: "
        ++ gvk_text ref.api_version ref.kind))
  check_made ref fallback_namespace (ok client_object) =
      let namespace = issuer_namespace ref fallback_namespace in
      check_object ref namespace (get namespace ref.name)

  pub resolve_issuer : TypedObjectReference → String → Outcome V
  unfolding check_made
  resolve_issuer ref fallback_namespace =
      check_made ref fallback_namespace (scheme_new ref.api_version ref.kind)
