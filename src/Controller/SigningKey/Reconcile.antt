-- ===== src/Controller/SigningKey/Reconcile.antt =====
-- `Reconcile` and `ensureKeyPair` of internal/controller/accounts/signingkey_controller.go.
pub mod Reached
pub mod Created
mod Tests
use Prim.Native.String.{◌++◌}
use nats_account_operator.Common.{
  String, ◌==◌, ℕ, zero, suc, Bool, true, false, Option, none, some, List, [], ◌∷◌, if◌then◌else◌,
}
use nats_account_operator.Errors.{
  Error, wrapped, error_text, CtrlResult, no_result, requeue_result, as_result,
  reason_unknown_error,
}
use nats_account_operator.Api.SigningKey.{
  SigningKey, SigningKeyStatus, initialize_status, mark_owner_resolve_failed,
  mark_seed_secret_ready,
}
use nats_account_operator.Controller.{
  Outcome, ok, failed, Fetched, found, not_found, unreadable, get_or_empty, Secret, seed_key,
  public_key_key,
}
use nats_account_operator.Controller.SigningKey.{
  Env, Update, updated, conflict, update_failed, with_status, ensure_owner_resolved,
  reconcile_labels,
}

-- How a part of the reconciliation ends: the object, the secret that it created, the result and the error.
pub record Ended : Type 0 where
  pub object : SigningKey
  pub created : Option Secret
  pub result : CtrlResult
  pub err : Option Error

abbrev pub fail : SigningKey → Error → Ended
fail sk err = record { object = sk; created = none; result = no_result; err = some err }

abbrev pub second : CtrlResult
second = record { requeue = false; requeue_after = 1000000000 }

unfoldable pub is_zero : CtrlResult → Bool
is_zero result = if result.requeue then false else is_zero_delay result.requeue_after
  where
    is_zero_delay : ℕ → Bool
    is_zero_delay zero = true
    is_zero_delay (suc _) = false

module _ {S K : Type 0} (env : Env S K) where
  pub ready_with : String → SigningKey → SigningKey
  ready_with public_key sk =
      with_status (mark_seed_secret_ready public_key sk.spec.seed_secret_name) sk

  pub create_secret : SigningKey → String → Outcome Secret → Ended
  unfolding ready_with
  create_secret sk public_key (failed err) = fail sk err
  create_secret sk public_key (ok secret) = created (env.create_secret secret)
    where
      created : Option Error → Ended
      created (some err) = fail sk err
      created none = record {
        object = ready_with public_key sk;
        created = some secret;
        result = requeue_result;
        err = none;
      }

  pub new_secret : SigningKey → String → String → Secret
  new_secret sk seed public_key = record {
    name = sk.spec.seed_secret_name;
    namespace = sk.namespace;
    immutable = true;
    owner_references = [];
    finalizers = [];
    labels = ("operator-name", sk.spec.owner_ref.name) ∷ ("secret-type", "skey") ∷ [];
    data_fields = (seed_key, seed) ∷ (public_key_key, public_key) ∷ [];
  }

  pub with_public_key : SigningKey → String → Outcome String → Ended
  unfolding create_secret new_secret
  with_public_key sk seed (failed err) = fail sk err
  with_public_key sk seed (ok public_key) =
      create_secret sk public_key (env.set_controller_reference (new_secret sk seed public_key))

  pub with_seed : SigningKey → K → Outcome String → Ended
  unfolding with_public_key
  with_seed sk kp (failed err) = fail sk err
  with_seed sk kp (ok seed) = with_public_key sk seed (env.public_key kp)

  pub with_key_pair : SigningKey → Outcome K → Ended
  unfolding with_seed
  with_key_pair sk (failed err) = fail sk err
  with_key_pair sk (ok kp) = with_seed sk kp (env.seed kp)

  pub create_key_pair : String → Outcome K
  create_key_pair kind =
      if kind == "Account"
      then env.create_account
      else if kind == "Operator"
      then env.create_operator
      else failed (env.bad_request ("unknown owner kind: " ++ kind))

  pub from_secret : SigningKey → Fetched Secret → Ended
  unfolding with_key_pair create_key_pair ready_with get_or_empty
  from_secret sk (not_found err) = with_key_pair sk (create_key_pair sk.spec.owner_ref.kind)
  from_secret sk (unreadable err) = fail sk err
  from_secret sk (found secret) = record {
    object = ready_with (get_or_empty public_key_key secret.data_fields) sk;
    created = none;
    result = no_result;
    err = none;
  }

  pub ensure_key_pair : SigningKey → Ended
  unfolding from_secret
  ensure_key_pair sk = from_secret sk (env.get_secret sk.namespace sk.spec.seed_secret_name)

  -- `Reconcile` drops the result of `ensureKeyPair` when there is an error.
  pub wrap_key_pair : Ended → Option Error → Ended
  wrap_key_pair e none = e
  wrap_key_pair e (some err) = record e {
    result = no_result;
    err = some (wrapped ("failed to ensure key pair: " ++ error_text err) err);
  }

  pub after_labels : SigningKey × (CtrlResult × Option Error) → Ended
  unfolding ensure_key_pair wrap_key_pair is_zero
  after_labels (sk, (result, some err)) = record {
    object = sk;
    created = none;
    result = result;
    err = some err;
  }
  after_labels (sk, (result, none)) =
      if is_zero result
      then wrap_key_pair (ensure_key_pair sk) (ensure_key_pair sk).err
      else record { object = sk; created = none; result = result; err = none }

  pub after_owner : SigningKey × Option Error → Ended
  unfolding after_labels reconcile_labels
  after_owner (sk, none) = after_labels (reconcile_labels env sk)
  after_owner (sk, some err) = record {
    object =
        with_status
          (mark_owner_resolve_failed reason_unknown_error
            ("failed to resolve owner: " ++ error_text err))
          sk;
    created = none;
    result = (as_result (some err)).0;
    err = (as_result (some err)).1;
  }

  -- The body of `Reconcile`, without the deferred update of the status.
  pub reconcile_body : SigningKey → Ended
  unfolding after_owner ensure_owner_resolved
  reconcile_body sk = after_owner (ensure_owner_resolved env (with_status initialize_status sk))

  pub after_status_update : Ended → Update → Ended
  after_status_update e updated = e
  after_status_update e (update_failed err) = record e {
    err = some (
        env.append_error e.err
          (wrapped ("failed to update signing key status: " ++ error_text err) err));
  }
  after_status_update e (conflict err) = conflicted e.err
    where
      conflicted : Option Error → Ended
      conflicted none = record e { result = second }
      conflicted (some _) = record e {
        err = some (
            env.append_error e.err
              (wrapped ("failed to update signing key status: " ++ error_text err) err));
      }

  -- The deferred function.
  pub update_status : SigningKeyStatus → Ended → Ended
  unfolding after_status_update
  update_status original e =
      if env.same_status original e.object.status
      then e
      else after_status_update e (env.update_status e.object)

  -- `none` is a key that is gone: the error is ignored.
  pub reconcile_fetched : Fetched SigningKey → Option Ended × Option Error
  unfolding reconcile_body update_status
  reconcile_fetched (not_found err) = (none, none)
  reconcile_fetched (unreadable err) = (none, some err)
  reconcile_fetched (found sk) = (
    some (update_status sk.status (reconcile_body sk)),
    (update_status sk.status (reconcile_body sk)).err,
  )

  pub reconcile : Option Ended × Option Error
  unfolding reconcile_fetched
  reconcile = reconcile_fetched env.get_signing_key
