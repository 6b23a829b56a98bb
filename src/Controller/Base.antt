-- ===== src/Controller/Base.antt =====
-- The methods of `BaseReconciler` that write Secrets: internal/controller/accounts/base_controller.go.
-- An action may change the cluster before it ends with an error. Logs and events are left out.
pub mod Kept
pub mod Jwt
pub mod Tests
pub mod Seed
use Prim.Native.String.{◌++◌}
use nats_account_operator.Common.{
  String, ◌==◌, ℕ, Bool, true, false, Option, none, some, List, [], ◌∷◌, any, if◌then◌else◌,
}
use nats_account_operator.Errors.{
  Error, plain, wrapped, error_text, result_error, CtrlResult, requeue_result, no_result,
  condition_failed, condition_unknown, reason_unknown_error,
}
use nats_account_operator.Api.{KeyPair}
use nats_account_operator.Exec.{Exec, pure, raise, ◌>>=◌, on_error, expect, expect_some}
use nats_account_operator.Cluster.{
  ClientObject, World, Verdict, WriteError, missing, rejected, write_error, get_secret,
  create_secret, update_secret, delete_secret,
}
use nats_account_operator.Resources.{
  Library, SecretOption, new_secret, jwt_key, build_key_pair_secret, build_jwt_secret,
}
use nats_account_operator.Controller.{
  Outcome, ok, failed, Fetched, found, not_found, unreadable, Secret, get_field, or_empty, seed_key,
}

abbrev pub temporary : Error → Error
temporary err = result_error requeue_result err

abbrev pub terminal : Error → Error
terminal err = result_error no_result err

-- The error of a format that ends with `: %w`.
abbrev pub because : String → Error → Error
because context err = wrapped (context ++ error_text err) err

abbrev pub terminal_failure : String → String → Error → Error
terminal_failure reason context err = terminal (condition_failed reason (because context err))

abbrev pub temporary_failure : String → Error → Error
temporary_failure context err =
    temporary (condition_failed reason_unknown_error (because context err))

abbrev pub temporary_unknown : String → Error → Error
temporary_unknown context err =
    temporary (condition_unknown reason_unknown_error (because context err))

-- The key pair, the seed and the result.
abbrev pub Seeded : Type 0
Seeded = KeyPair × (String × CtrlResult)

unfoldable pub is_owned : ClientObject → Secret → Bool
is_owned owner got = any (λ ref. ref.uid == owner.meta.uid) got.owner_references

unfoldable pub is_current : {K C : Type 0} → Library K C → C → Outcome C → Bool
is_current lib want_claims (failed err) = false
is_current lib want_claims (ok got_claims) = lib.same_claims got_claims want_claims

module _ {O K C : Type 0} (lib : Library K C) (faults : ℕ → Verdict) (owner : ClientObject) where
  unfoldable pub create_seed_secret :
      Outcome K → List SecretOption → Exec (World O) Error (KeyPair × String)
  create_seed_secret new_kp opts = do
    kp ← expect new_kp (temporary_failure "failed to generate new KeyPair: ")
    seed ←
        expect (lib.seed kp)
          (terminal_failure reason_unknown_error "failed to get Seed from nkey.KeyPair: ")
    pubkey ←
        expect (lib.public_key kp)
          (terminal_failure "MalformedSeedSecret" "failed to get PublicKey from nkey.KeyPair: ")
    secret ←
        expect (build_key_pair_secret lib new_secret owner kp opts)
          (temporary_failure "failed to build seed secret: ")
    _ ←
        on_error (create_secret faults secret)
          (λ e. raise (temporary_failure "failed to create seed secret: " (write_error e)))
    pure (record { public_key = pubkey; seed_secret_name = secret.name }, seed)

  unfoldable pub update_seed_secret : Secret → Secret → Exec (World O) Error CtrlResult
  update_seed_secret got want = if lib.same_secret got want then pure no_result else do
    _ ←
        on_error (update_secret faults want)
          (λ e. raise (temporary_failure "failed to update seed secret: " (write_error e)))
    pure requeue_result

  unfoldable pub ensure_seed_secret_up_to_date :
      Secret → List SecretOption → Exec (World O) Error (KeyPair × CtrlResult)
  ensure_seed_secret_up_to_date got opts = do
    seed ← expect_some (get_field seed_key got.data_fields) (
        terminal (
          condition_failed "InvalidSeedSecret"
            (plain "seed secret does not contain seed data, delete the secret for a new keypair")))
    kp ←
        expect (lib.parse_seed seed) (terminal_failure "InvalidSeedSecret" "failed to parse seed: ")
    pubkey ←
        expect (lib.public_key kp)
          (terminal_failure "MalformedSeedSecret" "failed to get PublicKey from KeyPair: ")
    want ←
        expect (build_key_pair_secret lib got owner kp opts) (
          terminal_failure reason_unknown_error
            "failed to build seed secret from existing secret: ")
    result ← update_seed_secret got want
    pure (record { public_key = pubkey; seed_secret_name = got.name }, result)

  unfoldable pub seed_from :
      Outcome K → List SecretOption → Fetched Secret → Exec (World O) Error Seeded
  unfolding or_empty
  seed_from new_kp opts (not_found err) = do
    (kp, seed) ← create_seed_secret new_kp opts
    pure (kp, (seed, requeue_result))
  seed_from new_kp opts (unreadable err) =
      raise (temporary_unknown "failed to get seed secret: " err)
  seed_from new_kp opts (found got) = do
    (kp, result) ← ensure_seed_secret_up_to_date got opts
    pure (kp, (or_empty (get_field seed_key got.data_fields), result))

  unfoldable pub reconcile_seed_secret :
      Outcome K → String → List SecretOption → Exec (World O) Error Seeded
  reconcile_seed_secret new_kp secret_name opts = do
    got ← get_secret faults owner.meta.namespace secret_name
    seed_from new_kp opts got

  unfoldable pub create_jwt_secret : String → Exec (World O) Error (Unit {0})
  create_jwt_secret jwt = do
    secret ←
        expect (build_jwt_secret lib new_secret owner jwt [])
          (terminal_failure reason_unknown_error "failed to build account keypair secret: ")
    on_error (create_secret faults secret)
        (λ e. raise (temporary_failure "failed to create account JWT secret: " (write_error e)))

  -- A JWT with the result to enqueue again.
  unfoldable pub create_next : String → Exec (World O) Error (String × CtrlResult)
  create_next next_jwt = do _ ← create_jwt_secret next_jwt; pure (next_jwt, requeue_result)

  unfoldable pub delete_and_create : Secret → String → Exec (World O) Error (String × CtrlResult)
  delete_and_create got next_jwt = do
    _ ←
        on_error (delete_secret faults got)
          (λ e. raise (temporary_unknown "failed to delete invalid JWT secret: " (write_error e)))
    create_next next_jwt

  -- The Secret has no JWT.
  unfoldable pub without_jwt : Secret → String → Exec (World O) Error (String × CtrlResult)
  without_jwt got next_jwt =
      if is_owned owner got
      then delete_and_create got next_jwt
      else raise (
          terminal (
            condition_failed "InvalidJWTSecret"
              (plain "JWT secret does not contain JWT data and is not owned by this controller")))

  unfoldable pub not_updated : String → WriteError → Exec (World O) Error (String × CtrlResult)
  not_updated next_jwt (missing err) = create_next next_jwt
  not_updated next_jwt (rejected err) =
      raise (temporary_failure "failed to update JWT secret: " err)

  unfoldable pub update_jwt : Secret → String → Exec (World O) WriteError (String × CtrlResult)
  update_jwt want next_jwt = do _ ← update_secret faults want; pure (next_jwt, requeue_result)

  unfoldable pub replace_jwt : Secret → String → Exec (World O) Error (String × CtrlResult)
  replace_jwt got next_jwt = do
    want ←
        expect (build_jwt_secret lib got owner next_jwt [])
          (terminal_failure reason_unknown_error "failed to build desired JWT secret: ")
    on_error (update_jwt want next_jwt) (not_updated next_jwt)

  unfoldable pub check_jwt :
      C → Secret → String → Option String → Exec (World O) Error (String × CtrlResult)
  check_jwt want_claims got next_jwt none = without_jwt got next_jwt
  check_jwt want_claims got next_jwt (some got_jwt) =
      if is_current lib want_claims (lib.decode_jwt got_jwt)
      then pure (got_jwt, no_result)
      else replace_jwt got next_jwt

  unfoldable pub ensure_jwt_secret_up_to_date :
      C → Secret → String → Exec (World O) Error (String × CtrlResult)
  ensure_jwt_secret_up_to_date want_claims got next_jwt =
      check_jwt want_claims got next_jwt (get_field jwt_key got.data_fields)

  -- What the three controllers do with the JWT secret once the claims are encoded.
  unfoldable pub jwt_from : C → String → Fetched Secret → Exec (World O) Error (String × CtrlResult)
  jwt_from want_claims next_jwt (not_found err) = create_next next_jwt
  jwt_from want_claims next_jwt (unreadable err) =
      raise (temporary_unknown "failed to get JWT secret: " err)
  jwt_from want_claims next_jwt (found got) = ensure_jwt_secret_up_to_date want_claims got next_jwt
