-- ===== src/Controller/Issuer.antt =====
-- `loadIssuerSeed` of internal/controller/accounts/base_controller.go: the key pair that signs.
-- `quote` is what the verb `%q` of a format prints.
pub mod Loaded
mod Tests
use Prim.Native.String.{◌++◌}
use nats_account_operator.Common.{
  String, ◌==◌, Bool, true, false, Option, none, some, List, if◌then◌else◌,
}
use nats_account_operator.Errors.{
  Error, plain, wrapped, error_text, condition_error, result_error, requeue_result, no_result,
  reason_unknown_error,
}
use nats_account_operator.Api.{KeyPair}
use nats_account_operator.Controller.{
  Outcome, ok, failed, Fetched, found, not_found, unreadable, get_field, Secret, seed_key, Nkeys,
}

-- What `KeyPairable` gives of an issuer.
pub record Issuer : Type 0 where
  pub name : String
  pub namespace : String
  pub key_pair : Option KeyPair

abbrev temporary : Error → Error
temporary err = result_error requeue_result err

abbrev terminal : Error → Error
terminal err = result_error no_result err

abbrev condition_failed : String → String → Error
condition_failed reason message = condition_error true reason (plain message)

abbrev condition_unknown : String → String → Error
condition_unknown reason message = condition_error false reason (plain message)

module _ {K P : Type 0} (nkeys : Nkeys K P) (get_secret : String → String → Fetched Secret)
    (quote : String → String) where
  -- The check of the public key against the one in the status of the issuer.
  pub check_public_key : KeyPair → K → Outcome String → Outcome K
  check_public_key key_pair kp (failed err) = failed (
      terminal (
        condition_failed reason_unknown_error
          ("failed to get public key from seed: " ++ error_text err)))
  check_public_key key_pair kp (ok pk) =
      if pk == key_pair.public_key
      then ok kp
      else failed (
          terminal (
            condition_failed "PublicKeyMismatch" (
              "public key mismatch, wanted "
              ++ quote key_pair.public_key
              ++ " but got "
              ++ quote pk)))

  pub check_prefix : KeyPair → P → String → Outcome P → Outcome K
  unfolding check_public_key
  check_prefix key_pair want seed (failed err) = failed (
      terminal
        (condition_failed "MalformedSeedSecret" ("failed to parse seed: " ++ error_text err)))
  check_prefix key_pair want seed (ok prefix) =
      if nkeys.same_prefix prefix want
      then check_public_key key_pair (nkeys.from_seed seed)
          (nkeys.public_key (nkeys.from_seed seed))
      else failed (
          terminal (
            condition_failed "MalformedSeedSecret" (
              "unexpected seed prefix, wanted "
              ++ quote (nkeys.prefix_text want)
              ++ " but got "
              ++ quote (nkeys.prefix_text prefix))))

  pub check_seed : KeyPair → P → Option String → Outcome K
  unfolding check_prefix
  check_seed key_pair want none = failed (
      terminal
        (condition_failed "MalformedSeedSecret" ("secret missing required field: " ++ seed_key)))
  check_seed key_pair want (some seed) = check_prefix key_pair want seed (nkeys.decode_prefix seed)

  pub check_secret : Issuer → KeyPair → P → Fetched Secret → Outcome K
  unfolding check_seed
  check_secret issuer key_pair want (found secret) =
      check_seed key_pair want (get_field seed_key secret.data_fields)
  check_secret issuer key_pair want (not_found err) = failed (
      temporary (
        condition_failed "NotFound"
          ("core/v1; Secret, " ++ issuer.namespace ++ "/" ++ issuer.name ++ ": not found")))
  check_secret issuer key_pair want (unreadable err) =
      failed (condition_unknown "IssuerSeedError" ("failed to get issuer seed: " ++ error_text err))

  pub check_key_pair : Issuer → P → Option KeyPair → Outcome K
  unfolding check_secret
  check_key_pair issuer want none =
      failed (condition_failed reason_unknown_error "issuer KeyPair is nil")
  check_key_pair issuer want (some key_pair) =
      check_secret issuer key_pair want (get_secret issuer.namespace key_pair.seed_secret_name)

  pub load_issuer_seed : Issuer → P → Outcome K
  unfolding check_key_pair
  load_issuer_seed issuer want = check_key_pair issuer want issuer.key_pair
