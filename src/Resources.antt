-- ===== src/Resources.antt =====
-- The builders of Secrets: internal/controller/accounts/resources. A builder holds a Secret, an empty
-- one or a copy of one that is stored. Calls of other libraries are the fields of `Library`.
pub mod Built
use nats_account_operator.Common.{
  String, ◌==◌, Bool, true, false, Option, none, some, List, [], ◌∷◌, ◌++◌, any, if◌then◌else◌,
}
use nats_account_operator.Errors.{Error, plain}
use nats_account_operator.Cluster.{
  ClientObject, ObjectType, operator_type, signing_key_type, account_type, user_type, other_type,
}
use nats_account_operator.Controller.{
  Outcome, ok, failed, ◌and_then◌, wrap_failure, set_field, Secret, seed_key, public_key_key,
}

-- `K` is the type of key pairs, and `C` the type of decoded claims.
pub record Library (K C : Type 0) : Type 0 where
  pub parse_seed : String → Outcome K
  pub seed : K → Outcome String
  pub public_key : K → Outcome String
  pub format_user_config : String → String → Outcome String
  pub decode_jwt : String → Outcome C
  pub same_claims : C → C → Bool
  pub set_controller_reference : ClientObject → Secret → Outcome Secret
  pub same_secret : Secret → Secret → Bool

abbrev pub label_secret_type : String
label_secret_type = "nats.accounts.io/secret-type"

abbrev pub label_secret_jwt_type : String
label_secret_jwt_type = "nats.accounts.io/jwt-type"

abbrev pub label_secret_seed_type : String
label_secret_seed_type = "nats.accounts.io/seed-type"

abbrev pub label_subject : String
label_subject = "accounts.nats.io/subject"

abbrev pub label_operator_name : String
label_operator_name = "accounts.nats.io/operator"

abbrev pub label_signing_key_name : String
label_signing_key_name = "accounts.nats.io/signing-key"

abbrev pub label_account_name : String
label_account_name = "accounts.nats.io/account"

abbrev pub label_user_name : String
label_user_name = "accounts.nats.io/user"

abbrev pub jwt_key : String
jwt_key = "nats.jwt"

abbrev pub creds_key : String
creds_key = "nats.creds"

abbrev pub ca_key : String
ca_key = "ca.crt"

abbrev pub new_secret : Secret
new_secret = record {
  name = "";
  namespace = "";
  immutable = false;
  owner_references = [];
  finalizers = [];
  labels = [];
  data_fields = [];
}

abbrev pub SecretOption : Type 0
SecretOption = Secret → Outcome Secret

unfoldable pub immutable : SecretOption
immutable s = ok (record s { immutable = true })

abbrev deletion_prevention : String
deletion_prevention = "accounts.versori.io/deletion-prevention"

unfoldable pub with_deletion_prevention : SecretOption
with_deletion_prevention s = ok (record s {
  finalizers =
      if any (λ f. f == deletion_prevention) s.finalizers
      then s.finalizers
      else s.finalizers ++ deletion_prevention ∷ [];
})

unfoldable pub apply_options : List SecretOption → Secret → Outcome Secret
unfolding ◌and_then◌ wrap_failure
apply_options [] s = ok s
apply_options (opt ∷ opts) s =
    wrap_failure "failed to apply option: " (opt s) and_then apply_options opts

unfoldable pub set_label : String → String → Secret → Secret
set_label key value s = record s { labels = set_field key value s.labels }

-- The name of a Secret, and the label for the owner.
unfoldable pub named : String → String → String → String → String → Secret → Secret
unfolding set_label
named name type_label type owner_label owner s =
    set_label owner_label owner (set_label type_label type (record s { name = name }))

unfoldable pub name_seed : ClientObject → ObjectType → Secret → Outcome Secret
unfolding named
name_seed obj operator_type s = ok (
    named obj.seed_secret_name label_secret_seed_type "Operator" label_operator_name obj.meta.name
      s)
name_seed obj signing_key_type s = ok (
    named obj.seed_secret_name label_secret_seed_type "SigningKey" label_signing_key_name
      obj.meta.name s)
name_seed obj account_type s =
    ok (
      named obj.seed_secret_name label_secret_seed_type "Account" label_account_name obj.meta.name
        s)
name_seed obj user_type s =
    ok (named obj.seed_secret_name label_secret_seed_type "User" label_user_name obj.meta.name s)
name_seed obj other_type s = failed (plain "unknown object type for JWT secret owner")

unfoldable pub name_jwt : ClientObject → ObjectType → Secret → Outcome Secret
unfolding named
name_jwt obj operator_type s =
    ok (
      named obj.jwt_secret_name label_secret_jwt_type "Operator" label_operator_name obj.meta.name
        s)
name_jwt obj account_type s =
    ok
      (named obj.jwt_secret_name label_secret_jwt_type "Account" label_account_name obj.meta.name s)
name_jwt obj user_type s =
    ok (named obj.jwt_secret_name label_secret_jwt_type "User" label_user_name obj.meta.name s)
name_jwt obj signing_key_type s = failed (plain "unknown object type for JWT secret owner")
name_jwt obj other_type s = failed (plain "unknown object type for JWT secret owner")

unfoldable pub filled : ClientObject → List (String × String) → Secret → Secret
filled obj fields s = record s { namespace = obj.meta.namespace; data_fields = fields }

unfoldable pub label_credentials : String → String → Secret → Secret
unfolding set_label
label_credentials pubkey name s = set_label label_secret_jwt_type "User" (
    set_label label_secret_type "credentials"
      (set_label label_subject pubkey (record s { name = name })))

abbrev pub kind_of : ObjectType → String
kind_of operator_type = "Operator"
kind_of signing_key_type = "SigningKey"
kind_of account_type = "Account"
kind_of user_type = "User"
kind_of other_type = ""

module _ {K C : Type 0} (lib : Library K C) where
  unfoldable pub own : ClientObject → Secret → Outcome Secret
  unfolding wrap_failure
  own obj s = wrap_failure "failed to set owner reference: " (lib.set_controller_reference obj s)

  -- `Build` of a KeyPairSecretBuilder that holds `b`.
  unfoldable pub build_key_pair_secret :
      Secret → ClientObject → K → List SecretOption → Outcome Secret
  unfolding ◌and_then◌ apply_options set_label name_seed filled own
  build_key_pair_secret b obj kp opts = apply_options opts b and_then λ s.
      lib.seed kp and_then λ seed. lib.public_key kp and_then λ pubkey.
      name_seed obj obj.type (set_label label_subject pubkey (set_label label_secret_type "seed" s))
      and_then λ s'. own obj (filled obj ((seed_key, seed) ∷ (public_key_key, pubkey) ∷ []) s')

  -- `Build` of a JWTSecretBuilder that holds `b`.
  unfoldable pub build_jwt_secret :
      Secret → ClientObject → String → List SecretOption → Outcome Secret
  unfolding ◌and_then◌ apply_options set_label name_jwt filled own
  build_jwt_secret b obj jwt opts = apply_options opts b and_then λ s.
      name_jwt obj obj.type (set_label label_secret_type "jwt" s) and_then λ s'.
      own obj (filled obj ((jwt_key, jwt) ∷ []) s')

  -- The public key of a seed, or "" when there is none.
  unfoldable pub subject_of : Outcome K → String
  subject_of (failed err) = ""
  subject_of (ok kp) = or_blank (lib.public_key kp)
    where
      or_blank : Outcome String → String
      or_blank (ok pubkey) = pubkey
      or_blank (failed err) = ""

  -- `Build` of a UserCredentialSecretBuilder that holds `b` and the certificates `ca`.
  unfoldable pub build_credentials_secret :
      Secret → String → ClientObject → String → String → String → Outcome Secret
  unfolding ◌and_then◌ filled own
  build_credentials_secret b ca usr credentials_secret_name ujwt seed =
      lib.format_user_config ujwt seed and_then λ creds. own usr (
        filled usr ((creds_key, creds) ∷ (ca_key, ca) ∷ [])
          (label_credentials (subject_of (lib.parse_seed seed)) credentials_secret_name b))
