-- ===== src/Nsc/User.antt =====
-- `CreateUserClaims` of pkg/nsc/createuser.go.
pub mod Claims
use Prim.Native.String.{◌++◌}
use nats_account_operator.Common.{
  String, ◌==◌, ℕ, Bool, true, false, Option, none, some, List, [], ◌∷◌, if◌then◌else◌,
}
use nats_account_operator.Errors.{Error, wrapped, error_text}
use nats_account_operator.Api.{KeyPair}
use nats_account_operator.Controller.{Outcome, ok, failed}
use nats_account_operator.Nsc.{
  ℤ, SpecNatsLimits, NatsLimits, convert_to_nats_limits, StartEndTime, TimeRange,
  convert_to_nats_time_ranges,
}

pub record Permission : Type 0 where
  pub allow : Option (List String)
  pub deny : Option (List String)

pub record RespPermission : Type 0 where
  pub max_msgs : ℤ
  pub ttl : ℤ

pub record UserPermissions : Type 0 where
  pub publish : Permission
  pub subscribe : Permission
  pub resp : Option RespPermission

-- `UserLimits` of the spec.
pub record SpecUserLimits : Type 0 where
  pub nats_limits : SpecNatsLimits
  pub src : Option (List String)
  pub times : Option (List StartEndTime)
  pub locale : String

-- The fields of the spec that are claims.
pub record UserSpec : Type 0 where
  pub permissions : Option UserPermissions
  pub limits : SpecUserLimits
  pub bearer_token : Option Bool

-- `Limits` of the library, with the fields of its `UserLimits` and `NatsLimits`.
pub record Limits : Type 0 where
  pub src : Option (List String)
  pub times : Option (List TimeRange)
  pub locale : String
  pub nats_limits : NatsLimits

-- `UserClaims` of the library, with the fields of its `UserPermissionLimits`.
pub record UserClaims : Type 0 where
  pub subject : String
  pub name : String
  pub publish : Permission
  pub subscribe : Permission
  pub resp : Option RespPermission
  pub limits : Limits
  pub bearer_token : Bool
  pub allowed_connection_types : Option (List String)
  pub issuer_account : String

-- The zero value of `Limits`.
abbrev pub zero_limits : Limits
zero_limits = record {
  src = none;
  times = none;
  locale = "";
  nats_limits = record { subs = ℤ.pos 0; data_bytes = ℤ.pos 0; payload = ℤ.pos 0 };
}

pub set_limits : SpecUserLimits → UserClaims → UserClaims
unfolding convert_to_nats_limits convert_to_nats_time_ranges
set_limits spec_limits claims = record claims {
  limits = record {
    src = spec_limits.src;
    times = convert_to_nats_time_ranges spec_limits.times;
    locale = spec_limits.locale;
    nats_limits = convert_to_nats_limits spec_limits.nats_limits claims.limits.nats_limits;
  };
}

pub set_bearer_token : Option Bool → UserClaims → UserClaims
set_bearer_token none claims = claims
set_bearer_token (some bearer_token) claims = record claims { bearer_token = bearer_token }

-- The whole of `UserPermissionLimits` is replaced.
pub set_permissions : Option UserPermissions → UserClaims → UserClaims
set_permissions none claims = claims
set_permissions (some permissions) claims = record claims {
  publish = permissions.publish;
  subscribe = permissions.subscribe;
  resp = permissions.resp;
  limits = zero_limits;
  bearer_token = false;
  allowed_connection_types = none;
}

pub set_issuer_account : Option KeyPair → String → UserClaims → UserClaims
set_issuer_account none signer claims = claims
set_issuer_account (some account_kp) signer claims =
    if account_kp.public_key == signer
    then claims
    else record claims { issuer_account = account_kp.public_key }

module _ {K : Type 0} (new_user_claims : String → UserClaims) (public_key : K → Outcome String)
    (encode : UserClaims → K → Outcome String) where
  pub user_claims : String → String → UserSpec → Option KeyPair → String → UserClaims
  unfolding set_limits set_bearer_token set_permissions set_issuer_account
  user_claims subject name spec account_kp signer = set_issuer_account account_kp signer (
      set_permissions spec.permissions (
        set_bearer_token spec.bearer_token
          (set_limits spec.limits (record (new_user_claims subject) { name = name }))))

  pub encoded : UserClaims → Outcome String → Outcome (UserClaims × String)
  encoded claims (failed err) =
      failed (wrapped ("failed to encode user claims: " ++ error_text err) err)
  encoded claims (ok ujwt) = ok (claims, ujwt)

  -- `subject` is the public key of the User's key pair.
  pub create_user_claims :
      String → String → UserSpec → Option KeyPair → K → Outcome (UserClaims × String)
  unfolding user_claims encoded
  create_user_claims subject name spec account_kp signing_key = signed (public_key signing_key)
    where
      signed : Outcome String → Outcome (UserClaims × String)
      signed (failed err) =
          failed (wrapped ("failed to get public key from key pair: " ++ error_text err) err)
      signed (ok signer) =
          let claims = user_claims subject name spec account_kp signer in
          encoded claims (encode claims signing_key)
