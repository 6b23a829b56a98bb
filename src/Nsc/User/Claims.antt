-- ===== src/Nsc/User/Claims.antt =====
-- What the claims of `CreateUserClaims` of pkg/nsc/createuser.go say.
use nats_account_operator.Common.{
  String, ◌==◌, eq_of_==, ◌≡◌, ◌⊎◌, refl, ◌∙◌, ap, inl, inr, Bool, false, Option, none, some, List,
  [], ◌∷◌, map, Bool-cases, Option-cases,
}
use nats_account_operator.Api.{KeyPair}
use nats_account_operator.Controller.{Outcome}
use nats_account_operator.Nsc.{
  get_default_from_ptr, convert_to_nats_limits, convert_to_nats_time_ranges, StartEndTime,
  TimeRange,
}
use nats_account_operator.Nsc.User.{
  UserSpec, UserPermissions, UserClaims, zero_limits, set_limits, set_bearer_token, set_permissions,
  set_issuer_account, user_claims,
}

-- The value that is set, or else the one that stands for it.
abbrev pub IsTaken {ℓ} : {A : Type ℓ} → Option A → A → A → Type ℓ
IsTaken given default value = (given ≡ some value) ⊎ (given ≡ none) × (value ≡ default)

-- The same times of day, in the same order; a nil slice stays nil.
abbrev pub SameTimes : Option (List StartEndTime) → Option (List TimeRange) → Type 0
SameTimes none none = Unit
SameTimes (some given) (some times) =
    (map (λ (v : StartEndTime). v.start) given ≡ map (λ (v : TimeRange). v.start) times)
    × (map (λ (v : StartEndTime). v.end) given ≡ map (λ (v : TimeRange). v.end) times)
SameTimes _ _ = ⊥

IsTaken-get_default_from_ptr {ℓ} :
    {A : Type ℓ} (given : Option A) (default : A)
    → IsTaken given default (get_default_from_ptr given default)
unfolding get_default_from_ptr
IsTaken-get_default_from_ptr none default = inr (refl, refl)
IsTaken-get_default_from_ptr (some v) default = inl refl

SameTimes-convert_to_nats_time_ranges :
    (given : Option (List StartEndTime)) → SameTimes given (convert_to_nats_time_ranges given)
unfolding convert_to_nats_time_ranges
SameTimes-convert_to_nats_time_ranges none = tt
SameTimes-convert_to_nats_time_ranges (some given) = (starts given, ends given)
  where
    starts :
        (l : List StartEndTime)
        → map (λ (v : StartEndTime). v.start) l
          ≡ map
              (λ (v : TimeRange). v.start)
              (map (λ (v : StartEndTime). record { start = v.start; end = v.end }) l)
    starts [] = refl
    starts (v ∷ l) = ap (λ m. v.start ∷ m) (starts l)

    ends :
        (l : List StartEndTime)
        → map (λ (v : StartEndTime). v.end) l
          ≡ map
              (λ (v : TimeRange). v.end)
              (map (λ (v : StartEndTime). record { start = v.start; end = v.end }) l)
    ends [] = refl
    ends (v ∷ l) = ap (λ m. v.end ∷ m) (ends l)

set_issuer_account_only :
    (account_kp : Option KeyPair) (signer : String) (claims : UserClaims)
    → (issuer : String) × (set_issuer_account account_kp signer claims
        ≡ record claims { issuer_account = issuer })
unfolding set_issuer_account
set_issuer_account_only none signer claims = (claims.issuer_account, refl)
set_issuer_account_only (some kp) signer claims = elim (Bool-cases (kp.public_key == signer)) [
  | inl q ↦ (claims.issuer_account, rw q refl)
  | inr q ↦ (kp.public_key, rw q refl)
]

set_bearer_token_only :
    (bearer_token : Option Bool) (claims : UserClaims)
    → set_bearer_token bearer_token claims
      ≡ record claims { bearer_token = get_default_from_ptr bearer_token claims.bearer_token }
unfolding set_bearer_token get_default_from_ptr
set_bearer_token_only none claims = refl
set_bearer_token_only (some b) claims = refl

-- What the spec and the new claims say of a User with no permissions of its own.
pub record FollowsLimits (spec : UserSpec) (fresh claims : UserClaims) : Type 0 where
  pub subs :
      IsTaken spec.limits.nats_limits.subs fresh.limits.nats_limits.subs
        claims.limits.nats_limits.subs
  pub data_bytes :
      IsTaken spec.limits.nats_limits.data_bytes fresh.limits.nats_limits.data_bytes
        claims.limits.nats_limits.data_bytes
  pub payload :
      IsTaken spec.limits.nats_limits.payload fresh.limits.nats_limits.payload
        claims.limits.nats_limits.payload
  pub src : claims.limits.src ≡ spec.limits.src
  pub times : SameTimes spec.limits.times claims.limits.times
  pub locale : claims.limits.locale ≡ spec.limits.locale
  pub bearer_token : IsTaken spec.bearer_token fresh.bearer_token claims.bearer_token
  pub publish : claims.publish ≡ fresh.publish
  pub subscribe : claims.subscribe ≡ fresh.subscribe
  pub resp : claims.resp ≡ fresh.resp
  pub connections : claims.allowed_connection_types ≡ fresh.allowed_connection_types

-- What the permissions of the spec say of a User, with nothing of its limits.
pub record FollowsPermissions (permissions : UserPermissions) (claims : UserClaims) : Type 0 where
  pub publish : claims.publish ≡ permissions.publish
  pub subscribe : claims.subscribe ≡ permissions.subscribe
  pub resp : claims.resp ≡ permissions.resp
  pub limits : claims.limits ≡ zero_limits
  pub bearer_token : claims.bearer_token ≡ false
  pub connections : claims.allowed_connection_types ≡ none

started-FollowsLimits :
    (spec : UserSpec) (fresh : UserClaims) (name issuer : String)
    → let started = set_limits spec.limits (record fresh { name = name }) in
      FollowsLimits spec fresh (record started {
        bearer_token = get_default_from_ptr spec.bearer_token started.bearer_token;
        issuer_account = issuer;
      })
unfolding set_limits convert_to_nats_limits
started-FollowsLimits spec fresh name issuer = record {
  subs = IsTaken-get_default_from_ptr spec.limits.nats_limits.subs fresh.limits.nats_limits.subs;
  data_bytes =
      IsTaken-get_default_from_ptr spec.limits.nats_limits.data_bytes
        fresh.limits.nats_limits.data_bytes;
  payload =
      IsTaken-get_default_from_ptr spec.limits.nats_limits.payload fresh.limits.nats_limits.payload;
  src = refl;
  times = SameTimes-convert_to_nats_time_ranges spec.limits.times;
  locale = refl;
  bearer_token = IsTaken-get_default_from_ptr spec.bearer_token fresh.bearer_token;
  publish = refl;
  subscribe = refl;
  resp = refl;
  connections = refl;
}

set_permissions-FollowsPermissions :
    (permissions : UserPermissions) (claims : UserClaims) (issuer : String)
    → FollowsPermissions permissions
        (record (set_permissions (some permissions) claims) { issuer_account = issuer })
unfolding set_permissions
set_permissions-FollowsPermissions permissions claims issuer = record {
  publish = refl;
  subscribe = refl;
  resp = refl;
  limits = refl;
  bearer_token = refl;
  connections = refl;
}

issuer_account-set_permissions :
    (permissions : Option UserPermissions) (claims : UserClaims)
    → (set_permissions permissions claims).issuer_account ≡ claims.issuer_account
unfolding set_permissions
issuer_account-set_permissions none claims = refl
issuer_account-set_permissions (some permissions) claims = refl

issuer_account-set_bearer_token :
    (bearer_token : Option Bool) (claims : UserClaims)
    → (set_bearer_token bearer_token claims).issuer_account ≡ claims.issuer_account
unfolding set_bearer_token
issuer_account-set_bearer_token none claims = refl
issuer_account-set_bearer_token (some b) claims = refl

issuer_account-set_issuer_account :
    (account_kp : Option KeyPair) (signer : String) (claims : UserClaims)
    → ((kp : KeyPair) × (account_kp ≡ some kp)
        × ((kp.public_key == signer) ≡ false)
        × ((set_issuer_account account_kp signer claims).issuer_account ≡ kp.public_key))
      ⊎ (((account_kp ≡ none)
            ⊎ ((kp : KeyPair) × (account_kp ≡ some kp) × (kp.public_key ≡ signer)))
          × ((set_issuer_account account_kp signer claims).issuer_account ≡ claims.issuer_account))
unfolding set_issuer_account
issuer_account-set_issuer_account none signer claims = inr (inl refl, refl)
issuer_account-set_issuer_account (some k) signer claims =
    elim (Bool-cases (k.public_key == signer)) [
      | inl q ↦ inr (inr (k, refl, eq_of_== k.public_key signer q), rw q refl)
      | inr q ↦ inl (k, refl, q, rw q refl)
    ]

module _ {K : Type 0} (new_user_claims : String → UserClaims) (public_key : K → Outcome String)
    (encode : UserClaims → K → Outcome String) where
  -- With no permissions in the spec, the claims have each limit on subscriptions, data and
  -- payload, and the bearer token, of the spec, or of the new claims where the spec has none; the
  -- sources, times and locale of the spec, set or not; and the permissions of the new claims.
  -- With permissions in the spec they have these, and nothing of its limits: all limits are
  -- zero and the bearer token is false, whatever the spec sets.
  pub limits-user_claims :
      (subject name signer : String) (spec : UserSpec) (account_kp : Option KeyPair)
      → let claims =
          user_claims new_user_claims public_key encode subject name spec account_kp signer in
        (spec.permissions ≡ none) × FollowsLimits spec (new_user_claims subject) claims
        ⊎ ((permissions : UserPermissions) × (spec.permissions ≡ some permissions)
            × FollowsPermissions permissions claims)
  unfolding user_claims
  limits-user_claims subject name signer spec account_kp =
      let started = set_limits spec.limits (record (new_user_claims subject) { name = name }) in
      let borne = set_bearer_token spec.bearer_token started in
      let (issuer, q) =
        set_issuer_account_only account_kp signer (set_permissions spec.permissions borne) in
      elim (Option-cases spec.permissions) [
        | inl e ↦
            let kept : set_permissions spec.permissions borne ≡ borne =
              unfold set_permissions in rw e refl in
            inl (
              e,
              rw (q, kept, set_bearer_token_only spec.bearer_token started)
                  (started-FollowsLimits spec (new_user_claims subject) name _),
            )
        | inr (permissions, e) ↦
            inr (permissions, e, rw (q, e) (set_permissions-FollowsPermissions permissions borne _))
      ]

  -- The claims name the account as the issuer's account when its public key is not the signer's,
  -- and are the new claims' in this otherwise: the signer is the account, or it has no key pair.
  pub issuer_account-user_claims :
      (subject name signer : String) (spec : UserSpec) (account_kp : Option KeyPair)
      → let claims =
          user_claims new_user_claims public_key encode subject name spec account_kp signer in
        ((kp : KeyPair) × (account_kp ≡ some kp)
          × ((kp.public_key == signer) ≡ false)
          × (claims.issuer_account ≡ kp.public_key))
        ⊎ (((account_kp ≡ none)
              ⊎ ((kp : KeyPair) × (account_kp ≡ some kp) × (kp.public_key ≡ signer)))
            × (claims.issuer_account ≡ (new_user_claims subject).issuer_account))
  unfolding user_claims
  issuer_account-user_claims subject name signer spec account_kp =
      let started = set_limits spec.limits (record (new_user_claims subject) { name = name }) in
      let borne = set_bearer_token spec.bearer_token started in
      let base : (set_permissions spec.permissions borne).issuer_account
          ≡ (new_user_claims subject).issuer_account =
        issuer_account-set_permissions spec.permissions borne
        ∙ issuer_account-set_bearer_token spec.bearer_token started
        ∙ unfold set_limits in refl in
      elim (issuer_account-set_issuer_account account_kp signer
        (set_permissions spec.permissions borne)) [ inl h ↦ inl h | inr (h, k) ↦ inr (h, k ∙ base) ]
