-- ===== src/Nsc/Operator/Claims.antt =====
-- What `CreateOperatorClaims` of pkg/nsc/createoperator.go does for a ready Operator.
use Prim.Native.String.{◌++◌}
use nats_account_operator.Common.{
  String, ◌≡◌, ◌⊎◌, refl, inl, inr, ℕ, true, some, List, map, Option-cases,
}
use nats_account_operator.Errors.{Error, wrapped, error_text}
use nats_account_operator.Api.{KeyPair, KeyPairReference, SigningKeyEmbeddedStatus}
use nats_account_operator.Api.Operator.{is_ready}
use nats_account_operator.Api.Operator.Calls.{
  OperatorCall, operator_lifecycle, blank_operator, operator_ready,
}
use nats_account_operator.Api.Lifecycle.{run_calls}
use nats_account_operator.Controller.{Outcome, ok, failed}
use nats_account_operator.Nsc.Operator.{
  OperatorSpec, OperatorClaims, operator_claims, encoded, create_with, create_operator_claims,
}

-- What the claims of an Operator say: the constructor's claims for its public key, with the values
-- of the spec and the status.
pub record Describes (fresh : String → OperatorClaims) (claim_type operator_name : String)
    (spec : OperatorSpec) (keys : List SigningKeyEmbeddedStatus) (account : KeyPairReference)
    (key_pair : KeyPair) (now : ℕ) (claims : OperatorClaims) : Type 0 where
  pub subject : claims.subject ≡ (fresh key_pair.public_key).subject
  pub name : claims.name ≡ operator_name
  pub issued_at : claims.issued_at ≡ now
  pub signing_keys :
      claims.signing_keys ≡ map (λ (sk : SigningKeyEmbeddedStatus). sk.key_pair.public_key) keys
  pub account_server_url : claims.account_server_url ≡ spec.account_server_url
  pub operator_service_urls : claims.operator_service_urls ≡ spec.operator_service_urls
  pub system_account : claims.system_account ≡ account.public_key
  pub type : claims.type ≡ claim_type

module _ {K : Type 0} (new_operator_claims : String → OperatorClaims) (operator_claim : String)
    (encode : OperatorClaims → K → Outcome String) where
  encoded-cases :
      (claims : OperatorClaims) (o : Outcome String)
      → let result = encoded new_operator_claims operator_claim encode claims o in
        ((token : String) × (o ≡ ok token) × (result ≡ ok (claims, token)))
        ⊎ ((err : Error) × (o ≡ failed err)
            × (result
                ≡ failed (wrapped ("failed to encode operator claims: " ++ error_text err) err)))
  unfolding encoded
  encoded-cases claims (ok token) = inl (token, refl, refl)
  encoded-cases claims (failed err) = inr (err, refl, refl)

  describes :
      (name : String) (spec : OperatorSpec) (signing_keys : List SigningKeyEmbeddedStatus)
      (account : KeyPairReference) (key_pair : KeyPair) (now : ℕ)
      → Describes new_operator_claims operator_claim name spec signing_keys account key_pair now (
          operator_claims new_operator_claims operator_claim encode name spec signing_keys account
            key_pair now)
  unfolding operator_claims
  describes name spec signing_keys account key_pair now = record {
    subject = refl;
    name = refl;
    issued_at = refl;
    signing_keys = refl;
    account_server_url = refl;
    operator_service_urls = refl;
    system_account = refl;
    type = refl;
  }

  -- An Operator that is ready after any calls of the methods of its status, from one with no
  -- conditions, has a key pair and a resolved system account. `CreateOperatorClaims` then makes
  -- claims with the public keys of both and of each signing key, the values of the spec, the
  -- name and the time, and returns them with what the encoder makes of them; it fails only
  -- where the encoder does, with that error wrapped.
  pub create_operator_claims_ready :
      (clock : ℕ → ℕ) (cs : List OperatorCall) (name : String) (spec : OperatorSpec) (now : ℕ)
      (signing_key : K)
      → let s = run_calls operator_lifecycle cs (blank_operator clock) in
        let result =
          create_operator_claims new_operator_claims operator_claim encode name spec s now
            signing_key in
        is_ready s ≡ true
        → (account : KeyPairReference) × (key_pair : KeyPair) × (claims : OperatorClaims)
          × (s.resolved_system_account ≡ some account)
          × (s.key_pair ≡ some key_pair)
          × Describes new_operator_claims operator_claim name spec s.signing_keys account key_pair
              now claims
          × (((token : String) × (encode claims signing_key ≡ ok token)
                × (result ≡ ok (claims, token)))
              ⊎ ((err : Error) × (encode claims signing_key ≡ failed err)
                  × (result
                      ≡ failed
                          (wrapped ("failed to encode operator claims: " ++ error_text err) err))))
  unfolding create_operator_claims create_with
  create_operator_claims_ready clock cs name spec now signing_key h =
      let s = run_calls operator_lifecycle cs (blank_operator clock) in
      let (k, a) = operator_ready clock cs h in
      elim (Option-cases s.resolved_system_account) [
        | inl q ↦ absurd (a q)
        | inr (account, q) ↦ elim (Option-cases s.key_pair) [
          | inl p ↦ absurd (k p)
          | inr (key_pair, p) ↦
              let claims =
                operator_claims new_operator_claims operator_claim encode name spec s.signing_keys
                  account key_pair now in
              (
                account,
                key_pair,
                claims,
                q,
                p,
                describes name spec s.signing_keys account key_pair now,
                rw (q, p) (encoded-cases claims (encode claims signing_key)),
              )
        ]
      ]
