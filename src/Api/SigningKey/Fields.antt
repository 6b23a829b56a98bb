-- ===== src/Api/SigningKey/Fields.antt =====
-- What the marks of `SigningKeyStatus` do to its other fields.
use nats_account_operator.Common.{String, ◌≡◌, refl, none, some}
use nats_account_operator.Api.{TypedObjectReference}
use nats_account_operator.Api.SigningKey.{
  SigningKeyStatus, mark_owner_resolved, mark_owner_resolve_failed, mark_owner_resolve_unknown,
  mark_seed_secret_ready,
}

pub owner_ref-mark_owner_resolved :
    (ref : TypedObjectReference) (s : SigningKeyStatus)
    → (mark_owner_resolved ref s).owner_ref ≡ some ref
unfolding mark_owner_resolved
owner_ref-mark_owner_resolved ref s = refl

pub owner_ref-mark_owner_resolve_failed :
    (reason message : String) (s : SigningKeyStatus)
    → (mark_owner_resolve_failed reason message s).owner_ref ≡ none
unfolding mark_owner_resolve_failed
owner_ref-mark_owner_resolve_failed reason message s = refl

pub owner_ref-mark_owner_resolve_unknown :
    (reason message : String) (s : SigningKeyStatus)
    → (mark_owner_resolve_unknown reason message s).owner_ref ≡ none
unfolding mark_owner_resolve_unknown
owner_ref-mark_owner_resolve_unknown reason message s = refl

pub key_pair-mark_seed_secret_ready :
    (public_key name : String) (s : SigningKeyStatus)
    → (mark_seed_secret_ready public_key name s).key_pair
      ≡ some (record { public_key = public_key; seed_secret_name = name })
unfolding mark_seed_secret_ready
key_pair-mark_seed_secret_ready public_key name s = refl
