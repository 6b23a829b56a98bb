-- ===== src/Resources/Built.antt =====
-- The Secrets that the builders of internal/controller/accounts/resources make.
use nats_account_operator.Common.{
  String, ◌==◌, ◌≡◌, ◌≢◌, refl, sym, ◌∙◌, ap, Bool, false, not, ◌&&◌, List, [], ◌∷◌, any, arith,
}
use nats_account_operator.Errors.{Error}
use nats_account_operator.Cluster.{
  ClientObject, ObjectType, operator_type, signing_key_type, account_type, user_type, other_type,
}
use nats_account_operator.Controller.{
  Outcome, ok, failed, ◌and_then◌, wrap_failure, OwnerReference, Secret, seed_key, public_key_key,
}
use nats_account_operator.Resources.{
  Library, SecretOption, jwt_key, creds_key, ca_key, apply_options, set_label, named, name_seed,
  name_jwt, filled, kind_of, own, build_key_pair_secret, build_jwt_secret, subject_of,
  label_credentials, build_credentials_secret,
}

-- A reference that makes another object than `owner` the controller.
abbrev pub is_other_controller : ClientObject → OwnerReference → Bool
is_other_controller owner ref =
    ref.controller && not ((ref.kind == kind_of owner.type) && (ref.name == owner.meta.name))

unfoldable pub controlled_elsewhere : ClientObject → Secret → Bool
controlled_elsewhere owner s = any (is_other_controller owner) s.owner_references

-- `SetControllerReference` of the controller runtime changes only the owner references, does nothing
-- a second time, and refuses an object that has another controller.
pub record SetsController {K C : Type 0} (lib : Library K C) : Type 0 where
  pub only_references :
      (owner : ClientObject) (s t : Secret)
      → lib.set_controller_reference owner s ≡ ok t
      → t ≡ record s { owner_references = t.owner_references }
  pub again :
      (owner : ClientObject) (s t : Secret)
      → lib.set_controller_reference owner s ≡ ok t
      → lib.set_controller_reference owner t ≡ ok t
  pub refuses :
      (owner : ClientObject) (s t : Secret)
      → lib.set_controller_reference owner s ≡ ok t
      → controlled_elsewhere owner s ≡ false

pub failed_ne : {A : Type 0} {e : Error} {a : A} → failed e ≢ ok a
failed_ne h = ground arith

pub ok_inj : {A : Type 0} (a b : A) → ok a ≡ ok b → a ≡ b
ok_inj a b h = ground arith

pub and_then_ok :
    {A B : Type 0} (o : Outcome A) (f : A → Outcome B) (b : B)
    → (o and_then f) ≡ ok b
    → (a : A) × (o ≡ ok a) × (f a ≡ ok b)
unfolding ◌and_then◌
and_then_ok (ok a) f b h = (a, refl, h)
and_then_ok (failed err) f b h = absurd (failed_ne h)

pub and_then_elim :
    {A B R : Type 0} {o : Outcome A} {f : A → Outcome B} {b : B}
    → (o and_then f) ≡ ok b
    → ((a : A) → o ≡ ok a → f a ≡ ok b → R)
    → R
and_then_elim {o} {f} {b} h k = let (a, p, q) = and_then_ok o f b h in k a p q

pub wrap_ok :
    {A : Type 0} (context : String) (o : Outcome A) (a : A)
    → wrap_failure context o ≡ ok a
    → o ≡ ok a
unfolding wrap_failure
wrap_ok context (ok b) a h = h
wrap_ok context (failed err) a h = absurd (failed_ne h)

-- Options that leave the owner references.
abbrev pub KeepOwners : List SecretOption → Type 0
KeepOwners opts =
    (s t : Secret) → apply_options opts s ≡ ok t → t.owner_references ≡ s.owner_references

pub none-KeepOwners : KeepOwners []
unfolding apply_options
none-KeepOwners s t h = ap (λ x. x.owner_references) (sym (ok_inj s t h))

-- How a builder that starts from `b` ends.
pub record IsBuilt (owner : ClientObject) (name : String) (fields : List (String × String))
    (b want : Secret) : Type 0 where
  pub own_namespace : want.namespace ≡ owner.meta.namespace
  pub own_name : want.name ≡ name
  pub own_fields : want.data_fields ≡ fields
  pub own_controller : controlled_elsewhere owner b ≡ false

module _ {K C : Type 0} (lib : Library K C) (laws : SetsController lib) where
  owned-IsBuilt :
      (owner : ClientObject) (name : String) (fields : List (String × String)) (b s want : Secret)
      → s.name ≡ name
      → s.owner_references ≡ b.owner_references
      → own lib owner (filled owner fields s) ≡ ok want
      → IsBuilt owner name fields b want
  unfolding own filled controlled_elsewhere
  owned-IsBuilt owner name fields b s want n e h =
      let q =
        wrap_ok "failed to set owner reference: "
          (lib.set_controller_reference owner (filled owner fields s)) want h in
      record {
        own_namespace =
            ap (λ x. x.namespace) (laws.only_references owner (filled owner fields s) want q);
        own_name = ap (λ x. x.name) (laws.only_references owner (filled owner fields s) want q) ∙ n;
        own_fields =
            ap (λ x. x.data_fields) (laws.only_references owner (filled owner fields s) want q);
        own_controller =
            ap (any (is_other_controller owner)) (sym e)
            ∙ laws.refuses owner (filled owner fields s) want q;
      }

shape : (s t : Secret) → ok s ≡ ok t → (t.name ≡ s.name) × (t.owner_references ≡ s.owner_references)
shape s t h = let q = sym (ok_inj s t h) in (ap (λ x. x.name) q, ap (λ x. x.owner_references) q)

name_seed_ok :
    (owner : ClientObject) (type : ObjectType) (s t : Secret)
    → name_seed owner type s ≡ ok t
    → (t.name ≡ owner.seed_secret_name) × (t.owner_references ≡ s.owner_references)
unfolding name_seed named set_label
name_seed_ok owner operator_type s t h = shape _ t h
name_seed_ok owner signing_key_type s t h = shape _ t h
name_seed_ok owner account_type s t h = shape _ t h
name_seed_ok owner user_type s t h = shape _ t h
name_seed_ok owner other_type s t h = absurd (failed_ne h)

name_jwt_ok :
    (owner : ClientObject) (type : ObjectType) (s t : Secret)
    → name_jwt owner type s ≡ ok t
    → (t.name ≡ owner.jwt_secret_name) × (t.owner_references ≡ s.owner_references)
unfolding name_jwt named set_label
name_jwt_ok owner operator_type s t h = shape _ t h
name_jwt_ok owner signing_key_type s t h = absurd (failed_ne h)
name_jwt_ok owner account_type s t h = shape _ t h
name_jwt_ok owner user_type s t h = shape _ t h
name_jwt_ok owner other_type s t h = absurd (failed_ne h)

module _ {K C : Type 0} (lib : Library K C) (laws : SetsController lib) (owner : ClientObject) where
  -- A seed secret that is built stands under the name of the owner's spec, in its namespace, with the
  -- seed and the public key of the pair as its data, and what it is built from has no other
  -- controller, when the options leave the owner references.
  pub build_key_pair_secret-IsBuilt :
      (b : Secret) (kp : K) (opts : List SecretOption) (want : Secret)
      → KeepOwners opts
      → build_key_pair_secret lib b owner kp opts ≡ ok want
      → (seed pubkey : String) × (lib.seed kp ≡ ok seed)
        × (lib.public_key kp ≡ ok pubkey)
        × IsBuilt owner owner.seed_secret_name
            ((seed_key, seed) ∷ (public_key_key, pubkey) ∷ [])
            b
            want
  unfolding build_key_pair_secret set_label
  build_key_pair_secret-IsBuilt b kp opts want keep h = and_then_elim h λ s a h1.
      and_then_elim h1 λ seed e h2. and_then_elim h2 λ pubkey f h3. and_then_elim h3 λ t n h4.
        let (p, r) = name_seed_ok owner owner.type _ t n in
        (seed, pubkey, e, f, owned-IsBuilt lib laws owner _ _ b t want p (r ∙ keep b s a) h4)

  -- The same for a JWT secret, with the JWT as its data.
  pub build_jwt_secret-IsBuilt :
      (b : Secret) (jwt : String) (opts : List SecretOption) (want : Secret)
      → KeepOwners opts
      → build_jwt_secret lib b owner jwt opts ≡ ok want
      → IsBuilt owner owner.jwt_secret_name ((jwt_key, jwt) ∷ []) b want
  unfolding build_jwt_secret set_label
  build_jwt_secret-IsBuilt b jwt opts want keep h = and_then_elim h λ s a h1.
      and_then_elim h1 λ t n h2.
        let (p, r) = name_jwt_ok owner owner.type _ t n in
        owned-IsBuilt lib laws owner _ _ b t want p (r ∙ keep b s a) h2

  -- The same for the credentials of a User, with the formatted credentials and the certificates.
  pub build_credentials_secret-IsBuilt :
      (b : Secret) (ca name ujwt seed : String) (want : Secret)
      → build_credentials_secret lib b ca owner name ujwt seed ≡ ok want
      → (creds : String) × (lib.format_user_config ujwt seed ≡ ok creds)
        × IsBuilt owner name ((creds_key, creds) ∷ (ca_key, ca) ∷ []) b want
  unfolding build_credentials_secret label_credentials set_label
  build_credentials_secret-IsBuilt b ca name ujwt seed want h = and_then_elim h λ creds e h1. (
    creds,
    e,
    owned-IsBuilt lib laws owner _ _ b
        (label_credentials (subject_of lib (lib.parse_seed seed)) name b) want refl refl h1,
  )
