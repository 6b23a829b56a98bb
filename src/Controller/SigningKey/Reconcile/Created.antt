-- ===== src/Controller/SigningKey/Reconcile/Created.antt =====
-- The seed secret that `ensureKeyPair` of signingkey_controller.go (internal/controller/accounts)
-- creates.
use nats_account_operator.Common.{String, ◌≡◌, ◌⊎◌, true, none, some, [], ◌∷◌}
use nats_account_operator.Errors.{requeue_result}
use nats_account_operator.Api.SigningKey.{SigningKey}
use nats_account_operator.Controller.{ok, Secret}
use nats_account_operator.Controller.SigningKey.{Env}
use nats_account_operator.Controller.SigningKey.Reconcile.{Ended, create_secret}

module _ {S K : Type 0} (env : Env S K) where
  -- A new key pair of the kind of the owner: of an Account or of an Operator, and of no other.
  abbrev pub IsNewPair : String → K → Type 0
  IsNewPair kind kp =
      (kind ≡ "Account") × (env.create_account ≡ ok kp)
      ⊎ (kind ≡ "Operator") × (env.create_operator ≡ ok kp)

  -- An immutable secret with the name in the spec, in the namespace of the key, labelled with its
  -- owner's name, with these two values and no other, and nothing that owns it.
  pub record Holds (sk : SigningKey) (seed public_key : String) (secret : Secret) : Type 0 where
    pub named : secret.name ≡ sk.spec.seed_secret_name
    pub placed : secret.namespace ≡ sk.namespace
    pub fixed : secret.immutable ≡ true
    pub free : secret.owner_references ≡ []
    pub no_finalizers : secret.finalizers ≡ []
    pub labelled :
        secret.labels ≡ ("operator-name", sk.spec.owner_ref.name) ∷ ("secret-type", "skey") ∷ []
    pub filled : secret.data_fields ≡ ("seed.nk", seed) ∷ ("public.nk", public_key) ∷ []

  -- The secret is what `SetControllerReference` makes of one that holds the seed and the public
  -- key of a new key pair of the owner's kind, and the status names the same public key and the
  -- same secret.
  abbrev pub Records : SigningKey → Ended → Secret → Type 0
  Records sk e secret =
      (kp : K) × (seed : String) × (public_key : String) × (made : Secret) × IsNewPair
        sk.spec.owner_ref.kind kp
      × (env.seed kp ≡ ok seed)
      × (env.public_key kp ≡ ok public_key)
      × Holds sk seed public_key made
      × (env.set_controller_reference made ≡ ok secret)
      × (env.create_secret secret ≡ none)
      × (e.object.status.key_pair
          ≡ some (record { public_key = public_key; seed_secret_name = sk.spec.seed_secret_name }))
      × (e.result ≡ requeue_result)
      × (e.err ≡ none)
