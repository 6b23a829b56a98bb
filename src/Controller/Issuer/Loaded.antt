-- ===== src/Controller/Issuer/Loaded.antt =====
-- When `loadIssuerSeed` of internal/controller/accounts/base_controller.go gives a key pair.
use nats_account_operator.Common.{
  String, ◌==◌, eq_of_==, ==_refl, ◌≡◌, ◌≢◌, ◌↔◌, refl, sym, ◌∙◌, ap, inl, inr, true, Option, none,
  some, arith, Bool-cases,
}
use nats_account_operator.Errors.{Error}
use nats_account_operator.Api.{KeyPair}
use nats_account_operator.Controller.{
  Outcome, ok, failed, Fetched, found, not_found, unreadable, get_field, Secret, seed_key, Nkeys,
}
use nats_account_operator.Controller.Issuer.{
  Issuer, check_public_key, check_prefix, check_seed, check_secret, check_key_pair,
  load_issuer_seed,
}

module _ {K P : Type 0} (nkeys : Nkeys K P) (get_secret : String → String → Fetched Secret)
    (quote : String → String) where
  -- The key pair is that of a seed that the secret in the issuer's namespace holds, whose prefix is
  -- the wanted one and whose public key is the one in the issuer's status.
  abbrev pub IsLoaded : Issuer → P → K → Type 0
  IsLoaded issuer want kp =
      (key_pair : KeyPair) × (secret : Secret) × (seed : String) × (prefix : P) × (issuer.key_pair
        ≡ some key_pair)
      × (get_secret issuer.namespace key_pair.seed_secret_name ≡ found secret)
      × (get_field seed_key secret.data_fields ≡ some seed)
      × (nkeys.decode_prefix seed ≡ ok prefix)
      × (nkeys.same_prefix prefix want ≡ true)
      × (kp ≡ nkeys.from_seed seed)
      × (nkeys.public_key kp ≡ ok key_pair.public_key)

  failed_ne : {e : Error} {kp : K} → failed e ≢ ok kp
  failed_ne h = ground arith

  ok_inj : (a b : K) → ok a ≡ ok b → a ≡ b
  ok_inj a b h = ground arith

  public_key_ok :
      (key_pair : KeyPair) (kp kp' : K) (o : Outcome String)
      → check_public_key nkeys get_secret quote key_pair kp o ≡ ok kp'
      → (kp' ≡ kp) × (o ≡ ok key_pair.public_key)
  unfolding check_public_key
  public_key_ok key_pair kp kp' (failed err) h = absurd (ground arith)
  public_key_ok key_pair kp kp' (ok pk) h = elim (Bool-cases (pk == key_pair.public_key)) [
    | inl q ↦ (sym (ok_inj kp kp' (rw q at h)), ap ok (eq_of_== pk key_pair.public_key q))
    | inr q ↦ absurd (failed_ne (rw q at h))
  ]

  prefix_ok :
      (key_pair : KeyPair) (want : P) (seed : String) (kp : K) (o : Outcome P)
      → check_prefix nkeys get_secret quote key_pair want seed o ≡ ok kp
      → (prefix : P) × (o ≡ ok prefix)
        × (nkeys.same_prefix prefix want ≡ true)
        × (kp ≡ nkeys.from_seed seed)
        × (nkeys.public_key kp ≡ ok key_pair.public_key)
  unfolding check_prefix
  prefix_ok key_pair want seed kp (failed err) h = absurd (failed_ne h)
  prefix_ok key_pair want seed kp (ok prefix) h =
      elim (Bool-cases (nkeys.same_prefix prefix want)) [
        | inl q ↦
            let (k, p) =
              public_key_ok key_pair (nkeys.from_seed seed) kp
                (nkeys.public_key (nkeys.from_seed seed)) (rw q at h) in
            (prefix, refl, q, k, ap nkeys.public_key k ∙ p)
        | inr q ↦ absurd (failed_ne (rw q at h))
      ]

  seed_ok :
      (key_pair : KeyPair) (want : P) (kp : K) (o : Option String)
      → check_seed nkeys get_secret quote key_pair want o ≡ ok kp
      → (seed : String) × (o ≡ some seed)
        × (check_prefix nkeys get_secret quote key_pair want seed (nkeys.decode_prefix seed)
            ≡ ok kp)
  unfolding check_seed
  seed_ok key_pair want kp none h = absurd (failed_ne h)
  seed_ok key_pair want kp (some seed) h = (seed, refl, h)

  secret_ok :
      (issuer : Issuer) (key_pair : KeyPair) (want : P) (kp : K) (o : Fetched Secret)
      → check_secret nkeys get_secret quote issuer key_pair want o ≡ ok kp
      → (secret : Secret) × (o ≡ found secret)
        × (check_seed nkeys get_secret quote key_pair want (get_field seed_key secret.data_fields)
            ≡ ok kp)
  unfolding check_secret
  secret_ok issuer key_pair want kp (found secret) h = (secret, refl, h)
  secret_ok issuer key_pair want kp (not_found err) h = absurd (failed_ne h)
  secret_ok issuer key_pair want kp (unreadable err) h = absurd (failed_ne h)

  key_pair_ok :
      (issuer : Issuer) (want : P) (kp : K) (o : Option KeyPair)
      → check_key_pair nkeys get_secret quote issuer want o ≡ ok kp
      → (key_pair : KeyPair) × (o ≡ some key_pair)
        × (check_secret nkeys get_secret quote issuer key_pair want
              (get_secret issuer.namespace key_pair.seed_secret_name)
            ≡ ok kp)
  unfolding check_key_pair
  key_pair_ok issuer want kp none h = absurd (failed_ne h)
  key_pair_ok issuer want kp (some key_pair) h = (key_pair, refl, h)

  -- Whatever key pair `loadIssuerSeed` gives has passed its checks.
  load_issuer_seed_sound :
      (issuer : Issuer) (want : P) (kp : K)
      → load_issuer_seed nkeys get_secret quote issuer want ≡ ok kp
      → IsLoaded issuer want kp
  unfolding load_issuer_seed
  load_issuer_seed_sound issuer want kp h =
      let (key_pair, a, h1) = key_pair_ok issuer want kp issuer.key_pair h in
      let (secret, b, h2) =
        secret_ok issuer key_pair want kp (get_secret issuer.namespace key_pair.seed_secret_name)
          h1 in
      let (seed, c, h3) = seed_ok key_pair want kp (get_field seed_key secret.data_fields) h2 in
      let (prefix, d, e, f, g) = prefix_ok key_pair want seed kp (nkeys.decode_prefix seed) h3 in
      (key_pair, secret, seed, prefix, a, b, c, d, e, f, g)

  load_issuer_seed_complete :
      (issuer : Issuer) (want : P) (kp : K)
      → IsLoaded issuer want kp
      → load_issuer_seed nkeys get_secret quote issuer want ≡ ok kp
  unfolding load_issuer_seed check_key_pair check_secret check_seed check_prefix check_public_key
  load_issuer_seed_complete issuer want kp (key_pair, secret, seed, prefix, a, b, c, d, e, f, g) =
      let known : nkeys.public_key (nkeys.from_seed seed) ≡ ok key_pair.public_key =
        ap nkeys.public_key (sym f) ∙ g in
      rw (a, b, c, d, e, known, ==_refl key_pair.public_key) (ap ok (sym f))

  -- `loadIssuerSeed` gives a key pair exactly when the issuer's status has a key pair, whose secret
  -- stands in the issuer's namespace and holds a seed with the wanted prefix, from which the key
  -- pair comes, and the public key of it is the one in the status.
  pub load_issuer_seed_lem :
      (issuer : Issuer) (want : P) (kp : K)
      → load_issuer_seed nkeys get_secret quote issuer want ≡ ok kp ↔ IsLoaded issuer want kp
  load_issuer_seed_lem issuer want kp =
      (load_issuer_seed_sound issuer want kp, load_issuer_seed_complete issuer want kp)
