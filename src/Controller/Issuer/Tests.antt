-- ===== src/Controller/Issuer/Tests.antt =====
-- An issuer whose key pair is a number.
use nats_account_operator.Common.{String, ◌≡◌, ◌↔◌, refl, true, ℕ, nat_eq, some, [], ◌∷◌}
use nats_account_operator.Controller.{ok, Fetched, found, Secret, Nkeys, get_field}
use nats_account_operator.Controller.Issuer.{
  Issuer, load_issuer_seed, check_key_pair, check_secret, check_seed, check_prefix,
  check_public_key,
}
use nats_account_operator.Controller.Issuer.Loaded.{IsLoaded, load_issuer_seed_lem}

abbrev nkeys : Nkeys ℕ ℕ
nkeys = record {
  decode_prefix = λ s. ok 2;
  same_prefix = nat_eq;
  prefix_text = λ p. "account";
  from_seed = λ s. 7;
  seed = λ k. ok "SA";
  public_key = λ k. ok "A";
}

abbrev get_secret : String → String → Fetched Secret
get_secret ns n = found (record {
  name = n;
  namespace = ns;
  immutable = true;
  owner_references = [];
  finalizers = [];
  labels = [];
  data_fields = ("seed.nk", "SA") ∷ [];
})

abbrev issuer : Issuer
issuer = record {
  name = "acme";
  namespace = "nats";
  key_pair = some (record { public_key = "A"; seed_secret_name = "seed" });
}

loaded : load_issuer_seed nkeys get_secret (λ s. s) issuer 2 ≡ ok 7
unfolding load_issuer_seed check_key_pair check_secret check_seed check_prefix check_public_key
    get_field
loaded = refl

load_issuer_seed_lem_example :
    load_issuer_seed nkeys get_secret (λ s. s) issuer 2 ≡ ok 7
    ↔ IsLoaded nkeys get_secret (λ s. s) issuer 2 7
load_issuer_seed_lem_example = load_issuer_seed_lem nkeys get_secret (λ s. s) issuer 2 7
