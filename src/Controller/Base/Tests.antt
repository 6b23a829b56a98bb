-- ===== src/Controller/Base/Tests.antt =====
-- A cluster without faults, and key pairs that are their seeds.
use Prim.Native.String.{◌++◌}
use nats_account_operator.Common.{
  String, ◌==◌, ==_refl, ℕ, ◌≡◌, ◌⊎◌, refl, true, false, none, [], ◌∷◌, if◌then◌else◌, Bool-cases,
  inl, inr,
}
use nats_account_operator.Errors.{plain, no_result, requeue_result}
use nats_account_operator.Api.{KeyPair}
use nats_account_operator.Exec.{done, pure, raise, expect, on_error, ◌>>=◌}
use nats_account_operator.Cluster.{
  ClientObject, user_type, World, Verdict, works, fetch, get_secret, put, create_at, create_secret,
  called,
}
use nats_account_operator.Resources.{
  Library, apply_options, set_label, named, name_seed, filled, own, kind_of, build_key_pair_secret,
}
use nats_account_operator.Resources.Built.{SetsController, controlled_elsewhere, failed_ne, ok_inj}
use nats_account_operator.Controller.{
  Outcome, ok, failed, ◌and_then◌, wrap_failure, found, Secret, set_field, without, get_field,
}
use nats_account_operator.Controller.Base.{
  create_seed_secret, seed_from, reconcile_seed_secret, jwt_from, ensure_jwt_secret_up_to_date,
  check_jwt, is_current,
}
use nats_account_operator.Controller.Base.Jwt.{IsUpToDate, IsWritten, jwt_from_lem}
use nats_account_operator.Controller.Base.Seed.{ParsesSeeds, reconcile_seed_secret_again}

abbrev pub adopt : ClientObject → Secret → Secret
adopt owner s = record s {
  owner_references =
      (record {
        kind = kind_of owner.type;
        name = owner.meta.name;
        uid = owner.meta.uid;
        controller = true;
      })
      ∷ [];
}

abbrev pub set_reference : ClientObject → Secret → Outcome Secret
set_reference owner s =
    if controlled_elsewhere owner s
    then failed (plain "already owned by another controller")
    else ok (adopt owner s)

abbrev pub lib : Library String String
lib = record {
  parse_seed = λ s. ok s;
  seed = λ kp. ok kp;
  public_key = λ kp. ok ("U" ++ kp);
  format_user_config = λ jwt seed. ok (jwt ++ seed);
  decode_jwt = λ jwt. ok jwt;
  same_claims = λ c d. c == d;
  set_controller_reference = set_reference;
  same_secret = λ s t. s.name == t.name;
}

adopted_again :
    (owner : ClientObject) (s : Secret) → set_reference owner (adopt owner s) ≡ ok (adopt owner s)
unfolding controlled_elsewhere
adopted_again owner s = rw (==_refl (kind_of owner.type), ==_refl owner.meta.name) refl

set_reference_ok :
    (owner : ClientObject) (s t : Secret)
    → set_reference owner s ≡ ok t
    → (adopt owner s ≡ t) × (controlled_elsewhere owner s ≡ false)
set_reference_ok owner s t h = elim (Bool-cases (controlled_elsewhere owner s)) [
  | inl q ↦ absurd (failed_ne (rw q at h))
  | inr q ↦ (ok_inj (adopt owner s) t (rw q at h), q)
]

pub lib-SetsController : SetsController lib
lib-SetsController = record {
  only_references = λ owner s t h. let (e, _) = set_reference_ok owner s t h in rw⁻¹ e refl;
  again =
      λ owner s t h. let (e, _) = set_reference_ok owner s t h in rw⁻¹ e (adopted_again owner s);
  refuses = λ owner s t h. (set_reference_ok owner s t h).1;
}

abbrev pub faults : ℕ → Verdict
faults n = works

abbrev alice : ClientObject
alice = record {
  type = user_type;
  meta = record { name = "alice"; namespace = "nats"; uid = "1"; labels = [] };
  seed_secret_name = "alice-seed";
  jwt_secret_name = "alice-jwt";
}

abbrev empty : World ℕ
empty = record { object = 0; secrets = λ ns n. none; calls = 0 }

abbrev created : World ℕ
created = (reconcile_seed_secret lib faults alice (ok "SU") "alice-seed" [] empty).1

abbrev pair : KeyPair
pair = record { public_key = "USU"; seed_secret_name = "alice-seed" }

parses : ParsesSeeds lib
parses kp seed h = (seed, refl, rw (ok_inj kp seed h) refl, rw (ok_inj kp seed h) refl)

first_run :
    reconcile_seed_secret lib faults alice (ok "SU") "alice-seed" [] empty
    ≡ (done (pair, ("SU", requeue_result)), created)
unfolding reconcile_seed_secret seed_from create_seed_secret get_secret fetch create_secret
    create_at put build_key_pair_secret apply_options own named name_seed set_label filled set_field
    without ◌and_then◌ wrap_failure controlled_elsewhere expect on_error pure raise ◌>>=◌
first_run = refl

reconcile_seed_secret_again_example :
    reconcile_seed_secret lib faults alice (ok "SU") "alice-seed" [] created
    ≡ (done (pair, ("SU", no_result)), called created)
reconcile_seed_secret_again_example =
    reconcile_seed_secret_again lib lib-SetsController faults alice (ok "SU") parses
      (λ s. ==_refl s.name) empty created pair "SU" refl refl first_run refl

abbrev jwt_secret : Secret
jwt_secret = adopt alice (record {
  name = "alice-jwt";
  namespace = "nats";
  immutable = false;
  owner_references = [];
  finalizers = [];
  labels = [];
  data_fields = ("nats.jwt", "claims") ∷ [];
})

up_to_date :
    jwt_from lib faults alice "claims" "new" (found jwt_secret) empty
    ≡ (done ("claims", no_result), empty)
unfolding jwt_from ensure_jwt_secret_up_to_date check_jwt is_current get_field pure
up_to_date = refl

jwt_from_lem_example :
    IsUpToDate lib lib-SetsController faults alice "claims"
      (found jwt_secret)
      ("claims", no_result)
      empty
      empty
    ⊎ IsWritten lib lib-SetsController faults alice "new" ("claims", no_result) empty
jwt_from_lem_example =
    jwt_from_lem lib lib-SetsController faults alice "claims" "new" (found jwt_secret) empty empty
      ("claims", no_result) up_to_date
