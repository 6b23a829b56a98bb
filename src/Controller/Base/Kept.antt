-- ===== src/Controller/Base/Kept.antt =====
-- What the methods of `BaseReconciler` (internal/controller/accounts/base_controller.go) leave alone:
-- the Secrets of other controllers.
use nats_account_operator.Common.{
  String, ℕ, ◌≡◌, ap, true, false, Option, none, some, List, [], arith, inl, inr, Bool-cases,
}
use nats_account_operator.Exec.Ensures.{
  Ensures, Any, Ensures-pure, Ensures-raise, Ensures-if, Ensures-bind, Ensures-on_error,
  Ensures-or_raise, Ensures-expect, Ensures-expect_some,
}
use nats_account_operator.Cluster.{
  ClientObject, World, Store, Verdict, WriteError, missing, rejected,
}
use nats_account_operator.Cluster.Writes.{
  IsKept, IsFree, IsRead, ReadOf, Ensures-get_secret, Ensures-create_secret, Ensures-update_secret,
  Ensures-delete_secret,
}
use nats_account_operator.Resources.{
  Library, SecretOption, new_secret, jwt_key, build_key_pair_secret, build_jwt_secret,
}
use nats_account_operator.Resources.Built.{
  controlled_elsewhere, SetsController, KeepOwners, none-KeepOwners, IsBuilt,
  build_key_pair_secret-IsBuilt, build_jwt_secret-IsBuilt,
}
use nats_account_operator.Controller.{
  Outcome, Fetched, found, not_found, unreadable, Secret, get_field, seed_key,
}
use nats_account_operator.Controller.Base.{
  create_seed_secret, update_seed_secret, ensure_seed_secret_up_to_date, seed_from,
  reconcile_seed_secret, create_jwt_secret, create_next, is_owned, delete_and_create, without_jwt,
  not_updated, update_jwt, replace_jwt, is_current, check_jwt, ensure_jwt_secret_up_to_date,
  jwt_from,
}

-- Another object is the controller of the Secret, and `owner` is none of its owners.
abbrev pub IsForeign : ClientObject → Secret → Type 0
IsForeign owner s = (controlled_elsewhere owner s ≡ true) × (is_owned owner s ≡ false)

module _ {O K C : Type 0} (lib : Library K C) (laws : SetsController lib) (faults : ℕ → Verdict)
    (owner : ClientObject) (G : O → Type 0) (start : Store) where
  abbrev Kept : World O → Type 0
  Kept = IsKept (IsForeign owner) G start

  abbrev Read : String → Secret → Type 0
  Read name got = IsRead (IsForeign owner) G start owner.meta.namespace name got

  -- What is built from a Secret that was read is written under a free name.
  pub built-IsFree :
      (name : String) (fields : List (String × String)) (got want : Secret)
      → Read name got
      → IsBuilt owner name fields got want
      → IsFree (IsForeign owner) G start want.namespace want.name
  built-IsFree name fields got want r b s f p =
      let q = r.same s f (rw (b.own_namespace, b.own_name) at p) in
      ground (arith, f.0, b.own_controller, ap (controlled_elsewhere owner) q)

  create_seed-Kept :
      (new_kp : Outcome K) (opts : List SecretOption)
      → Ensures Kept Any (create_seed_secret lib faults owner new_kp opts)
  unfolding create_seed_secret
  create_seed-Kept new_kp opts = Ensures-bind _ _ (Ensures-expect new_kp _) λ kp _.
      Ensures-bind _ _ (Ensures-expect (lib.seed kp) _) λ seed _.
        Ensures-bind _ _ (Ensures-expect (lib.public_key kp) _) λ pubkey _.
          Ensures-bind _ _ (Ensures-expect (build_key_pair_secret lib new_secret owner kp opts) _)
            λ secret _.
              Ensures-bind _ _ (Ensures-or_raise _ _ (Ensures-create_secret _ _ _ faults secret))
                λ _ _. Ensures-pure _ tt

  module _ (opts : List SecretOption) (keep : KeepOwners opts) where
    update_seed-Kept :
        (got want : Secret)
        → IsFree (IsForeign owner) G start want.namespace want.name
        → Ensures Kept Any (update_seed_secret lib faults owner got want)
    unfolding update_seed_secret
    update_seed-Kept got want free = Ensures-if (lib.same_secret got want) _ _ (Ensures-pure _ tt) (
        Ensures-bind _ _ (Ensures-or_raise _ _ (Ensures-update_secret _ _ _ faults want free))
          λ _ _. Ensures-pure _ tt)

    ensure_seed-Kept :
        (got : Secret)
        → Read owner.seed_secret_name got
        → Ensures Kept Any (ensure_seed_secret_up_to_date lib faults owner got opts)
    unfolding ensure_seed_secret_up_to_date
    ensure_seed-Kept got r =
        Ensures-bind _ _ (Ensures-expect_some (get_field seed_key got.data_fields) _) λ seed _.
          Ensures-bind _ _ (Ensures-expect (lib.parse_seed seed) _) λ kp _.
            Ensures-bind _ _ (Ensures-expect (lib.public_key kp) _) λ pubkey _.
              Ensures-bind _ _ (Ensures-expect (build_key_pair_secret lib got owner kp opts) _)
                λ want e.
                  let (_, _, _, _, b) =
                    build_key_pair_secret-IsBuilt lib laws owner got kp opts want keep e in
                  Ensures-bind _ _
                    (update_seed-Kept got want (built-IsFree owner.seed_secret_name _ got want r b))
                    λ _ _. Ensures-pure _ tt

    seed_from-Kept :
        (new_kp : Outcome K) (o : Fetched Secret)
        → ReadOf (IsForeign owner) G start owner.meta.namespace owner.seed_secret_name o
        → Ensures Kept Any (seed_from lib faults owner new_kp opts o)
    unfolding seed_from
    seed_from-Kept new_kp (not_found err) r =
        Ensures-bind _ _ (create_seed-Kept new_kp opts) λ _ _. Ensures-pure _ tt
    seed_from-Kept new_kp (unreadable err) r = Ensures-raise _
    seed_from-Kept new_kp (found got) r =
        Ensures-bind _ _ (ensure_seed-Kept got r) λ _ _. Ensures-pure _ tt

    pub Ensures-reconcile_seed_secret :
        (new_kp : Outcome K)
        → Ensures
            (IsKept (IsForeign owner) G start)
            Any
            (reconcile_seed_secret lib faults owner new_kp owner.seed_secret_name opts)
    unfolding reconcile_seed_secret
    Ensures-reconcile_seed_secret new_kp =
        Ensures-bind _ _ (Ensures-get_secret _ _ _ faults _ _) λ o r. seed_from-Kept new_kp o r

  create_next-Kept : (jwt : String) → Ensures Kept Any (create_next lib faults owner jwt)
  unfolding create_next create_jwt_secret
  create_next-Kept jwt =
      Ensures-bind _ _
        (Ensures-bind _ _ (Ensures-expect (build_jwt_secret lib new_secret owner jwt []) _)
          λ secret _. Ensures-or_raise _ _ (Ensures-create_secret _ _ _ faults secret))
        λ _ _. Ensures-pure _ tt

  without_jwt-Kept :
      (got : Secret) (jwt : String)
      → Read owner.jwt_secret_name got
      → Ensures Kept Any (without_jwt lib faults owner got jwt)
  unfolding without_jwt delete_and_create
  without_jwt-Kept got jwt r = elim (Bool-cases (is_owned owner got)) [
    | inr q ↦ rw q (Ensures-raise _)
    | inl q ↦ rw q (
        Ensures-bind _ _
          (Ensures-or_raise _ _ (
            Ensures-delete_secret _ _ _ faults got λ s f p.
              let e = r.same s f (rw (r.own_namespace, r.own_name) at p) in
              ground (arith, q, f.1, ap (is_owned owner) e)))
          λ _ _. create_next-Kept jwt)
  ]

  not_updated-Kept :
      (jwt : String) (e : WriteError) → Ensures Kept Any (not_updated lib faults owner jwt e)
  unfolding not_updated
  not_updated-Kept jwt (missing err) = create_next-Kept jwt
  not_updated-Kept jwt (rejected err) = Ensures-raise _

  replace_jwt-Kept :
      (got : Secret) (jwt : String)
      → Read owner.jwt_secret_name got
      → Ensures Kept Any (replace_jwt lib faults owner got jwt)
  unfolding replace_jwt update_jwt
  replace_jwt-Kept got jwt r =
      Ensures-bind _ _ (Ensures-expect (build_jwt_secret lib got owner jwt []) _) λ want e.
        let b = build_jwt_secret-IsBuilt lib laws owner got jwt [] want none-KeepOwners e in
        Ensures-on_error _ _
          (Ensures-bind _ _
            (Ensures-update_secret _ _ _ faults want
              (built-IsFree owner.jwt_secret_name _ got want r b))
            λ _ _. Ensures-pure _ tt)
          (not_updated-Kept jwt)

  check_jwt-Kept :
      (want_claims : C) (got : Secret) (jwt : String) (o : Option String)
      → Read owner.jwt_secret_name got
      → Ensures Kept Any (check_jwt lib faults owner want_claims got jwt o)
  unfolding check_jwt
  check_jwt-Kept want_claims got jwt none r = without_jwt-Kept got jwt r
  check_jwt-Kept want_claims got jwt (some got_jwt) r =
      Ensures-if (is_current lib want_claims (lib.decode_jwt got_jwt)) _ _ (Ensures-pure _ tt)
        (replace_jwt-Kept got jwt r)

  pub Ensures-jwt_from :
      (want_claims : C) (jwt : String) (o : Fetched Secret)
      → ReadOf (IsForeign owner) G start owner.meta.namespace owner.jwt_secret_name o
      → Ensures (IsKept (IsForeign owner) G start) Any (jwt_from lib faults owner want_claims jwt o)
  unfolding jwt_from ensure_jwt_secret_up_to_date
  Ensures-jwt_from want_claims jwt (not_found err) r = create_next-Kept jwt
  Ensures-jwt_from want_claims jwt (unreadable err) r = Ensures-raise _
  Ensures-jwt_from want_claims jwt (found got) r =
      check_jwt-Kept want_claims got jwt (get_field jwt_key got.data_fields) r
