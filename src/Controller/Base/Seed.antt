-- ===== src/Controller/Base/Seed.antt =====
-- A seed secret that `reconcileSeedSecret` of internal/controller/accounts/base_controller.go created,
-- read back by the next reconciliation.
use nats_account_operator.Common.{String, ℕ, ◌≡◌, refl, sym, ◌∙◌, ap, true, none, some, List, []}
use mathlib.Core.Path.{subst}
use nats_account_operator.Errors.{Error, CtrlResult, no_result, requeue_result}
use nats_account_operator.Api.{KeyPair}
use nats_account_operator.Exec.{done, pure, expect, expect_some, ◌>>=◌}
use nats_account_operator.Exec.Returns.{Ends, Ends-of, bind_elim, or_raise-Ends, expect-Ends}
use nats_account_operator.Cluster.{
  ClientObject, ObjectType, operator_type, signing_key_type, account_type, user_type, other_type,
  World, Verdict, works, called, stored, fetch, get_secret,
}
use nats_account_operator.Cluster.Stored.{create_secret-stored, stored_at}
use nats_account_operator.Resources.{
  Library, new_secret, label_secret_type, label_subject, label_secret_seed_type, label_user_name,
  label_operator_name, label_signing_key_name, label_account_name, set_label, named, name_seed,
  filled, own, apply_options, build_key_pair_secret,
}
use nats_account_operator.Resources.Built.{
  SetsController, failed_ne, ok_inj, and_then_elim, wrap_ok, none-KeepOwners,
  build_key_pair_secret-IsBuilt,
}
use nats_account_operator.Controller.{
  Outcome, ok, ◌and_then◌, wrap_failure, found, not_found, OwnerReference, Secret, get_field,
  set_field, without, or_empty, seed_key,
}
use nats_account_operator.Controller.Base.{
  create_seed_secret, update_seed_secret, ensure_seed_secret_up_to_date, Seeded, seed_from,
  reconcile_seed_secret,
}

-- What a seed secret is built from and with, before its owner reference.
abbrev labelled : String → Secret → Secret
labelled pubkey s = set_label label_subject pubkey (set_label label_secret_type "seed" s)

abbrev named_as : ClientObject → String → String → String → Secret → Secret
named_as owner pubkey kind label b =
    named owner.seed_secret_name label_secret_seed_type kind label owner.meta.name
      (labelled pubkey b)

settled :
    (owner : ClientObject) (fields : List (String × String)) (f : Secret → Secret) (s t : Secret)
    → ok (f new_secret) ≡ ok s
    → t ≡ record (filled owner fields s) { owner_references = t.owner_references }
    → ((refs : List OwnerReference)
        → let built = record (filled owner fields (f new_secret)) { owner_references = refs } in
          filled owner fields (f built) ≡ built)
    → (u : Secret) × (ok (f t) ≡ ok u) × (filled owner fields u ≡ t)
settled owner fields f s t h e k =
    let q =
      e
      ∙ ap (λ x. record (filled owner fields x) { owner_references = t.owner_references })
          (sym (ok_inj (f new_secret) s h)) in
    (f t, refl, ap (λ x. filled owner fields (f x)) q ∙ k t.owner_references ∙ sym q)

-- The builder changes nothing but owner references in a Secret that it built.
rebuilt :
    (owner : ClientObject) (type : ObjectType) (pubkey : String) (fields : List (String × String))
    (s t : Secret)
    → name_seed owner type (labelled pubkey new_secret) ≡ ok s
    → t ≡ record (filled owner fields s) { owner_references = t.owner_references }
    → (u : Secret) × (name_seed owner type (labelled pubkey t) ≡ ok u) × (filled owner fields u ≡ t)
unfolding name_seed named set_label filled set_field without
rebuilt owner other_type pubkey fields s t h e = absurd (failed_ne h)
rebuilt owner operator_type pubkey fields s t h e =
    settled owner fields (named_as owner pubkey "Operator" label_operator_name) s t h e
      (λ refs. refl)
rebuilt owner signing_key_type pubkey fields s t h e =
    settled owner fields (named_as owner pubkey "SigningKey" label_signing_key_name) s t h e
      (λ refs. refl)
rebuilt owner account_type pubkey fields s t h e =
    settled owner fields (named_as owner pubkey "Account" label_account_name) s t h e (λ refs. refl)
rebuilt owner user_type pubkey fields s t h e =
    settled owner fields (named_as owner pubkey "User" label_user_name) s t h e (λ refs. refl)

module _ {K C : Type 0} (lib : Library K C) (laws : SetsController lib) (owner : ClientObject) where
  -- Building again from a Secret that was built for the same key pair gives the same Secret.
  build_again :
      (kp kp' : K) (t : Secret)
      → lib.seed kp' ≡ lib.seed kp
      → lib.public_key kp' ≡ lib.public_key kp
      → build_key_pair_secret lib new_secret owner kp [] ≡ ok t
      → build_key_pair_secret lib t owner kp' [] ≡ ok t
  unfolding build_key_pair_secret apply_options own ◌and_then◌ wrap_failure
  build_again kp kp' t e e' h = and_then_elim {o = lib.seed kp} h λ seed p h1.
      and_then_elim {o = lib.public_key kp} h1 λ pubkey q h2.
        and_then_elim {o = name_seed owner owner.type (labelled pubkey new_secret)} h2 λ s r h3.
          let o =
            wrap_ok "failed to set owner reference: " (lib.set_controller_reference owner _) t h3 in
          let (u, n, f) =
            rebuilt owner owner.type pubkey _ s t r (laws.only_references owner _ t o) in
          rw (e, e', p, q, n, f, laws.again owner _ t o) refl

  seed_held :
      (kp : K) (seed : String) (t : Secret)
      → lib.seed kp ≡ ok seed
      → build_key_pair_secret lib new_secret owner kp [] ≡ ok t
      → get_field seed_key t.data_fields ≡ some seed
  unfolding get_field
  seed_held kp seed t e b =
      let (seed', pubkey', e', _, built) =
        build_key_pair_secret-IsBuilt lib laws owner new_secret kp [] t none-KeepOwners b in
      rw built.own_fields (ap some (ok_inj seed' seed (sym e' ∙ e)))

-- A key pair that is parsed from the seed of a key pair is that one.
abbrev pub ParsesSeeds : {K C : Type 0} → Library K C → Type 0
ParsesSeeds {K} lib =
    (kp : K) (seed : String)
    → lib.seed kp ≡ ok seed
    → (kp' : K) × (lib.parse_seed seed ≡ ok kp')
      × (lib.seed kp' ≡ lib.seed kp)
      × (lib.public_key kp' ≡ lib.public_key kp)

module _ {O K C : Type 0} (lib : Library K C) (laws : SetsController lib) (faults : ℕ → Verdict)
    (owner : ClientObject) (new_kp : Outcome K) where
  record IsCreated (w : World O) (r : KeyPair × String) (v : World O) : Type 0 where
    kp : K
    secret : Secret
    seed_is : lib.seed kp ≡ ok r.1
    public_key_is : lib.public_key kp ≡ ok r.0.public_key
    built : build_key_pair_secret lib new_secret owner kp [] ≡ ok secret
    name_is : r.0.seed_secret_name ≡ secret.name
    stored_is : v ≡ stored secret.namespace secret.name (some secret) (called w)

  create_seed-IsCreated :
      (w v : World O) (r : KeyPair × String)
      → Ends (create_seed_secret lib faults owner new_kp [] w) r v
      → IsCreated w r v
  unfolding create_seed_secret pure
  create_seed-IsCreated w v r h = bind_elim _ _ r w v h λ k u1 h1 g1.
      bind_elim _ _ r u1 v g1 λ seed u2 h2 g2. bind_elim _ _ r u2 v g2 λ pubkey u3 h3 g3.
        bind_elim _ _ r u3 v g3 λ t u4 h4 g4. bind_elim _ _ r u4 v g4 λ x u5 h5 (p, q).
          let (e1, f1) = expect-Ends _ _ k w u1 h1 in
          let (e2, f2) = expect-Ends _ _ seed u1 u2 h2 in
          let (e3, f3) = expect-Ends _ _ pubkey u2 u3 h3 in
          let (e4, f4) = expect-Ends _ _ t u3 u4 h4 in
          record {
            kp = k;
            secret = t;
            seed_is = e2 ∙ ap (λ (y : KeyPair × String). ok y.1) p;
            public_key_is = e3 ∙ ap (λ (y : KeyPair × String). ok y.0.public_key) p;
            built = e4;
            name_is = ap (λ (y : KeyPair × String). y.0.seed_secret_name) (sym p);
            stored_is =
                sym q
                ∙ create_secret-stored faults t u4 u5 (or_raise-Ends _ _ x u4 u5 h5)
                ∙ ap (λ (y : World O). stored t.namespace t.name (some t) (called y))
                    (sym (f1 ∙ f2 ∙ f3 ∙ f4));
          }

  -- A read of a Secret that was built for the key pair.
  read_back :
      (kp : K) (pair : KeyPair) (seed : String) (t : Secret) (v : World O)
      → ParsesSeeds lib
      → ((s : Secret) → lib.same_secret s s ≡ true)
      → lib.seed kp ≡ ok seed
      → lib.public_key kp ≡ ok pair.public_key
      → build_key_pair_secret lib new_secret owner kp [] ≡ ok t
      → pair.seed_secret_name ≡ t.name
      → seed_from lib faults owner new_kp [] (found t) v ≡ (done (pair, (seed, no_result)), v)
  unfolding seed_from ensure_seed_secret_up_to_date update_seed_secret ◌>>=◌ expect expect_some pure
      get_field or_empty
  read_back kp pair seed t v parses refl_same e f b n =
      let (kp', p, q, r) = parses kp seed e in
      let g = seed_held lib laws owner kp seed t e b in
      let again = build_again lib laws owner kp kp' t q r b in
      rw (g, p, r, f, again, refl_same t, sym n) refl

  seed_from-IsCreated :
      (err : Error) (w v : World O) (pair : KeyPair) (seed : String) (result : CtrlResult)
      → Ends (seed_from lib faults owner new_kp [] (not_found err) w) (pair, (seed, result)) v
      → IsCreated w (pair, seed) v
  unfolding seed_from pure
  seed_from-IsCreated err w v pair seed result h =
      bind_elim _ _ (pair, (seed, result)) w v h
        λ r u h1 (p, q).
          subst (λ x. IsCreated w x v) (ap (λ (x : Seeded). (x.0, x.1.0)) p)
            (subst (λ x. IsCreated w r x) q (create_seed-IsCreated w u r h1))

  created_at :
      (w v : World O) (r : KeyPair × String) (c : IsCreated w r v)
      → v.secrets owner.meta.namespace owner.seed_secret_name ≡ some c.secret
  created_at w v r c =
      let (_, _, _, _, built) =
        build_key_pair_secret-IsBuilt lib laws owner new_secret c.kp [] c.secret none-KeepOwners
          c.built in
      subst (λ x. v.secrets x owner.seed_secret_name ≡ some c.secret) built.own_namespace
        (subst (λ x. v.secrets c.secret.namespace x ≡ some c.secret) built.own_name
          (stored_at faults c.secret w v c.stored_is))

  created_again :
      ParsesSeeds lib
      → ((s : Secret) → lib.same_secret s s ≡ true)
      → (w v : World O) (pair : KeyPair) (seed : String) → IsCreated w (pair, seed) v
      → faults v.calls ≡ works
      → reconcile_seed_secret lib faults owner new_kp owner.seed_secret_name [] v
        ≡ (done (pair, (seed, no_result)), called v)
  unfolding reconcile_seed_secret get_secret fetch ◌>>=◌
  created_again parses refl_same w v pair seed c ok_v =
      rw (ok_v, created_at w v (pair, seed) c)
        (read_back c.kp pair seed c.secret (called v) parses refl_same c.seed_is c.public_key_is
          c.built c.name_is)

  -- When a reconciliation finds no seed secret and creates one, the next one that reads it gives
  -- the same key pair and seed, asks for no result, and writes nothing: the calls of the cluster
  -- are one more, and nothing else is changed. This assumes that the reads of the two work, that
  -- SetControllerReference changes owner references only, does nothing a second time and refuses
  -- what another object controls, that a seed parses to the key pair it is of, that a Secret is
  -- semantically equal to itself, and that the builder has no options.
  pub reconcile_seed_secret_again :
      ParsesSeeds lib
      → ((s : Secret) → lib.same_secret s s ≡ true)
      → (w v : World O) (pair : KeyPair) (seed : String) → faults w.calls ≡ works
      → w.secrets owner.meta.namespace owner.seed_secret_name ≡ none
      → reconcile_seed_secret lib faults owner new_kp owner.seed_secret_name [] w
        ≡ (done (pair, (seed, requeue_result)), v)
      → faults v.calls ≡ works
      → reconcile_seed_secret lib faults owner new_kp owner.seed_secret_name [] v
        ≡ (done (pair, (seed, no_result)), called v)
  unfolding reconcile_seed_secret get_secret fetch ◌>>=◌
  reconcile_seed_secret_again parses refl_same w v pair seed ok_w absent first ok_v =
      created_again parses refl_same (called w) v pair seed
        (seed_from-IsCreated _ (called w) v pair seed requeue_result
          (Ends-of _ _ v (rw (ok_w, absent) at first)))
        ok_v
