-- ===== src/Controller/Base/Jwt.antt =====
-- The JWT secret that `ensureJWTSecretUpToDate` and the creation of it, in
-- internal/controller/accounts/base_controller.go, leave.
use nats_account_operator.Common.{
  String, ℕ, ◌≡◌, ◌⊎◌, refl, sym, ◌∙◌, ap, inl, inr, true, Option, none, some, [], ◌∷◌, Bool-cases,
  arith,
}
use nats_account_operator.Errors.{CtrlResult, no_result, requeue_result}
use nats_account_operator.Exec.{Result, done, raised, panicked, on_error, handle, pure, raise}
use nats_account_operator.Exec.Returns.{Ends, Ends-of, bind_elim, or_raise-Ends, expect-Ends}
use nats_account_operator.Cluster.{
  ClientObject, World, Verdict, WriteError, missing, rejected, stored, called,
}
use nats_account_operator.Cluster.Stored.{create_secret-stored, update_secret-stored, stored_at}
use nats_account_operator.Resources.{Library, new_secret, jwt_key, build_jwt_secret}
use nats_account_operator.Resources.Built.{
  SetsController, none-KeepOwners, build_jwt_secret-IsBuilt,
}
use nats_account_operator.Controller.{
  Outcome, ok, failed, Fetched, found, not_found, unreadable, Secret, get_field,
}
use nats_account_operator.Controller.Base.{
  create_jwt_secret, create_next, is_owned, delete_and_create, without_jwt, not_updated, update_jwt,
  replace_jwt, is_current, check_jwt, ensure_jwt_secret_up_to_date, jwt_from,
}

current_claims :
    {K C : Type 0} (lib : Library K C) (want_claims : C) (o : Outcome C)
    → is_current lib want_claims o ≡ true
    → (claims : C) × (o ≡ ok claims) × (lib.same_claims claims want_claims ≡ true)
unfolding is_current
current_claims lib want_claims (ok claims) h = (claims, refl, h)
current_claims lib want_claims (failed err) h = ground arith

module _ {O K C : Type 0} (lib : Library K C) (laws : SetsController lib) (faults : ℕ → Verdict)
    (owner : ClientObject) where
  -- The JWT is the next one, and the Secret of the owner's spec holds it, and only it.
  pub record IsWritten (next_jwt : String) (r : String × CtrlResult) (w : World O) : Type 0 where
    pub next : r.0 ≡ next_jwt
    pub again : r.1 ≡ requeue_result
    pub secret : Secret
    pub at : w.secrets owner.meta.namespace owner.jwt_secret_name ≡ some secret
    pub holds : secret.data_fields ≡ (jwt_key, next_jwt) ∷ []

  written :
      (next_jwt : String) (b want : Secret) (w u v : World O) (r : String × CtrlResult)
      → build_jwt_secret lib b owner next_jwt [] ≡ ok want
      → u ≡ stored want.namespace want.name (some want) (called w)
      → ((next_jwt, requeue_result) ≡ r) × (u ≡ v)
      → IsWritten next_jwt r v
  written next_jwt b want w u v r e h (p, q) =
      let built = build_jwt_secret-IsBuilt lib laws owner b next_jwt [] want none-KeepOwners e in
      record {
        next = ap (λ x. x.0) (sym p);
        again = ap (λ x. x.1) (sym p);
        secret = want;
        at = rw (sym built.own_namespace, sym built.own_name, sym q) (stored_at faults want w u h);
        holds = built.own_fields;
      }

  create_next-IsWritten :
      (next_jwt : String) (w v : World O) (r : String × CtrlResult)
      → Ends (create_next lib faults owner next_jwt w) r v
      → IsWritten next_jwt r v
  unfolding create_next create_jwt_secret pure
  create_next-IsWritten next_jwt w v r h = bind_elim _ _ r w v h λ x u h1 h2.
      bind_elim _ _ x w u h1 λ want u1 h3 h4.
        let (e, q) = expect-Ends _ _ want w u1 h3 in
        written next_jwt new_secret want u1 u v r e
          (create_secret-stored faults want u1 u (or_raise-Ends _ _ x u1 u h4)) h2

  without_jwt-IsWritten :
      (got : Secret) (next_jwt : String) (w v : World O) (r : String × CtrlResult)
      → Ends (without_jwt lib faults owner got next_jwt w) r v
      → IsWritten next_jwt r v
  unfolding without_jwt delete_and_create raise
  without_jwt-IsWritten got next_jwt w v r h = elim (Bool-cases (is_owned owner got)) [
    | inl q ↦ bind_elim _ _ r w v (rw q at h) λ x u h1 h2. create_next-IsWritten next_jwt u v r h2
    | inr q ↦ absurd (rw q at h)
  ]

  update_jwt-IsWritten :
      (got want : Secret) (next_jwt : String) (w v : World O) (r : String × CtrlResult)
      → build_jwt_secret lib got owner next_jwt [] ≡ ok want
      → Ends (update_jwt lib faults owner want next_jwt w) r v
      → IsWritten next_jwt r v
  unfolding update_jwt pure
  update_jwt-IsWritten got want next_jwt w v r e h =
      bind_elim _ _ r w v h λ x u h1 h2.
        written next_jwt got want w u v r e (update_secret-stored faults want w u h1) h2

  replaced-IsWritten :
      (got want : Secret) (next_jwt : String) (w v : World O) (r : String × CtrlResult)
      → build_jwt_secret lib got owner next_jwt [] ≡ ok want
      → (s : Result WriteError (String × CtrlResult) × World O)
      → update_jwt lib faults owner want next_jwt w ≡ s
      → Ends (handle (not_updated lib faults owner next_jwt) s) r v
      → IsWritten next_jwt r v
  unfolding not_updated raise
  replaced-IsWritten got want next_jwt w v r e (done x, u) q (p, p') =
      update_jwt-IsWritten got want next_jwt w v r e
        (rw (p, p') at (Ends-of (update_jwt lib faults owner want next_jwt w) x u q))
  replaced-IsWritten got want next_jwt w v r e (raised (missing err), u) q h =
      create_next-IsWritten next_jwt u v r h
  replaced-IsWritten got want next_jwt w v r e (raised (rejected err), u) q h = absurd h
  replaced-IsWritten got want next_jwt w v r e (panicked, u) q h = absurd h

  replace_jwt-IsWritten :
      (got : Secret) (next_jwt : String) (w v : World O) (r : String × CtrlResult)
      → Ends (replace_jwt lib faults owner got next_jwt w) r v
      → IsWritten next_jwt r v
  unfolding replace_jwt on_error
  replace_jwt-IsWritten got next_jwt w v r h = bind_elim _ _ r w v h λ want u h1 h2.
      let (e, q) = expect-Ends _ _ want w u h1 in
      replaced-IsWritten got want next_jwt u v r e (update_jwt lib faults owner want next_jwt u)
        refl h2

  -- The JWT is one that the Secret holds already, and its claims are the wanted ones.
  pub record IsUpToDate (want_claims : C) (o : Fetched Secret) (r : String × CtrlResult)
      (w v : World O) : Type 0 where
    pub got : Secret
    pub from : o ≡ found got
    pub held : get_field jwt_key got.data_fields ≡ some r.0
    pub claims : C
    pub decoded : lib.decode_jwt r.0 ≡ ok claims
    pub same : lib.same_claims claims want_claims ≡ true
    pub result : r.1 ≡ no_result
    pub unchanged : v ≡ w

  checked :
      (want_claims : C) (got : Secret) (next_jwt : String) (w v : World O) (r : String × CtrlResult)
      (o : Option String)
      → get_field jwt_key got.data_fields ≡ o
      → Ends (check_jwt lib faults owner want_claims got next_jwt o w) r v
      → IsUpToDate want_claims (found got) r w v ⊎ IsWritten next_jwt r v
  unfolding check_jwt pure
  checked want_claims got next_jwt w v r none e h = inr (without_jwt-IsWritten got next_jwt w v r h)
  checked want_claims got next_jwt w v r (some got_jwt) e h =
      elim (Bool-cases (is_current lib want_claims (lib.decode_jwt got_jwt))) [
        | inr q ↦ inr (replace_jwt-IsWritten got next_jwt w v r (rw q at h))
        | inl q ↦
            let (p, p') : ((got_jwt, no_result) ≡ r) × (w ≡ v) = rw q at h in
            let (claims, d, s) = current_claims lib want_claims (lib.decode_jwt got_jwt) q in
            let j = ap (λ (x : String × CtrlResult). x.0) p in
            inl (record {
              got = got;
              from = refl;
              held = e ∙ ap some j;
              claims = claims;
              decoded = rw (sym j) d;
              same = s;
              result = ap (λ (x : String × CtrlResult). x.1) (sym p);
              unchanged = sym p';
            })
      ]

  -- When a JWT secret is reconciled without an error: either no result is asked for, the cluster
  -- is unchanged, and the JWT is the one that the Secret that was read holds, which decodes to
  -- claims equal to the wanted ones; or the object is enqueued again, the JWT is the new one, and
  -- the JWT secret of the owner's spec holds it as its only data, whether it was created, updated,
  -- or deleted and created. This assumes that SetControllerReference changes owner references
  -- only, does nothing a second time and refuses what another object controls.
  pub jwt_from_lem :
      (want_claims : C) (next_jwt : String) (o : Fetched Secret) (w v : World O)
      (r : String × CtrlResult)
      → jwt_from lib faults owner want_claims next_jwt o w ≡ (done r, v)
      → IsUpToDate want_claims o r w v ⊎ IsWritten next_jwt r v
  unfolding jwt_from ensure_jwt_secret_up_to_date raise
  jwt_from_lem want_claims next_jwt (not_found err) w v r h =
      inr (create_next-IsWritten next_jwt w v r (Ends-of _ r v h))
  jwt_from_lem want_claims next_jwt (unreadable err) w v r h = absurd (Ends-of _ r v h)
  jwt_from_lem want_claims next_jwt (found got) w v r h =
      checked want_claims got next_jwt w v r (get_field jwt_key got.data_fields) refl
        (Ends-of _ r v h)
