-- ===== src/Controller/User/Allowed.antt =====
-- Which Accounts may sign for a User: `validateAccountSelector` and `resolveAccount` of
-- internal/controller/accounts/user_controller.go.
use nats_account_operator.Common.{
  String, ◌==◌, ◌≡◌, ◌⊎◌, ◌↔◌, refl, sym, ◌∙◌, ap, inl, inr, Bool, true, Option, none, some, List,
  Bool-cases,
}
use nats_account_operator.Errors.{Error}
use nats_account_operator.Conditions.{get_condition, is_true}
use nats_account_operator.Api.{TypedObjectReference}
use nats_account_operator.Api.SigningKey.{SigningKey, owner_resolved}
use nats_account_operator.Exec.{done, pure, raise, expect, ◌>>=◌}
use nats_account_operator.Exec.Returns.{
  Ends, Ends-of, bind_elim, expect-Ends, on_error-Ends, or_panic-Ends,
}
use nats_account_operator.Cluster.{World}
use nats_account_operator.Resources.Built.{ok_inj, failed_ne}
use nats_account_operator.Controller.{Outcome, ok, failed, Fetched, found, not_found, unreadable}
use nats_account_operator.Controller.Resolve.{
  Object, key_pairable, other_object, Made, client_object, not_an_object,
}
use nats_account_operator.Controller.Objects.{
  Account, Resource, account, operator, signing_key, initialized, is_account_ready, owner_from,
  owner_made, resolve_signing_key_owner,
}
use nats_account_operator.Controller.User.{
  User, Env, Namespace, mark_and_raise, match_with, match_namespace_selector, check_users_selector,
  check_namespace, validate_account_selector, refuse_owner, check_owner, resolve_account,
}

module _ {S K P C : Type 0} (env : Env S K P C) where
  -- A selector compiles, and it matches.
  abbrev pub IsMatch : S → List (String × String) → Type 0
  IsMatch selector labels =
      (matches : List (String × String) → Bool) × (env.as_selector selector ≡ ok matches)
      × (matches labels ≡ true)

  -- Without a selector a namespace is allowed when it is the Account's.
  abbrev pub NamespaceAllowed : String → Namespace → Option S → Type 0
  NamespaceAllowed parent ns none = (parent == ns.name) ≡ true
  NamespaceAllowed parent ns (some selector) = IsMatch selector ns.labels

  -- Without a selector every User is allowed.
  abbrev pub UserAllowed : User → Option S → Type 0
  UserAllowed usr none = Unit {0}
  UserAllowed usr (some selector) = IsMatch selector usr.meta.labels

  abbrev pub IsAllowed : Account S → User → Type 0
  IsAllowed acc usr =
      (ns : Namespace) × (env.get_namespace usr.meta.namespace ≡ ok ns)
      × NamespaceAllowed acc.meta.namespace ns acc.users_namespace_selector
      × UserAllowed usr acc.users_selector

  namespace_ok :
      (parent : String) (ns : Namespace) (o : Option S)
      → match_namespace_selector env parent ns o ≡ ok true
      → NamespaceAllowed parent ns o
  unfolding match_namespace_selector match_with
  namespace_ok parent ns none h = ok_inj _ true h
  namespace_ok parent ns (some selector) h = matched (env.as_selector selector) refl h
    where
      matched :
          (o : Outcome (List (String × String) → Bool))
          → env.as_selector selector ≡ o
          → match_with env ns o ≡ ok true
          → IsMatch selector ns.labels
      matched (ok m) e h = (m, e, ok_inj (m ns.labels) true h)
      matched (failed err) e h = absurd (failed_ne h)

  namespace_ok_conv :
      (parent : String) (ns : Namespace) (o : Option S)
      → NamespaceAllowed parent ns o
      → match_namespace_selector env parent ns o ≡ ok true
  unfolding match_namespace_selector match_with
  namespace_ok_conv parent ns none h = ap ok h
  namespace_ok_conv parent ns (some selector) (m, e, h) = rw (e, h) refl

  users_ok :
      (usr : User) (o : Option S) (w v : World User)
      → Ends (check_users_selector env usr o w) tt v
      → UserAllowed usr o
  unfolding check_users_selector pure raise
  users_ok usr none w v h = tt
  users_ok usr (some selector) w v h = bind_elim _ _ tt w v h λ m u h1 h2.
      let (e, _) = expect-Ends _ _ m w u h1 in
      elim (Bool-cases (m usr.meta.labels)) [ inl q ↦ (m, e, q) | inr q ↦ absurd (rw q at h2) ]

  users_ok_conv :
      (usr : User) (o : Option S) (w : World User)
      → UserAllowed usr o
      → check_users_selector env usr o w ≡ (done tt, w)
  unfolding check_users_selector pure ◌>>=◌ expect
  users_ok_conv usr none w h = refl
  users_ok_conv usr (some selector) w (m, e, h) = rw (e, h) refl

  IsAllowed-of_done :
      (acc : Account S) (usr : User) (w : World User)
      → Ends (validate_account_selector env acc usr w) tt w
      → IsAllowed acc usr
  unfolding validate_account_selector check_namespace raise
  IsAllowed-of_done acc usr w h = bind_elim _ _ tt w w h λ ns u h1 h2.
      bind_elim _ _ tt u w h2 λ valid u' h3 h4.
        let (e, _) = expect-Ends _ _ ns w u h1 in
        let (f, _) = expect-Ends _ _ valid u u' h3 in
        let g : Ends (check_namespace env acc usr valid u') tt w = h4 in
        elim (Bool-cases valid) [
          | inl q ↦ (
            ns,
            e,
            namespace_ok acc.meta.namespace ns acc.users_namespace_selector (f ∙ ap ok q),
            users_ok usr acc.users_selector u' w (rw q at g),
          )
          | inr q ↦ absurd (rw q at g)
        ]

  done-of_IsAllowed :
      (acc : Account S) (usr : User) (w : World User)
      → IsAllowed acc usr
      → validate_account_selector env acc usr w ≡ (done tt, w)
  unfolding validate_account_selector check_namespace ◌>>=◌ expect
  done-of_IsAllowed acc usr w (ns, e, n, l) =
      let f = namespace_ok_conv acc.meta.namespace ns acc.users_namespace_selector n in
      rw (e, f) (users_ok_conv usr acc.users_selector w l)

  -- A User passes validateAccountSelector exactly when its namespace can be read, the namespace
  -- matches the namespace selector of the Account or, without one, is the Account's namespace, and
  -- the labels of the User match the User selector, if there is one.
  pub validate_account_selector_lem :
      (acc : Account S) (usr : User) (w : World User)
      → validate_account_selector env acc usr w ≡ (done tt, w) ↔ IsAllowed acc usr
  validate_account_selector_lem acc usr w =
      (λ h. IsAllowed-of_done acc usr w (Ends-of _ tt w h), done-of_IsAllowed acc usr w)

  -- The Account that a signing key belongs to, as it is read, and then initialized.
  pub record IsOwnedBy (sk : SigningKey) (acc : Account S) : Type 0 where
    pub resolved : is_true (get_condition owner_resolved sk.status.accessor) ≡ true
    pub ref : TypedObjectReference
    pub of_status : sk.status.owner_ref ≡ some ref
    pub stored : Account S
    pub read :
        env.get_object ref.api_version ref.kind ref.namespace ref.name
        ≡ found (key_pairable (account stored))
    pub acc_is : acc ≡ initialized stored
    pub ready : is_account_ready acc ≡ true

  owner_read :
      (ref : TypedObjectReference) (o : Fetched (Object (Resource S))) (owner : Object (Resource S))
      → owner_from env.scheme_new env.get_object env.gvk_text ref o ≡ ok owner
      → o ≡ found owner
  unfolding owner_from
  owner_read ref (found x) owner h = ap found (ok_inj x owner h)
  owner_read ref (not_found err) owner h = absurd (failed_ne h)
  owner_read ref (unreadable err) owner h = absurd (failed_ne h)

  made_read :
      (ref : TypedObjectReference) (o : Outcome Made) (owner : Object (Resource S))
      → owner_made env.scheme_new env.get_object env.gvk_text ref o ≡ ok owner
      → env.get_object ref.api_version ref.kind ref.namespace ref.name ≡ found owner
  unfolding owner_made
  made_read ref (failed err) owner h = absurd (failed_ne h)
  made_read ref (ok not_an_object) owner h = absurd (failed_ne h)
  made_read ref (ok client_object) owner h = owner_read ref _ owner h

  refused_never :
      (owner : Object (Resource S)) (acc : Account S) (w v : World User)
      → Ends (refuse_owner env owner w) acc v
      → ⊥
  unfolding refuse_owner raise
  refused_never owner acc w v h = bind_elim _ _ acc w v h λ _ u h1 h2. h2

  checked_owner :
      (sk : SigningKey) (ref : TypedObjectReference) (owner : Object (Resource S)) (acc : Account S)
      (w v : World User)
      → is_true (get_condition owner_resolved sk.status.accessor) ≡ true
      → sk.status.owner_ref ≡ some ref
      → env.get_object ref.api_version ref.kind ref.namespace ref.name ≡ found owner
      → Ends (check_owner env owner w) acc v
      → IsOwnedBy sk acc
  unfolding check_owner pure raise
  checked_owner sk ref (key_pairable (account a)) acc w v r s g h =
      elim (Bool-cases (is_account_ready (initialized a))) [
        | inl q ↦
            let (p, _) : (initialized a ≡ acc) × (w ≡ v) = rw q at h in
            record {
              resolved = r;
              ref = ref;
              of_status = s;
              stored = a;
              read = g;
              acc_is = sym p;
              ready = ap is_account_ready (sym p) ∙ q;
            }
        | inr q ↦ absurd (rw q at h)
      ]
  checked_owner sk ref (key_pairable (operator o)) acc w v r s g h =
      absurd (refused_never (key_pairable (operator o)) acc w v h)
  checked_owner sk ref (key_pairable (signing_key k)) acc w v r s g h =
      absurd (refused_never (key_pairable (signing_key k)) acc w v h)
  checked_owner sk ref other_object acc w v r s g h = absurd (refused_never other_object acc w v h)

  owner_elim :
      {R : Type 0} (sk : SigningKey) (owner : Object (Resource S)) (w v : World User)
      → Ends (resolve_signing_key_owner env.scheme_new env.get_object env.gvk_text sk w) owner v
      → (is_true (get_condition owner_resolved sk.status.accessor) ≡ true
          → (ref : TypedObjectReference) → sk.status.owner_ref ≡ some ref
          → env.get_object ref.api_version ref.kind ref.namespace ref.name ≡ found owner
          → R)
      → R
  unfolding resolve_signing_key_owner raise
  owner_elim sk owner w v h k =
      elim (Bool-cases (is_true (get_condition owner_resolved sk.status.accessor))) [
        | inr q ↦ absurd (rw q at h)
        | inl q ↦ bind_elim _ _ owner w v (rw q at h) λ ref u h1 h2.
            let (e, _) = or_panic-Ends Error sk.status.owner_ref ref w u h1 in
            let (f, _) = expect-Ends _ _ owner u v h2 in k q ref e (made_read ref _ owner f)
      ]

  -- Whatever Account resolveAccount gives for a User: either it is the issuer itself, or the
  -- issuer is a SigningKey whose owner is resolved, the client finds that Account under the owner
  -- reference of the key's status, and the Account is ready. No Operator passes.
  pub resolve_account_lem :
      (r : Resource S) (acc : Account S) (w v : World User)
      → resolve_account env r w ≡ (done acc, v)
      → (r ≡ account acc) ⊎ ((sk : SigningKey) × (r ≡ signing_key sk) × IsOwnedBy sk acc)
  unfolding resolve_account mark_and_raise pure raise
  resolve_account_lem (account a) acc w v h = inl (ap account (Ends-of _ acc v h).0)
  resolve_account_lem (operator o) acc w v h =
      absurd (bind_elim {R = ⊥} _ _ acc w v (Ends-of _ acc v h) λ _ u h1 h2. h2)
  resolve_account_lem (signing_key sk) acc w v h =
      bind_elim _ _ acc w v (Ends-of _ acc v h) λ owner u h1 h2.
        owner_elim sk owner w u
          (on_error-Ends _ _ owner w u (λ e x p. bind_elim {R = ⊥} _ _ owner x u p λ _ y p1 p2. p2)
            h1)
          λ r ref s g. inr (sk, refl, checked_owner sk ref owner acc u v r s g h2)
