-- ===== src/Controller/User/Kept.antt =====
-- What the actions of `UserReconciler` (internal/controller/accounts/user_controller.go) keep: the
-- Secrets of other controllers, and a status that the methods of `UserStatus` reach.
use nats_account_operator.Common.{
  String, ◌≡◌, Option, none, some, List, inl, inr, Bool-cases, Option-cases,
}
use nats_account_operator.Errors.{Error, mark_condition, mark_error, into_condition}
use nats_account_operator.Api.{InferredObjectReference}
use nats_account_operator.Api.SigningKey.{SigningKey, owner_resolved}
use nats_account_operator.Conditions.{get_condition, is_true}
use nats_account_operator.Api.User.Calls.{
  UserCall, to_account_resolve_failed, to_account_resolve_unknown, call,
}
use nats_account_operator.Exec.{Exec}
use nats_account_operator.Exec.Ensures.{
  Ensures, Any, Ensures-pure, Ensures-raise, Ensures-gets, Ensures-if, Ensures-weaken, Ensures-bind,
  Ensures-on_error, Ensures-expect, Ensures-or_panic,
}
use nats_account_operator.Cluster.{World, Store}
use nats_account_operator.Cluster.Writes.{IsKept, Ensures-change}
use nats_account_operator.Controller.{ok, Secret}
use nats_account_operator.Controller.Resolve.{Object, key_pairable, other_object}
use nats_account_operator.Controller.Objects.{
  Account, Resource, account, operator, signing_key, initialized, is_account_ready,
  resolve_signing_key_owner,
}
use nats_account_operator.Controller.User.{
  User, Env, mark, mark_and_raise, check_users_selector, check_namespace, validate_account_selector,
  refuse_owner, check_owner, resolve_account, update_user, label_account, reconcile_labels,
}

-- A property of the User that the marks and the labels keep, and that what the server stores has.
pub record IsStable {S K P C : Type 0} (env : Env S K P C) (G : User → Type 0) : Type 0 where
  pub marked : (c : UserCall) (usr : User) → G usr → G (record usr { status = call c usr.status })
  pub labelled :
      (l : List (String × String)) (usr : User)
      → G usr
      → G (record usr { meta = record usr.meta { labels = l } })
  pub stored : (usr stored : User) → env.update_user usr ≡ ok stored → G stored

module _ {S K P C : Type 0} {env : Env S K P C} {G : User → Type 0} (stable : IsStable env G) where
  -- Either method that `MarkCondition` may choose.
  mark_condition-call :
      (c d : String → String → UserCall) (err : Error) (usr : User)
      → G usr
      → G (record usr {
        status = mark_condition err (λ r m. call (c r m)) (λ r m. call (d r m)) usr.status;
      })
  unfolding mark_condition mark_error
  mark_condition-call c d err usr h = elim (Option-cases (into_condition err)) [
    | inl q ↦ rw q (stable.marked (d _ _) usr h)
    | inr (k, q) ↦ elim (Bool-cases k.failure) [
      | inl p ↦ rw (q, p) (stable.marked (c _ _) usr h)
      | inr p ↦ rw (q, p) (stable.marked (d _ _) usr h)
    ]
  ]

  module _ (F : Secret → Type 0) (start : Store) where
    abbrev Kept : World User → Type 0
    Kept = IsKept F G start

    pub Ensures-mark :
        {E : Type 0} (c : UserCall) → Ensures {E = E} (IsKept F G start) Any (mark (call c))
    unfolding mark
    Ensures-mark c =
        Ensures-change F G start (λ usr. record usr { status = call c usr.status })
          (stable.marked c)

    pub Ensures-mark_and_raise :
        {A E : Type 0} {Q : A → Type 0} (c d : String → String → UserCall) (f : Error → E)
        (err : Error)
        → Ensures
            (IsKept F G start)
            Q
            (mark_and_raise (λ r m. call (c r m)) (λ r m. call (d r m)) f err)
    unfolding mark_and_raise mark
    Ensures-mark_and_raise c d f err =
        Ensures-bind _ _ (Ensures-change F G start _ (mark_condition-call c d err))
          λ _ _. Ensures-raise _

module _ {S K P C : Type 0} (env : Env S K P C) {G : User → Type 0} (stable : IsStable env G)
    (F : Secret → Type 0) (start : Store) where
  abbrev Keeps : {A : Type 0} → Exec (World User) Error A → Type 0
  Keeps m = Ensures (IsKept F G start) Any m

  selector_kept : (usr : User) (o : Option S) → Keeps (check_users_selector env usr o)
  unfolding check_users_selector
  selector_kept usr none = Ensures-pure _ tt
  selector_kept usr (some selector) =
      Ensures-bind _ _ (Ensures-expect (env.as_selector selector) _)
        λ matches _. Ensures-if (matches usr.meta.labels) _ _ (Ensures-pure _ tt) (Ensures-raise _)

  pub Ensures-validate :
      (acc : Account S) (usr : User)
      → Ensures (IsKept F G start) Any (validate_account_selector env acc usr)
  unfolding validate_account_selector check_namespace
  Ensures-validate acc usr =
      Ensures-bind _ _ (Ensures-expect (env.get_namespace usr.meta.namespace) _) λ ns _.
        Ensures-bind _ _ (Ensures-expect _ _)
          λ valid _. Ensures-if valid _ _ (selector_kept usr acc.users_selector) (Ensures-raise _)

  refuse_kept : (owner : Object (Resource S)) → Keeps (refuse_owner env owner)
  unfolding refuse_owner call
  refuse_kept owner =
      Ensures-bind _ _ (Ensures-mark stable F start (to_account_resolve_failed _ _))
        λ _ _. Ensures-raise _

  owner_kept : (owner : Object (Resource S)) → Keeps (check_owner env owner)
  unfolding check_owner
  owner_kept (key_pairable (account a)) =
      Ensures-if (is_account_ready (initialized a)) _ _ (Ensures-pure _ tt) (Ensures-raise _)
  owner_kept (key_pairable (operator o)) = refuse_kept (key_pairable (operator o))
  owner_kept (key_pairable (signing_key sk)) = refuse_kept (key_pairable (signing_key sk))
  owner_kept other_object = refuse_kept other_object

  resolved_owner_kept :
      (sk : SigningKey)
      → Keeps (resolve_signing_key_owner env.scheme_new env.get_object env.gvk_text sk)
  unfolding resolve_signing_key_owner
  resolved_owner_kept sk =
      Ensures-if (is_true (get_condition owner_resolved sk.status.accessor)) _ _
        (Ensures-bind _ _ (Ensures-or_panic sk.status.owner_ref)
          λ ref _. Ensures-weaken _ (Ensures-expect _ _) (λ _ _. tt))
        (Ensures-raise _)

  pub Ensures-resolve_account :
      (r : Resource S) → Ensures (IsKept F G start) Any (resolve_account env r)
  unfolding resolve_account call
  Ensures-resolve_account (account a) = Ensures-pure _ tt
  Ensures-resolve_account (signing_key sk) =
      Ensures-bind _ _
        (Ensures-on_error _ _ (resolved_owner_kept sk) (
          Ensures-mark_and_raise stable F start to_account_resolve_failed to_account_resolve_unknown
            _))
        λ owner _. owner_kept owner
  Ensures-resolve_account (operator o) =
      Ensures-bind _ _ (Ensures-mark stable F start (to_account_resolve_failed _ _))
        λ _ _. Ensures-raise _

  label_kept : (usr : User) (o : Option InferredObjectReference) → Keeps (label_account env usr o)
  unfolding label_account update_user
  label_kept usr none = Ensures-pure _ tt
  label_kept usr (some ref) = Ensures-if _ _ _ (Ensures-pure _ tt) (
      Ensures-bind _ _
        (Ensures-bind _ _ (Ensures-change F G start _ (λ u h. stable.labelled _ u h)) λ _ _.
          Ensures-bind _ _ (Ensures-gets (λ w. w.object)) λ u _.
            Ensures-bind _ _ (Ensures-expect (env.update_user u) _)
              λ stored e. Ensures-change F G start _ (λ _ _. stable.stored u stored e))
        λ _ _. Ensures-pure _ tt)

  pub Ensures-reconcile_labels : Ensures (IsKept F G start) Any (reconcile_labels env)
  unfolding reconcile_labels
  Ensures-reconcile_labels =
      Ensures-bind _ _ (Ensures-gets (λ w. w.object)) λ usr _. label_kept usr usr.status.account_ref
