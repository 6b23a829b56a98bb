-- ===== src/Controller/User/Reconcile/Safe.antt =====
-- Which Secrets `Reconcile` of internal/controller/accounts/user_controller.go leaves as they were,
-- and the status that it ends with.
use nats_account_operator.Common.{
  String, ◌≡◌, ◌≢◌, sym, ◌∙◌, ap, ℕ, true, none, some, List, [], ◌∷◌, ◌++◌,
}
use nats_account_operator.Api.User.{is_ready}
use nats_account_operator.Api.User.Calls.{UserCall, call, user_lifecycle, blank_user, user_ready}
use nats_account_operator.Api.Lifecycle.{run_calls, run_calls-snoc}
use nats_account_operator.Exec.Ensures.{Any, Post-kept}
use nats_account_operator.Cluster.{World, Store}
use nats_account_operator.Cluster.Writes.{IsKeyed, IsKept}
use nats_account_operator.Resources.Built.{SetsController}
use nats_account_operator.Controller.{ok, Secret}
use nats_account_operator.Controller.Base.Kept.{IsForeign}
use nats_account_operator.Controller.User.{User, Env, client_user}
use nats_account_operator.Controller.User.Kept.{IsStable}
use nats_account_operator.Controller.User.Reconcile.{reconcile_body, start}
use nats_account_operator.Controller.User.Reconcile.Kept.{Ensures-reconcile_body}

abbrev pub IsReached : User → Type 0
IsReached usr =
    (clock : ℕ → ℕ) × (cs : List UserCall) × (usr.status
      ≡ run_calls user_lifecycle cs (blank_user clock))

module _ {S K P C : Type 0} (env : Env S K P C) where
  Any-IsStable : IsStable env Any
  Any-IsStable = record {
    marked = λ c usr h. tt;
    labelled = λ l usr h. tt;
    stored = λ usr stored e. tt;
  }

  IsReached-IsStable :
      ((usr stored : User) → env.update_user usr ≡ ok stored → IsReached stored)
      → IsStable env IsReached
  IsReached-IsStable stores = record {
    marked = λ c usr (clock, cs, q). (
      clock,
      cs ++ c ∷ [],
      ap (call c) q ∙ sym (run_calls-snoc user_lifecycle cs c (blank_user clock)),
    );
    labelled = λ l usr h. h;
    stored = stores;
  }

  module _ (laws : SetsController env.lib) (usr : User) (secrets : Store)
      (keyed : IsKeyed secrets) where
    abbrev pub after : World User
    after = (reconcile_body env usr (start env secrets usr)).1

    start-IsKept :
        (G : User → Type 0)
        → G usr
        → IsKept (IsForeign (client_user usr)) G secrets (start env secrets usr)
    unfolding start
    start-IsKept G g = record { of_object = g; kept = λ ns n s f e. e; keyed = keyed }

    after-IsKept :
        (G : User → Type 0)
        → IsStable env G
        → G usr
        → IsKept (IsForeign (client_user usr)) G secrets after
    after-IsKept G stable g =
        Post-kept (IsKept (IsForeign (client_user usr)) G secrets)
          (reconcile_body env usr (start env secrets usr))
          ((Ensures-reconcile_body env laws stable usr secrets).at (start env secrets usr)
            (start-IsKept G g))

    -- Whatever calls of the server fail, and on every path of Reconcile of a User, also one that
    -- panics: a Secret that another object controls, and of which the User is no owner, is stored
    -- afterwards under the same name as it was. The names of the User's Secrets may be the name of
    -- that one. This assumes that SetControllerReference changes owner references only, does
    -- nothing a second time and refuses what another object controls, and that every Secret is
    -- stored under its own name.
    pub reconcile_body-secrets :
        (namespace name : String) (s : Secret)
        → IsForeign (client_user usr) s
        → secrets namespace name ≡ some s
        → (reconcile_body env usr (start env secrets usr)).1.secrets namespace name ≡ some s
    reconcile_body-secrets = (after-IsKept Any Any-IsStable tt).kept

    -- A User that is ready after Reconcile, on any path, has a key pair and an account reference,
    -- when the methods of UserStatus reached the status before, and the status of whatever the
    -- server returns from the update of the labels; this assumes that SetControllerReference
    -- changes owner references only, does nothing a second time and refuses what another object
    -- controls, and that every Secret is stored under its own name.
    pub reconcile_user_ready :
        ((usr stored : User) → env.update_user usr ≡ ok stored → IsReached stored)
        → IsReached usr
        → let status = (reconcile_body env usr (start env secrets usr)).1.object.status in
          is_ready status ≡ true → (status.key_pair ≢ none) × (status.account_ref ≢ none)
    reconcile_user_ready stores h r =
        let (clock, cs, q) = (after-IsKept IsReached (IsReached-IsStable stores) h).of_object in
        rw q (user_ready clock cs (rw q at r))
