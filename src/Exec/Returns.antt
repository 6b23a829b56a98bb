-- ===== src/Exec/Returns.antt =====
-- What an action of Exec.antt did, when it ends with a value.
use nats_account_operator.Common.{◌≡◌, refl, sym, ap, Option, none, some}
use mathlib.Core.Path.{subst}
use nats_account_operator.Errors.{Error}
use nats_account_operator.Controller.{Outcome, ok, failed}
use nats_account_operator.Exec.{
  Result, done, raised, panicked, Exec, raise, continue, ◌>>=◌, on_error, handle, expect, or_panic,
}

-- The end `r` is the value `a` in the state `v`.
abbrev pub Ends : {W E A : Type 0} → Result E A × W → A → W → Type 0
Ends (done b, u) a v = (b ≡ a) × (u ≡ v)
Ends (raised e, u) a v = ⊥
Ends (panicked, u) a v = ⊥

pub Ends-of : {W E A : Type 0} (r : Result E A × W) (a : A) (v : W) → r ≡ (done a, v) → Ends r a v
Ends-of r a v h = subst (λ x. Ends x a v) (sym h) (refl, refl)

module _ {W E A B : Type 0} where
  continue-Ends :
      (f : A → Exec W E B) (r : Result E A × W) (b : B) (v : W)
      → Ends (continue f r) b v
      → (a : A) × (u : W) × Ends r a u × Ends (f a u) b v
  continue-Ends f (done a, u) b v h = (a, u, (refl, refl), h)
  continue-Ends f (raised e, u) b v h = absurd h
  continue-Ends f (panicked, u) b v h = absurd h

  pub bind_elim :
      {R : Type 0} (m : Exec W E A) (f : A → Exec W E B) (b : B) (w v : W)
      → Ends ((m >>= f) w) b v
      → ((a : A) (u : W) → Ends (m w) a u → Ends (f a u) b v → R)
      → R
  unfolding ◌>>=◌
  bind_elim m f b w v h k = let (a, u, p, q) = continue-Ends f (m w) b v h in k a u p q

module _ {W E F A : Type 0} where
  handle-Ends :
      (f : E → F) (r : Result E A × W) (a : A) (v : W)
      → Ends (handle (λ e. raise (f e)) r) a v
      → Ends r a v
  unfolding raise
  handle-Ends f (done b, u) a v h = h
  handle-Ends f (raised e, u) a v h = absurd h
  handle-Ends f (panicked, u) a v h = absurd h

  pub or_raise-Ends :
      (m : Exec W E A) (f : E → F) (a : A) (w v : W)
      → Ends (on_error m (λ e. raise (f e)) w) a v
      → Ends (m w) a v
  unfolding on_error
  or_raise-Ends m f a w v h = handle-Ends f (m w) a v h

module _ {W E A : Type 0} where
  pub expect-Ends :
      (o : Outcome A) (f : Error → E) (a : A) (w v : W)
      → Ends (expect o f w) a v
      → (o ≡ ok a) × (w ≡ v)
  unfolding expect
  expect-Ends (ok b) f a w v (p, q) = (ap ok p, q)
  expect-Ends (failed err) f a w v h = absurd h

module _ {W E F A : Type 0} where
  handle_never :
      (h : E → Exec W F A) (r : Result E A × W) (a : A) (v : W)
      → ((e : E) (u : W) → Ends (h e u) a v → ⊥)
      → Ends (handle h r) a v
      → Ends r a v
  handle_never h (done b, u) a v k p = p
  handle_never h (raised e, u) a v k p = absurd (k e u p)
  handle_never h (panicked, u) a v k p = absurd p

  -- A handler that always ends early.
  pub on_error-Ends :
      (m : Exec W E A) (h : E → Exec W F A) (a : A) (w v : W)
      → ((e : E) (u : W) → Ends (h e u) a v → ⊥)
      → Ends (on_error m h w) a v
      → Ends (m w) a v
  unfolding on_error
  on_error-Ends m h a w v k p = handle_never h (m w) a v k p

module _ {W A : Type 0} (E : Type 0) where
  pub or_panic-Ends :
      (o : Option A) (a : A) (w v : W) → Ends (or_panic {E = E} o w) a v → (o ≡ some a) × (w ≡ v)
  unfolding or_panic
  or_panic-Ends none a w v h = absurd h
  or_panic-Ends (some b) a w v (p, q) = (ap some p, q)
