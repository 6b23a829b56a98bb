-- ===== src/Exec/Ensures.antt =====
-- Hoare rules for `Exec`: one for each way to build an action.
use nats_account_operator.Common.{◌≡◌, refl, Bool, true, false, Option, none, some, if◌then◌else◌}
use nats_account_operator.Errors.{Error}
use nats_account_operator.Controller.{Outcome, ok, failed}
use nats_account_operator.Exec.{
  Result, done, raised, panicked, Exec, pure, raise, panic, gets, modify, continue, ◌>>=◌, on_error,
  handle, expect, expect_some, or_panic,
}

abbrev pub Post : {W E A : Type 0} → (W → Type 0) → (A → Type 0) → Result E A × W → Type 0
Post P Q (done a, w) = Q a × P w
Post P Q (raised e, w) = P w
Post P Q (panicked, w) = P w

-- `m` keeps `P` however it ends, and what it returns has `Q`.
pub record Ensures {W E A : Type 0} (P : W → Type 0) (Q : A → Type 0) (m : Exec W E A)
    : Type 0 where
  pub at : (w : W) → P w → Post P Q (m w)

abbrev pub Any : {A : Type 0} → A → Type 0
Any a = Unit {0}

module _ {W E A : Type 0} {P : W → Type 0} where
  pub Ensures-pure : {Q : A → Type 0} (a : A) → Q a → Ensures {E = E} P Q (pure a)
  unfolding pure
  Ensures-pure a q = record { at = λ w h. (q, h) }

  pub Ensures-raise : {Q : A → Type 0} (e : E) → Ensures {A = A} P Q (raise e)
  unfolding raise
  Ensures-raise e = record { at = λ w h. h }

  pub Ensures-panic : {Q : A → Type 0} → Ensures {E = E} P Q panic
  unfolding panic
  Ensures-panic = record { at = λ w h. h }

  pub Ensures-gets : (f : W → A) → Ensures {E = E} P Any (gets f)
  unfolding gets
  Ensures-gets f = record { at = λ w h. (tt, h) }

  pub Ensures-if :
      {Q : A → Type 0} (b : Bool) (m n : Exec W E A)
      → Ensures P Q m
      → Ensures P Q n
      → Ensures P Q (if b then m else n)
  Ensures-if true m n h k = h
  Ensures-if false m n h k = k

  pub Ensures-weaken :
      {Q R : A → Type 0} (m : Exec W E A) → Ensures P Q m → ((a : A) → Q a → R a) → Ensures P R m
  Ensures-weaken {Q} {R} m h f = record { at = λ w p. weaken (m w) (h.at w p) }
    where
      weaken : (r : Result E A × W) → Post P Q r → Post P R r
      weaken (done a, w) (q, p) = (f a q, p)
      weaken (raised e, w) p = p
      weaken (panicked, w) p = p

module _ {W E : Type 0} {P : W → Type 0} where
  pub Ensures-modify : (f : W → W) → ((w : W) → P w → P (f w)) → Ensures {E = E} P Any (modify f)
  unfolding modify
  Ensures-modify f k = record { at = λ w h. (tt, k w h) }

module _ {W E A B : Type 0} {P : W → Type 0} {Q : A → Type 0} {R : B → Type 0} where
  continue-Post :
      (f : A → Exec W E B) (r : Result E A × W)
      → ((a : A) → Q a → Ensures P R (f a))
      → Post P Q r
      → Post P R (continue f r)
  continue-Post f (done a, w) k (q, p) = (k a q).at w p
  continue-Post f (raised e, w) k p = p
  continue-Post f (panicked, w) k p = p

  pub Ensures-bind :
      (m : Exec W E A) (f : A → Exec W E B)
      → Ensures P Q m
      → ((a : A) → Q a → Ensures P R (f a))
      → Ensures P R (m >>= f)
  unfolding ◌>>=◌
  Ensures-bind m f h k = record { at = λ w p. continue-Post f (m w) k (h.at w p) }

module _ {W E F A : Type 0} {P : W → Type 0} {Q : A → Type 0} where
  handle-Post :
      (g : E → Exec W F A) (r : Result E A × W)
      → ((e : E) → Ensures P Q (g e))
      → Post P Q r
      → Post P Q (handle g r)
  handle-Post g (done a, w) k q = q
  handle-Post g (raised e, w) k p = (k e).at w p
  handle-Post g (panicked, w) k p = p

  pub Ensures-on_error :
      (m : Exec W E A) (g : E → Exec W F A)
      → Ensures P Q m
      → ((e : E) → Ensures P Q (g e))
      → Ensures P Q (on_error m g)
  unfolding on_error
  Ensures-on_error m g h k = record { at = λ w p. handle-Post g (m w) k (h.at w p) }

module _ {W E F A : Type 0} {P : W → Type 0} {Q : A → Type 0} where
  pub Ensures-or_raise :
      (m : Exec W E A) (f : E → F) → Ensures P Q m → Ensures P Q (on_error m (λ e. raise (f e)))
  Ensures-or_raise m f h = Ensures-on_error m (λ e. raise (f e)) h (λ e. Ensures-raise (f e))

module _ {W E A : Type 0} {P : W → Type 0} where
  -- The rest may use what the value comes from.
  pub Ensures-expect : (o : Outcome A) (f : Error → E) → Ensures P (λ a. o ≡ ok a) (expect o f)
  unfolding expect
  Ensures-expect (ok a) f = record { at = λ w h. (refl, h) }
  Ensures-expect (failed err) f = record { at = λ w h. h }

  pub Ensures-expect_some :
      (o : Option A) (err : E) → Ensures P (λ a. o ≡ some a) (expect_some o err)
  unfolding expect_some
  Ensures-expect_some (some a) err = record { at = λ w h. (refl, h) }
  Ensures-expect_some none err = record { at = λ w h. h }

  pub Ensures-or_panic : (o : Option A) → Ensures {E = E} P (λ a. o ≡ some a) (or_panic o)
  unfolding or_panic
  Ensures-or_panic (some a) = record { at = λ w h. (refl, h) }
  Ensures-or_panic none = record { at = λ w h. h }

pub Post-kept : {W E A : Type 0} (P : W → Type 0) (r : Result E A × W) → Post P Any r → P r.1
Post-kept P (done a, w) (q, p) = p
Post-kept P (raised e, w) p = p
Post-kept P (panicked, w) p = p
