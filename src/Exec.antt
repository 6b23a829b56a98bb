-- ===== src/Exec.antt =====
-- Functions of internal/controller/accounts that change an object and the cluster and may return an
-- error: what was changed before the error stays changed. A panic is a third way to end.
pub mod Ensures
pub mod Returns
use nats_account_operator.Common.{Bool, true, false, Option, none, some, if◌then◌else◌}
use nats_account_operator.Errors.{Error}
use nats_account_operator.Controller.{Outcome, ok, failed}

pub data Result (E A : Type 0) : Type 0 where
  done : A → Result E A
  raised : E → Result E A
  panicked : Result E A

abbrev pub Exec : Type 0 → Type 0 → Type 0 → Type 0
Exec W E A = W → Result E A × W

module _ {W E A : Type 0} where
  unfoldable pub pure : A → Exec W E A
  pure a w = (done a, w)

  unfoldable pub raise : E → Exec W E A
  raise e w = (raised e, w)

  -- A nil pointer that is dereferenced.
  unfoldable pub panic : Exec W E A
  panic w = (panicked, w)

  unfoldable pub gets : (W → A) → Exec W E A
  gets f w = (done (f w), w)

module _ {W E : Type 0} where
  unfoldable pub modify : (W → W) → Exec W E (Unit {0})
  modify f w = (done tt, f w)

module _ {W E A B : Type 0} where
  abbrev pub continue : (A → Exec W E B) → Result E A × W → Result E B × W
  continue f (done a, w) = f a w
  continue f (raised e, w) = (raised e, w)
  continue f (panicked, w) = (panicked, w)

  infixl 5 ◌>>=◌ ◌>>◌
  unfoldable pub ◌>>=◌ : Exec W E A → (A → Exec W E B) → Exec W E B
  ◌>>=◌ m f w = continue f (m w)

  abbrev pub ◌>>◌ : Exec W E A → Exec W E B → Exec W E B
  m >> n = m >>= λ _. n

module _ {W E F A : Type 0} where
  abbrev pub handle : (E → Exec W F A) → Result E A × W → Result F A × W
  handle h (done a, w) = (done a, w)
  handle h (raised e, w) = h e w
  handle h (panicked, w) = (panicked, w)

  -- `if err != nil { … }` after a call.
  unfoldable pub on_error : Exec W E A → (E → Exec W F A) → Exec W F A
  on_error m h w = handle h (m w)

module _ {W E A : Type 0} where
  -- `if err != nil { return … }` after a call that reads and changes nothing.
  unfoldable pub expect : Outcome A → (Error → E) → Exec W E A
  expect (ok a) f w = (done a, w)
  expect (failed err) f w = (raised (f err), w)

  unfoldable pub expect_some : Option A → E → Exec W E A
  expect_some (some a) err w = (done a, w)
  expect_some none err w = (raised err, w)

  unfoldable pub or_panic : Option A → Exec W E A
  or_panic none w = (panicked, w)
  or_panic (some a) w = (done a, w)
