-- ===== src/Cluster.antt =====
-- The cluster that the reconcilers of internal/controller/accounts read and change through their
-- clients: the Secrets it stores, and the object that is reconciled. The server is not code of the
-- repository: `faults` says, for each call of it, whether the call works.
pub mod Writes
pub mod Stored
use Prim.Native.String.{◌++◌}
use nats_account_operator.Common.{
  String, ◌==◌, ℕ, ◌+◌, Bool, true, false, ◌&&◌, Option, none, some, List, [], ◌∷◌, if◌then◌else◌,
}
use nats_account_operator.Errors.{Error, plain}
use nats_account_operator.Controller.{Outcome, Fetched, found, not_found, unreadable, Secret}
use nats_account_operator.Exec.{expect, Exec, done, raised, modify}

-- The metadata of an object that the code reads.
pub record ObjectMeta : Type 0 where
  pub name : String
  pub namespace : String
  pub uid : String
  pub labels : List (String × String)

-- The Go types of the objects that own a Secret.
pub data ObjectType : Type 0 where
  operator_type signing_key_type account_type user_type other_type : ObjectType

-- What the code reads of a `client.Object`, and of the spec of its type.
pub record ClientObject : Type 0 where
  pub type : ObjectType
  pub meta : ObjectMeta
  pub seed_secret_name : String
  pub jwt_secret_name : String

-- A call works, or is refused, or works although its answer is lost.
pub data Verdict : Type 0 where
  works : Verdict
  refused lost : Error → Verdict

-- The Secret of each namespace and name.
abbrev pub Store : Type 0
Store = String → String → Option Secret

pub record World (O : Type 0) : Type 0 where
  pub object : O
  pub secrets : Store
  pub calls : ℕ

-- A call that writes tells "not found" from other errors.
pub data WriteError : Type 0 where
  missing rejected : Error → WriteError

abbrev pub write_error : WriteError → Error
write_error (missing err) = err
write_error (rejected err) = err

unfoldable pub write : String → String → Option Secret → Store → Store
write namespace name o store ns n = if (ns == namespace) && (n == name) then o else store ns n

unfoldable pub fetch : Verdict → Option Secret → Fetched Secret
fetch works none = not_found (plain "not found")
fetch works (some secret) = found secret
fetch (refused err) o = unreadable err
fetch (lost err) o = unreadable err

unfoldable pub remains : List String → Secret → Option Secret
remains [] secret = none
remains (_ ∷ _) secret = some secret

module _ {O : Type 0} where
  abbrev pub called : World O → World O
  called w = record w { calls = w.calls + 1 }

  abbrev pub stored : String → String → Option Secret → World O → World O
  stored namespace name o w = record w { secrets = write namespace name o w.secrets }

  -- `Status` of the object, and its labels.
  unfoldable pub change : {E : Type 0} → (O → O) → Exec (World O) E (Unit {0})
  unfolding modify
  change f = modify (λ w. record w { object = f w.object })

  module _ (faults : ℕ → Verdict) where
    unfoldable pub get_secret : {E : Type 0} → String → String → Exec (World O) E (Fetched Secret)
    unfolding fetch
    get_secret namespace name w =
        (done (fetch (faults w.calls) (w.secrets namespace name)), called w)

    unfoldable pub put :
        Verdict → String → String → Option Secret → Exec (World O) WriteError (Unit {0})
    put works namespace name o w = (done tt, stored namespace name o (called w))
    put (refused err) namespace name o w = (raised (rejected err), called w)
    put (lost err) namespace name o w = (raised (rejected err), stored namespace name o (called w))

    unfoldable pub create_at : Option Secret → Secret → Exec (World O) WriteError (Unit {0})
    unfolding put
    create_at (some old) secret w = (raised (rejected (plain "already exists")), called w)
    create_at none secret w = put (faults w.calls) secret.namespace secret.name (some secret) w

    -- `Create` refuses a name that is taken.
    unfoldable pub create_secret : Secret → Exec (World O) WriteError (Unit {0})
    unfolding create_at
    create_secret secret w = create_at (w.secrets secret.namespace secret.name) secret w

    unfoldable pub replace_at :
        Option Secret → String → String → Option Secret → Exec (World O) WriteError (Unit {0})
    unfolding put
    replace_at none namespace name o w = (raised (missing (plain "not found")), called w)
    replace_at (some old) namespace name o w = put (faults w.calls) namespace name o w

    unfoldable pub update_secret : Secret → Exec (World O) WriteError (Unit {0})
    unfolding replace_at
    update_secret secret w =
        replace_at (w.secrets secret.namespace secret.name) secret.namespace secret.name
          (some secret) w

    -- A Secret with finalizers is only marked for deletion.
    unfoldable pub delete_secret : Secret → Exec (World O) WriteError (Unit {0})
    unfolding replace_at remains
    delete_secret secret w =
        replace_at (w.secrets secret.namespace secret.name) secret.namespace secret.name
          (remains secret.finalizers secret) w

module _ {O A : Type 0} (faults : ℕ → Verdict) where
  -- What reads at most one Secret.
  unfoldable pub reading : ((String → String → Fetched Secret) → Outcome A) → Exec (World O) Error A
  unfolding fetch expect
  reading f w =
      expect (f (λ namespace name. fetch (faults w.calls) (w.secrets namespace name))) (λ e. e)
        (called w)
