-- ===== src/Controller.antt =====
-- What the reconcilers of internal/controller/accounts share: the results of the calls of the
-- cluster's client, of the key library and of the printer of formats, none of which is code of
-- the repository, and string maps (labels and the data of secrets).
pub mod Issuer
pub mod SigningKey
pub mod Resolve
pub mod Base
pub mod Objects
pub mod User
pub mod Operator
pub mod Unordered
use nats_account_operator.Common.{
  String, ◌==◌, Bool, true, false, Option, none, some, List, [], ◌∷◌, if◌then◌else◌,
}
use Prim.Native.String.{◌++◌}
use nats_account_operator.Errors.{Error, wrapped, error_text}

-- A call that returns a value or an error.
pub data Outcome (A : Type 0) : Type 0 where
  ok : A → Outcome A
  failed : Error → Outcome A

-- The early return of an error, and the error that `fmt.Errorf` makes of it.
infixl 5 ◌and_then◌
unfoldable pub ◌and_then◌ : {A B : Type 0} → Outcome A → (A → Outcome B) → Outcome B
◌and_then◌ (ok a) f = f a
◌and_then◌ (failed err) f = failed err

unfoldable pub wrap_failure : {A : Type 0} → String → Outcome A → Outcome A
wrap_failure context (ok a) = ok a
wrap_failure context (failed err) = failed (wrapped (context ++ error_text err) err)

-- A read of an object: the error "not found" is told apart from the others.
pub data Fetched (A : Type 0) : Type 0 where
  found : A → Fetched A
  not_found : Error → Fetched A
  unreadable : Error → Fetched A

unfoldable pub get_field : String → List (String × String) → Option String
get_field key [] = none
get_field key ((k, v) ∷ rest) = if k == key then some v else get_field key rest

unfoldable pub or_empty : Option String → String
or_empty none = ""
or_empty (some v) = v

-- A read of a Go map gives the empty string for a key that it lacks.
unfoldable pub get_or_empty : String → List (String × String) → String
unfolding get_field or_empty
get_or_empty key m = or_empty (get_field key m)

unfoldable pub without : String → List (String × String) → List (String × String)
without key [] = []
without key ((k, v) ∷ rest) =
    let others = without key rest in if k == key then others else (k, v) ∷ others

unfoldable pub set_field : String → String → List (String × String) → List (String × String)
unfolding without
set_field key value m = (key, value) ∷ without key m

-- An owner reference of an object.
pub record OwnerReference : Type 0 where
  pub kind : String
  pub name : String
  pub uid : String
  pub controller : Bool

pub record Secret : Type 0 where
  pub name : String
  pub namespace : String
  pub immutable : Bool
  pub owner_references : List OwnerReference
  pub finalizers : List String
  pub labels : List (String × String)
  pub data_fields : List (String × String)

abbrev pub seed_key : String
seed_key = "seed.nk"

abbrev pub public_key_key : String
public_key_key = "public.nk"

-- The key library. `K` is its type of key pairs and `P` its type of prefixes.
pub record Nkeys (K P : Type 0) : Type 0 where
  pub decode_prefix : String → Outcome P
  pub same_prefix : P → P → Bool
  pub prefix_text : P → String
  pub from_seed : String → K
  pub seed : K → Outcome String
  pub public_key : K → Outcome String
