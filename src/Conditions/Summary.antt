-- ===== src/Conditions/Summary.antt =====
-- What the conditions say of a resource: the specification of the happy condition.
use nats_account_operator.Common.{
  String, Bool, Bool-cases, inl, inr, List, any, if◌then◌else◌, Option, none, some,
}
use nats_account_operator.Conditions.{
  Condition, ConditionStatus, status_true, status_false, status_unknown, status_eq, Accessor,
  get_condition,
}
use nats_account_operator.Conditions.Coherence.{IsKnown}

-- The status that a type has; one that is not set counts as unknown.
abbrev pub rate : Option Condition → ConditionStatus
rate none = status_unknown
rate (some c) = c.status

abbrev pub view : Accessor → String → ConditionStatus
view a t = rate (get_condition t a)

abbrev pub failed : (String → ConditionStatus) → String → Bool
failed v t = status_eq (v t) status_false

abbrev pub pending : (String → ConditionStatus) → String → Bool
pending v t = status_eq (v t) status_unknown

-- False if a dependent is False, or else Unknown if one is Unknown or not set, or else True.
unfoldable pub summary : (String → ConditionStatus) → List String → ConditionStatus
summary v deps =
    if any (failed v) deps
    then status_false
    else if any (pending v) deps
    then status_unknown
    else status_true

pub summary-IsKnown : (v : String → ConditionStatus) (deps : List String) → IsKnown (summary v deps)
unfolding summary
summary-IsKnown v deps = elim (Bool-cases (any (failed v) deps)) [
  | inl e ↦ rw e tt
  | inr e ↦ elim (Bool-cases (any (pending v) deps)) [ inl q ↦ rw (e, q) tt | inr q ↦ rw (e, q) tt ]
]
