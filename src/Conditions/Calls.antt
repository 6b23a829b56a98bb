-- ===== src/Conditions/Calls.antt =====
-- All calls of the `ConditionManager` of pkg/apis/condition_set.go that set or clear conditions.
use nats_account_operator.Common.{
  String, ◌≡◌, [], ◌∷◌, ◌∙◌, refl, inl, inr, not, Option, none, some, List, All-of_mem, All-mem,
  Bool-cases, filter, mem-filter, ◌==◌,
}
use nats_account_operator.Conditions.{
  Condition, ConditionSet, Accessor, set_condition, clear_condition, type_less, is_terminal,
}
use nats_account_operator.Conditions.Others.{UniqueTypes, sort_by-UniqueTypes}
use nats_account_operator.Conditions.Sets.{IsProper}
use nats_account_operator.Conditions.Sort.{All-sort_by}
use nats_account_operator.Conditions.Coherence.{IsCoherent, Fits, set_condition-IsCoherent}
use nats_account_operator.Conditions.Clearing.{find-filter, cleared, cleared_of}
use nats_account_operator.Conditions.Runs.{Mark, apply, apply-IsCoherent}

-- A mark, SetCondition or ClearCondition.
pub data Call : Type 0 where
  mark : Mark → Call
  set : Condition → Call
  clear : String → Call

-- What a call that fails leaves: ClearCondition changes nothing then.
abbrev pub or_unchanged : Accessor → Option Accessor → Accessor
or_unchanged a none = a
or_unchanged a (some b) = b

abbrev pub perform : ConditionSet → Call → Accessor → Accessor
perform r (mark m) a = apply r m a
perform r (set cond) a = set_condition cond a
perform r (clear t) a = or_unchanged a (clear_condition r t a)

-- A condition that is set by itself has the severity of its type and one of the three statuses.
abbrev pub IsGiven : ConditionSet → Call → Type 0
IsGiven r (set cond) = Fits r cond
IsGiven r _ = Unit

filter-UniqueTypes :
    (t : String) (cs : List Condition)
    → UniqueTypes cs
    → UniqueTypes (filter (λ c. not (c.type == t)) cs)
filter-UniqueTypes t [] u = tt
filter-UniqueTypes t (c ∷ cs) u = elim (Bool-cases (c.type == t)) [
  | inl e ↦ rw e (filter-UniqueTypes t cs u.1)
  | inr e ↦ rw e (find-filter t c.type cs ∙ rw (e, u.0) refl, filter-UniqueTypes t cs u.1)
]

cleared-IsCoherent :
    (r : ConditionSet) (t : String) (a : Accessor) → IsCoherent r a → IsCoherent r (cleared t a)
cleared-IsCoherent r t a h =
    let kept = filter (λ c. not (c.type == t)) a.conditions in
    record {
      unique = sort_by-UniqueTypes kept (filter-UniqueTypes t a.conditions h.unique);
      fits = All-sort_by type_less (Fits r) kept (
          All-of_mem (Fits r) kept
            (λ c i. All-mem (Fits r) c a.conditions h.fits (mem-filter _ c a.conditions i).0));
    }

clear-IsCoherent :
    (r : ConditionSet) (t : String) (a : Accessor)
    → IsCoherent r a
    → IsCoherent r (or_unchanged a (clear_condition r t a))
clear-IsCoherent r t a h = elim (Bool-cases (is_terminal r t)) [
  | inl e ↦ let q : clear_condition r t a ≡ none = unfold clear_condition in rw e refl in rw q h
  | inr e ↦ elim (cleared_of r t a e) [
    | inl (p, q) ↦ rw p h
    | inr p ↦ rw p (cleared-IsCoherent r t a h)
  ]
]

-- With a set of distinct dependents without the happy type, every mark, every initialization,
-- every call of ClearCondition, and every call of SetCondition with a condition that has the
-- severity of its type and one of the three statuses keeps the conditions well formed: at most one
-- of each type, each with the severity of its type and one of the three statuses.
pub perform-IsCoherent :
    (r : ConditionSet)
    → IsProper r
    → (call : Call) → IsGiven r call
    → (a : Accessor) → IsCoherent r a
    → IsCoherent r (perform r call a)
perform-IsCoherent r proper (mark m) g a h = apply-IsCoherent r proper m a h
perform-IsCoherent r proper (set cond) g a h = set_condition-IsCoherent r cond a g h
perform-IsCoherent r proper (clear t) g a h = clear-IsCoherent r t a h
