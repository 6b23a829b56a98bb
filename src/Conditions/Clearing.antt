-- ===== src/Conditions/Clearing.antt =====
-- `ClearCondition` of pkg/apis/condition_set.go.
use nats_account_operator.Common.{
  String, ◌==◌, eq_iff, eq_of_==, ◌≡◌, refl, ◌∙◌, ap, ◌⊎◌, inl, inr, true, false, not, ◌≢◌, ◌↔◌,
  Memᴰ, none, some, List, [], ◌∷◌, arith, Bool-cases, Option-cases, if◌then◌else◌, filter,
}
use nats_account_operator.Conditions.{
  Condition, ConditionSet, Accessor, find, get_condition, is_terminal, clear_condition, type_less,
  sort_by, contains,
}
use nats_account_operator.Conditions.Sets.{contains_of_mem, mem_of_contains}
use nats_account_operator.Conditions.Sort.{find-sort_by}

pub find-filter :
    (t u : String) (cs : List Condition)
    → find u (filter (λ c. not (c.type == t)) cs) ≡ (if u == t then none else find u cs)
unfolding find
find-filter t u [] = ground arith
find-filter t u (c ∷ cs) = elim (Bool-cases (c.type == t)) [
  | inl q ↦ rw q (ground (arith, find-filter t u cs, eq_iff c.type t, eq_iff u t, eq_iff c.type u))
  | inr q ↦ rw q (ground (arith, find-filter t u cs, eq_iff c.type t, eq_iff u t, eq_iff c.type u))
]

absent :
    (t u : String) (a : Accessor)
    → find t a.conditions ≡ none
    → find u a.conditions ≡ (if u == t then none else find u a.conditions)
absent t u a q = elim (Bool-cases (u == t)) [
  | inl e ↦ rw e (ap (λ v. find v a.conditions) (eq_of_== u t e) ∙ q)
  | inr e ↦ rw e refl
]

abbrev pub cleared : String → Accessor → Accessor
cleared t a = record a {
  conditions = sort_by type_less (filter (λ c. not (c.type == t)) a.conditions);
}

terminal_iff :
    (r : ConditionSet) (t : String)
    → (is_terminal r t ≡ true) ↔ ((t ≡ r.happy) ⊎ Memᴰ t r.dependents)
unfolding is_terminal
terminal_iff r t = (
  λ e. elim (Bool-cases (contains r.dependents t)) [
    | inl q ↦ inr (mem_of_contains r.dependents t q)
    | inr q ↦ inl (ground (arith, eq_iff t r.happy))
  ],
  λ s. elim s [
    | inl e ↦ ground (arith, eq_iff t r.happy)
    | inr i ↦ let q = contains_of_mem r.dependents t i in ground arith
  ],
)

-- What a successful call leaves: no condition of the type, and those of the others.
pub cleared_of :
    (r : ConditionSet) (t : String) (a : Accessor)
    → is_terminal r t ≡ false
    → (clear_condition r t a ≡ some a) × (find t a.conditions ≡ none)
      ⊎ (clear_condition r t a ≡ some (cleared t a))
unfolding clear_condition get_condition
cleared_of r t a e = elim (Option-cases (find t a.conditions)) [
  | inl q ↦ inl (rw (e, q) refl, q)
  | inr (c, q) ↦ inr (rw (e, q) refl)
]

-- ClearCondition fails for the happy type and the dependents, and for no others. For another type
-- it succeeds, and then there is no condition of that type, and of every other type there is the
-- one from before.
pub clear_condition_lem :
    (r : ConditionSet) (t : String) (a : Accessor)
    → ((t ≡ r.happy) ⊎ Memᴰ t r.dependents) × (clear_condition r t a ≡ none)
      ⊎ (t ≢ r.happy)
        × (¬ Memᴰ t r.dependents)
        × ((b : Accessor) × (clear_condition r t a ≡ some b)
            × ((u : String) → get_condition u b ≡ (if u == t then none else get_condition u a)))
unfolding get_condition
clear_condition_lem r t a = elim (Bool-cases (is_terminal r t)) [
  | inl e ↦ inl ((terminal_iff r t).0 e, unfold clear_condition in rw e refl)
  | inr e ↦
      let other : ¬ ((t ≡ r.happy) ⊎ Memᴰ t r.dependents) =
        λ s. let q = (terminal_iff r t).1 s in cc in
      inr (
        λ p. other (inl p),
        λ i. other (inr i),
        elim (cleared_of r t a e) [
          | inl (p, q) ↦ (a, p, λ u. absent t u a q)
          | inr p ↦ (
            cleared t a,
            p,
            λ u.
                find-sort_by u (filter (λ c. not (c.type == t)) a.conditions)
                ∙ find-filter t u a.conditions,
          )
        ],
      )
]
