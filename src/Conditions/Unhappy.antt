-- ===== src/Conditions/Unhappy.antt =====
-- When `findUnhappyDependent` of pkg/apis/condition_set.go finds a condition, and which.
use nats_account_operator.Common.{
  String, ◌≡◌, ◌≢◌, ◌⊎◌, sym, ap, ◌∙◌, inl, inr, true, none, some, List, arith, Option-cases,
}
use nats_account_operator.Conditions.{
  Condition, status_true, ConditionSet, Accessor, get_condition, contains, find_unhappy_dependent,
  worst, is_false, is_unknown, sort_by, later, failures,
}
use nats_account_operator.Conditions.Sets.{IsProper}
use nats_account_operator.Conditions.Coherence.{IsCoherent}
use nats_account_operator.Conditions.Summary.{view, summary}
use nats_account_operator.Conditions.Happiness.{
  verdict, verdict-find_unhappy_dependent, find_first-any,
}
use nats_account_operator.Conditions.Ready.{rate-true}
use nats_account_operator.Conditions.Runs.{summary-true, dependent_true}

worst-ne_true :
    (r : ConditionSet) (cs : List Condition) (c : Condition)
    → worst r cs ≡ some c
    → c.status ≢ status_true
unfolding worst
worst-ne_true r cs c h e = ground (
  arith,
  find_first-any (λ c. is_false (some c)) cs,
  find_first-any (λ c. is_unknown (some c)) cs,
)

found-ne_true :
    (r : ConditionSet) (a : Accessor) (c : Condition)
    → find_unhappy_dependent r a ≡ some c
    → c.status ≢ status_true
unfolding find_unhappy_dependent
found-ne_true r a c h = worst-ne_true r (sort_by later (failures r a.conditions)) c (ground arith)

-- With a set of distinct dependents without the happy type, and well-formed conditions: either no
-- unhappy dependent is found, and every dependent is True, or one is found, and not all of them
-- are. The status of the one that is found is not True: it is the one that the summary of the
-- dependents gives, False if one of them is False and Unknown otherwise.
pub find_unhappy_dependent_lem :
    (r : ConditionSet) (a : Accessor)
    → IsProper r
    → IsCoherent r a
    → let all_true = (d : String) → contains r.dependents d ≡ true → view a d ≡ status_true in
      (find_unhappy_dependent r a ≡ none) × all_true
      ⊎ ((c : Condition) × (find_unhappy_dependent r a ≡ some c)
          × (c.status ≡ summary (view a) r.dependents)
          × (c.status ≢ status_true)
          × (¬ all_true))
find_unhappy_dependent_lem r a proper h =
    let same = verdict-find_unhappy_dependent r a proper h in
    elim (Option-cases (find_unhappy_dependent r a)) [
      | inl q ↦ inl (
        q,
        λ d k.
            rate-true (get_condition d a)
              (dependent_true r proper a h (sym same ∙ ap verdict q) d k),
      )
      | inr (c, q) ↦
          let status : c.status ≡ summary (view a) r.dependents = sym (ap verdict q) ∙ same in
          let unhappy = found-ne_true r a c q in
          inr (
            c,
            q,
            status,
            unhappy,
            λ all. unhappy (status ∙ summary-true (view a) r.dependents all),
          )
    ]
