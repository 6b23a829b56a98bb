-- ===== src/Conditions/Tests.antt =====
-- Runs of the condition manager, and the theorems at concrete sets and conditions.
use nats_account_operator.Common.{
  String, ◌==◌, ◌≡◌, ◌↔◌, refl, true, false, List, [], ◌∷◌, if◌then◌else◌, none, some, ◌⊎◌, ◌≢◌,
  Memᴰ,
}
use nats_account_operator.Conditions.{
  Condition, status_true, status_false, status_unknown, info, ConditionSet, Accessor,
  new_condition_set, contains, initialize_conditions, mark_true, mark_false, mark_unknown, is_happy,
  is_true, get_condition, set_condition, find_unhappy_dependent, clear_condition,
}
use nats_account_operator.Conditions.Clearing.{clear_condition_lem}
use nats_account_operator.Conditions.Sets.{IsProper, new_condition_set-IsProper}
use nats_account_operator.Conditions.Others.{UniqueTypes}
use nats_account_operator.Conditions.Store.{set_condition-UniqueTypes, set_condition_idem}
use nats_account_operator.Conditions.Coherence.{IsCoherent}
use nats_account_operator.Conditions.Summary.{view, summary}
use nats_account_operator.Conditions.Unhappy.{find_unhappy_dependent_lem}
use nats_account_operator.Conditions.Marking.{set_at, view-mark_true, view-mark_false}
use nats_account_operator.Conditions.Unknown.{after_unknown, view-mark_unknown}
use nats_account_operator.Conditions.Calls.{mark, perform, perform-IsCoherent}
use nats_account_operator.Conditions.Runs.{
  Mark, set_true, set_false, set_unknown, initialize, apply, run, blank, apply-IsCoherent,
  blank-IsCoherent, run-is_happy,
}

abbrev types : List String
types = "Seed" ∷ "Owner" ∷ "Seed" ∷ "Ready" ∷ []

abbrev duo : ConditionSet
duo = new_condition_set "Ready" types

duo-IsProper : IsProper duo
duo-IsProper = (new_condition_set-IsProper "Ready" types).0

abbrev start : Accessor
start = blank (λ n. n)

abbrev fresh : Accessor
fresh = apply duo initialize start

fresh-IsCoherent : IsCoherent duo fresh
fresh-IsCoherent =
    apply-IsCoherent duo duo-IsProper initialize start (blank-IsCoherent duo (λ n. n))

duo_marked : is_happy duo (mark_true duo "Owner" (mark_true duo "Seed" fresh)) ≡ true
unfolding is_happy mark_true initialize_conditions new_condition_set
duo_marked = refl

duo_half : is_happy duo (mark_true duo "Owner" fresh) ≡ false
unfolding is_happy mark_true initialize_conditions new_condition_set
duo_half = refl

seed_given : contains types "Seed" ≡ true
unfolding contains
seed_given = refl

abbrev marks : List Mark
marks =
    initialize
    ∷ set_true "Seed"
    ∷ set_false "Owner" "NotFound" "no owner"
    ∷ set_unknown "Seed" "UnknownError" "lost"
    ∷ []

run-is_happy_example :
    let a = run duo marks start in
    (is_happy duo a ≡ true) ↔ (
      (d : String)
      → ("Ready" == d) ≡ false
      → contains types d ≡ true
      → is_true (get_condition d a) ≡ true)
run-is_happy_example =
    run-is_happy "Ready" types "Seed" seed_given refl (λ n. n) marks
      (tt, (refl, (refl, (refl, tt))))

perform-IsCoherent_example :
    IsCoherent duo (perform duo (mark (set_false "Owner" "NotFound" "no owner")) fresh)
perform-IsCoherent_example =
    perform-IsCoherent duo duo-IsProper (mark (set_false "Owner" "NotFound" "no owner")) tt fresh
      fresh-IsCoherent

find_unhappy_dependent_lem_example :
    let all_true = (d : String) → contains duo.dependents d ≡ true → view fresh d ≡ status_true in
    (find_unhappy_dependent duo fresh ≡ none) × all_true
    ⊎ ((c : Condition) × (find_unhappy_dependent duo fresh ≡ some c)
        × (c.status ≡ summary (view fresh) duo.dependents)
        × (c.status ≢ status_true)
        × (¬ all_true))
find_unhappy_dependent_lem_example =
    find_unhappy_dependent_lem duo fresh duo-IsProper fresh-IsCoherent

view-mark_true_example :
    let v = set_at "Seed" status_true (view fresh) in
    view (mark_true duo "Seed" fresh) ≡ set_at "Ready" (summary v duo.dependents) v
unfolding new_condition_set
view-mark_true_example = view-mark_true duo duo-IsProper "Seed" fresh fresh-IsCoherent

view-mark_false_example : view (mark_false duo "Seed" "NotFound" "no secret" fresh) ≡ (
    if contains duo.dependents "Seed"
    then set_at "Ready" status_false (set_at "Seed" status_false (view fresh))
    else set_at "Seed" status_false (view fresh))
unfolding new_condition_set
view-mark_false_example =
    view-mark_false duo duo-IsProper "Seed" "NotFound" "no secret" fresh fresh-IsCoherent

view-mark_unknown_example :
    view (mark_unknown duo "Seed" "UnknownError" "lost" fresh)
    ≡ after_unknown duo "Seed" false duo.dependents (set_at "Seed" status_unknown (view fresh))
view-mark_unknown_example =
    view-mark_unknown duo duo-IsProper "Seed" "UnknownError" "lost" fresh fresh-IsCoherent

abbrev extra : Condition
extra = record {
  type = "Extra";
  status = status_true;
  severity = info;
  last_transition_time = 0;
  reason = "";
  message = "";
}

set_condition-UniqueTypes_example : UniqueTypes (set_condition extra fresh).conditions
set_condition-UniqueTypes_example = set_condition-UniqueTypes extra fresh fresh-IsCoherent.unique

set_condition_idem_example :
    set_condition extra (set_condition extra fresh) ≡ set_condition extra fresh
set_condition_idem_example = set_condition_idem extra fresh fresh-IsCoherent.unique

clear_condition_lem_example :
    let a = set_condition extra fresh in
    (("Extra" ≡ duo.happy) ⊎ Memᴰ "Extra" duo.dependents) × (clear_condition duo "Extra" a ≡ none)
    ⊎ (◌≢◌ {A = String} "Extra" duo.happy)
      × (¬ Memᴰ "Extra" duo.dependents)
      × ((b : Accessor) × (clear_condition duo "Extra" a ≡ some b)
          × ((u : String) → get_condition u b ≡ (if u == "Extra" then none else get_condition u a)))
clear_condition_lem_example = clear_condition_lem duo "Extra" (set_condition extra fresh)
