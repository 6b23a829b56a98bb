-- ===== src/Conditions/Store.antt =====
-- What `SetCondition` of pkg/apis/condition_set.go stores: one condition of the given type.
use nats_account_operator.Common.{
  String, ◌==◌, ==_refl, ◌≡◌, ◌∙◌, inl, inr, false, some, [], ◌∷◌, ◌++◌, All, arith, ℕ,
  Option-cases,
}
use nats_account_operator.Conditions.{
  Condition, Accessor, get_condition, others, stamp, store, set_condition, type_less,
}
use nats_account_operator.Conditions.Sort.{All-sort_by, find-sort_by}
use nats_account_operator.Conditions.Others.{
  UniqueTypes, find-mem, find-append_one, find-others, All-others, others-UniqueTypes, others-none,
  sort_by-UniqueTypes, All-append_one, append_one-UniqueTypes, others_of_mem,
}

-- SetCondition leaves at most one condition of each type, when there was at most one before.
pub set_condition-UniqueTypes :
    (cond : Condition) (a : Accessor)
    → UniqueTypes a.conditions
    → UniqueTypes (set_condition cond a).conditions
unfolding set_condition store
set_condition-UniqueTypes cond a u = elim (Option-cases (others cond a.conditions)) [
  | inl e ↦ rw e u
  | inr (rest, e) ↦ rw e (
      sort_by-UniqueTypes (rest ++ stamp (a.clock 0) cond ∷ []) (
        append_one-UniqueTypes rest (stamp (a.clock 0) cond)
          (find-others cond cond.type a.conditions rest e ∙ rw (==_refl cond.type))
          (others-UniqueTypes cond a.conditions rest e u)))
]

pub get_condition-set_condition_ne :
    (cond : Condition) (t : String) (a : Accessor)
    → (cond.type == t) ≡ false
    → get_condition t (set_condition cond a) ≡ get_condition t a
unfolding get_condition set_condition store
get_condition-set_condition_ne cond t a ne = elim (Option-cases (others cond a.conditions)) [
  | inl e ↦ rw e
  | inr (rest, e) ↦ rw e (
      find-sort_by t (rest ++ stamp (a.clock 0) cond ∷ [])
      ∙ find-append_one t rest (stamp (a.clock 0) cond)
      ∙ ground (arith, find-others cond t a.conditions rest e))
]

pub get_condition-set_condition_self :
    (cond : Condition) (a : Accessor)
    → UniqueTypes a.conditions
    → (n : ℕ) × (get_condition cond.type (set_condition cond a) ≡ some (stamp n cond))
unfolding get_condition set_condition store
get_condition-set_condition_self cond a u = elim (Option-cases (others cond a.conditions)) [
  | inl e ↦ let (n, q) = others-none cond a.conditions u e in (n, rw e q)
  | inr (rest, e) ↦ (
    a.clock 0,
    rw e (
        find-sort_by cond.type (rest ++ stamp (a.clock 0) cond ∷ [])
        ∙ find-append_one cond.type rest (stamp (a.clock 0) cond)
        ∙ ground (arith, find-others cond cond.type a.conditions rest e, ==_refl cond.type)),
  )
]

-- A property that the given condition has at any time, and all the others, is kept.
pub set_condition-All {κ} :
    (P : Condition → Type κ) (cond : Condition) (a : Accessor)
    → ((n : ℕ) → P (stamp n cond))
    → All P a.conditions
    → All P (set_condition cond a).conditions
unfolding set_condition store
set_condition-All P cond a p h = elim (Option-cases (others cond a.conditions)) [
  | inl e ↦ rw e h
  | inr (rest, e) ↦ rw e (
      All-sort_by type_less P (rest ++ stamp (a.clock 0) cond ∷ []) (
        All-append_one P rest (stamp (a.clock 0) cond) (All-others P cond a.conditions rest e h)
          (p (a.clock 0))))
]

-- Setting a condition that is there already, but for its time, changes nothing: not the list, not
-- the times, and the clock is not read.
pub set_condition_of_find :
    (cond : Condition) (n : ℕ) (a : Accessor)
    → get_condition cond.type a ≡ some (stamp n cond)
    → set_condition cond a ≡ a
unfolding set_condition store get_condition
set_condition_of_find cond n a h =
    rw (others_of_mem cond n a.conditions (find-mem cond.type (stamp n cond) a.conditions h).0)

-- A second call of SetCondition with the same condition is no update, when there is at most one
-- condition of each type: neither the list nor a time changes, and the clock is not read.
pub set_condition_idem :
    (cond : Condition) (a : Accessor)
    → UniqueTypes a.conditions
    → set_condition cond (set_condition cond a) ≡ set_condition cond a
set_condition_idem cond a u =
    let (n, q) = get_condition-set_condition_self cond a u in
    set_condition_of_find cond n (set_condition cond a) q
