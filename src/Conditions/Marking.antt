-- ===== src/Conditions/Marking.antt =====
-- Each mark of pkg/apis/condition_set.go, by the statuses that it leaves in view.
use nats_account_operator.Common.{
  String, ◌==◌, eq_iff, eq_of_==, ◌≡◌, refl, ap, ◌∙◌, inl, inr, true, false, if◌then◌else◌, Option,
  none, some, List, [], ◌∷◌, arith, Bool-cases,
}
use mathlib.Core.Path.{fun_ext}
use nats_account_operator.Conditions.{
  Condition, ConditionStatus, status_true, status_false, ConditionSet, Accessor, contains, make,
  set_condition, find_unhappy_dependent, propagate, recompute_happiness, mark_true,
  mark_true_with_reason, false_types, set_false, mark_false,
}
use nats_account_operator.Conditions.Store.{
  get_condition-set_condition_ne, get_condition-set_condition_self,
}
use nats_account_operator.Conditions.Sets.{IsProper, Distinct}
use nats_account_operator.Conditions.Coherence.{IsCoherent, IsKnown, make-IsCoherent}
use nats_account_operator.Conditions.Summary.{rate, view, summary, summary-IsKnown}
use nats_account_operator.Conditions.Happiness.{verdict, verdict-find_unhappy_dependent}

-- A view with the status of one type replaced.
abbrev pub set_at : String → ConditionStatus → (String → ConditionStatus) → String → ConditionStatus
set_at t s v u = if t == u then s else v u

pub view-set_condition :
    (r : ConditionSet) (cond : Condition) (a : Accessor)
    → IsCoherent r a
    → view (set_condition cond a) ≡ set_at cond.type cond.status (view a)
view-set_condition r cond a h = fun_ext λ u. elim (Bool-cases (cond.type == u)) [
  | inl e ↦
      let (n, q) = get_condition-set_condition_self cond a h.unique in
      rw e (rw (← eq_of_== cond.type u e, q) refl)
  | inr e ↦ rw e (ap rate (get_condition-set_condition_ne cond u a e))
]

module _ (r : ConditionSet) (proper : IsProper r) where
  set_false-IsCoherent :
      (reason message : String) (ts : List String) (a : Accessor)
      → IsCoherent r a
      → IsCoherent r (set_false r reason message ts a)
  unfolding set_false
  set_false-IsCoherent reason message [] a h = h
  set_false-IsCoherent reason message (t ∷ ts) a h =
      set_false-IsCoherent reason message ts
        (set_condition (make r t status_false reason message) a)
        (make-IsCoherent r t status_false reason message a tt h)

  propagate_lem :
      (t : String) (b : Accessor)
      → IsCoherent r b
      → ((t == r.happy) ≡ true → view b r.happy ≡ status_true)
      → (o : Option Condition) → IsKnown (verdict o)
      → IsCoherent r (propagate r t b o)
        × (view (propagate r t b o) ≡ set_at r.happy (verdict o) (view b))
  unfolding propagate
  propagate_lem t b h m (some c) k = (
    make-IsCoherent r r.happy c.status c.reason c.message b k h,
    view-set_condition r (make r r.happy c.status c.reason c.message) b h,
  )
  propagate_lem t b h m none k = elim (Bool-cases (t == r.happy)) [
    | inl e ↦ rw e (h, fun_ext λ u. ground (arith, m e, eq_iff r.happy u))
    | inr e ↦ rw e (
      make-IsCoherent r r.happy status_true "" "" b tt h,
      view-set_condition r (make r r.happy status_true "" "") b h,
    )
  ]

  recompute_happiness_lem :
      (t : String) (b : Accessor)
      → IsCoherent r b
      → ((t == r.happy) ≡ true → view b r.happy ≡ status_true)
      → IsCoherent r (recompute_happiness r t b)
        × (view (recompute_happiness r t b)
            ≡ set_at r.happy (summary (view b) r.dependents) (view b))
  unfolding recompute_happiness
  recompute_happiness_lem t b h m =
      let found = verdict-find_unhappy_dependent r b proper h in
      rw found at (
        propagate_lem t b h m (find_unhappy_dependent r b)
          (rw found (summary-IsKnown (view b) r.dependents)))

  mark_true_raw :
      (t reason message : String) (a : Accessor)
      → IsCoherent r a
      → let b = set_condition (make r t status_true reason message) a in
        let v = set_at t status_true (view a) in
        IsCoherent r (recompute_happiness r t b)
        × (view (recompute_happiness r t b) ≡ set_at r.happy (summary v r.dependents) v)
  mark_true_raw t reason message a h =
      let b = set_condition (make r t status_true reason message) a in
      let seen = view-set_condition r (make r t status_true reason message) a h in
      rw seen at (
        recompute_happiness_lem t b (make-IsCoherent r t status_true reason message a tt h)
          (λ e. ap (λ (f : String → ConditionStatus). f r.happy) seen ∙ ground arith))

  pub mark_true-IsCoherent :
      (t : String) (a : Accessor) → IsCoherent r a → IsCoherent r (mark_true r t a)
  unfolding mark_true
  mark_true-IsCoherent t a h = (mark_true_raw t "" "" a h).0

  -- With a set of distinct dependents without the happy type, and well-formed conditions,
  -- MarkTrue makes the type True and the happy type what its dependents then say: False if one
  -- is False, or else Unknown if one is Unknown or not set, or else True.
  pub view-mark_true :
      (t : String) (a : Accessor)
      → IsCoherent r a
      → let v = set_at t status_true (view a) in
        view (mark_true r t a) ≡ set_at r.happy (summary v r.dependents) v
  unfolding mark_true
  view-mark_true t a h = (mark_true_raw t "" "" a h).1

  pub mark_true_with_reason_lem :
      (t reason message : String) (a : Accessor)
      → IsCoherent r a
      → let v = set_at t status_true (view a) in
        IsCoherent r (mark_true_with_reason r t reason message a)
        × (view (mark_true_with_reason r t reason message a)
            ≡ set_at r.happy (summary v r.dependents) v)
  unfolding mark_true_with_reason
  mark_true_with_reason_lem t reason message a h = mark_true_raw t reason message a h

  false_types_none :
      (t : String) (ds : List String) → contains ds t ≡ false → false_types r t ds ≡ []
  unfolding false_types contains
  false_types_none t [] h = refl
  false_types_none t (d ∷ ds) h = ground (arith, false_types_none t ds)

  false_types_lem :
      (t : String) (ds : List String)
      → Distinct ds
      → false_types r t ds ≡ (if contains ds t then r.happy ∷ [] else [])
  unfolding false_types contains
  false_types_lem t [] u = refl
  false_types_lem t (d ∷ ds) u =
      ground (arith, false_types_lem t ds u.1, false_types_none t ds, eq_iff d t, u.0)

  set_false_two :
      (t reason message : String) (a : Accessor)
      → IsCoherent r a
      → view (
          set_condition
            (make r r.happy status_false reason message)
            (set_condition (make r t status_false reason message) a))
        ≡ set_at r.happy status_false (set_at t status_false (view a))
  set_false_two t reason message a h =
      view-set_condition r (make r r.happy status_false reason message)
        (set_condition (make r t status_false reason message) a)
        (make-IsCoherent r t status_false reason message a tt h)
      ∙ ap (set_at r.happy status_false)
          (view-set_condition r (make r t status_false reason message) a h)

  -- With a set of distinct dependents without the happy type, and well-formed conditions,
  -- MarkFalse makes the type False, and the happy type too if the type is a dependent. A type
  -- that is no dependent leaves the happy type as it was, unless it is the happy type itself.
  pub view-mark_false :
      (t reason message : String) (a : Accessor)
      → IsCoherent r a
      → view (mark_false r t reason message a) ≡ (
          if contains r.dependents t
          then set_at r.happy status_false (set_at t status_false (view a))
          else set_at t status_false (view a))
  unfolding mark_false set_false
  view-mark_false t reason message a h = elim (Bool-cases (contains r.dependents t)) [
    | inl e ↦
        rw (false_types_lem t r.dependents proper.distinct, e) (set_false_two t reason message a h)
    | inr e ↦
        rw (false_types_lem t r.dependents proper.distinct, e)
          (view-set_condition r (make r t status_false reason message) a h)
  ]

  pub mark_false-IsCoherent :
      (t reason message : String) (a : Accessor)
      → IsCoherent r a
      → IsCoherent r (mark_false r t reason message a)
  unfolding mark_false
  mark_false-IsCoherent t reason message a h =
      set_false-IsCoherent reason message (t ∷ false_types r t r.dependents) a h
