-- ===== src/Conditions/Unknown.antt =====
-- `MarkUnknown` and `InitializeConditions` of pkg/apis/condition_set.go, by the statuses in view.
use nats_account_operator.Common.{
  String, ◌==◌, eq_iff, ◌≡◌, refl, sym, ap, ◌∙◌, inl, inr, Bool, false, ◌||◌, if◌then◌else◌, List,
  [], ◌∷◌, any, arith, Bool-cases, Option-cases,
}
use mathlib.Core.Path.{fun_ext}
use nats_account_operator.Conditions.{
  ConditionStatus, status_false, status_unknown, ConditionSet, Accessor, get_condition, contains,
  make, is_false, set_condition, mark_false, check_dependents, mark_unknown,
}
use nats_account_operator.Conditions.Equality.{status_eq_sound}
use nats_account_operator.Conditions.Sets.{IsProper}
use nats_account_operator.Conditions.Coherence.{IsCoherent, make-IsCoherent}
use nats_account_operator.Conditions.Summary.{view, failed}
use nats_account_operator.Conditions.Marking.{
  set_at, view-set_condition, view-mark_false, mark_false-IsCoherent,
}

is_false-view : (a : Accessor) (d : String) → is_false (get_condition d a) ≡ failed (view a) d
is_false-view a d = elim (Option-cases (get_condition d a)) [ inl e ↦ rw e | inr (c, e) ↦ rw e ]

or_assoc : (x y z : Bool) → (x || y || z) ≡ (x || (y || z))
or_assoc x y z = ground arith

set_at_same :
    (t : String) (s : ConditionStatus) (v : String → ConditionStatus) → v t ≡ s → v ≡ set_at t s v
set_at_same t s v e = fun_ext λ u. ground (arith, eq_iff t u)

-- The statuses after `MarkUnknown`, from those with the type itself made Unknown.
abbrev pub after_unknown :
    ConditionSet
    → String
    → Bool
    → List String
    → (String → ConditionStatus)
    → String
    → ConditionStatus
after_unknown r t is_dependent ds v =
    if any (failed v) ds
    then set_at r.happy status_false v
    else if is_dependent || contains ds t
    then set_at r.happy status_unknown v
    else v

module _ (r : ConditionSet) (proper : IsProper r) where
  keep_false_lem :
      (reason message : String) (a : Accessor)
      → IsCoherent r a
      → let b =
          if is_false (get_condition r.happy a) then a else mark_false r r.happy reason message a in
        IsCoherent r b × (view b ≡ set_at r.happy status_false (view a))
  keep_false_lem reason message a h = elim (Bool-cases (is_false (get_condition r.happy a))) [
    | inl e ↦ rw e (
      h,
      set_at_same r.happy status_false (view a)
          (status_eq_sound (view a r.happy) status_false (sym (is_false-view a r.happy) ∙ e)),
    )
    | inr e ↦ rw e (
      mark_false-IsCoherent r proper r.happy reason message a h,
      view-mark_false r proper r.happy reason message a h ∙ rw proper.apart refl,
    )
  ]

  check_dependents_lem :
      (t reason message : String) (is_dependent : Bool) (ds : List String) (a : Accessor)
      → IsCoherent r a
      → let b = check_dependents r t reason message is_dependent ds a in
        IsCoherent r b × (view b ≡ after_unknown r t is_dependent ds (view a))
  unfolding check_dependents contains
  check_dependents_lem t reason message is_dependent [] a h = elim (Bool-cases is_dependent) [
    | inl e ↦ rw e (
      make-IsCoherent r r.happy status_unknown reason message a tt h,
      view-set_condition r (make r r.happy status_unknown reason message) a h,
    )
    | inr e ↦ rw e (h, refl)
  ]
  check_dependents_lem t reason message is_dependent (d ∷ ds) a h =
      elim (Bool-cases (failed (view a) d)) [
        | inl e ↦ rw (is_false-view a d, e) (keep_false_lem reason message a h)
        | inr e ↦
            let (k, q) = check_dependents_lem t reason message (is_dependent || d == t) ds a h in
            rw (is_false-view a d, e)
              (k, q ∙ rw (or_assoc is_dependent (d == t) (contains ds t)) refl)
      ]

  -- With a set of distinct dependents without the happy type, and well-formed conditions,
  -- MarkUnknown makes the type Unknown. Then the happy type becomes False if a dependent is, or
  -- else Unknown if the type is a dependent.
  pub view-mark_unknown :
      (t reason message : String) (a : Accessor)
      → IsCoherent r a
      → view (mark_unknown r t reason message a)
        ≡ after_unknown r t false r.dependents (set_at t status_unknown (view a))
  unfolding mark_unknown
  view-mark_unknown t reason message a h =
      let b = set_condition (make r t status_unknown reason message) a in
      let seen = view-set_condition r (make r t status_unknown reason message) a h in
      (check_dependents_lem t reason message false r.dependents b
        (make-IsCoherent r t status_unknown reason message a tt h)).1
      ∙ ap (after_unknown r t false r.dependents) seen

  pub mark_unknown-IsCoherent :
      (t reason message : String) (a : Accessor)
      → IsCoherent r a
      → IsCoherent r (mark_unknown r t reason message a)
  unfolding mark_unknown
  mark_unknown-IsCoherent t reason message a h =
      (check_dependents_lem t reason message false r.dependents
        (set_condition (make r t status_unknown reason message) a)
        (make-IsCoherent r t status_unknown reason message a tt h)).0
