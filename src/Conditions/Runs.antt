-- ===== src/Conditions/Runs.antt =====
-- Sequences of marks of the `ConditionManager` of pkg/apis/condition_set.go.
use nats_account_operator.Common.{
  String, ◌==◌, eq_iff, ℕ, ◌≡◌, ◌≢◌, refl, sym, ap, ◌∙◌, ◌↔◌, inl, inr, true, false, Option, none,
  some, List, [], ◌∷◌, All, All-mem, any, any_elim, arith, Bool-cases, Option-cases,
}
use nats_account_operator.Conditions.{
  Condition, ConditionStatus, status_true, status_false, status_unknown, status_eq, ConditionSet,
  Accessor, get_condition, is_happy, contains, is_true, mark_true, mark_true_with_reason,
  mark_false, mark_unknown, initialize_conditions, new_condition_set,
}
use nats_account_operator.Conditions.Others.{find-mem}
use nats_account_operator.Conditions.Sets.{IsProper, contains_of_mem, new_condition_set-IsProper}
use nats_account_operator.Conditions.Coherence.{IsCoherent, IsKnown, Fits}
use nats_account_operator.Conditions.Summary.{rate, view, failed, summary}
use nats_account_operator.Conditions.Marking.{
  set_at, mark_true-IsCoherent, view-mark_true, mark_true_with_reason_lem, mark_false-IsCoherent,
  view-mark_false,
}
use nats_account_operator.Conditions.Unknown.{mark_unknown-IsCoherent, view-mark_unknown}
use nats_account_operator.Conditions.Initial.{initialize_conditions_raw}
use nats_account_operator.Conditions.Ready.{
  IsExact, IsExact-of, after_false-IsExact, after_unknown-IsExact, set_happy-IsExact,
  view-initialize_conditions, rate-true, summary-ne_true, summary_failed, summary_pending,
}

-- The marks of a `ConditionManager`, and its initialization; a reason comes before a message.
pub data Mark : Type 0 where
  set_true : String → Mark
  set_true_with_reason set_false set_unknown : String → String → String → Mark
  initialize : Mark

abbrev pub apply : ConditionSet → Mark → Accessor → Accessor
apply r (set_true t) a = mark_true r t a
apply r (set_true_with_reason t reason message) a = mark_true_with_reason r t reason message a
apply r (set_false t reason message) a = mark_false r t reason message a
apply r (set_unknown t reason message) a = mark_unknown r t reason message a
apply r initialize a = initialize_conditions r a

abbrev pub run : ConditionSet → List Mark → Accessor → Accessor
run r [] a = a
run r (m ∷ ms) a = run r ms (apply r m a)

-- A mark of another type than the happy one.
abbrev pub IsAside : String → Mark → Type 0
IsAside happy (set_true t) = (t == happy) ≡ false
IsAside happy (set_true_with_reason t _ _) = (t == happy) ≡ false
IsAside happy (set_false t _ _) = (t == happy) ≡ false
IsAside happy (set_unknown t _ _) = (t == happy) ≡ false
IsAside happy initialize = Unit

remaining_status :
    (s : ConditionStatus)
    → IsKnown s
    → s ≢ status_false
    → s ≢ status_unknown
    → status_eq s status_true ≡ true
remaining_status status_true k f u = refl
remaining_status status_false k f u = absurd (f refl)
remaining_status status_unknown k f u = absurd (u refl)
remaining_status (ConditionStatus.other _) k f u = absurd k

is_true-rate : (o : Option Condition) → is_true o ≡ status_eq (rate o) status_true
is_true-rate none = refl
is_true-rate (some c) = refl

pub summary-true :
    (v : String → ConditionStatus) (deps : List String)
    → ((d : String) → contains deps d ≡ true → v d ≡ status_true)
    → summary v deps ≡ status_true
unfolding summary
summary-true v deps h = ground (arith, none_is status_false refl, none_is status_unknown refl)
  where
    none_is :
        (s : ConditionStatus)
        → status_eq status_true s ≡ false
        → any (λ d. status_eq (v d) s) deps ≡ false
    none_is s ne = elim (Bool-cases (any (λ d. status_eq (v d) s) deps)) [
      | inl e ↦
          let (d, i, q) = any_elim (λ d. status_eq (v d) s) deps e in
          let p = h d (contains_of_mem deps d i) in absurd (ground arith)
      | inr e ↦ e
    ]

module _ (r : ConditionSet) (proper : IsProper r) where
  -- Every mark and the initialization keep the conditions well formed: at most one of each type,
  -- each with the severity of its type and one of the three statuses.
  pub apply-IsCoherent : (m : Mark) (a : Accessor) → IsCoherent r a → IsCoherent r (apply r m a)
  apply-IsCoherent (set_true t) a h = mark_true-IsCoherent r proper t a h
  apply-IsCoherent (set_true_with_reason t reason message) a h =
      (mark_true_with_reason_lem r proper t reason message a h).0
  apply-IsCoherent (set_false t reason message) a h =
      mark_false-IsCoherent r proper t reason message a h
  apply-IsCoherent (set_unknown t reason message) a h =
      mark_unknown-IsCoherent r proper t reason message a h
  apply-IsCoherent initialize a h = (initialize_conditions_raw r a h).0

  pub apply-IsExact :
      (m : Mark) (a : Accessor)
      → IsAside r.happy m
      → IsCoherent r a
      → IsExact r (view a)
      → IsExact r (view (apply r m a))
  apply-IsExact (set_true t) a ne h e = IsExact-of r proper _ _ (view-mark_true r proper t a h) (
      set_happy-IsExact r proper (summary (set_at t status_true (view a)) r.dependents)
        (set_at t status_true (view a)) refl)
  apply-IsExact (set_true_with_reason t reason message) a ne h e =
      IsExact-of r proper _ _ (mark_true_with_reason_lem r proper t reason message a h).1 (
        set_happy-IsExact r proper (summary (set_at t status_true (view a)) r.dependents)
          (set_at t status_true (view a)) refl)
  apply-IsExact (set_false t reason message) a ne h e =
      IsExact-of r proper _ _ (view-mark_false r proper t reason message a h)
        (after_false-IsExact r proper t (view a) ne e)
  apply-IsExact (set_unknown t reason message) a ne h e =
      IsExact-of r proper _ _ (view-mark_unknown r proper t reason message a h)
        (after_unknown-IsExact r proper t (view a) ne e)
  apply-IsExact initialize a ne h e =
      IsExact-of r proper _ _ (view-initialize_conditions r proper a h e) e

  pub run-IsExact :
      (ms : List Mark) (a : Accessor)
      → All (IsAside r.happy) ms
      → IsCoherent r a
      → IsExact r (view a)
      → IsCoherent r (run r ms a) × IsExact r (view (run r ms a))
  run-IsExact [] a ok h e = (h, e)
  run-IsExact (m ∷ ms) a ok h e =
      run-IsExact ms (apply r m a) ok.1 (apply-IsCoherent m a h) (apply-IsExact m a ok.0 h e)

  view-IsKnown : (a : Accessor) (t : String) → IsCoherent r a → IsKnown (view a t)
  unfolding get_condition
  view-IsKnown a t h = elim (Option-cases (get_condition t a)) [
    | inl e ↦ rw e tt
    | inr (c, e) ↦ rw e (All-mem (Fits r) c a.conditions h.fits (find-mem t c a.conditions e).0).1
  ]

  pub dependent_true :
      (a : Accessor)
      → IsCoherent r a
      → summary (view a) r.dependents ≡ status_true
      → (d : String) → contains r.dependents d ≡ true
      → is_true (get_condition d a) ≡ true
  dependent_true a h e d k =
      is_true-rate (get_condition d a)
      ∙ remaining_status (view a d) (view-IsKnown a d h)
          (λ f. let q = summary_failed (view a) d r.dependents k f in cc)
          (λ u. summary-ne_true (view a) d r.dependents k u e)

  -- An exact manager is happy exactly when all its dependents are True.
  pub is_happy_of_exact :
      (a : Accessor)
      → IsCoherent r a
      → IsExact r (view a)
      → (is_happy r a ≡ true)
        ↔ ((d : String) → contains r.dependents d ≡ true → is_true (get_condition d a) ≡ true)
  unfolding is_happy
  is_happy_of_exact a h e = (
    λ p. dependent_true a h (sym e ∙ rate-true (get_condition r.happy a) p),
    λ p.
        is_true-rate (get_condition r.happy a)
        ∙ ap (λ s. status_eq s status_true)
            (e ∙ summary-true (view a) r.dependents (λ d k. rate-true (get_condition d a) (p d k))),
  )

abbrev pub blank : (ℕ → ℕ) → Accessor
blank clock = record { conditions = []; clock = clock }

pub blank-IsCoherent : (r : ConditionSet) (clock : ℕ → ℕ) → IsCoherent r (blank clock)
blank-IsCoherent r clock = record { unique = tt; fits = tt }

pub blank-IsExact :
    (r : ConditionSet) (clock : ℕ → ℕ) (d : String)
    → contains r.dependents d ≡ true
    → IsExact r (view (blank clock))
unfolding get_condition
blank-IsExact r clock d k =
    sym (summary_pending (view (blank clock)) d r.dependents k refl (none_failed r.dependents))
  where
    none_failed : (ds : List String) → any (failed (view (blank clock))) ds ≡ false
    none_failed [] = refl
    none_failed (x ∷ xs) = none_failed xs

pub blank_not_true : (clock : ℕ → ℕ) (t : String) → view (blank clock) t ≢ status_true
unfolding get_condition
blank_not_true clock t h = cc

pub happy-new_condition_set :
    (happy : String) (ds : List String) → (new_condition_set happy ds).happy ≡ happy
unfolding new_condition_set
happy-new_condition_set happy ds = refl

pub dependent-ne_happy :
    (r : ConditionSet) (d : String)
    → IsProper r
    → contains r.dependents d ≡ true
    → (r.happy == d) ≡ false
dependent-ne_happy r d proper k = ground (arith, proper.apart, eq_iff r.happy d)

-- For a condition set made from any types, at least one of them not the happy type: after any
-- calls that mark other types than the happy one or initialize, from a status with no conditions,
-- the resource is happy exactly when every given type but the happy one has a True condition.
pub run-is_happy :
    (happy : String) (ds : List String) (d₀ : String)
    → contains ds d₀ ≡ true
    → (happy == d₀) ≡ false
    → (clock : ℕ → ℕ) (ms : List Mark) → All (IsAside happy) ms
    → let r = new_condition_set happy ds in
      let a = run r ms (blank clock) in
      (is_happy r a ≡ true) ↔ (
        (d : String)
        → (happy == d) ≡ false
        → contains ds d ≡ true
        → is_true (get_condition d a) ≡ true)
run-is_happy happy ds d₀ k₀ n₀ clock ms ok =
    let r = new_condition_set happy ds in
    let (proper, given) = new_condition_set-IsProper happy ds in
    let same : r.happy ≡ happy = happy-new_condition_set happy ds in
    let (h, e) =
      run-IsExact r proper ms (blank clock) (rw same ok) (blank-IsCoherent r clock)
        (blank-IsExact r clock d₀ (given d₀ n₀ ∙ k₀)) in
    let (to, from) = is_happy_of_exact r proper (run r ms (blank clock)) h e in
    (
      λ p d n k. to p d (given d n ∙ k),
      λ p. from (λ d k.
          let n : (happy == d) ≡ false = rw same at (dependent-ne_happy r d proper k) in
          p d n (sym (given d n) ∙ k)),
    )
