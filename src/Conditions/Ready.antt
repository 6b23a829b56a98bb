-- ===== src/Conditions/Ready.antt =====
-- The happy condition of pkg/apis/condition_set.go is the summary of the dependents, whatever
-- marks are made.
use nats_account_operator.Common.{
  String, ◌==◌, eq_iff, ==_refl, ◌≡◌, refl, sym, ap, ◌∙◌, ◌≢◌, inl, inr, true, false, if◌then◌else◌,
  Option, none, some, List, any, any_of_mem, any_elim, arith, Bool-cases, Option-cases, Bool-ext,
}
use mathlib.Core.Path.{fun_ext, subst}
use nats_account_operator.Conditions.{
  Condition, ConditionStatus, status_true, status_false, status_unknown, status_eq, ConditionSet,
  Accessor, get_condition, contains, is_true, initialize_conditions,
}
use nats_account_operator.Conditions.Equality.{status_eq_sound}
use nats_account_operator.Conditions.Sets.{IsProper, contains_of_mem, mem_of_contains}
use nats_account_operator.Conditions.Coherence.{IsCoherent}
use nats_account_operator.Conditions.Summary.{rate, view, failed, pending, summary}
use nats_account_operator.Conditions.Marking.{set_at}
use nats_account_operator.Conditions.Unknown.{after_unknown}
use nats_account_operator.Conditions.Initial.{look, fill, initialize_conditions_raw}

any-congr :
    (s : ConditionStatus) (v w : String → ConditionStatus) (ds : List String)
    → ((d : String) → contains ds d ≡ true → v d ≡ w d)
    → any (λ d. status_eq (v d) s) ds ≡ any (λ d. status_eq (w d) s) ds
any-congr s v w ds e =
    Bool-ext (any (λ d. status_eq (v d) s) ds) (any (λ d. status_eq (w d) s) ds)
      (λ h.
        let (d, i, q) = any_elim (λ d. status_eq (v d) s) ds h in
        any_of_mem (λ d. status_eq (w d) s) d ds i (rw (← e d (contains_of_mem ds d i)) q))
      (λ h.
        let (d, i, q) = any_elim (λ d. status_eq (w d) s) ds h in
        any_of_mem (λ d. status_eq (v d) s) d ds i (rw (e d (contains_of_mem ds d i)) q))

summary-congr :
    (v w : String → ConditionStatus) (deps : List String)
    → ((d : String) → contains deps d ≡ true → v d ≡ w d)
    → summary v deps ≡ summary w deps
unfolding summary
summary-congr v w deps e =
    ground (arith, any-congr status_false v w deps e, any-congr status_unknown v w deps e)

pub summary_failed :
    (v : String → ConditionStatus) (t : String) (deps : List String)
    → contains deps t ≡ true
    → v t ≡ status_false
    → summary v deps ≡ status_false
unfolding summary
summary_failed v t deps k e =
    rw (any_of_mem (failed v) t deps (mem_of_contains deps t k) (rw e refl)) refl

pub summary_pending :
    (v : String → ConditionStatus) (t : String) (deps : List String)
    → contains deps t ≡ true
    → v t ≡ status_unknown
    → any (failed v) deps ≡ false
    → summary v deps ≡ status_unknown
unfolding summary
summary_pending v t deps k e f =
    rw (f, any_of_mem (pending v) t deps (mem_of_contains deps t k) (rw e refl)) refl

pub summary-ne_true :
    (v : String → ConditionStatus) (t : String) (deps : List String)
    → contains deps t ≡ true
    → v t ≡ status_unknown
    → summary v deps ≢ status_true
summary-ne_true v t deps k e h = elim (Bool-cases (any (failed v) deps)) [
  | inl q ↦ let p : summary v deps ≡ status_false = unfold summary in rw q refl in cc
  | inr q ↦ let p = summary_pending v t deps k e q in cc
]

-- The happy type says what the dependents say.
abbrev pub IsExact : ConditionSet → (String → ConditionStatus) → Type 0
IsExact r v = v r.happy ≡ summary v r.dependents

abbrev pub or_unknown : Option ConditionStatus → ConditionStatus
or_unknown none = status_unknown
or_unknown (some s) = s

pub rate-true : (o : Option Condition) → is_true o ≡ true → rate o ≡ status_true
rate-true none h = cc
rate-true (some c) h = status_eq_sound c.status status_true h

module _ (r : ConditionSet) (proper : IsProper r) where
  summary-set_at_ne :
      (t : String) (s : ConditionStatus) (v : String → ConditionStatus)
      → contains r.dependents t ≡ false
      → summary (set_at t s v) r.dependents ≡ summary v r.dependents
  summary-set_at_ne t s v k =
      summary-congr (set_at t s v) v r.dependents (λ d i. ground (arith, eq_iff t d))

  pub set_happy-IsExact :
      (s : ConditionStatus) (v : String → ConditionStatus)
      → summary v r.dependents ≡ s
      → IsExact r (set_at r.happy s v)
  set_happy-IsExact s v e =
      ground (arith, summary-set_at_ne r.happy s v proper.apart, ==_refl r.happy)

  set_other-IsExact :
      (t : String) (s : ConditionStatus) (v : String → ConditionStatus)
      → (t == r.happy) ≡ false
      → contains r.dependents t ≡ false
      → IsExact r v
      → IsExact r (set_at t s v)
  set_other-IsExact t s v ne k e = rw ne (e ∙ sym (summary-set_at_ne t s v k))

  pub IsExact-of : (v w : String → ConditionStatus) → v ≡ w → IsExact r w → IsExact r v
  IsExact-of v w p h = subst (IsExact r) (sym p) h

  pub after_false-IsExact :
      (t : String) (v : String → ConditionStatus)
      → (t == r.happy) ≡ false
      → IsExact r v
      → IsExact r (
          if contains r.dependents t
          then set_at r.happy status_false (set_at t status_false v)
          else set_at t status_false v)
  after_false-IsExact t v ne e = elim (Bool-cases (contains r.dependents t)) [
    | inl k ↦ rw k (
        set_happy-IsExact status_false (set_at t status_false v)
          (summary_failed (set_at t status_false v) t r.dependents k (rw (==_refl t) refl)))
    | inr k ↦ rw k (set_other-IsExact t status_false v ne k e)
  ]

  pub after_unknown-IsExact :
      (t : String) (v : String → ConditionStatus)
      → (t == r.happy) ≡ false
      → IsExact r v
      → IsExact r (after_unknown r t false r.dependents (set_at t status_unknown v))
  after_unknown-IsExact t v ne e =
      elim (Bool-cases (any (failed (set_at t status_unknown v)) r.dependents)) [
        | inl q ↦ rw q (
            set_happy-IsExact status_false (set_at t status_unknown v)
              (unfold summary in rw q refl))
        | inr q ↦ elim (Bool-cases (contains r.dependents t)) [
          | inl k ↦
              rw (q, k)
                (set_happy-IsExact status_unknown (set_at t status_unknown v) (
                  summary_pending (set_at t status_unknown v) t r.dependents k (rw (==_refl t) refl)
                    q))
          | inr k ↦ rw (q, k) (set_other-IsExact t status_unknown v ne k e)
        ]
      ]

  rate_look : (a : Accessor) (u : String) → view a u ≡ or_unknown (look a u)
  rate_look a u = elim (Option-cases (get_condition u a)) [
    | inl e ↦ rw e refl
    | inr (c, e) ↦ rw e refl
  ]

  happy_not_true :
      (a : Accessor) (u : String)
      → IsExact r (view a)
      → contains r.dependents u ≡ true
      → get_condition u a ≡ none
      → is_true (get_condition r.happy a) ≡ false
  happy_not_true a u e k n = elim (Bool-cases (is_true (get_condition r.happy a))) [
    | inl q ↦ absurd (
        summary-ne_true (view a) u r.dependents k (ap rate n)
          (sym e ∙ rate-true (get_condition r.happy a) q))
    | inr q ↦ q
  ]

  filled_view :
      (a : Accessor)
      → IsExact r (view a)
      → (u : String)
      → or_unknown (
          fill
            (contains r.dependents)
            (if is_true (get_condition r.happy a) then status_true else status_unknown)
            (fill (λ u. r.happy == u) status_unknown (look a))
            u)
        ≡ view a u
  filled_view a e u = elim (Option-cases (get_condition u a)) [
    | inl n ↦ elim (Bool-cases (contains r.dependents u)) [
      | inl k ↦ rw (n, k, happy_not_true a u e k n) (ground arith)
      | inr k ↦ rw (n, k) (ground arith)
    ]
    | inr (c, n) ↦ rw n refl
  ]

  pub view-initialize_conditions :
      (a : Accessor)
      → IsCoherent r a
      → IsExact r (view a)
      → view (initialize_conditions r a) ≡ view a
  view-initialize_conditions a h e = fun_ext λ u.
      rate_look (initialize_conditions r a) u
      ∙ ap (λ (l : String → Option ConditionStatus). or_unknown (l u))
          (initialize_conditions_raw r a h).1
      ∙ filled_view a e u
