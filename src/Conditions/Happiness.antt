-- ===== src/Conditions/Happiness.antt =====
-- `findUnhappyDependent` of pkg/apis/condition_set.go finds the summary of the dependents.
use nats_account_operator.Common.{
  String, ◌==◌, eq_iff, ◌≡◌, refl, ap, ◌∙◌, ◌⊎◌, inl, inr, Bool, true, false, not, ◌&&◌, ◌||◌,
  if◌then◌else◌, Option, none, some, List, [], ◌∷◌, map, Memᴰ, length, All-mem, filter, find_first,
  any, any_of_mem, any_elim, mem-filter, mem-filter_of, arith, Bool-ext, ltb, suc, ◌≤◌, Bool-cases,
  Option-cases,
}
use mathlib.Core.List.Memᴰ
use nats_account_operator.Conditions.{
  Condition, ConditionStatus, status_true, status_false, status_unknown, status_eq, severity_eq,
  error, ConditionSet, Accessor, get_condition, contains, find, sort_by, later, severity, failures,
  worst, is_empty, find_unhappy_dependent, is_false, is_unknown,
}
use nats_account_operator.Conditions.Sort.{mem-sort_by, sort_by-mem, length-sort_by}
use nats_account_operator.Conditions.Others.{UniqueTypes, find-mem, find_of_mem}
use nats_account_operator.Conditions.Sets.{IsProper, Distinct, contains_of_mem, mem_of_contains}
use nats_account_operator.Conditions.Counting.{length-le_of_Distinct}
use nats_account_operator.Conditions.Coherence.{IsCoherent, Fits}
use nats_account_operator.Conditions.Summary.{rate, view, failed, pending, summary}

-- The status that the happy condition is to get.
abbrev pub verdict : Option Condition → ConditionStatus
verdict none = status_true
verdict (some c) = c.status

terminal_of_failure :
    (r : ConditionSet) (c : Condition)
    → c.severity ≡ severity r c.type
    → (severity_eq c.severity error && not (c.type == r.happy)) ≡ true
    → contains r.dependents c.type ≡ true
unfolding severity
terminal_of_failure r c e h = elim (Bool-cases (contains r.dependents c.type)) [
  | inl q ↦ q
  | inr q ↦ ground arith
]

failure_of_dependent :
    (r : ConditionSet) (c : Condition)
    → IsProper r
    → c.severity ≡ severity r c.type
    → contains r.dependents c.type ≡ true
    → (severity_eq c.severity error && not (c.type == r.happy)) ≡ true
unfolding severity
failure_of_dependent r c p e h = ground (arith, p.apart, eq_iff c.type r.happy)

abbrev names : List Condition → List String
names cs = map (λ (c : Condition). c.type) cs

contains-names-none :
    (p : Condition → Bool) (t : String) (cs : List Condition)
    → find t cs ≡ none
    → contains (names (filter p cs)) t ≡ false
unfolding find contains
contains-names-none p t [] h = refl
contains-names-none p t (c ∷ cs) h = ground (arith, contains-names-none p t cs)

Distinct-names :
    (p : Condition → Bool) (cs : List Condition) → UniqueTypes cs → Distinct (names (filter p cs))
Distinct-names p [] u = tt
Distinct-names p (c ∷ cs) u = elim (Bool-cases (p c)) [
  | inl e ↦ rw e (contains-names-none p c.type cs u.0, Distinct-names p cs u.1)
  | inr e ↦ rw e (Distinct-names p cs u.1)
]

length-names : (cs : List Condition) → length (names cs) ≡ length cs
length-names [] = refl
length-names (c ∷ cs) = ap suc (length-names cs)

contains-names :
    (c : Condition) (cs : List Condition) → Memᴰ c cs → contains (names cs) c.type ≡ true
contains-names c cs i = contains_of_mem (names cs) c.type (Memᴰ.map (λ (d : Condition). d.type) i)

pub find_first-any :
    (p : Condition → Bool) (cs : List Condition)
    → ((find_first p cs ≡ none) × (any p cs ≡ false))
      ⊎ ((c : Condition) × (find_first p cs ≡ some c) × (p c ≡ true) × (any p cs ≡ true))
find_first-any p [] = inl (refl, refl)
find_first-any p (c ∷ cs) = elim (Bool-cases (p c)) [
  | inl e ↦ rw e (inr (c, refl, e, refl))
  | inr e ↦ rw e (find_first-any p cs)
]

verdict-worst :
    (r : ConditionSet) (cs : List Condition)
    → verdict (worst r cs) ≡ (
        if any (λ c. is_false (some c)) cs
        then status_false
        else if any (λ c. is_unknown (some c)) cs || ltb (length cs) (length r.dependents)
        then status_unknown
        else status_true)
unfolding worst
verdict-worst r cs = ground (
  arith,
  find_first-any (λ c. is_false (some c)) cs,
  find_first-any (λ c. is_unknown (some c)) cs,
)

module _ (r : ConditionSet) (a : Accessor) (proper : IsProper r) (h : IsCoherent r a) where
  abbrev sorted : List Condition
  sorted = sort_by later (failures r a.conditions)

  -- What stands in the list that is looked through is a dependent, with the status in view.
  failure-dependent :
      (c : Condition)
      → Memᴰ c sorted
      → (contains r.dependents c.type ≡ true) × (view a c.type ≡ c.status)
  unfolding failures get_condition severity
  failure-dependent c i =
      let (m, t) = mem-filter _ c a.conditions (mem-sort_by later c (failures r a.conditions) i) in
      let f = All-mem (Fits r) c a.conditions h.fits m in
      (terminal_of_failure r c f.0 t, ap rate (find_of_mem c a.conditions h.unique m))

  dependent-failure :
      (d : String) (c : Condition)
      → Memᴰ d r.dependents
      → get_condition d a ≡ some c
      → Memᴰ c sorted
  unfolding failures get_condition severity
  dependent-failure d c i e =
      let (m, t) = find-mem d c a.conditions e in
      let f = All-mem (Fits r) c a.conditions h.fits m in
      sort_by-mem later c (failures r a.conditions) (
        mem-filter_of _ c a.conditions m
          (failure_of_dependent r c proper f.0 (rw t (contains_of_mem r.dependents d i))))

  -- A test that some condition looked through passes is one that some dependent in view passes.
  any-sorted :
      (s : ConditionStatus)
      → any (λ c. status_eq c.status s) sorted ≡ true
      → any (λ d. status_eq (view a d) s) r.dependents ≡ true
  any-sorted s e =
      let (c, i, q) = any_elim (λ c. status_eq c.status s) sorted e in
      let (k, v) = failure-dependent c i in
      any_of_mem (λ d. status_eq (view a d) s) c.type r.dependents
        (mem_of_contains r.dependents c.type k) (rw v q)

  sorted-any :
      (s : ConditionStatus) (d : String) (c : Condition)
      → Memᴰ d r.dependents
      → get_condition d a ≡ some c
      → status_eq c.status s ≡ true
      → any (λ c. status_eq c.status s) sorted ≡ true
  sorted-any s d c i e q =
      any_of_mem (λ c. status_eq c.status s) c sorted (dependent-failure d c i e) q

  any-failed : any (λ c. is_false (some c)) sorted ≡ any (failed (view a)) r.dependents
  any-failed =
      Bool-ext (any (λ c. is_false (some c)) sorted) (any (failed (view a)) r.dependents)
        (any-sorted status_false)
        (λ e.
          let (d, i, q) = any_elim (failed (view a)) r.dependents e in
          elim (Option-cases (get_condition d a)) [
            | inl n ↦ ground arith
            | inr (c, n) ↦ sorted-any status_false d c i n (ground arith)
          ])

  named :
      (d : String)
      → Memᴰ d r.dependents
      → any (pending (view a)) r.dependents ≡ false
      → contains (names (failures r a.conditions)) d ≡ true
  named d i q = elim (Option-cases (get_condition d a)) [
    | inl n ↦
        let e : any (pending (view a)) r.dependents ≡ true =
          any_of_mem (pending (view a)) d r.dependents i (rw n refl) in
        cc
    | inr (c, n) ↦
        let m = mem-sort_by later c (failures r a.conditions) (dependent-failure d c i n) in
        rw (find-mem d c a.conditions (unfold get_condition in n)).1 at
          (contains-names c (failures r a.conditions) m)
  ]

  unnamed :
      (d : String) → get_condition d a ≡ none → contains (names (failures r a.conditions)) d ≡ false
  unfolding failures get_condition
  unnamed d e = contains-names-none _ d a.conditions e

  Distinct-failures : Distinct (names (failures r a.conditions))
  unfolding failures
  Distinct-failures = Distinct-names _ a.conditions h.unique

  only_dependents :
      (d : String)
      → Memᴰ d r.dependents
      → (t : String) → contains (d ∷ names (failures r a.conditions)) t ≡ true
      → contains r.dependents t ≡ true
  only_dependents d i t k =
      elim (Memᴰ.cases_cons (mem_of_contains (d ∷ names (failures r a.conditions)) t k)) [
        | inl e ↦ rw e (contains_of_mem r.dependents d i)
        | inr j ↦
            let (c, m, e) = Memᴰ.of_map (λ (c : Condition). c.type) (failures r a.conditions) j in
            rw e at (failure-dependent c (sort_by-mem later c (failures r a.conditions) m)).0
      ]

  -- The count of the conditions tells whether a dependent is not set.
  missing_of_short :
      ltb (length sorted) (length r.dependents) ≡ true → any (pending (view a)) r.dependents ≡ true
  missing_of_short e = elim (Bool-cases (any (pending (view a)) r.dependents)) [
    | inl q ↦ q
    | inr q ↦
        let short : length r.dependents ≤ length (names (failures r a.conditions)) =
          length-le_of_Distinct r.dependents (names (failures r a.conditions)) proper.distinct
            (λ d i. named d (mem_of_contains r.dependents d i) q) in
        absurd (
          ground (
            arith,
            length-names (failures r a.conditions),
            length-sort_by later (failures r a.conditions),
          ))
  ]

  short_of_missing :
      (d : String)
      → Memᴰ d r.dependents
      → get_condition d a ≡ none
      → ltb (length sorted) (length r.dependents) ≡ true
  short_of_missing d i e =
      let short : length (d ∷ names (failures r a.conditions)) ≤ length r.dependents =
        length-le_of_Distinct (d ∷ names (failures r a.conditions)) r.dependents
          (unnamed d e, Distinct-failures) (λ t k. only_dependents d i t k) in
      ground (
        arith,
        length-names (failures r a.conditions),
        length-sort_by later (failures r a.conditions),
      )

  any-pending :
      any (pending (view a)) r.dependents
      ≡ (any (λ c. is_unknown (some c)) sorted || ltb (length sorted) (length r.dependents))
  any-pending =
      Bool-ext (any (pending (view a)) r.dependents)
        (any (λ c. is_unknown (some c)) sorted || ltb (length sorted) (length r.dependents))
        (λ e.
          let (d, i, q) = any_elim (pending (view a)) r.dependents e in
          elim (Option-cases (get_condition d a)) [
            | inl n ↦ ground (arith, short_of_missing d i n)
            | inr (c, n) ↦ ground (arith, sorted-any status_unknown d c i n (ground arith))
          ])
        (λ e. elim (Bool-cases (any (λ c. is_unknown (some c)) sorted)) [
          | inl q ↦ any-sorted status_unknown q
          | inr q ↦ missing_of_short (rw q at e)
        ])

  -- With a set of distinct dependents without the happy type, and well-formed conditions, the
  -- unhappy dependent that is found has the status that the summary of the dependents gives.
  pub verdict-find_unhappy_dependent :
      verdict (find_unhappy_dependent r a) ≡ summary (view a) r.dependents
  unfolding find_unhappy_dependent summary
  verdict-find_unhappy_dependent = elim (Bool-cases (is_empty r.dependents)) [
    | inl e ↦ ground arith
    | inr e ↦ rw e (verdict-worst r sorted ∙ rw (← any-failed, any-pending) refl)
  ]
