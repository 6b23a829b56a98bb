-- ===== src/Conditions/Initial.antt =====
-- `InitializeConditions` of pkg/apis/condition_set.go adds what is missing and changes nothing else.
use nats_account_operator.Common.{
  String, ◌==◌, eq_iff, eq_of_==, ==_refl, ◌≡◌, refl, ap, ◌∙◌, inl, inr, Bool, true, false,
  if◌then◌else◌, Option, none, some, List, [], ◌∷◌, All, All-of_mem, arith, Bool-cases,
  Option-cases,
}
use mathlib.Core.Path.{fun_ext}
use mathlib.Core.List.{foldl}
use mathlib.Core.Option
use nats_account_operator.Conditions.{
  Condition, ConditionStatus, error, status_true, status_unknown, ConditionSet, Accessor,
  get_condition, contains, is_true, initial, set_condition, severity, initialize_missing,
  initialize_terminal_condition, initialize_conditions,
}
use nats_account_operator.Conditions.Store.{
  get_condition-set_condition_ne, get_condition-set_condition_self,
}
use nats_account_operator.Conditions.Sets.{contains_of_mem}
use nats_account_operator.Conditions.Coherence.{IsCoherent, IsKnown, set_condition-IsCoherent}

-- The status of a type, if it is set.
abbrev pub look : Accessor → String → Option ConditionStatus
look a t = Option.map (λ (c : Condition). c.status) (get_condition t a)

abbrev pub or_status : Option ConditionStatus → Option ConditionStatus → Option ConditionStatus
or_status none s = s
or_status (some x) s = some x

-- A status for those of some types that have none.
abbrev pub fill :
    (String → Bool)
    → ConditionStatus
    → (String → Option ConditionStatus)
    → String
    → Option ConditionStatus
fill p s l u = or_status (l u) (if p u then some s else none)

module _ (r : ConditionSet) where
  look-set_condition :
      (cond : Condition) (a : Accessor) (u : String)
      → IsCoherent r a
      → look (set_condition cond a) u ≡ (if cond.type == u then some cond.status else look a u)
  look-set_condition cond a u h = elim (Bool-cases (cond.type == u)) [
    | inl e ↦
        let (n, q) = get_condition-set_condition_self cond a h.unique in
        rw e (rw (← eq_of_== cond.type u e, q) refl)
    | inr e ↦
        rw e (
          ap (Option.map (λ (c : Condition). c.status)) (get_condition-set_condition_ne cond u a e))
  ]

  initialize_missing_lem :
      (t : String) (s : ConditionStatus) (a : Accessor)
      → error ≡ severity r t
      → IsKnown s
      → IsCoherent r a
      → let b = initialize_missing t s a (get_condition t a) in
        IsCoherent r b × (look b ≡ fill (λ u. t == u) s (look a))
  unfolding initialize_missing
  initialize_missing_lem t s a f k h = elim (Option-cases (get_condition t a)) [
    | inl e ↦ rw e (
      set_condition-IsCoherent r (initial t s) a (f, k) h,
      fun_ext λ u. look-set_condition (initial t s) a u h ∙ ground (arith, eq_iff t u),
    )
    | inr (c, e) ↦ rw e (h, fun_ext λ u. ground (arith, eq_iff t u))
  ]

  initialize_loop :
      (s : ConditionStatus) (ds : List String) (a : Accessor)
      → All (λ d. error ≡ severity r d) ds
      → IsKnown s
      → IsCoherent r a
      → let b = foldl (initialize_terminal_condition s) a ds in
        IsCoherent r b × (look b ≡ fill (contains ds) s (look a))
  unfolding initialize_terminal_condition contains
  initialize_loop s [] a f k h = (h, fun_ext λ u. ground arith)
  initialize_loop s (d ∷ ds) a f k h =
      let b = initialize_missing d s a (get_condition d a) in
      let (hb, q) = initialize_missing_lem d s a f.0 k h in
      let (hc, p) = initialize_loop s ds b f.1 k hb in
      (hc, p ∙ ap (fill (contains ds) s) q ∙ fun_ext λ u. ground arith)

  terminal-error : (d : String) → contains r.dependents d ≡ true → error ≡ severity r d
  unfolding severity
  terminal-error d e = ground arith

  happy-error : error ≡ severity r r.happy
  unfolding severity
  happy-error = ground (arith, ==_refl r.happy)

  initial_status-IsKnown : (b : Bool) → IsKnown (if b then status_true else status_unknown)
  initial_status-IsKnown true = tt
  initial_status-IsKnown false = tt

  pub initialize_conditions_raw :
      (a : Accessor)
      → IsCoherent r a
      → let b = initialize_conditions r a in
        IsCoherent r b
        × (look b
            ≡ fill
                (contains r.dependents)
                (if is_true (get_condition r.happy a) then status_true else status_unknown)
                (fill (λ u. r.happy == u) status_unknown (look a)))
  unfolding initialize_conditions
  initialize_conditions_raw a h =
      let s = if is_true (get_condition r.happy a) then status_true else status_unknown in
      let b = initialize_missing r.happy status_unknown a (get_condition r.happy a) in
      let (hb, q) = initialize_missing_lem r.happy status_unknown a happy-error tt h in
      let (hc, p) =
        initialize_loop s r.dependents b
          (All-of_mem (λ d. error ≡ severity r d) r.dependents
            (λ d i. terminal-error d (contains_of_mem r.dependents d i)))
          (initial_status-IsKnown (is_true (get_condition r.happy a))) hb in
      (hc, p ∙ ap (fill (contains r.dependents) s) q)
