-- ===== src/Api/Links.antt =====
-- When a condition is True after a mark: the marks that make it so, and those that undo it.
use nats_account_operator.Common.{
  String, ◌==◌, ◌≡◌, ◌≢◌, refl, ap, sym, ◌∙◌, ◌⊎◌, inl, inr, Bool, true, false, if◌then◌else◌, any,
  Bool-cases,
}
use nats_account_operator.Conditions.{
  ConditionSet, ConditionStatus, Accessor, contains, status_true, status_false, status_unknown,
}
use nats_account_operator.Conditions.Sets.{IsProper}
use nats_account_operator.Conditions.Coherence.{IsCoherent}
use nats_account_operator.Conditions.Summary.{view, failed, summary}
use nats_account_operator.Conditions.Marking.{
  set_at, view-mark_true, mark_true_with_reason_lem, view-mark_false,
}
use nats_account_operator.Conditions.Unknown.{after_unknown, view-mark_unknown}
use nats_account_operator.Conditions.Ready.{IsExact, view-initialize_conditions}
use nats_account_operator.Conditions.Runs.{
  Mark, set_true, set_true_with_reason, set_false, set_unknown, initialize, apply,
}

-- The marks that make a type True.
abbrev pub raises : Mark → String → Bool
raises (set_true u) t = u == t
raises (set_true_with_reason u _ _) t = u == t
raises _ t = false

-- The marks that make it False or Unknown.
abbrev pub lowers : Mark → String → Bool
lowers (set_false u _ _) t = u == t
lowers (set_unknown u _ _) t = u == t
lowers _ t = false

set_at-true :
    (u t : String) (s : ConditionStatus) (v : String → ConditionStatus)
    → set_at u s v t ≡ status_true
    → ((u == t) ≡ true) × (s ≡ status_true) ⊎ ((u == t) ≡ false) × (v t ≡ status_true)
set_at-true u t s v h = elim (Bool-cases (u == t)) [
  | inl e ↦ inl (e, rw e at h)
  | inr e ↦ inr (e, rw e at h)
]

set_at_ne :
    (u t : String) (s : ConditionStatus) (v : String → ConditionStatus)
    → (u == t) ≡ false
    → set_at u s v t ≡ v t
set_at_ne u t s v e = rw e refl

module _ (r : ConditionSet) (proper : IsProper r) (t : String)
    (aside : (r.happy == t) ≡ false) where
  abbrev Cause : Mark → (String → ConditionStatus) → Type 0
  Cause m v = (raises m t ≡ true) ⊎ (lowers m t ≡ false) × (v t ≡ status_true)

  at :
      (b : Accessor) (w : String → ConditionStatus)
      → view b ≡ w
      → view b t ≡ status_true
      → w t ≡ status_true
  at b w q p = sym (ap (λ (f : String → ConditionStatus). f t) q) ∙ p

  set_happy_aside :
      (s : ConditionStatus) (w : String → ConditionStatus) → set_at r.happy s w t ≡ w t
  set_happy_aside s w = set_at_ne r.happy t s w aside

  after_false_aside :
      (u : String) (w : String → ConditionStatus)
      → (if contains r.dependents u then set_at r.happy status_false w else w) t ≡ w t
  after_false_aside u w = elim (Bool-cases (contains r.dependents u)) [
    | inl e ↦ rw e (set_happy_aside status_false w)
    | inr e ↦ rw e refl
  ]

  after_unknown_aside :
      (u : String) (w : String → ConditionStatus) → after_unknown r u false r.dependents w t ≡ w t
  after_unknown_aside u w = elim (Bool-cases (any (failed w) r.dependents)) [
    | inl e ↦ rw e (set_happy_aside status_false w)
    | inr e ↦ elim (Bool-cases (contains r.dependents u)) [
      | inl k ↦ rw (e, k) (set_happy_aside status_unknown w)
      | inr k ↦ rw (e, k) refl
    ]
  ]

  raised :
      (u : String) (v : String → ConditionStatus)
      → set_at u status_true v t ≡ status_true
      → ((u == t) ≡ true) ⊎ (v t ≡ status_true)
  raised u v p = elim (set_at-true u t status_true v p) [ inl x ↦ inl x.0 | inr x ↦ inr x.1 ]

  not_lowered :
      (u : String) (s : ConditionStatus) (v : String → ConditionStatus)
      → s ≢ status_true
      → set_at u s v t ≡ status_true
      → ((u == t) ≡ false) × (v t ≡ status_true)
  not_lowered u s v ne p = elim (set_at-true u t s v p) [ inl x ↦ absurd (ne x.1) | inr x ↦ x ]

  -- A type that is True after a mark was made so by it, or was True and not lowered by it.
  pub true_after :
      (m : Mark) (a : Accessor)
      → IsCoherent r a
      → IsExact r (view a)
      → view (apply r m a) t ≡ status_true
      → Cause m (view a)
  true_after (set_true u) a h e p =
      let v = set_at u status_true (view a) in
      let q = at (apply r (set_true u) a) _ (view-mark_true r proper u a h) p in
      elim (raised u (view a) (sym (set_happy_aside (summary v r.dependents) v) ∙ q)) [
        | inl x ↦ inl x
        | inr x ↦ inr (refl, x)
      ]
  true_after (set_true_with_reason u reason message) a h e p =
      let v = set_at u status_true (view a) in
      let q =
        at (apply r (set_true_with_reason u reason message) a) _
          (mark_true_with_reason_lem r proper u reason message a h).1 p in
      elim (raised u (view a) (sym (set_happy_aside (summary v r.dependents) v) ∙ q)) [
        | inl x ↦ inl x
        | inr x ↦ inr (refl, x)
      ]
  true_after (set_false u reason message) a h e p =
      let w = set_at u status_false (view a) in
      let q =
        at (apply r (set_false u reason message) a) _
          (view-mark_false r proper u reason message a h) p in
      inr (not_lowered u status_false (view a) (λ x. cc) (sym (after_false_aside u w) ∙ q))
  true_after (set_unknown u reason message) a h e p =
      let w = set_at u status_unknown (view a) in
      let q =
        at (apply r (set_unknown u reason message) a) _
          (view-mark_unknown r proper u reason message a h) p in
      inr (not_lowered u status_unknown (view a) (λ x. cc) (sym (after_unknown_aside u w) ∙ q))
  true_after initialize a h e p =
      inr (refl, at (apply r initialize a) _ (view-initialize_conditions r proper a h e) p)
