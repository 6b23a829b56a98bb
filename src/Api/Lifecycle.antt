-- ===== src/Api/Lifecycle.antt =====
-- What the four lifecycle files of api/accounts/v1alpha1 share: a status whose calls each make one
-- mark, and change a field along with the condition that stands for it.
use nats_account_operator.Common.{
  String, ◌≡◌, refl, sym, inl, inr, ℕ, true, false, List, [], ◌∷◌, ◌++◌,
}
use mathlib.Core.Path.{subst}
use nats_account_operator.Conditions.{
  ConditionSet, Accessor, contains, status_true, is_happy, get_condition,
}
use nats_account_operator.Conditions.Sets.{IsProper}
use nats_account_operator.Conditions.Coherence.{IsCoherent}
use nats_account_operator.Conditions.Summary.{view}
use nats_account_operator.Conditions.Ready.{IsExact, rate-true}
use nats_account_operator.Conditions.Runs.{
  Mark, apply, IsAside, apply-IsCoherent, apply-IsExact, blank, blank-IsCoherent, blank-IsExact,
  blank_not_true, is_happy_of_exact, dependent-ne_happy,
}
use nats_account_operator.Api.Links.{raises, lowers, true_after}

-- A status type `S`, and the calls that change it.
pub record Lifecycle (S Call : Type 0) : Type 0 where
  pub set : ConditionSet
  pub proper : IsProper set
  pub accessor : S → Accessor
  pub call : Call → S → S
  pub mark_of : Call → Mark
  pub accessor-call : (c : Call) (s : S) → accessor (call c s) ≡ apply set (mark_of c) (accessor s)
  pub aside : (c : Call) → IsAside set.happy (mark_of c)

module _ {S Call : Type 0} (l : Lifecycle S Call) where
  open l use {set, proper, accessor, call, mark_of, accessor-call, aside}

  abbrev pub run_calls : List Call → S → S
  run_calls [] s = s
  run_calls (c ∷ cs) s = run_calls cs (call c s)

  pub run_calls-snoc :
      (cs : List Call) (c : Call) (s : S) → run_calls (cs ++ c ∷ []) s ≡ call c (run_calls cs s)
  run_calls-snoc [] c s = refl
  run_calls-snoc (d ∷ cs) c s = run_calls-snoc cs c (call d s)

  -- A property of the other fields that a condition type stands for.
  pub record IsTracked (t : String) (P : S → Type 0) : Type 0 where
    pub dependent : contains set.dependents t ≡ true
    pub raise : (c : Call) (s : S) → raises (mark_of c) t ≡ true → P (call c s)
    pub keep : (c : Call) (s : S) → lowers (mark_of c) t ≡ false → P s → P (call c s)

  call-IsCoherent :
      (c : Call) (s : S) → IsCoherent set (accessor s) → IsCoherent set (accessor (call c s))
  call-IsCoherent c s h =
      subst (IsCoherent set) (sym (accessor-call c s))
        (apply-IsCoherent set proper (mark_of c) (accessor s) h)

  call-IsExact :
      (c : Call) (s : S)
      → IsCoherent set (accessor s)
      → IsExact set (view (accessor s))
      → IsExact set (view (accessor (call c s)))
  call-IsExact c s h e =
      subst (λ (a : Accessor). IsExact set (view a)) (sym (accessor-call c s))
        (apply-IsExact set proper (mark_of c) (accessor s) (aside c) h e)

  module _ (t : String) (P : S → Type 0) (tracked : IsTracked t P) where
    call_linked :
        (c : Call) (s : S)
        → IsCoherent set (accessor s)
        → IsExact set (view (accessor s))
        → (view (accessor s) t ≡ status_true → P s)
        → view (accessor (call c s)) t ≡ status_true
        → P (call c s)
    call_linked c s h e link p =
        let q : view (apply set (mark_of c) (accessor s)) t ≡ status_true =
          subst (λ (a : Accessor). view a t ≡ status_true) (accessor-call c s) p in
        elim (true_after set proper t (dependent-ne_happy set t proper tracked.dependent)
          (mark_of c) (accessor s) h e q) [
            | inl x ↦ tracked.raise c s x
            | inr x ↦ tracked.keep c s x.0 (link x.1)
          ]

    run_linked :
        (cs : List Call) (s : S)
        → IsCoherent set (accessor s)
        → IsExact set (view (accessor s))
        → (view (accessor s) t ≡ status_true → P s)
        → is_happy set (accessor (run_calls cs s)) ≡ true
        → P (run_calls cs s)
    run_linked [] s h e link p = link (
        rate-true (get_condition t (accessor s))
          ((is_happy_of_exact set proper (accessor s) h e).0 p t tracked.dependent))
    run_linked (c ∷ cs) s h e link p =
        run_linked cs (call c s) (call-IsCoherent c s h) (call-IsExact c s h e)
          (call_linked c s h e link) p

    -- After any calls from a status with no conditions, a ready resource has what its conditions
    -- stand for.
    pub ready_has :
        (clock : ℕ → ℕ) (s : S)
        → accessor s ≡ blank clock
        → (cs : List Call) → is_happy set (accessor (run_calls cs s)) ≡ true
        → P (run_calls cs s)
    ready_has clock s start cs p =
        run_linked cs s (rw start (blank-IsCoherent set clock))
          (rw start (blank-IsExact set clock t tracked.dependent))
          (λ q. absurd (blank_not_true clock t (rw start at q))) p
