-- ===== src/Conditions/Coherence.antt =====
-- The conditions that the manager of pkg/apis/condition_set.go keeps well formed.
use nats_account_operator.Common.{String, ◌≡◌, refl, All}
use nats_account_operator.Conditions.{
  Condition, ConditionStatus, ConditionSet, Accessor, severity, make, set_condition,
}
use nats_account_operator.Conditions.Others.{UniqueTypes}
use nats_account_operator.Conditions.Store.{set_condition-UniqueTypes, set_condition-All}

-- One of the three statuses that `corev1` names.
abbrev pub IsKnown : ConditionStatus → Type 0
IsKnown (ConditionStatus.other _) = ⊥
IsKnown _ = Unit

-- A condition has the severity of its type in the set, and a known status.
abbrev pub Fits : ConditionSet → Condition → Type 0
Fits r c = (c.severity ≡ severity r c.type) × IsKnown c.status

pub record IsCoherent (r : ConditionSet) (a : Accessor) : Type 0 where
  pub unique : UniqueTypes a.conditions
  pub fits : All (Fits r) a.conditions

pub set_condition-IsCoherent :
    (r : ConditionSet) (cond : Condition) (a : Accessor)
    → Fits r cond
    → IsCoherent r a
    → IsCoherent r (set_condition cond a)
set_condition-IsCoherent r cond a f h = record {
  unique = set_condition-UniqueTypes cond a h.unique;
  fits = set_condition-All (Fits r) cond a (λ n. f) h.fits;
}

pub make-IsCoherent :
    (r : ConditionSet) (t : String) (s : ConditionStatus) (reason message : String) (a : Accessor)
    → IsKnown s
    → IsCoherent r a
    → IsCoherent r (set_condition (make r t s reason message) a)
make-IsCoherent r t s reason message a k h =
    set_condition-IsCoherent r (make r t s reason message) a (refl, k) h
