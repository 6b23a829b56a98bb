-- ===== src/Conditions/Equality.antt =====
-- `reflect.DeepEqual` on conditions is equality.
use nats_account_operator.Common.{eq_iff, eq_of_==, ==_refl, ◌≡◌, refl, ap, true, arith}
use nats_account_operator.Conditions.{
  Condition, ConditionStatus, ConditionSeverity, status_true, status_false, status_unknown, error,
  warning, info, condition_eq, status_eq, severity_eq,
}

pub status_eq_sound : (s t : ConditionStatus) → status_eq s t ≡ true → s ≡ t
status_eq_sound status_true t h = ground arith
status_eq_sound status_false t h = ground arith
status_eq_sound status_unknown t h = ground arith
status_eq_sound (ConditionStatus.other a) (ConditionStatus.other b) h =
    ap ConditionStatus.other (eq_of_== a b h)
status_eq_sound (ConditionStatus.other a) t h = ground arith

severity_eq_sound : (s t : ConditionSeverity) → severity_eq s t ≡ true → s ≡ t
severity_eq_sound error t h = ground arith
severity_eq_sound warning t h = ground arith
severity_eq_sound info t h = ground arith
severity_eq_sound (ConditionSeverity.other a) (ConditionSeverity.other b) h =
    ap ConditionSeverity.other (eq_of_== a b h)
severity_eq_sound (ConditionSeverity.other a) t h = ground arith

status_eq_refl : (s : ConditionStatus) → status_eq s s ≡ true
status_eq_refl status_true = refl
status_eq_refl status_false = refl
status_eq_refl status_unknown = refl
status_eq_refl (ConditionStatus.other a) = ==_refl a

severity_eq_refl : (s : ConditionSeverity) → severity_eq s s ≡ true
severity_eq_refl error = refl
severity_eq_refl warning = refl
severity_eq_refl info = refl
severity_eq_refl (ConditionSeverity.other a) = ==_refl a

pub condition_eq_sound : (c d : Condition) → condition_eq c d ≡ true → c ≡ d
unfolding condition_eq
condition_eq_sound c d h = ground (
  arith,
  eq_iff c.type d.type,
  eq_iff c.reason d.reason,
  eq_iff c.message d.message,
  status_eq_sound c.status d.status,
  severity_eq_sound c.severity d.severity,
)

pub condition_eq_refl : (c : Condition) → condition_eq c c ≡ true
unfolding condition_eq
condition_eq_refl c = ground (
  arith,
  ==_refl c.type,
  ==_refl c.reason,
  ==_refl c.message,
  status_eq_refl c.status,
  severity_eq_refl c.severity,
)
