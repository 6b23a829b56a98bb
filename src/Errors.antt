-- ===== src/Errors.antt =====
-- The errors of internal/controller/accounts/errors.go. An error is the chain that `Unwrap` walks:
-- `plain` is an error of other code, `wrapped` is what `fmt.Errorf` makes from `%w`. The
-- searches stand for `errors.Into`, which takes the first error of a type on the chain.
pub mod Outcome
mod Tests
use nats_account_operator.Common.{String, ℕ, Bool, true, false, Option, none, some, if◌then◌else◌}

-- `Result` of the controller runtime.
pub record CtrlResult : Type 0 where
  pub requeue : Bool
  pub requeue_after : ℕ

abbrev pub no_result : CtrlResult
no_result = record { requeue = false; requeue_after = 0 }

abbrev pub requeue_result : CtrlResult
requeue_result = record { requeue = true; requeue_after = 0 }

pub data Error : Type 0 where
  plain : String → Error
  wrapped : String → Error → Error
  condition_error : Bool → String → Error → Error
  result_error : CtrlResult → Error → Error

pub error_text : Error → String
error_text (plain message) = message
error_text (wrapped message err) = message
error_text (condition_error failure reason err) = error_text err
error_text (result_error result cause) = error_text cause

pub into_result : Error → Option CtrlResult
into_result (plain message) = none
into_result (wrapped message err) = into_result err
into_result (condition_error failure reason err) = into_result err
into_result (result_error result cause) = some result

pub record ConditionError : Type 0 where
  pub failure : Bool
  pub reason : String
  pub err : Error

pub into_condition : Error → Option ConditionError
into_condition (plain message) = none
into_condition (wrapped message err) = into_condition err
into_condition (condition_error failure reason err) =
    some (record { failure = failure; reason = reason; err = err })
into_condition (result_error result cause) = into_condition cause

abbrev pub fallback : Error → Option CtrlResult → CtrlResult × Option Error
fallback err none = (no_result, some err)
fallback err (some result) = (result, none)

unfoldable pub as_result : Option Error → CtrlResult × Option Error
unfolding into_result
as_result none = (no_result, none)
as_result (some err) = fallback err (into_result err)

abbrev pub reason_unknown_error : String
reason_unknown_error = "UnknownError"

-- The method `MarkCondition` of a conditionError: `failure` and `unknown` change a state `S`.
unfoldable pub mark_error :
    {S : Type 0}
    → Error
    → (String → String → S → S)
    → (String → String → S → S)
    → Option ConditionError
    → S
    → S
unfolding error_text
mark_error err failure unknown none s = unknown reason_unknown_error (error_text err) s
mark_error err failure unknown (some c) s =
    (if c.failure then failure else unknown) c.reason (error_text c.err) s

unfoldable pub mark_condition :
    {S : Type 0} → Error → (String → String → S → S) → (String → String → S → S) → S → S
unfolding mark_error into_condition
mark_condition err failure unknown s = mark_error err failure unknown (into_condition err) s

unfoldable pub condition_failed : String → Error → Error
condition_failed reason err = condition_error true reason err

unfoldable pub condition_unknown : String → Error → Error
condition_unknown reason err = condition_error false reason err

unfoldable pub new_result_error : CtrlResult → Option Error → Option Error
new_result_error result none = none
new_result_error result (some err) = some (result_error result err)

unfoldable pub terminal_error : Option Error → Option Error
terminal_error none = none
terminal_error (some err) = some (result_error no_result err)

unfoldable pub temporary_error : Option Error → Option Error
temporary_error none = none
temporary_error (some err) = some (result_error requeue_result err)
