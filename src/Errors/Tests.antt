-- ===== src/Errors/Tests.antt =====
-- Errors on a concrete chain.
use nats_account_operator.Common.{String, ◌≡◌, ◌⊎◌, none, some, true}
use nats_account_operator.Errors.{
  Error, plain, wrapped, condition_error, CtrlResult, no_result, requeue_result, result_error,
  as_result, mark_condition, temporary_error, terminal_error,
}
use nats_account_operator.Errors.Outcome.{Reports, as_result_lem, temporary_or_terminal}

abbrev err : Error
err = wrapped "failed to get seed: no secret" (condition_error true "NotFound" (plain "no secret"))

abbrev stopped : Error
stopped = wrapped "failed to resolve" (condition_error true "NotFound" (result_error no_result err))

as_result_lem_example :
    ((result : CtrlResult) × Reports stopped result × (as_result (some stopped) ≡ (result, none)))
    ⊎ ((result : CtrlResult) → ¬ Reports stopped result)
      × (as_result (some stopped) ≡ (no_result, some stopped))
as_result_lem_example = as_result_lem stopped

abbrev keep_reason : String → String → String → String
keep_reason reason message s = reason

temporary_or_terminal_example :
    (t : Error) × (u : Error) × (temporary_error (some err) ≡ some t)
    × (terminal_error (some err) ≡ some u)
    × (as_result (some t) ≡ (requeue_result, none))
    × (as_result (some u) ≡ (no_result, none))
    × (mark_condition t keep_reason keep_reason "" ≡ mark_condition err keep_reason keep_reason "")
    × (mark_condition u keep_reason keep_reason "" ≡ mark_condition err keep_reason keep_reason "")
temporary_or_terminal_example = temporary_or_terminal err keep_reason keep_reason ""
