-- ===== src/Errors/Outcome.antt =====
-- What a reconciler reports and marks for an error of internal/controller/accounts/errors.go.
use nats_account_operator.Common.{
  String, Bool, ◌≡◌, ◌⊎◌, refl, ap, inl, inr, none, some, Option-cases, arith,
}
use nats_account_operator.Errors.{
  Error, plain, wrapped, condition_error, result_error, CtrlResult, no_result, requeue_result,
  error_text, into_result, into_condition, as_result, mark_error, mark_condition, terminal_error,
  temporary_error,
}

-- The first resultError on the chain of an error gives this result: it is the error itself, or it
-- stands under what `fmt.Errorf` or a conditionError has wrapped around it.
pub data Reports : Error → CtrlResult → Type 0 where
  itself :
      {e : Error} {result : CtrlResult} (cause : Error)
      → e ≡ result_error result cause
      → Reports e result
  under_text :
      {e : Error} {result : CtrlResult} (message : String) (err : Error)
      → e ≡ wrapped message err
      → Reports err result
      → Reports e result
  under_condition :
      {e : Error} {result : CtrlResult} (failure : Bool) (reason : String) (err : Error)
      → e ≡ condition_error failure reason err
      → Reports err result
      → Reports e result

into_result-Reports :
    (e : Error) (result : CtrlResult) → into_result e ≡ some result → Reports e result
unfolding into_result
into_result-Reports (plain message) result h = absurd (ground arith)
into_result-Reports (wrapped message err) result h =
    Reports.under_text message err refl (into_result-Reports err result h)
into_result-Reports (condition_error failure reason err) result h =
    Reports.under_condition failure reason err refl (into_result-Reports err result h)
into_result-Reports (result_error found cause) result h =
    Reports.itself cause (ap (λ r. result_error r cause) (ground arith))

Reports-into_result :
    {e : Error} {result : CtrlResult} → Reports e result → into_result e ≡ some result
unfolding into_result
Reports-into_result (Reports.itself cause q) = rw q refl
Reports-into_result (Reports.under_text message err q h) = rw q (Reports-into_result h)
Reports-into_result (Reports.under_condition failure reason err q h) = rw q (Reports-into_result h)

-- Whatever is wrapped around a resultError, by `fmt.Errorf` or a conditionError, the runtime gets
-- its result and no error. An error with no resultError on its chain is reported as it is, with
-- an empty result.
pub as_result_lem :
    (err : Error)
    → ((result : CtrlResult) × Reports err result × (as_result (some err) ≡ (result, none)))
      ⊎ ((result : CtrlResult) → ¬ Reports err result)
        × (as_result (some err) ≡ (no_result, some err))
unfolding as_result
as_result_lem err = elim (Option-cases (into_result err)) [
  | inl q ↦ inr (λ result h. let p = Reports-into_result h in absurd (ground arith), rw q refl)
  | inr (result, q) ↦ inl (result, into_result-Reports err result q, rw q refl)
]

mark_condition-result_error :
    {S : Type 0} (result : CtrlResult) (err : Error) (failure unknown : String → String → S → S)
    (s : S)
    → mark_condition (result_error result err) failure unknown s
      ≡ mark_condition err failure unknown s
unfolding mark_condition mark_error into_condition error_text
mark_condition-result_error result err failure unknown s =
    elim (Option-cases (into_condition err)) [ inl q ↦ rw q refl | inr (c, q) ↦ rw q refl ]

-- A temporary error is enqueued again and a terminal one is not, with no error for the runtime in
-- either case, and each marks the condition that the error it is made of marks.
pub temporary_or_terminal :
    {S : Type 0} (err : Error) (failure unknown : String → String → S → S) (s : S)
    → (t : Error) × (u : Error) × (temporary_error (some err) ≡ some t)
      × (terminal_error (some err) ≡ some u)
      × (as_result (some t) ≡ (requeue_result, none))
      × (as_result (some u) ≡ (no_result, none))
      × (mark_condition t failure unknown s ≡ mark_condition err failure unknown s)
      × (mark_condition u failure unknown s ≡ mark_condition err failure unknown s)
unfolding temporary_error terminal_error as_result into_result
temporary_or_terminal err failure unknown s = (
  result_error requeue_result err,
  result_error no_result err,
  refl,
  refl,
  refl,
  refl,
  mark_condition-result_error requeue_result err failure unknown s,
  mark_condition-result_error no_result err failure unknown s,
)
