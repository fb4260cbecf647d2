-- ===== src/Game/Fault.antt =====
-- errors.go: why a turn failed, and whether it is worth another try.
pub mod Order
use zorkd.Base.{Bool, true, false, ◌||◌, ◌≡◌, List, [], ◌∷◌, arith, if◌then◌else◌}
use zorkd.Errors.{
  Sentinel, deadline_exceeded, execution_fault, invalid_opcode, memory_access, invalid_text, Error,
  errors_is, Result, ok, err,
}

pub data Fault : Type 0 where
  none canceled timeout execution_limit invalid_state invalid_story execution internal : Fault

classify_error : Error → Fault
classify_error e =
    if errors_is e Sentinel.canceled
    then Fault.canceled
    else if errors_is e deadline_exceeded
    then timeout
    else if errors_is e Sentinel.execution_limit
    then Fault.execution_limit
    else if errors_is e Sentinel.invalid_state
    then Fault.invalid_state
    else if errors_is e Sentinel.invalid_story
    then Fault.invalid_story
    else if errors_is e execution_fault
        || errors_is e invalid_opcode
        || errors_is e memory_access
        || errors_is e invalid_text
    then execution
    else internal

-- Classify, of the outcome of a call: a nil error is no fault.
unfoldable pub classify {ℓ} : {A : Type ℓ} → Result A → Fault
unfolding classify_error
classify (ok a) = none
classify (err e) = classify_error e

unfoldable pub retryable : Fault → Bool
retryable timeout = true
retryable _ = false
