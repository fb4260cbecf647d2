-- ===== src/Game/Fault/Order.antt =====
-- Which sentinel decides, where an error wraps several.
use zorkd.Base.{true, false, ◌≡◌, ◌↔◌, arith}
use zorkd.Errors.{Sentinel, deadline_exceeded, Error, errors_is, err}
use zorkd.Game.Fault.{Fault, classify, retryable}

-- A failed turn is worth another try exactly if its error wraps the deadline's and not the
-- cancellation's, whatever else it wraps; and it is put down to a cancelled request exactly if its
-- error wraps the cancellation's.
retryable-classify :
    (e : Error)
    → ((retryable (classify {A = Unit {0}} (err e)) ≡ true)
        ↔ ((errors_is e deadline_exceeded ≡ true) × (errors_is e Sentinel.canceled ≡ false)))
      × ((classify {A = Unit {0}} (err e) ≡ Fault.canceled)
          ↔ (errors_is e Sentinel.canceled ≡ true))
unfolding retryable classify
retryable-classify e = ground arith
