-- ===== src/Tests/Values.antt =====
-- Money and the error handler on single values.
use tickethub_backend.Common.{◌≡◌, true, false}
use tickethub_backend.Common.{string_eq, nat_eq}
use tickethub_backend.Errors.{plain_error, error_handler}
use tickethub_backend.Errors.Laws.{ReplyOf, error_handler-hides}
use tickethub_backend.Booking.Money.{Money}

abbrev other : Money
other = record { amount_in_cents = 1200; currency = "TRY" }

abbrev both : Money
both = record { amount_in_cents = 6200; currency = "TRY" }

error_handler-hides_example :
    ((error_handler true (plain_error "password")).stack ≡ false)
    × ReplyOf (plain_error "password") (error_handler true (plain_error "password"))
error_handler-hides_example = error_handler-hides (plain_error "password")
