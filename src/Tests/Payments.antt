-- ===== src/Tests/Payments.antt =====
-- Charges with the mock gateway, on the test world.
use tickethub_backend.Common.{◌≡◌, refl, none, some, true, false, [], ◌∷◌, ◌++◌, string_eq}
use tickethub_backend.Errors.{unique_violation, err}
use tickethub_backend.Platform.Memory.{memory, memory-IsLawful}
use tickethub_backend.World.{World}
use tickethub_backend.World.Rows.{PaymentRow, PaymentStatus, charge_call}
use tickethub_backend.Payments.CircuitBreaker.{open_circuit, admit, settle}
use tickethub_backend.Payments.Gateway.{
  RefundResult, PaymentGateway, PaymentResult, IntentStatus, mock_gateway,
}
use tickethub_backend.Payments.Service.{refund, charge, protect, call_gateway, record_charge}
use tickethub_backend.Payments.Service.Charges.{IsCharged, charge-IsCharged, charge_again}
use tickethub_backend.Payments.Service.Refunds.{IsRefunded, refund-IsRefunded}
use tickethub_backend.Tests.Worlds.{world}

abbrev gateway : PaymentGateway
gateway = mock_gateway false (λ n. "1")

abbrev result : PaymentResult
result = record {
  success = true;
  payment_intent_id = "mock_pi_1";
  status = IntentStatus.succeeded;
  error_message = none;
}

charge-IsCharged_example :
    IsCharged memory-IsLawful "r" 5000 result world (charge gateway "r" 5000 "TRY" none world).1
unfolding memory world string_eq charge mock_gateway protect admit settle call_gateway record_charge
charge-IsCharged_example =
    charge-IsCharged memory-IsLawful gateway "r" 5000 "TRY" none world
      (charge gateway "r" 5000 "TRY" none world).1 result refl

abbrev payment : PaymentRow
payment = record {
  id = "p";
  reservation_id = "r";
  external_id = some "pi";
  amount_in_cents = 5000;
  currency = "TRY";
  status = PaymentStatus.pending;
  idempotency_key = none;
  refunded_amount_in_cents = 0;
}

unfoldable declined : World
unfolding memory world
declined = record world { payments = payment ∷ [] }

charge_again_example :
    let (res, w') = charge gateway "r" 5000 "TRY" none declined in
    (res ≡ err (unique_violation "payments"))
    × (memory.rows w'.payments ≡ memory.rows declined.payments)
    × (w'.gateway_calls ≡ declined.gateway_calls ++ charge_call "r" 5000 ∷ [])
unfolding memory declined string_eq mock_gateway admit
charge_again_example =
    charge_again memory-IsLawful gateway "r" 5000 "TRY" none declined refl refl refl

unfoldable tripped : World
unfolding world
tripped = record world {
  breaker = record world.breaker { state = open_circuit; last_failure_time = 999999 };
}

abbrev refunded : RefundResult
refunded = record {
  success = true;
  refund_id = "mock_re_1";
  amount_in_cents = 2000;
  status = IntentStatus.succeeded;
  error_message = none;
}

refund-IsRefunded_example :
    IsRefunded memory-IsLawful gateway "r"
      (some 2000)
      refunded
      declined
      (refund gateway "r" (some 2000) declined).1
unfolding memory declined string_eq mock_gateway protect admit settle call_gateway refund
refund-IsRefunded_example =
    refund-IsRefunded memory-IsLawful gateway "r" (some 2000) declined
      (refund gateway "r" (some 2000) declined).1 refunded refl
