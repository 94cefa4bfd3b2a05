-- ===== src/Payments/Service.antt =====
-- src/modules/payments/payments.service.ts: charges, refunds and webhooks, through the shared
-- circuit breaker. The gateway and `JSON.parse` of a webhook are arguments.
pub mod Charges
pub mod Refunds
use tickethub_backend.Common.{
  ℕ, suc, ◌+◌, String, Bool, true, false, not, Option, none, some, List, [], ◌∷◌, ◌++◌, length, ltb,
  ◌==◌, string_eq, if◌then◌else◌,
}
use tickethub_backend.Platform.{Platform}
use tickethub_backend.Errors.{Failure, payment_error, unique_violation, Result, ok, err}
use tickethub_backend.World.{
  World, Action, ◌>>=◌, ◌>>◌, pure, throw, lift, gets, modify, or_throw, throw_if, new_date, uuid,
}
use tickethub_backend.World.Rows.{
  PaymentRow, PaymentStatus, payment_clash, GatewayCall, charge_call, refund_call,
}
use tickethub_backend.Payments.CircuitBreaker.{CircuitBreaker, admit, settle}
use tickethub_backend.Payments.Gateway.{
  PaymentGateway, PaymentIntent, PaymentResult, RefundResult, IntentStatus,
}

-- A webhook, as far as it is read.
pub data Webhook : Type 0 where
  -- `payment_intent.succeeded` and `payment_intent.payment_failed`, with the intent
  intent_succeeded : String → Webhook
  intent_failed : String → Webhook
  other_event : Webhook

-- `where: { externalId: id }`
abbrev pub has_external : String → Option String → Bool
has_external id none = false
has_external id (some e) = e == id

module _ ⦃p : Platform⦄ where
  -- The `try` of `execute` around an action: it settles with what the action gave.
  -- `onFailure` reads the clock once more.
  guarded : {A : Type 0} → Result A × World → Result A × World
  guarded (ok a, w) =
      let (r', b) = settle (p.clock w.readings) (ok a) w.breaker in (r', record w { breaker = b })
  guarded (err e, w) =
      let (r', b) = settle (p.clock w.readings) (err e) w.breaker in
      (r', record w { breaker = b; readings = suc w.readings })

  -- `circuitBreaker.execute`, on the breaker that all requests share. Its `Date.now()` is a reading
  -- of its own, also where the state makes the code skip it.
  unfoldable pub protect : {A : Type 0} → Action A → Action A
  unfolding guarded
  protect m w = elim (admit (p.clock w.readings) w.breaker) [
    | err e ↦ (err e, record w { readings = suc w.readings })
    | ok b ↦ guarded (m (record w { breaker = b; readings = suc w.readings }))
  ]

  -- A call that reaches the gateway is written down with its answer's number.
  unfoldable pub call_gateway : {A : Type 0} → GatewayCall → (ℕ → Result A) → Action A
  call_gateway call answer w =
      (answer (length w.gateway_calls), record w { gateway_calls = w.gateway_calls ++ call ∷ [] })

  -- `intent.status === 'succeeded' ? 'SUCCEEDED' : 'PENDING'`
  abbrev pub recorded_status : IntentStatus → PaymentStatus
  recorded_status IntentStatus.succeeded = PaymentStatus.succeeded
  recorded_status IntentStatus.pending = PaymentStatus.pending
  recorded_status IntentStatus.failed = PaymentStatus.pending

  abbrev pub is_succeeded : IntentStatus → Bool
  is_succeeded IntentStatus.succeeded = true
  is_succeeded _ = false

  insert_payment : PaymentRow → Action (Unit {0})
  insert_payment row = do
    table ← gets (λ w. p.create payment_clash row w.payments)
    table' ← or_throw table (unique_violation "payments")
    modify (λ w. record w { payments = table' })

  -- The second half of `charge`, with the intent at hand.
  unfoldable pub record_charge :
      (reservation_id : String) → ℕ → String → Option String → PaymentIntent → Action PaymentResult
  unfolding insert_payment uuid
  record_charge reservation_id amount currency key intent = do
    id ← uuid
    insert_payment (record {
      id = id;
      reservation_id = reservation_id;
      external_id = some intent.id;
      amount_in_cents = amount;
      currency = currency;
      status = recorded_status intent.status;
      idempotency_key = key;
      refunded_amount_in_cents = 0;
    })
    throw_if (not (is_succeeded intent.status)) (payment_error "Payment was not successful")
    pure (record {
      success = true;
      payment_intent_id = intent.id;
      status = IntentStatus.succeeded;
      error_message = none;
    })

  module _ (gateway : PaymentGateway) where
    unfoldable pub charge :
        (reservation_id : String) → ℕ → String → Option String → Action PaymentResult
    charge reservation_id amount currency key = do
      intent ← protect (
          call_gateway (charge_call reservation_id amount)
            (λ n. gateway.create_payment_intent n amount currency reservation_id))
      record_charge reservation_id amount currency key intent

    -- `params.amountInCents ? ... : ...`
    abbrev pub refund_status : Option ℕ → PaymentStatus
    refund_status none = PaymentStatus.refunded
    refund_status (some n) =
        if ltb 0 n then PaymentStatus.partially_refunded else PaymentStatus.refunded

    abbrev pub refunded_row : Option ℕ → ℕ → PaymentRow → PaymentRow
    refunded_row amount cents r = record r {
      status = refund_status amount;
      refunded_amount_in_cents = r.refunded_amount_in_cents + cents;
    }

    record_refund : PaymentRow → Option ℕ → RefundResult → Action RefundResult
    record_refund payment amount result w = (
      ok result,
      if result.success
          then record w {
            payments =
                (p.update_many (λ r. r.id == payment.id)
                  (refunded_row amount result.amount_in_cents) w.payments).0;
          }
          else w,
    )

    abbrev external_of : Option PaymentRow → Option (PaymentRow × String)
    external_of none = none
    external_of (some r) = elim r.external_id [
      | none ↦ none
      | some String.[] ↦ none
      | some id ↦ some (r, id)
    ]

    unfoldable pub refund : (reservation_id : String) → Option ℕ → Action RefundResult
    unfolding record_refund
    refund reservation_id amount = do
      found ← gets (λ w. p.find_first (λ r. r.reservation_id == reservation_id) w.payments)
      payment ← or_throw (external_of found) (payment_error "No payment found for this reservation")
      result ←
          protect
            (call_gateway (refund_call payment.1 amount) (λ n. gateway.refund n payment.1 amount))
      record_refund payment.0 amount result

    set_payment_status : String → PaymentStatus → Action (Unit {0})
    set_payment_status intent_id s = modify (λ w. record w {
      payments =
          (p.update_many (λ r. has_external intent_id r.external_id) (λ r. record r { status = s })
            w.payments).0;
    })

    on_webhook : Webhook → Action (Unit {0})
    unfolding set_payment_status
    on_webhook (intent_succeeded id) = set_payment_status id PaymentStatus.succeeded
    on_webhook (intent_failed id) = set_payment_status id PaymentStatus.failed
    on_webhook other_event = pure tt

    unfoldable pub handle_webhook :
        (parse : String → Result Webhook) (payload signature : String) → Action (Unit {0})
    unfolding on_webhook
    handle_webhook parse payload signature = do
      throw_if (not (gateway.verify_webhook_signature payload signature))
          (payment_error "Invalid webhook signature")
      event ← lift (parse payload)
      on_webhook event
