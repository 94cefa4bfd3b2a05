-- ===== src/Payments/Service/Charges.antt =====
-- Charges through the shared circuit breaker: what `charge` writes, and when it calls the gateway.
use tickethub_backend.Common.{
  ℕ, suc, ◌+◌, ◌≤◌, ◌≡◌, refl, inl, inr, String, true, false, Option, none, some, ◌==◌, string_eq,
  arith,
}
use tickethub_backend.Common.{List, [], ◌∷◌, ◌++◌, any, length, Bool-cases, if◌then◌else◌}
use tickethub_backend.Platform.{Platform, IsLawful}
use tickethub_backend.Errors.{
  Failure, payment_error, external_service_error, unique_violation, Result, ok, err, Result-cases,
}
use tickethub_backend.World.{World, bind_ok, bind_err}
use tickethub_backend.World.Rows.{
  PaymentRow, PaymentStatus, payment_clash, GatewayCall, charge_call,
}
use tickethub_backend.Payments.CircuitBreaker.{
  CircuitBreaker, open_circuit, admit, settle, on_success, on_failure,
}
use tickethub_backend.Payments.Gateway.{PaymentGateway, PaymentIntent, PaymentResult, IntentStatus}
use tickethub_backend.Payments.Service.{
  protect, call_gateway, record_charge, recorded_status, is_succeeded, charge,
}

module _ ⦃p : Platform⦄ (L : IsLawful p) where
  -- The row that a charge writes.
  abbrev pub charged_row :
      World → (id : String) → ℕ → String → Option String → PaymentIntent → PaymentRow
  charged_row w id amount currency key intent = record {
    id = p.uuid w.drawn;
    reservation_id = id;
    external_id = some intent.id;
    amount_in_cents = amount;
    currency = currency;
    status = recorded_status intent.status;
    idempotency_key = key;
    refunded_amount_in_cents = 0;
  }

  abbrev result_of : PaymentIntent → Result PaymentResult
  result_of intent =
      if is_succeeded intent.status
      then ok (record {
        success = true;
        payment_intent_id = intent.id;
        status = IntentStatus.succeeded;
        error_message = none;
      })
      else err (payment_error "Payment was not successful")

  -- Drawing the row's identifier is all that a refused charge leaves of `record_charge`.
  record_charge_clash :
      (id : String) (amount : ℕ) (currency : String) (key : Option String) (intent : PaymentIntent)
      (w : World)
      → any (payment_clash (charged_row w id amount currency key intent)) (p.rows w.payments) ≡ true
      → record_charge id amount currency key intent w
        ≡ (err (unique_violation "payments"), record w { drawn = w.drawn + 1 })
  unfolding record_charge
  record_charge_clash id amount currency key intent w h =
      ground (
        arith,
        L.create_clash payment_clash (charged_row w id amount currency key intent) w.payments,
      )

  record_charge_fresh :
      (id : String) (amount : ℕ) (currency : String) (key : Option String) (intent : PaymentIntent)
      (w : World)
      → any (payment_clash (charged_row w id amount currency key intent)) (p.rows w.payments)
        ≡ false
      → let (res, w') = record_charge id amount currency key intent w in
        (res ≡ result_of intent)
        × (p.rows w'.payments
            ≡ p.rows w.payments ++ charged_row w id amount currency key intent ∷ [])
        × (w'.gateway_calls ≡ w.gateway_calls)
        × (w'.breaker ≡ w.breaker)
  unfolding record_charge
  record_charge_fresh id amount currency key intent w h =
      let (t, made, holds) =
        L.create_fresh payment_clash (charged_row w id amount currency key intent) w.payments h in
      ground arith

  -- The world when the gateway has answered, and the breaker has heard of it.
  abbrev pub called : GatewayCall → CircuitBreaker → World → World
  called call b w = record w {
    gateway_calls = w.gateway_calls ++ call ∷ [];
    breaker = b;
    readings = suc w.readings;
  }

  -- The world of a call that was refused, and of one that failed.
  abbrev pub looked : World → World
  looked w = record w { readings = suc w.readings }

  abbrev pub failed_at : GatewayCall → CircuitBreaker → World → World
  failed_at call b w = looked (called call (on_failure (p.clock (suc w.readings)) b) w)

  pub protect_ok :
      {A : Type 0} (call : GatewayCall) (answer : ℕ → Result A) (w : World) {b : CircuitBreaker}
      {a : A}
      → admit (p.clock w.readings) w.breaker ≡ ok b
      → answer (length w.gateway_calls) ≡ ok a
      → protect (call_gateway call answer) w ≡ (ok a, called call (on_success b) w)
  unfolding protect call_gateway settle
  protect_ok call answer w admitted answered = ground arith

  pub protect_err :
      {A : Type 0} (call : GatewayCall) (answer : ℕ → Result A) (w : World) {b : CircuitBreaker}
      {e : Failure}
      → admit (p.clock w.readings) w.breaker ≡ ok b
      → answer (length w.gateway_calls) ≡ err e
      → protect (call_gateway call answer) w ≡ (err e, failed_at call b w)
  unfolding protect call_gateway settle
  protect_err call answer w admitted answered = ground arith

  pub protect_refused :
      {A : Type 0} (call : GatewayCall) (answer : ℕ → Result A) (w : World) {e : Failure}
      → admit (p.clock w.readings) w.breaker ≡ err e
      → protect (call_gateway call answer) w ≡ (err e, looked w)
  unfolding protect
  protect_refused call answer w refused = ground arith

  -- What a charge has left in the tables and at the gateway when it returns.
  pub record IsCharged (id : String) (amount : ℕ) (r : PaymentResult) (w w' : World) : Type 0 where
    -- There was no payment for the reservation.
    pub was_unpaid : any (λ (q : PaymentRow). id == q.reservation_id) (p.rows w.payments) ≡ false
    -- One call of the gateway was made, and no other.
    pub one_call : w'.gateway_calls ≡ w.gateway_calls ++ charge_call id amount ∷ []
    -- One row was added, with the amount and the intent of the result.
    pub row : PaymentRow
    pub one_row : p.rows w'.payments ≡ p.rows w.payments ++ row ∷ []
    pub same_reservation : row.reservation_id ≡ id
    pub same_amount : row.amount_in_cents ≡ amount
    pub is_paid : row.status ≡ PaymentStatus.succeeded
    pub same_intent : row.external_id ≡ some r.payment_intent_id

  unclashed :
      (q : PaymentRow) (rows : List PaymentRow)
      → any (payment_clash q) rows ≡ false
      → any (λ (r : PaymentRow). q.reservation_id == r.reservation_id) rows ≡ false
  unclashed q [] h = refl
  unclashed q (r ∷ rows) h = ground (arith, unclashed q rows)

  clashing :
      (q : PaymentRow) (rows : List PaymentRow)
      → any (λ (r : PaymentRow). q.reservation_id == r.reservation_id) rows ≡ true
      → any (payment_clash q) rows ≡ true
  clashing q [] h = cc
  clashing q (r ∷ rows) h = ground (arith, clashing q rows)

  module _ (gateway : PaymentGateway) (id : String) (amount : ℕ) (currency : String)
      (key : Option String) where
    abbrev pub asked : ℕ → Result PaymentIntent
    asked n = gateway.create_payment_intent n amount currency id

    charge_answered :
        (w : World) {b : CircuitBreaker} {intent : PaymentIntent}
        → admit (p.clock w.readings) w.breaker ≡ ok b
        → asked (length w.gateway_calls) ≡ ok intent
        → charge gateway id amount currency key w
          ≡ record_charge id amount currency key intent
              (called (charge_call id amount) (on_success b) w)
    unfolding charge
    charge_answered w {b} {intent} admitted answered =
        bind_ok (protect (call_gateway (charge_call id amount) asked))
          (record_charge id amount currency key)
          (protect_ok (charge_call id amount) asked w admitted answered)

    charge_failed :
        (w : World) {b : CircuitBreaker} {e : Failure}
        → admit (p.clock w.readings) w.breaker ≡ ok b
        → asked (length w.gateway_calls) ≡ err e
        → charge gateway id amount currency key w ≡ (err e, failed_at (charge_call id amount) b w)
    unfolding charge
    charge_failed w admitted answered =
        bind_err (protect (call_gateway (charge_call id amount) asked))
          (record_charge id amount currency key)
          (protect_err (charge_call id amount) asked w admitted answered)

    charge_refused :
        (w : World) {e : Failure}
        → admit (p.clock w.readings) w.breaker ≡ err e
        → charge gateway id amount currency key w ≡ (err e, looked w)
    unfolding charge
    charge_refused w refused =
        bind_err (protect (call_gateway (charge_call id amount) asked))
          (record_charge id amount currency key)
          (protect_refused (charge_call id amount) asked w refused)

    recorded_ok :
        (w w' : World) (intent : PaymentIntent) (b : CircuitBreaker) (r : PaymentResult)
        → record_charge id amount currency key intent (called (charge_call id amount) b w)
          ≡ (ok r, w')
        → IsCharged id amount r w w'
    recorded_ok w w' intent b r done =
        let v = called (charge_call id amount) b w in
        let row = charged_row w id amount currency key intent in
        elim (Bool-cases (any (payment_clash row) (p.rows w.payments))) [
          | inl clash ↦ ground (arith, record_charge_clash id amount currency key intent v)
          | inr fresh ↦
              let (result, rows, calls, _) =
                record_charge_fresh id amount currency key intent v fresh in
              record {
                was_unpaid = unclashed row (p.rows w.payments) fresh;
                one_call = ground arith;
                row = row;
                one_row = ground arith;
                same_reservation = refl;
                same_amount = refl;
                is_paid = ground arith;
                same_intent = ground arith;
              }
        ]

    -- A charge that returns a result found no payment of the reservation, called the gateway once,
    -- and added one row: SUCCEEDED, of the amount, with the intent that the result names.
    pub charge-IsCharged :
        (w w' : World) (r : PaymentResult)
        → charge gateway id amount currency key w ≡ (ok r, w')
        → IsCharged id amount r w w'
    charge-IsCharged w w' r done = elim (Result-cases (admit (p.clock w.readings) w.breaker)) [
      | inl (e, refused) ↦ ground (arith, charge_refused w refused)
      | inr (b, admitted) ↦ elim (Result-cases (asked (length w.gateway_calls))) [
        | inl (e, answered) ↦ ground (arith, charge_failed w admitted answered)
        | inr (intent, answered) ↦
            recorded_ok w w' intent (on_success b) r
              (ground (arith, charge_answered w admitted answered))
      ]
    ]

    -- When the reservation has a payment already, whatever its status, and the breaker admits the
    -- call, the gateway is called once more and its answer is lost: the charge throws and adds no row.
    pub charge_again :
        (w : World) {b : CircuitBreaker} {intent : PaymentIntent}
        → any (λ (q : PaymentRow). id == q.reservation_id) (p.rows w.payments) ≡ true
        → admit (p.clock w.readings) w.breaker ≡ ok b
        → asked (length w.gateway_calls) ≡ ok intent
        → let (res, w') = charge gateway id amount currency key w in
          (res ≡ err (unique_violation "payments"))
          × (p.rows w'.payments ≡ p.rows w.payments)
          × (w'.gateway_calls ≡ w.gateway_calls ++ charge_call id amount ∷ [])
    charge_again w {b} {intent} paid admitted answered =
        let v = called (charge_call id amount) (on_success b) w in
        let row = charged_row w id amount currency key intent in
        rw
          (
            charge_answered w admitted answered,
            record_charge_clash id amount currency key intent v
                (clashing row (p.rows w.payments) paid),
          )
          (refl, refl, refl)

    -- While the circuit is open and its cooldown lasts, a charge throws the service error without a
    -- call of the gateway, and changes nothing but that the clock was read.
    pub charge_open :
        (w : World)
        → w.breaker.state ≡ open_circuit
        → p.clock w.readings ≤ w.breaker.last_failure_time + w.breaker.cooldown_ms
        → charge gateway id amount currency key w
          ≡ (err (external_service_error w.breaker.service_name), looked w)
    unfolding admit
    charge_open w is_open hot = charge_refused w (ground arith)
