-- ===== src/Payments/Service/Refunds.antt =====
-- Refunds and webhooks: what they write.
use tickethub_backend.Common.{
  ℕ, zero, suc, ◌+◌, ◌≡◌, refl, ◌⊎◌, inl, inr, String, Option, none, some, ◌==◌, string_eq, arith,
}
use tickethub_backend.Common.{[], ◌∷◌, ◌++◌, update, find, length, Option-cases, if◌then◌else◌}
use tickethub_backend.Platform.{Platform, IsLawful}
use tickethub_backend.Errors.{payment_error, Result, ok, err, Result-cases}
use tickethub_backend.World.{World}
use tickethub_backend.World.Rows.{PaymentRow, PaymentStatus, refund_call}
use tickethub_backend.Payments.CircuitBreaker.{admit, on_success}
use tickethub_backend.Payments.Gateway.{PaymentGateway, RefundResult}
use tickethub_backend.Payments.Service.{
  protect, call_gateway, refund, refund_status, refunded_row, external_of, record_refund,
}
use tickethub_backend.Payments.Service.Charges.{called, protect_ok, protect_err, protect_refused}

module _ ⦃p : Platform⦄ (L : IsLawful p) (gateway : PaymentGateway) where
  abbrev payment_of : String → World → Option PaymentRow
  payment_of id w = find (λ (r : PaymentRow). r.reservation_id == id) (p.rows w.payments)

  -- A refund with no amount, or with the amount 0, is a full one.
  abbrev pub status_after : Option ℕ → PaymentStatus
  status_after none = PaymentStatus.refunded
  status_after (some zero) = PaymentStatus.refunded
  status_after (some (suc n)) = PaymentStatus.partially_refunded

  refund_status-after : (amount : Option ℕ) → refund_status gateway amount ≡ status_after amount
  refund_status-after none = refl
  refund_status-after (some zero) = refl
  refund_status-after (some (suc n)) = ground arith

  -- What a refund has left in the table and at the gateway when it returns.
  pub record IsRefunded (id : String) (amount : Option ℕ) (r : RefundResult) (w w' : World)
      : Type 0 where
    -- The reservation's payment, and its intent at the gateway.
    pub row : PaymentRow
    pub intent : String
    pub is_paid : payment_of id w ≡ some row
    pub same_intent : row.external_id ≡ some intent
    pub one_call : w'.gateway_calls ≡ w.gateway_calls ++ refund_call intent amount ∷ []
    -- The payment's row counts what the gateway says it gave back, if it succeeded, and no other
    -- row changes; if it did not, no row changes.
    pub rows_after : p.rows w'.payments ≡ (
        if r.success
        then update
            (λ (q : PaymentRow). q.id == row.id)
            (λ (q : PaymentRow). record q {
              status = status_after amount;
              refunded_amount_in_cents = q.refunded_amount_in_cents + r.amount_in_cents;
            })
            (p.rows w.payments)
        else p.rows w.payments)

  external_some :
      (r : PaymentRow) (i : String)
      → r.external_id ≡ some i
      → (external_of gateway (some r) ≡ none) ⊎ (external_of gateway (some r) ≡ some (r, i))
  external_some r String.[] h = inl (ground arith)
  external_some r (String.◌∷◌ c i) h = inr (ground arith)

  external_cases :
      (o : Option PaymentRow)
      → (external_of gateway o ≡ none)
        ⊎ ((r : PaymentRow) × (i : String) × (external_of gateway o ≡ some (r, i))
            × (o ≡ some r)
            × (r.external_id ≡ some i))
  external_cases none = inl refl
  external_cases (some r) = elim (Option-cases r.external_id) [
    | inl missing ↦ inl (ground arith)
    | inr (i, there) ↦ elim (external_some r i there) [
      | inl empty ↦ inl empty
      | inr set ↦ inr (r, i, set, refl, there)
    ]
  ]

  refund_unpaid :
      (id : String) (amount : Option ℕ) (w : World)
      → external_of gateway (payment_of id w) ≡ none
      → refund gateway id amount w
        ≡ (err (payment_error "No payment found for this reservation"), w)
  unfolding refund
  refund_unpaid id amount w h =
      ground (arith, L.find_first-rows (λ (r : PaymentRow). r.reservation_id == id) w.payments)

  refund_paid :
      (id : String) (amount : Option ℕ) (w : World) (row : PaymentRow) (i : String)
      → external_of gateway (payment_of id w) ≡ some (row, i)
      → let (res, v) =
          protect (call_gateway (refund_call i amount) (λ n. gateway.refund n i amount)) w in
        refund gateway id amount w
        ≡ elim res [ ok r ↦ record_refund gateway row amount r v | err e ↦ (err e, v) ]
  unfolding refund
  refund_paid id amount w row i h =
      ground (arith, L.find_first-rows (λ (r : PaymentRow). r.reservation_id == id) w.payments)

  recorded_rows :
      (row : PaymentRow) (amount : Option ℕ) (r : RefundResult) (w : World)
      → let (res, w') = record_refund gateway row amount r w in
        (res ≡ ok r)
        × (w'.gateway_calls ≡ w.gateway_calls)
        × (p.rows w'.payments ≡ (
            if r.success
            then update
                (λ (q : PaymentRow). q.id == row.id)
                (refunded_row gateway amount r.amount_in_cents)
                (p.rows w.payments)
            else p.rows w.payments))
  unfolding record_refund
  recorded_rows row amount r w = ground (
    arith,
    L.rows-update_many (λ (q : PaymentRow). q.id == row.id)
        (refunded_row gateway amount r.amount_in_cents) w.payments,
  )

  -- A refund that returns a result found the reservation's payment, called the gateway once for its
  -- intent, and changed at most that payment's row: if the gateway succeeded, the amount that the
  -- gateway named is added to the row's refunded sum, and its status becomes PARTIALLY_REFUNDED if a
  -- positive amount was asked for, and REFUNDED if not.
  pub refund-IsRefunded :
      (id : String) (amount : Option ℕ) (w w' : World) (r : RefundResult)
      → refund gateway id amount w ≡ (ok r, w')
      → IsRefunded id amount r w w'
  refund-IsRefunded id amount w w' r done = elim (external_cases (payment_of id w)) [
    | inl missing ↦ ground (arith, refund_unpaid id amount w missing)
    | inr (row, i, there, found, same) ↦
        let call = refund_call i amount in
        let answer : ℕ → Result RefundResult = λ n. gateway.refund n i amount in
        elim (Result-cases (admit (p.clock w.readings) w.breaker)) [
          | inl (e, refused) ↦
              ground (
                arith,
                refund_paid id amount w row i there,
                protect_refused L call answer w refused,
              )
          | inr (b, admitted) ↦ elim (Result-cases (answer (length w.gateway_calls))) [
            | inl (e, answered) ↦ ground (
              arith,
              refund_paid id amount w row i there,
              protect_err L call answer w admitted answered,
            )
            | inr (r', answered) ↦
                let v = called L call (on_success b) w in
                let rows = recorded_rows row amount r' v in
                let step : refund gateway id amount w ≡ record_refund gateway row amount r' v =
                  ground (
                    arith,
                    refund_paid id amount w row i there,
                    protect_ok L call answer w admitted answered,
                  ) in
                record {
                  row = row;
                  intent = i;
                  is_paid = found;
                  same_intent = same;
                  one_call = ground arith;
                  rows_after = rw (← refund_status-after amount) (ground arith);
                }
          ]
        ]
  ]
