-- ===== src/Payments/Gateway.antt =====
-- The payment port (src/modules/payments/ports/payment-gateway.port.ts) and the mock adapter
-- (adapters/mock-payment.adapter.ts). A gateway's answer may depend on how many calls it has had.
use tickethub_backend.Common.{ℕ, String, ◌<>◌, Bool, true, false, Option, none, some, if◌then◌else◌}
use tickethub_backend.Errors.{Result, ok}

pub data IntentStatus : Type 0 where
  pending succeeded failed : IntentStatus

-- The metadata is the reservation's identifier, the one entry that the service sends.
pub record PaymentIntent : Type 0 where
  pub id : String
  pub status : IntentStatus
  pub amount_in_cents : ℕ
  pub currency : String
  pub metadata : String

pub record PaymentResult : Type 0 where
  pub success : Bool
  pub payment_intent_id : String
  pub status : IntentStatus
  pub error_message : Option String

pub record RefundResult : Type 0 where
  pub success : Bool
  pub refund_id : String
  pub amount_in_cents : ℕ
  pub status : IntentStatus
  pub error_message : Option String

-- `PaymentGateway`. The first argument is the number of the calls before.
pub record PaymentGateway : Type 0 where
  pub create_payment_intent : ℕ → ℕ → String → String → Result PaymentIntent
  pub capture_payment : ℕ → String → Result PaymentResult
  pub refund : ℕ → String → Option ℕ → Result RefundResult
  pub verify_webhook_signature : String → String → Bool

-- `amountInCents ?? 0`
abbrev or_zero : Option ℕ → ℕ
or_zero none = 0
or_zero (some n) = n

-- `MockPaymentAdapter`, by its flag and the identifiers that it draws.
unfoldable pub mock_gateway : Bool → (ℕ → String) → PaymentGateway
mock_gateway should_fail uuid = record {
  create_payment_intent = λ n amount currency metadata. ok (record {
    id = "mock_pi_" <> uuid n;
    status = if should_fail then failed else succeeded;
    amount_in_cents = amount;
    currency = currency;
    metadata = metadata;
  });
  capture_payment = λ n id. ok (
      if should_fail
      then record {
        success = false;
        payment_intent_id = id;
        status = failed;
        error_message = some "Mock payment failure (configured for testing)";
      }
      else record {
        success = true;
        payment_intent_id = id;
        status = succeeded;
        error_message = none;
      });
  refund = λ n id amount. ok (
      if should_fail
      then record {
        success = false;
        refund_id = "";
        amount_in_cents = or_zero amount;
        status = failed;
        error_message = some "Mock refund failure";
      }
      else record {
        success = true;
        refund_id = "mock_re_" <> uuid n;
        amount_in_cents = or_zero amount;
        status = succeeded;
        error_message = none;
      });
  verify_webhook_signature = λ payload signature. true;
}
