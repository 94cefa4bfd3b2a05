-- ===== src/Booking/Money/Laws.antt =====
-- `Money`: its invariant, and addition against subtraction and comparison.
use tickethub_backend.Common.{
  ◌-◌, ◌≡◌, ◌≢◌, String, ◌⊎◌, true, false, ◌↔◌, arith, Bool-cases, ltb, inl, inr,
}
use tickethub_backend.Common.{string_eq, nat_eq}
use tickethub_backend.Common.Number.{
  Number, integer, fraction, nan, infinity, minus_infinity, pos, negsuc,
}
use tickethub_backend.Errors.{ok}
use tickethub_backend.Booking.Money.{Money, from_cents, add, subtract, is_greater_than}

-- `fromCents` accepts a number exactly when it is a whole number that is not negative, and
-- keeps the amount and the currency.
pub from_cents_iff :
    (x : Number) (currency : String) (m : Money)
    → (from_cents x currency ≡ ok m)
      ↔ ((x ≡ integer (pos m.amount_in_cents)) × (m.currency ≡ currency))
unfolding from_cents
from_cents_iff (integer (pos n)) currency m = (λ h. ground arith, λ h. ground arith)
from_cents_iff (integer (negsuc n)) currency m = (λ h. ground arith, λ h. ground arith)
from_cents_iff (fraction (pos n)) currency m = (λ h. ground arith, λ h. ground arith)
from_cents_iff (fraction (negsuc n)) currency m = (λ h. ground arith, λ h. ground arith)
from_cents_iff nan currency m = (λ h. ground arith, λ h. ground arith)
from_cents_iff infinity currency m = (λ h. ground arith, λ h. ground arith)
from_cents_iff minus_infinity currency m = (λ h. ground arith, λ h. ground arith)

-- Subtracting what was added gives the first amount back.
pub subtract-add : (a b s : Money) → add a b ≡ ok s → subtract s b ≡ ok a
unfolding add subtract
subtract-add a b s h = ground arith

-- Of two amounts in one currency, either the second can be subtracted and adding it again gives
-- the first, or the second is greater and `subtract` throws.
pub subtract_cases :
    (a b : Money)
    → a.currency ≡ b.currency
    → ((d : Money) × (subtract a b ≡ ok d) × (add d b ≡ ok a) × (is_greater_than b a ≡ ok false))
      ⊎ (((m : Money) → subtract a b ≢ ok m) × (is_greater_than b a ≡ ok true))
unfolding add subtract is_greater_than
subtract_cases a b h = elim (Bool-cases (ltb a.amount_in_cents b.amount_in_cents)) [
  | inl less ↦ inr (λ m. ground arith, ground arith)
  | inr enough ↦ inl (
    record a { amount_in_cents = a.amount_in_cents - b.amount_in_cents },
    ground arith,
    ground arith,
    ground arith,
  )
]
