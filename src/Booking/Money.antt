-- ===== src/Booking/Money.antt =====
-- `Money` (src/modules/booking/domain/money.value-object.ts): immutable amounts in whole cents.
-- Sums of amounts are exact in JavaScript as long as they stay below 2^53.
pub mod Laws
use tickethub_backend.Common.{ℕ, ◌+◌, ◌/◌, ◌%◌, String, ◌<>◌, Bool, ◌&&◌, not}
use tickethub_backend.Common.{if◌then◌else◌, ◌==◌, nat_eq, string_eq, ltb}
use tickethub_backend.Common.Number.{Number, integer, fraction, nan, infinity, minus_infinity}
use tickethub_backend.Common.Number.{ℤ, pos, negsuc, sub_ℕ}
use tickethub_backend.Common.Decimal.{decimal}
use tickethub_backend.Errors.{Failure, plain_error, Result, ok, err, ◌>>=◌, ◌>>◌, throw_if}

pub record Money : Type 0 where
  pub amount_in_cents : ℕ
  pub currency : String

-- The two errors of the constructor; their messages go on with the amount.
abbrev pub negative_amount : Failure
negative_amount = plain_error "Money amount cannot be negative"

abbrev pub not_an_integer : Failure
not_an_integer = plain_error "Money amount must be an integer (cents)"

-- The private constructor, with its two guards in their order.
unfoldable pub new_money : Number → String → Result Money
new_money (integer (pos n)) currency = ok (record { amount_in_cents = n; currency = currency })
new_money (integer (negsuc _)) currency = err negative_amount
new_money (fraction (pos _)) currency = err not_an_integer
new_money (fraction (negsuc _)) currency = err negative_amount
new_money nan currency = err not_an_integer
new_money infinity currency = err not_an_integer
new_money minus_infinity currency = err negative_amount

-- `Money.fromCents`
unfoldable pub from_cents : Number → String → Result Money
unfolding new_money
from_cents amount currency = new_money amount currency

-- `Money.zero`
unfoldable pub zero_money : String → Result Money
unfolding new_money
zero_money currency = new_money (integer (pos 0)) currency

currency_error : Money → Money → Failure
currency_error a b =
    plain_error ("Cannot operate on different currencies: " <> a.currency <> " vs " <> b.currency)

unfoldable pub assert_same_currency : Money → Money → Result (Unit {0})
unfolding currency_error
assert_same_currency a b = throw_if (not (a.currency == b.currency)) (currency_error a b)

unfoldable pub add : Money → Money → Result Money
unfolding assert_same_currency new_money
add a b = do
  assert_same_currency a b
  new_money (integer (pos (a.amount_in_cents + b.amount_in_cents))) a.currency

subtract_error : Money → Money → Failure
subtract_error a b = plain_error (
    "Cannot subtract "
    <> decimal b.amount_in_cents
    <> " from "
    <> decimal a.amount_in_cents
    <> ": result would be negative")

-- The rest of `subtract`, from the difference on.
subtract_result : Money → Money → ℤ → Result Money
unfolding subtract_error new_money
subtract_result a b (negsuc _) = err (subtract_error a b)
subtract_result a b (pos n) = new_money (integer (pos n)) a.currency

unfoldable pub subtract : Money → Money → Result Money
unfolding assert_same_currency subtract_result
subtract a b = do
  assert_same_currency a b
  subtract_result a b (sub_ℕ a.amount_in_cents b.amount_in_cents)

-- `multiply`, over `Math.round(amount * factor)` in floating point.
unfoldable pub multiply : {Float : Type 0} → (ℕ → Float → Number) → Money → Float → Result Money
unfolding new_money
multiply round_product a factor = new_money (round_product a.amount_in_cents factor) a.currency

unfoldable pub equals : Money → Money → Bool
equals a b = a.amount_in_cents == b.amount_in_cents && a.currency == b.currency

unfoldable pub is_greater_than : Money → Money → Result Bool
unfolding assert_same_currency
is_greater_than a b = do assert_same_currency a b; ok (ltb b.amount_in_cents a.amount_in_cents)

unfoldable pub is_zero : Money → Bool
is_zero a = a.amount_in_cents == 0

-- `(cents / 100).toFixed(2)` of a whole number of cents.
unfoldable pub fixed_two : ℕ → String
unfolding nat_eq
fixed_two n =
    decimal (n / 100) <> "." <> (if ltb (n % 100) 10 then "0" else "") <> decimal (n % 100)

unfoldable pub to_display_string : Money → String
unfolding fixed_two
to_display_string a = fixed_two a.amount_in_cents <> " " <> a.currency
