-- ===== src/Shared/Transaction.antt =====
-- src/shared/database/transaction-helper.ts: a transaction that is tried again when the database
-- reports a serialization failure. Which errors have the code P2034 is the client's affair, an argument.
pub mod Attempts
use tickethub_backend.Common.{
  ℕ, zero, suc, ◌*◌, String, Bool, true, false, ◌&&◌, Option, none, some, if◌then◌else◌,
}
use tickethub_backend.Platform.{Platform}
use tickethub_backend.Errors.{Failure, plain_error, Result, ok, err}
use tickethub_backend.World.{World, Action}

abbrev pub max_retries : ℕ
max_retries = 3

abbrev pub retry_delay_ms : ℕ
retry_delay_ms = 100

abbrev pub exhausted : Failure
exhausted = plain_error "Transaction retry exhausted"

-- `attempt < maxRetries`, for the number of attempts that are left after this one.
abbrev pub any_left : ℕ → Bool
any_left zero = false
any_left (suc n) = true

-- `is_p2034` tells serialization failures; `wait` is what the others do in a number of milliseconds.
module _ ⦃p : Platform⦄ (is_p2034 : Failure → Bool) (wait : ℕ → World → World) {A : Type 0}
    (fn : Action A) where
  -- The loop from an attempt on, with the number of attempts that there still are.
  unfoldable pub attempts : (left attempt : ℕ) → Action A
  attempts zero attempt w = (err exhausted, w)
  attempts (suc left) attempt w =
      let (r, w') = p.transaction fn w in
      let rest = attempts left (suc attempt) (wait (retry_delay_ms * attempt) w') in
      elim r [
        | ok a ↦ (ok a, w')
        | err e ↦ if is_p2034 e && any_left left then rest else (err e, w')
      ]

  -- `options?.maxRetries ?? MAX_RETRIES`
  abbrev retries : Option ℕ → ℕ
  retries none = max_retries
  retries (some n) = n

  unfoldable pub with_transaction : Option ℕ → Action A
  unfolding attempts
  with_transaction options = attempts (retries options) 1
