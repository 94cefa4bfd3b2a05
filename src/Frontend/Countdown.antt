-- ===== src/Frontend/Countdown.antt =====
-- src/frontend/src/hooks/useCountdown.ts: the time that is left of a hold. Times are milliseconds.
use tickethub_backend.Common.{
  ℕ, ◌-◌, ◌/◌, ◌%◌, String, ◌<>◌, Bool, ◌&&◌, Option, none, some, List, [], ◌∷◌, ◌==◌, nat_eq, ltb,
  if◌then◌else◌,
}
use tickethub_backend.Common.{◌≡◌, refl, count, leb, ◌+◌, arith}
use tickethub_backend.Common.Decimal.{decimal}

pub record Countdown : Type 0 where
  pub formatted : String
  pub remaining_ms : ℕ
  pub total_seconds : ℕ
  pub is_expired : Bool
  pub is_urgent : Bool

-- `padStart(2, '0')` of a whole number.
pad_two : ℕ → String
unfolding nat_eq
pad_two n = (if ltb n 10 then "0" else "") <> decimal n

-- `Math.max(0, targetMs - now)`; a target of 0 counts as none.
unfoldable pub remaining : Option ℕ → ℕ → ℕ
unfolding nat_eq
remaining none now = 0
remaining (some target) now = if target == 0 then 0 else target - now

-- What the hook returns for what remains.
unfoldable pub countdown : ℕ → Countdown
unfolding pad_two nat_eq
countdown ms =
    let total = ms / 1000 in
    record {
      formatted = pad_two (total / 60) <> ":" <> pad_two (total % 60);
      remaining_ms = ms;
      total_seconds = total;
      is_expired = ms == 0;
      is_urgent = ltb 0 ms && ltb total 120;
    }

-- How often `onExpire` is called by updates at a number of times; the interval goes on after zero.
unfoldable pub expire_calls : ℕ → List ℕ → ℕ
unfolding nat_eq
expire_calls target [] = 0
expire_calls target (now ∷ times) = (if target - now == 0 then 1 else 0) + expire_calls target times

-- `onExpire` runs at every update that is not before the target, not only at the first.
pub expire_calls-count :
    (target : ℕ) (times : List ℕ) → expire_calls target times ≡ count (leb target) times
unfolding expire_calls
expire_calls-count target [] = refl
expire_calls-count target (now ∷ times) = ground (arith, expire_calls-count target times)
