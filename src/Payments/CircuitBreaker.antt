-- ===== src/Payments/CircuitBreaker.antt =====
-- `CircuitBreaker` (src/modules/payments/circuit-breaker.ts). The protected function is a list of
-- outcomes here: what matters to the breaker is whether a call throws, and when.
pub mod Laws
use tickethub_backend.Common.{
  ℕ, ◌+◌, ◌-◌, ◌<◌, String, Bool, true, false, ◌||◌, List, [], ◌∷◌, ltb, leb, if◌then◌else◌,
}
use tickethub_backend.Errors.{Failure, external_service_error, Result, ok, err}

pub data CircuitState : Type 0 where
  closed open_circuit half_open : CircuitState

pub record CircuitBreaker : Type 0 where
  pub state : CircuitState
  pub failure_count : ℕ
  pub last_failure_time : ℕ
  pub service_name : String
  pub failure_threshold : ℕ
  pub cooldown_ms : ℕ

-- The constructor, with its options given.
unfoldable pub new_breaker : String → (failure_threshold cooldown_ms : ℕ) → CircuitBreaker
new_breaker service_name failure_threshold cooldown_ms = record {
  state = closed;
  failure_count = 0;
  last_failure_time = 0;
  service_name = service_name;
  failure_threshold = failure_threshold;
  cooldown_ms = cooldown_ms;
}

unfoldable pub on_success : CircuitBreaker → CircuitBreaker
on_success b = record b { failure_count = 0; state = closed }

abbrev pub is_half_open : CircuitState → Bool
is_half_open half_open = true
is_half_open _ = false

-- `onFailure`, at the reading `now` of the clock.
unfoldable pub on_failure : ℕ → CircuitBreaker → CircuitBreaker
on_failure now b = record b {
  failure_count = b.failure_count + 1;
  last_failure_time = now;
  state =
      if leb b.failure_threshold (b.failure_count + 1) || is_half_open b.state
      then open_circuit
      else b.state;
}

-- The first `if` of `execute`: the breaker with which the call goes on, or the fast failure. The
-- difference of the readings is taken as `now > last + cooldown`.
admit_at : CircuitState → ℕ → CircuitBreaker → Result CircuitBreaker
admit_at open_circuit now b =
    if ltb (b.last_failure_time + b.cooldown_ms) now
    then ok (record b { state = half_open })
    else err (external_service_error b.service_name)
admit_at closed now b = ok b
admit_at half_open now b = ok b

unfoldable pub admit : ℕ → CircuitBreaker → Result CircuitBreaker
unfolding admit_at
admit now b = admit_at b.state now b

-- The `try` of `execute`, by what the protected call gave.
unfoldable pub settle : {A : Type 0} → ℕ → Result A → CircuitBreaker → Result A × CircuitBreaker
unfolding on_success on_failure
settle later (ok a) b = (ok a, on_success b)
settle later (err e) b = (err e, on_failure later b)

-- `execute`, without awaits of other calls in between: the reading at the start, what the
-- protected call gives if it is made, and the reading when it has failed.
unfoldable pub execute :
    {A : Type 0} → (now : ℕ) → Result A → (later : ℕ) → CircuitBreaker → Result A × CircuitBreaker
unfolding admit settle
execute now outcome later b = elim (admit now b) [
  | err e ↦ (err e, b)
  | ok b' ↦ settle later outcome b'
]

unfoldable pub get_state : CircuitBreaker → CircuitState
get_state b = b.state

unfoldable pub reset : CircuitBreaker → CircuitBreaker
reset b = record b { state = closed; failure_count = 0; last_failure_time = 0 }

-- The events of a breaker that concurrent requests share: a call is admitted or refused, and a
-- call that was admitted earlier settles. Between the two, others may be admitted and settle.
pub data BreakerEvent : Type 0 where
  admitted : (now : ℕ) → BreakerEvent
  succeeded : BreakerEvent
  failed : (now : ℕ) → BreakerEvent

-- The breaker after a call of `admit`, also when it refuses.
abbrev pub after_admit : Result CircuitBreaker → CircuitBreaker → CircuitBreaker
after_admit (ok b') b = b'
after_admit (err _) b = b

unfoldable pub step : BreakerEvent → CircuitBreaker → CircuitBreaker
unfolding admit on_success on_failure
step (admitted now) b = after_admit (admit now b) b
step succeeded b = on_success b
step (failed now) b = on_failure now b

unfoldable pub run : List BreakerEvent → CircuitBreaker → CircuitBreaker
unfolding step
run [] b = b
run (e ∷ es) b = run es (step e b)
