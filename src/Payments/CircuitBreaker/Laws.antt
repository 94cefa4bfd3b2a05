-- ===== src/Payments/CircuitBreaker/Laws.antt =====
-- The circuit breaker as a state machine.
use tickethub_backend.Common.{
  ℕ, ◌+◌, ◌≤◌, ◌<◌, ◌≡◌, ◌≢◌, ◌⊎◌, inl, inr, List, [], ◌∷◌, length, All, arith, refl, ap, ◌∙◌,
  String,
}
use tickethub_backend.Errors.{Failure, external_service_error, Result, ok, err}
use tickethub_backend.Payments.CircuitBreaker.{
  CircuitState, closed, open_circuit, half_open, CircuitBreaker, new_breaker, admit, execute,
  BreakerEvent, admitted, succeeded, failed, step, run,
}

-- The transitions that the class's documentation allows, and staying.
pub data Allowed : CircuitState → CircuitState → Type 0 where
  stay : (s : CircuitState) → Allowed s s
  trip : Allowed closed open_circuit
  probe : Allowed open_circuit half_open
  recover : Allowed half_open closed
  relapse : Allowed half_open open_circuit

-- While the circuit is open and its cooldown has not passed, a call fails at once: whatever the
-- protected function would give, the service error is thrown and the breaker does not change.
-- Otherwise the caller gets what the protected function gives.
pub execute_cases :
    {A : Type 0} (now later : ℕ) (outcome : Result A) (b : CircuitBreaker)
    → ((b.state ≡ open_circuit)
        × (now ≤ b.last_failure_time + b.cooldown_ms)
        × (execute now outcome later b ≡ (err (external_service_error b.service_name), b)))
      ⊎ (((b.state ≢ open_circuit) ⊎ (b.last_failure_time + b.cooldown_ms < now))
          × ((execute now outcome later b).0 ≡ outcome))
unfolding execute
execute_cases now later outcome b = ground arith

-- A call that succeeds closes the circuit and forgets the failures; one that fails after the
-- cooldown opens it again at once.
pub execute_probe :
    {A : Type 0} (now later : ℕ) (a : A) (e : Failure) (b : CircuitBreaker)
    → b.state ≡ open_circuit
    → b.last_failure_time + b.cooldown_ms < now
    → let good = (execute now (ok a) later b).1 in
      let bad = (execute {A = A} now (err e) later b).1 in
      (good.state ≡ closed)
      × (good.failure_count ≡ 0)
      × (bad.state ≡ open_circuit)
      × (bad.last_failure_time ≡ later)
unfolding execute
execute_probe now later a e b is_open cooled = ground arith

-- The failures since the last success, with those before the list.
abbrev pub streak : ℕ → List BreakerEvent → ℕ
streak n [] = n
streak n (admitted now ∷ es) = streak n es
streak n (succeeded ∷ es) = streak 0 es
streak n (failed now ∷ es) = streak (n + 1) es

abbrev ClosedBelow : CircuitBreaker → Type 0
ClosedBelow b = b.state ≡ closed → b.failure_count < b.failure_threshold

step-ClosedBelow :
    (e : BreakerEvent) (b : CircuitBreaker)
    → 0 < b.failure_threshold
    → ClosedBelow b
    → ClosedBelow (step e b) × ((step e b).failure_threshold ≡ b.failure_threshold)
unfolding step
step-ClosedBelow (admitted now) b pos h = ground arith
step-ClosedBelow succeeded b pos h = ground arith
step-ClosedBelow (failed now) b pos h = ground arith

run-ClosedBelow :
    (es : List BreakerEvent) (b : CircuitBreaker)
    → 0 < b.failure_threshold
    → ClosedBelow b
    → ClosedBelow (run es b) × ((run es b).failure_threshold ≡ b.failure_threshold)
unfolding run
run-ClosedBelow [] b pos h = (h, refl)
run-ClosedBelow (e ∷ es) b pos h =
    let (below, same) = step-ClosedBelow e b pos h in
    let (rest, kept) = run-ClosedBelow es (step e b) (rw same pos) below in (rest, kept ∙ same)

step-admitted_count :
    (now : ℕ) (b : CircuitBreaker) → (step (admitted now) b).failure_count ≡ b.failure_count
unfolding step
step-admitted_count now b = ground arith

run-count :
    (es : List BreakerEvent) (b : CircuitBreaker)
    → (run es b).failure_count ≡ streak b.failure_count es
unfolding run step
run-count [] b = refl
run-count (admitted now ∷ es) b =
    run-count es (step (admitted now) b) ∙ ap (λ n. streak n es) (step-admitted_count now b)
run-count (succeeded ∷ es) b = run-count es (step succeeded b)
run-count (failed now ∷ es) b = run-count es (step (failed now) b)

-- A new breaker counts exactly the failures since the last success, in whatever order concurrent
-- calls are admitted, succeed and fail; and if its threshold is positive, then whenever it is closed
-- that count is below the threshold. Which states follow each other is not said.
pub run-streak :
    (es : List BreakerEvent) (service_name : String) (threshold cooldown : ℕ)
    → 0 < threshold
    → let b = run es (new_breaker service_name threshold cooldown) in
      (b.failure_count ≡ streak 0 es)
      × ((b.state ≢ closed) ⊎ ((b.state ≡ closed) × (streak 0 es < threshold)))
unfolding new_breaker
run-streak es service_name threshold cooldown pos =
    let start = new_breaker service_name threshold cooldown in
    let b = run es start in
    let counted = run-count es start in
    let (below, same) = run-ClosedBelow es start pos (λ h. pos) in
    (counted, closed_cases b.state (λ h. ground (arith, below h)))
  where
    closed_cases :
        {P : Type 0} (s : CircuitState) → (s ≡ closed → P) → (s ≢ closed) ⊎ ((s ≡ closed) × P)
    closed_cases closed f = inr (refl, f refl)
    closed_cases open_circuit f = inl (λ h. cc)
    closed_cases half_open f = inl (λ h. cc)

abbrev pub fails : List ℕ → List BreakerEvent
fails [] = []
fails (t ∷ ts) = failed t ∷ fails ts

step-failed_open :
    (t : ℕ) (b : CircuitBreaker) → b.state ≡ open_circuit → (step (failed t) b).state ≡ open_circuit
unfolding step
step-failed_open t b h = ground arith

run-fails_open :
    (ts : List ℕ) (b : CircuitBreaker)
    → b.state ≡ open_circuit
    → (run (fails ts) b).state ≡ open_circuit
unfolding run
run-fails_open [] b h = h
run-fails_open (t ∷ ts) b h = run-fails_open ts (step (failed t) b) (step-failed_open t b h)

step-failed_closed :
    (t : ℕ) (b : CircuitBreaker)
    → b.state ≡ closed
    → let b' = step (failed t) b in
      ((b.failure_threshold ≤ b.failure_count + 1) × (b'.state ≡ open_circuit))
      ⊎ ((b.failure_count + 1 < b.failure_threshold)
          × (b'.state ≡ closed)
          × (b'.failure_count ≡ b.failure_count + 1)
          × (b'.failure_threshold ≡ b.failure_threshold))
unfolding step
step-failed_closed t b h = ground arith

-- From a closed circuit below its threshold, failures in a row open the circuit exactly when they
-- bring the count to the threshold, and leave it closed before.
pub run-fails :
    (ts : List ℕ) (b : CircuitBreaker)
    → b.state ≡ closed
    → b.failure_count < b.failure_threshold
    → ((b.failure_threshold ≤ b.failure_count + length ts)
        × ((run (fails ts) b).state ≡ open_circuit))
      ⊎ ((b.failure_count + length ts < b.failure_threshold) × ((run (fails ts) b).state ≡ closed))
unfolding run
run-fails [] b h below = inr (omega arith, h)
run-fails (t ∷ ts) b h below = elim (step-failed_closed t b h) [
  | inl (reached, opened) ↦ inl (omega arith, run-fails_open ts (step (failed t) b) opened)
  | inr (still, is_closed, counted, same) ↦
      elim (run-fails ts (step (failed t) b) is_closed (rw (counted, same) still)) [
        | inl (reached, opened) ↦ inl (omega arith, opened)
        | inr (under, stays) ↦ inr (omega arith, stays)
      ]
]

-- Of two calls that overlap, the later success of one closes the circuit that the failures of the
-- other have opened, with no cooldown and no probe; so OPEN is left for CLOSED, which the
-- documented state machine does not have.
pub late_success :
    (now : ℕ) (b : CircuitBreaker)
    → b.state ≡ closed
    → b.failure_threshold ≤ b.failure_count + 1
    → ((run (failed now ∷ []) b).state ≡ open_circuit)
      × ((run (failed now ∷ succeeded ∷ []) b).state ≡ closed)
      × ¬ Allowed open_circuit closed
unfolding run
late_success now b h reached = (ground arith, ground arith, λ a. elim a [ ])

-- While it is half open the breaker admits every call that comes, not one.
pub admit_half_open :
    (nows : List ℕ) (b : CircuitBreaker)
    → b.state ≡ half_open
    → All (λ now. admit now b ≡ ok b) nows
unfolding admit
admit_half_open [] b h = tt
admit_half_open (now ∷ nows) b h = (ground arith, admit_half_open nows b h)
