-- ===== src/Tests/Breakers.antt =====
-- The circuit breaker with the settings of the payments service.
use tickethub_backend.Common.{ℕ, ◌+◌, ◌≤◌, ◌<◌, ◌≡◌, ◌≢◌, refl, ◌⊎◌, List, [], ◌∷◌, length, arith}
use tickethub_backend.Errors.{external_service_error, ok, err}
use tickethub_backend.Payments.CircuitBreaker.{
  CircuitBreaker, CircuitState, closed, open_circuit, new_breaker, execute, failed, succeeded,
  admitted, run,
}
use tickethub_backend.Payments.CircuitBreaker.Laws.{
  execute_cases, streak, run-streak, fails, run-fails,
}

abbrev in_state : CircuitState → ℕ → CircuitBreaker
in_state s n = record {
  state = s;
  failure_count = n;
  last_failure_time = 100;
  service_name = "payment-gateway";
  failure_threshold = 5;
  cooldown_ms = 30000;
}

execute_cases_example :
    let b = in_state open_circuit 5 in
    ((b.state ≡ open_circuit)
      × (200 ≤ b.last_failure_time + b.cooldown_ms)
      × (execute {A = ℕ} 200 (ok 7) 300 b ≡ (err (external_service_error b.service_name), b)))
    ⊎ (((b.state ≢ open_circuit) ⊎ (b.last_failure_time + b.cooldown_ms < 200))
        × ((execute {A = ℕ} 200 (ok 7) 300 b).0 ≡ ok 7))
execute_cases_example = execute_cases 200 300 (ok 7) (in_state open_circuit 5)

run-streak_example :
    let es = failed 1 ∷ admitted 2 ∷ succeeded ∷ failed 3 ∷ [] in
    let b = run es (new_breaker "payment-gateway" 5 30000) in
    (b.failure_count ≡ streak 0 es)
    × ((b.state ≢ closed) ⊎ ((b.state ≡ closed) × (streak 0 es < 5)))
run-streak_example =
    run-streak (failed 1 ∷ admitted 2 ∷ succeeded ∷ failed 3 ∷ []) "payment-gateway" 5 30000
      (omega arith)

run-fails_example :
    let b = in_state closed 3 in
    let ts : List ℕ = 1 ∷ 2 ∷ [] in
    ((b.failure_threshold ≤ b.failure_count + length ts)
      × ((run (fails ts) b).state ≡ open_circuit))
    ⊎ ((b.failure_count + length ts < b.failure_threshold) × ((run (fails ts) b).state ≡ closed))
run-fails_example = run-fails (1 ∷ 2 ∷ []) (in_state closed 3) refl (omega arith)
