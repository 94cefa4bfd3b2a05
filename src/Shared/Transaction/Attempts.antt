-- ===== src/Shared/Transaction/Attempts.antt =====
-- How the attempts of a transaction end.
use tickethub_backend.Common.{
  ℕ, zero, suc, ◌+◌, ◌*◌, ◌≡◌, sym, ◌∙◌, inl, inr, Bool, true, false, ◌&&◌, some, arith, Bool-cases,
}
use mathlib.Core.Path.{subst}
use tickethub_backend.Platform.{Platform}
use tickethub_backend.Errors.{Failure, Result, ok, err, Result-cases}
use tickethub_backend.World.{World, Action}
use tickethub_backend.Shared.Transaction.{retry_delay_ms, any_left, attempts, with_transaction}

module _ ⦃p : Platform⦄ (is_p2034 : Failure → Bool) (wait : ℕ → World → World) {A : Type 0}
    (fn : Action A) where
  -- The state in which an attempt begins, the attempts before it having failed.
  abbrev pub begins : (attempt : ℕ) → World → ℕ → World
  begins attempt w zero = w
  begins attempt w (suc k) =
      begins (suc attempt) (wait (retry_delay_ms * attempt) (p.transaction fn w).1) k

  -- Each of the first runs threw a serialization failure.
  abbrev pub Repeated : (attempt : ℕ) → World → ℕ → Type 0
  Repeated attempt w zero = Unit
  Repeated attempt w (suc k) =
      ((e : Failure) × ((p.transaction fn w).0 ≡ err e) × (is_p2034 e ≡ true))
      × Repeated (suc attempt) (wait (retry_delay_ms * attempt) (p.transaction fn w).1) k

  -- An attempt that is not repeated: it returned, threw another error, or was the last.
  abbrev pub Ends : (left : ℕ) → Result A → Type 0
  Ends left (ok a) = Unit
  Ends left (err e) = (is_p2034 e && any_left left) ≡ false

  pub record IsAttempt (left attempt : ℕ) (w : World) (o : Result A × World) : Type 0 where
    pub before : ℕ
    pub after : ℕ
    pub within : before + suc after ≡ left
    pub repeated : Repeated attempt w before
    pub is_run : o ≡ p.transaction fn (begins attempt w before)
    pub ends : Ends after o.0

  attempts_ok :
      (left attempt : ℕ) (w : World) (a : A)
      → (p.transaction fn w).0 ≡ ok a
      → attempts is_p2034 wait fn (suc left) attempt w ≡ p.transaction fn w
  unfolding attempts
  attempts_ok left attempt w a h = ground arith

  attempts_err :
      (left attempt : ℕ) (w : World) (e : Failure)
      → (p.transaction fn w).0 ≡ err e
      → (is_p2034 e && any_left left) ≡ false
      → attempts is_p2034 wait fn (suc left) attempt w ≡ p.transaction fn w
  unfolding attempts
  attempts_err left attempt w e h k = ground arith

  attempts_again :
      (left attempt : ℕ) (w : World) (e : Failure)
      → (p.transaction fn w).0 ≡ err e
      → (is_p2034 e && any_left left) ≡ true
      → attempts is_p2034 wait fn (suc left) attempt w
        ≡ attempts is_p2034 wait fn left
            (suc attempt)
            (wait (retry_delay_ms * attempt) (p.transaction fn w).1)
  unfolding attempts
  attempts_again left attempt w e h k = ground arith

  -- An attempt that ends the loop is the run itself.
  IsAttempt-here :
      (left attempt : ℕ) (w : World)
      → attempts is_p2034 wait fn (suc left) attempt w ≡ p.transaction fn w
      → Ends left (p.transaction fn w).0
      → IsAttempt (suc left) attempt w (attempts is_p2034 wait fn (suc left) attempt w)
  IsAttempt-here left attempt w run ends = record {
    before = 0;
    after = left;
    within = omega arith;
    repeated = tt;
    is_run = run;
    ends = subst (λ (o : Result A × World). Ends left o.0) (sym run) ends;
  }

  IsAttempt-later :
      (left attempt : ℕ) (w : World) (o : Result A × World) (e : Failure)
      → (p.transaction fn w).0 ≡ err e
      → is_p2034 e ≡ true
      → o
        ≡ attempts is_p2034 wait fn
            (suc left)
            (suc attempt)
            (wait (retry_delay_ms * attempt) (p.transaction fn w).1)
      → IsAttempt
          (suc left)
          (suc attempt)
          (wait (retry_delay_ms * attempt) (p.transaction fn w).1)
          (attempts is_p2034 wait fn
            (suc left)
            (suc attempt)
            (wait (retry_delay_ms * attempt) (p.transaction fn w).1))
      → IsAttempt (suc (suc left)) attempt w o
  IsAttempt-later left attempt w o e failed serial run h = record {
    before = suc h.before;
    after = h.after;
    within = omega (arith, h.within);
    repeated = ((e, failed, serial), h.repeated);
    is_run = run ∙ h.is_run;
    ends = subst (λ (v : Result A × World). Ends h.after v.0) (sym run) h.ends;
  }

  attempts-IsAttempt :
      (left attempt : ℕ) (w : World)
      → IsAttempt (suc left) attempt w (attempts is_p2034 wait fn (suc left) attempt w)
  attempts-IsAttempt zero attempt w = elim (Result-cases (p.transaction fn w).0) [
    | inr (a, done) ↦ IsAttempt-here zero attempt w (attempts_ok zero attempt w a done) (rw done tt)
    | inl (e, failed) ↦
        let over : (is_p2034 e && false) ≡ false = ground arith in
        IsAttempt-here zero attempt w (attempts_err zero attempt w e failed over) (rw failed over)
  ]
  attempts-IsAttempt (suc left) attempt w = elim (Result-cases (p.transaction fn w).0) [
    | inr (a, done) ↦
        IsAttempt-here (suc left) attempt w (attempts_ok (suc left) attempt w a done) (rw done tt)
    | inl (e, failed) ↦ elim (Bool-cases (is_p2034 e && true)) [
      | inr over ↦
          IsAttempt-here (suc left) attempt w (attempts_err (suc left) attempt w e failed over)
            (rw failed over)
      | inl repeat ↦
          IsAttempt-later left attempt w _ e failed (ground arith)
            (attempts_again (suc left) attempt w e failed repeat)
            (attempts-IsAttempt left (suc attempt)
              (wait (retry_delay_ms * attempt) (p.transaction fn w).1))
    ]
  ]

  -- `withTransaction` always ends with an attempt of its own: it gives what one of at most
  -- `maxRetries` runs of the transaction gives. Every run before that one threw a serialization
  -- failure, and that one returned, or threw an error that is no serialization failure, or was the
  -- last. The error after the loop is never reached. It is assumed that at least one attempt is
  -- asked for.
  pub with_transaction-IsAttempt :
      (n : ℕ) (w : World)
      → IsAttempt (suc n) 1 w (with_transaction is_p2034 wait fn (some (suc n)) w)
  unfolding with_transaction
  with_transaction-IsAttempt n w = attempts-IsAttempt n 1 w
