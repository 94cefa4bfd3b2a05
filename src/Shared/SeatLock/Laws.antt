-- ===== src/Shared/SeatLock/Laws.antt =====
-- The seat locks: taking them leaves the tables alone.
use tickethub_backend.Common.{◌≡◌, refl, inl, inr, String, arith}
use tickethub_backend.Common.{List, [], ◌∷◌, ◌++◌}
use tickethub_backend.Platform.{Platform}
use tickethub_backend.Errors.{Result-cases}
use tickethub_backend.World.{World}
use tickethub_backend.Shared.SeatLock.{acquire_locks, acquire_seat_lock}

module _ ⦃p : Platform⦄ where
  acquire_leaves :
      (event_id key : String) (w : World)
      → (acquire_seat_lock event_id key w).1.seat_holds ≡ w.seat_holds
  unfolding acquire_seat_lock
  acquire_leaves event_id key w = ground arith

  pub acquire_locks_leaves :
      (event_id : String) (keys : List String) (ls : List p.Lock) (w : World)
      → (acquire_locks event_id keys ls w).2.seat_holds ≡ w.seat_holds
  unfolding acquire_locks
  acquire_locks_leaves event_id [] ls w = refl
  acquire_locks_leaves event_id (key ∷ keys) ls w =
      let w' = (acquire_seat_lock event_id key w).1 in
      elim (Result-cases (acquire_seat_lock event_id key w).0) [
        | inl (e, threw) ↦ ground (arith, acquire_leaves event_id key w)
        | inr (l, done) ↦ ground (
          arith,
          acquire_leaves event_id key w,
          acquire_locks_leaves event_id keys (ls ++ l ∷ []) w',
        )
      ]
