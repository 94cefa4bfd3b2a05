-- ===== src/Shared/SeatLock.antt =====
-- src/shared/lock/redlock.ts: the lock of a seat, over Redlock.
pub mod Laws
use tickethub_backend.Common.{ℕ, ◌*◌, String, ◌<>◌, Option, none, some, List, [], ◌∷◌, ◌++◌}
use tickethub_backend.Platform.{Platform}
use tickethub_backend.Errors.{seat_unavailable_error, Result, ok, err}
use tickethub_backend.World.{World, Action, ◌>>=◌, new_date}

-- `SEAT_LOCK_TTL_MS` of src/config/constants.ts, the default of `acquireSeatLock`.
abbrev pub seat_lock_ttl_ms : ℕ
seat_lock_ttl_ms = 30 * 1000

unfoldable pub lock_resource : String → String → String
lock_resource event_id seat_key = "lock:seat:" <> event_id <> ":" <> seat_key

module _ ⦃p : Platform⦄ where
  -- What `redlock.acquire` gave, and the error in place of a rejection.
  granted : String → Option (p.Lock × p.Locks) → Action p.Lock
  granted key none w =
      (err (seat_unavailable_error (key <> " (another user is selecting this seat)")), w)
  granted key (some (l, locks)) w = (ok l, record w { locks = locks })

  unfoldable pub acquire_seat_lock : String → String → Action p.Lock
  unfolding granted new_date lock_resource
  acquire_seat_lock event_id key = do
    now ← new_date
    λ w. granted key (p.acquire now (lock_resource event_id key) seat_lock_ttl_ms w.locks) w

  -- `lock.release()` under a `catch` that only logs.
  unfoldable after_release : Option p.Locks → World → World
  after_release none w = w
  after_release (some locks) w = record w { locks = locks }

  unfoldable pub release_all : List p.Lock → World → World
  unfolding after_release
  release_all [] w = w
  release_all (l ∷ ls) w = release_all ls (after_release (p.release l w.locks) w)

  -- The loop that takes the locks: the locks taken are kept also when it throws.
  unfoldable pub acquire_locks :
      String → List String → List p.Lock → World → Result (Unit {0}) × List p.Lock × World
  unfolding acquire_seat_lock
  acquire_locks event_id [] ls w = (ok tt, ls, w)
  acquire_locks event_id (key ∷ keys) ls w =
      let (r, w') = acquire_seat_lock event_id key w in
      elim r [ ok l ↦ acquire_locks event_id keys (ls ++ l ∷ []) w' | err e ↦ (err e, ls, w') ]

  -- `try { take the locks; body } finally { release what was taken }`
  unfoldable pub with_locks : {A : Type 0} → String → List String → Action A → Action A
  unfolding acquire_locks release_all
  with_locks event_id keys body w =
      let (r, ls, w') = acquire_locks event_id keys [] w in
      elim r [
        | ok _ ↦ let (b, w'') = body w' in (b, release_all ls w'')
        | err e ↦ (err e, release_all ls w')
      ]
