-- ===== src/Shared/Cache.antt =====
-- The typed cache over Redis (src/shared/redis/cache.ts). A key's value is a JSON text.

use tickethub_backend.Common.{ℕ, String, Option, none, some}
use tickethub_backend.Platform.{Platform}
use tickethub_backend.World.{Action, ◌>>=◌, ◌>>◌, pure, modify, new_date}

-- `JSON.stringify`, and `JSON.parse` with `none` where it throws, for one type of values.
pub record Json (A : Type 0) : Type 0 where
  pub stringify : A → String
  pub parse : String → Option A

module _ ⦃p : Platform⦄ where
  -- `redis.get`, `redis.setex` and `redis.del`, at the time of the call.
  unfoldable pub redis_get : String → Action (Option String)
  unfolding new_date
  redis_get key = do now ← new_date; λ w. pure (p.redis_get now key w.redis) w

  unfoldable pub redis_setex : String → ℕ → String → Action (Unit {0})
  unfolding new_date
  redis_setex key ttl value = do
    now ← new_date
    modify (λ w. record w { redis = p.redis_setex now key ttl value w.redis })

  unfoldable pub redis_del : String → Action (Unit {0})
  redis_del key = modify (λ w. record w { redis = p.redis_del key w.redis })

  module _ {A : Type 0} ⦃j : Json A⦄ where
    -- A corrupt value is deleted, and counts as missing.
    parsed : String → Option A → Action (Option A)
    unfolding redis_del
    parsed key (some a) = pure (some a)
    parsed key none = do redis_del key; pure none

    decoded : String → Option String → Action (Option A)
    unfolding parsed
    decoded key none = pure none
    decoded key (some text) = parsed key (j.parse text)

    -- `cache.get`
    unfoldable pub get : String → Action (Option A)
    unfolding decoded redis_get
    get key = do found ← redis_get key; decoded key found

    -- `cache.set`
    unfoldable pub set : String → A → ℕ → Action (Unit {0})
    unfolding redis_setex
    set key value ttl = redis_setex key ttl (j.stringify value)

    filled : String → ℕ → Action A → Option A → Action A
    unfolding set
    filled key ttl factory (some a) = pure a
    filled key ttl factory none = do a ← factory; set key a ttl; pure a

    -- `cache.getOrSet`, for factories that give a value or throw.
    unfoldable pub get_or_set : String → Action A → ℕ → Action A
    unfolding get filled
    get_or_set key factory ttl = do cached ← get key; filled key ttl factory cached

  -- `cache.del`
  unfoldable pub del : String → Action (Unit {0})
  unfolding redis_del
  del key = redis_del key
