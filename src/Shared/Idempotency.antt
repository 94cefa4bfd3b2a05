-- ===== src/Shared/Idempotency.antt =====
-- src/shared/middleware/idempotency.ts and request-id.ts: the guard of routes that should run once
-- for a key, and the identifier of a request.
pub mod Repeats
use tickethub_backend.Common.{ℕ, String, ◌<>◌, Option, none, some}
use tickethub_backend.Platform.{Platform}
use tickethub_backend.Errors.{conflict_error, plain_error}
use tickethub_backend.World.{World, Action, ◌>>=◌, ◌>>◌, pure, throw, uuid}
use tickethub_backend.Shared.Cache.{Json, redis_get, redis_setex}
use tickethub_backend.Shared.Pagination.Keyset.{truthy}

-- `CachedResponse | 'processing'`; a body as its JSON text.
pub data Cached : Type 0 where
  processing : Cached
  response : (status_code : ℕ) → (body : String) → Cached

-- The guard returns, with the key it left on the request, or has sent a reply.
pub data Guarded : Type 0 where
  proceed : (cache_key : Option String) → Guarded
  replied : (status_code : ℕ) → (body : String) → Guarded

-- IDEMPOTENCY_TTL_SECONDS
abbrev pub ttl_seconds : ℕ
ttl_seconds = 86400

abbrev pub cache_key : String → String
cache_key key = "idempotency:" <> key

module _ ⦃p : Platform⦄ where
  module _ ⦃j : Json Cached⦄ where
    -- `JSON.parse` throws on what is no JSON.
    answer : Option Cached → Action Guarded
    answer none = throw (plain_error "Unexpected token in JSON")
    answer (some processing) =
        throw (conflict_error "A request with this Idempotency-Key is already being processed")
    answer (some (response status body)) = pure (replied status body)

    known : String → Option String → Action Guarded
    unfolding answer
    known key (some text) = answer (j.parse text)
    known key none = do
      redis_setex key ttl_seconds (j.stringify processing)
      pure (proceed (some key))

    with_key : Option String → Action Guarded
    unfolding known
    with_key none = pure (proceed none)
    with_key (some key) = do
      existing ← redis_get (cache_key key)
      known (cache_key key) (truthy existing)

    -- `idempotencyGuard`, of the header's value.
    unfoldable pub idempotency_guard : Option String → Action Guarded
    unfolding with_key
    idempotency_guard header = with_key (truthy header)

  or_new : Option String → Action String
  unfolding uuid
  or_new none = uuid
  or_new (some id) = pure id

  -- `headers['x-request-id'] || uuidv4()`
  unfoldable pub request_id : Option String → Action String
  unfolding or_new
  request_id header = or_new (truthy header)
