-- ===== src/Shared/Idempotency/Repeats.antt =====
-- A key that is used again.
use tickethub_backend.Common.{
  suc, ◌+◌, ◌*◌, ◌≤◌, ◌<◌, ◌≡◌, ◌≢◌, refl, ap, ◌∙◌, String, none, some, arith,
}
use tickethub_backend.Platform.{Platform, IsLawful}
use tickethub_backend.Errors.{ok, err, conflict_error}
use tickethub_backend.World.{World}
use tickethub_backend.Shared.Cache
use tickethub_backend.Shared.Cache.{Json}
use tickethub_backend.Shared.Pagination.Keyset.{truthy}
use tickethub_backend.Shared.Idempotency.{
  Cached, processing, proceed, ttl_seconds, cache_key, idempotency_guard, with_key, known, answer,
}

truthy_text : (text : String) → text ≢ "" → truthy (some text) ≡ some text
truthy_text String.[] h = ground arith
truthy_text (String.◌∷◌ c s) h = refl

module _ ⦃p : Platform⦄ (L : IsLawful p) ⦃j : Json Cached⦄ where
  -- The request that carried the key first.
  first_run :
      (key : String) (w : World)
      → key ≢ ""
      → p.redis_get (p.clock w.readings) (cache_key key) w.redis ≡ none
      → idempotency_guard (some key) w ≡ (
        ok (proceed (some (cache_key key))),
        record w {
          readings = suc (suc w.readings);
          redis =
              p.redis_setex
                (p.clock (suc w.readings))
                (cache_key key)
                ttl_seconds
                (j.stringify processing)
                w.redis;
        },
      )
  unfolding idempotency_guard with_key known Cache.redis_get Cache.redis_setex
  first_run key w named cold = ground (arith, truthy_text key named)

  again :
      (key : String) (w : World) (text : String)
      → key ≢ ""
      → text ≢ ""
      → j.parse text ≡ some processing
      → p.redis_get (p.clock w.readings) (cache_key key) w.redis ≡ some text
      → (idempotency_guard (some key) w).0
        ≡ err (conflict_error "A request with this Idempotency-Key is already being processed")
  unfolding idempotency_guard with_key known answer Cache.redis_get
  again key w text named is_text parsed there =
      ground (arith, truthy_text key named, truthy_text text is_text)

  -- A request with a key is let through, and a later one that finds the entry which the first has
  -- left, within its life, is refused as a conflict.
  idempotency_guard_again :
      (key : String) (w w1 w2 : World)
      → key ≢ ""
      → p.redis_get (p.clock w.readings) (cache_key key) w.redis ≡ none
      → w1 ≡ (idempotency_guard (some key) w).1
      → w2.redis ≡ w1.redis
      → w1.readings ≤ w2.readings
      → p.clock w2.readings < p.clock (suc w.readings) + ttl_seconds * 1000
      → j.stringify processing ≢ ""
      → j.parse (j.stringify processing) ≡ some processing
      → ((idempotency_guard (some key) w).0 ≡ ok (proceed (some (cache_key key))))
        × ((idempotency_guard (some key) w2).0
            ≡ err (conflict_error "A request with this Idempotency-Key is already being processed"))
  idempotency_guard_again key w w1 w2 named cold is_w1 same later live is_text parsed =
      let run = first_run key w named cold in
      let entry =
        p.redis_setex (p.clock (suc w.readings)) (cache_key key) ttl_seconds
          (j.stringify processing) w.redis in
      let kept : w2.redis ≡ entry =
        same ∙ ap (λ (v : World). v.redis) (is_w1 ∙ ap (λ o. o.1) run) in
      let count : w1.readings ≡ suc (suc w.readings) =
        ap (λ (v : World). v.readings) (is_w1 ∙ ap (λ o. o.1) run) in
      let there : p.redis_get (p.clock w2.readings) (cache_key key) w2.redis
          ≡ some (j.stringify processing) =
        ap (p.redis_get (p.clock w2.readings) (cache_key key)) kept
        ∙ L.redis_get-setex (p.clock w2.readings) (p.clock (suc w.readings)) (cache_key key)
            ttl_seconds (j.stringify processing) w.redis
            (L.clock_mono (suc w.readings) w2.readings (omega (arith, later, count))) live in
      (ap (λ o. o.0) run, again key w2 (j.stringify processing) named is_text parsed there)
