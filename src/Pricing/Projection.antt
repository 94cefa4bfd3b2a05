-- ===== src/Pricing/Projection.antt =====
-- src/modules/pricing/projections/current-price.projection.ts: the current price from the cache,
-- else from its table, else by a replay of the events.
use tickethub_backend.Common.{ℕ, String, ◌<>◌, Option, none, some, map}
use tickethub_backend.Platform.{Platform}
use tickethub_backend.World.{Action, ◌>>=◌, ◌>>◌, pure}
use tickethub_backend.World.Rows.{PricingDomainEvent, PricingEventRow, CurrentPriceRow}
use tickethub_backend.Shared.Cache
use tickethub_backend.Shared.Cache.{Json}
use tickethub_backend.Pricing.Replay.{Price, replay_pricing_events}
use tickethub_backend.Pricing.Repository.{
  get_events_for_section, upsert_current_price, get_current_price,
}

-- `CACHE_TTL.CURRENT_PRICE`, in seconds.
abbrev pub current_price_ttl : ℕ
current_price_ttl = 30

unfoldable pub cache_key : String → String → String
cache_key event_id section = "price:current:" <> event_id <> ":" <> section

module _ ⦃p : Platform⦄ ⦃j : Json Price⦄ where
  -- The event that a row stands for: `type` of the payload comes after that of the row, and wins.
  abbrev pub domain_event : PricingEventRow → PricingDomainEvent
  domain_event r = r.payload

  unfoldable pub rebuild : String → String → Action Price
  unfolding get_events_for_section upsert_current_price Cache.set cache_key
  rebuild event_id section = do
    rows ← get_events_for_section event_id section
    let price = replay_pricing_events (map domain_event rows)
    upsert_current_price event_id section price
    Cache.set (cache_key event_id section) price current_price_ttl
    pure price

  projected : String → String → Option CurrentPriceRow → Action Price
  unfolding rebuild
  projected event_id section (some r) = do
    let price : Price = record {
      base_price_in_cents = r.base_price_in_cents;
      current_price_in_cents = r.current_price_in_cents;
      multiplier = r.multiplier;
    }
    Cache.set (cache_key event_id section) price current_price_ttl
    pure price
  projected event_id section none = rebuild event_id section

  uncached : String → String → Option Price → Action Price
  unfolding projected get_current_price
  uncached event_id section (some price) = pure price
  uncached event_id section none = do
    row ← get_current_price event_id section
    projected event_id section row

  -- `get`. Its type allows `null`, but each of its three ways ends with a price.
  unfoldable pub get : String → String → Action (Option Price)
  unfolding uncached Cache.get
  get event_id section = do
    cached ← Cache.get {A = Price} (cache_key event_id section)
    price ← uncached event_id section cached
    pure (some price)

  unfoldable pub invalidate : String → String → Action (Unit {0})
  unfolding Cache.del cache_key
  invalidate event_id section = Cache.del (cache_key event_id section)
