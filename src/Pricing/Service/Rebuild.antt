-- ===== src/Pricing/Service/Rebuild.antt =====
-- What the early bird discount does to a price, and what a rebuild gives and stores.
use tickethub_backend.Common.{ℕ, ◌+◌, ◌≤◌, ◌≡◌, string_eq, String, true, some, arith}
use tickethub_backend.Common.{List, find, filter, map}
use tickethub_backend.Platform.{Platform, IsLawful, Ascending}
use tickethub_backend.Errors.{ok}
use tickethub_backend.World.{World}
use tickethub_backend.World.Rows.{PricingEventRow, CurrentPriceRow}
use tickethub_backend.Shared.Cache.{Json}
use tickethub_backend.Pricing.Replay.{
  Price, no_price, replay_pricing_events, IsLastNamed, replay-IsLastNamed,
}
use tickethub_backend.Pricing.Repository.{of_section, price_of}
use tickethub_backend.Pricing.Repository.Upsert.{upsert_current_price-find, price_in}
use tickethub_backend.Pricing.Projection.{domain_event, rebuild}
use tickethub_backend.Pricing.Service.{discounted, early_bird_discount}

module _ ⦃p : Platform⦄ ⦃j : Json Price⦄ (L : IsLawful p) where
  -- The early bird discount never raises a price and never takes more than it: what is charged and
  -- what is taken off add up to the price before.
  pub discounted_le :
      (cents : ℕ)
      → p.float_le early_bird_discount (p.literal 1 0) ≡ true
      → (discounted cents ≤ cents)
        × (discounted cents + p.round_product cents early_bird_discount ≡ cents)
  unfolding discounted
  discounted_le cents h =
      let b = L.round_product-le cents early_bird_discount h in (omega arith, omega arith)

  abbrev pub events_of : (event_id section : String) → World → List PricingEventRow
  events_of event_id section w = filter (of_section event_id section) (p.rows w.pricing_events)

  -- If the section's events were created at times that rise strictly in the order in which they are
  -- stored, a rebuild gives the price that they tell of: the current price is the one that the last
  -- event names, whether it sets the base, a surge, a discount or an adjustment; the base price is
  -- that of the last base event; the factor is that of the last surge, or 1 after a base event since
  -- or with neither. And that price is what the table of current prices then gives for the section.
  pub rebuild_replays :
      (event_id section : String) (w : World)
      → Ascending (λ (r : PricingEventRow). r.created_at) (events_of event_id section w)
      → let (res, w') = rebuild event_id section w in
        (price : Price) × (res ≡ ok price)
        × IsLastNamed no_price (map domain_event (events_of event_id section w)) price
        × ((r : CurrentPriceRow) × (find (price_of event_id section) (p.rows w'.current_prices)
              ≡ some r)
            × (price_in r ≡ price))
  unfolding rebuild
  rebuild_replays event_id section w h =
      let rows = events_of event_id section w in
      let price = replay_pricing_events (map domain_event rows) in
      let (t, stored, (r, found, same)) = upsert_current_price-find L event_id section price w in
      let read =
        L.find_many_by-rows (of_section event_id section) (λ (r : PricingEventRow). r.created_at)
          w.pricing_events h in
      (
        price,
        ground (arith, read),
        replay-IsLastNamed (map domain_event rows),
        (r, ground (arith, read), same),
      )
