-- ===== src/Pricing/Repository.antt =====
-- src/modules/pricing/pricing.repository.ts: events that are only ever added, and the table of
-- current prices.
pub mod Upsert
use tickethub_backend.Common.{String, Bool, Option, none, some, List, ◌&&◌, ◌==◌, string_eq, nat_eq}
use tickethub_backend.Platform.{Platform}
use tickethub_backend.Errors.{unique_violation}
use tickethub_backend.World.{Action, ◌>>=◌, gets, modify, or_throw, new_date, uuid}
use tickethub_backend.World.Rows.{
  PricingDomainEvent, PricingEventType, PricingEventRow, CurrentPriceRow,
}
use tickethub_backend.Pricing.Replay.{Price}

module _ ⦃p : Platform⦄ where
  abbrev pub same_event_id : PricingEventRow → PricingEventRow → Bool
  same_event_id a b = a.id == b.id

  abbrev pub of_section : String → String → PricingEventRow → Bool
  of_section event_id section r = r.event_id == event_id && r.section_name == section

  abbrev pub price_of : String → String → CurrentPriceRow → Bool
  price_of event_id section r = r.event_id == event_id && r.section_name == section

  -- `@@unique([eventId, sectionName])`
  abbrev pub price_clash : CurrentPriceRow → CurrentPriceRow → Bool
  price_clash a b = price_of a.event_id a.section_name b

  -- `appendEvent`; the database draws the identifier and sets the time.
  unfoldable pub append_event :
      String → String → PricingEventType → PricingDomainEvent → Action (Unit {0})
  unfolding uuid new_date
  append_event event_id section type payload = do
    id ← uuid
    now ← new_date
    let row : PricingEventRow = record {
      id = id;
      event_id = event_id;
      section_name = section;
      type = type;
      payload = payload;
      created_at = now;
    }
    table ← gets (λ w. p.create same_event_id row w.pricing_events)
    table' ← or_throw table (unique_violation "pricing_events")
    modify (λ w. record w { pricing_events = table' })

  -- `getEventsForSection`, in the order of their times.
  unfoldable pub get_events_for_section : String → String → Action (List PricingEventRow)
  get_events_for_section event_id section =
      gets (λ w. p.find_many_by (of_section event_id section) (λ r. r.created_at) w.pricing_events)

  abbrev pub priced : Price → CurrentPriceRow → CurrentPriceRow
  priced price r = record r {
    base_price_in_cents = price.base_price_in_cents;
    current_price_in_cents = price.current_price_in_cents;
    multiplier = price.multiplier;
  }

  -- `upsert`: an update of the row that is there, or else a new row.
  create_price : CurrentPriceRow → Action (Unit {0})
  create_price row = do
    table ← gets (λ w. p.create price_clash row w.current_prices)
    table' ← or_throw table (unique_violation "current_prices")
    modify (λ w. record w { current_prices = table' })

  write_price : String → String → Price → Option CurrentPriceRow → Action (Unit {0})
  unfolding create_price
  write_price event_id section price (some old) = modify (λ w. record w {
    current_prices = (p.update_many (price_of event_id section) (priced price) w.current_prices).0;
  })
  write_price event_id section price none = create_price (record {
    event_id = event_id;
    section_name = section;
    base_price_in_cents = price.base_price_in_cents;
    current_price_in_cents = price.current_price_in_cents;
    multiplier = price.multiplier;
  })

  unfoldable pub upsert_current_price : String → String → Price → Action (Unit {0})
  unfolding write_price
  upsert_current_price event_id section price = do
    old ← gets (λ w. p.find_first (price_of event_id section) w.current_prices)
    write_price event_id section price old

  unfoldable pub get_current_prices : String → Action (List CurrentPriceRow)
  get_current_prices event_id =
      gets (λ w. p.find_many (λ r. r.event_id == event_id) w.current_prices)

  unfoldable pub get_current_price : String → String → Action (Option CurrentPriceRow)
  get_current_price event_id section =
      gets (λ w. p.find_first (price_of event_id section) w.current_prices)
