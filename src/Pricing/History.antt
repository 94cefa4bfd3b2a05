-- ===== src/Pricing/History.antt =====
-- src/modules/pricing/projections/price-history.projection.ts: the price changes of an event, for
-- its report. How JavaScript prints a number that is not whole is an argument.
use tickethub_backend.Common.{ℕ, String, ◌<>◌, List, map, ◌==◌, string_eq}
use tickethub_backend.Platform.{Platform}
use tickethub_backend.World.{Action, ◌>>=◌, pure, gets}
use tickethub_backend.World.Rows.{
  PricingEventRow, PricingEventType, PricingDomainEvent, base_price_set, surge_applied,
  discount_applied, price_adjusted,
}
use tickethub_backend.Booking.Money.{fixed_two}
use tickethub_backend.Shared.Pagination.Keyset.{Dates}

module _ ⦃p : Platform⦄ (print : p.Float → String) (dates : Dates) where
  pub record PriceHistoryEntry : Type 0 where
    pub id : String
    pub type : PricingEventType
    pub section_name : String
    pub payload : PricingDomainEvent
    pub timestamp : String
    pub description : String

  format_cents : ℕ → String
  unfolding fixed_two
  format_cents cents = fixed_two cents <> " TL"

  -- The change of a price, as two of the descriptions show it.
  change : ℕ → ℕ → String
  unfolding format_cents
  change previous new = format_cents previous <> (" → " <> format_cents new)

  -- The type of an event is that of its payload.
  unfoldable pub describe_event : PricingDomainEvent → String
  unfolding change
  describe_event (base_price_set price by) = "Base price set to " <> format_cents price
  describe_event (surge_applied multiplier reason previous new) =
      "Surge pricing applied ("
      <> (print multiplier <> ("x) due to " <> (reason <> (": " <> change previous new))))
  describe_event (discount_applied percent reason previous new) =
      "Discount applied (" <> (print percent <> ("%): " <> change previous new))
  describe_event (price_adjusted previous new reason by) =
      "Price manually adjusted: " <> (change previous new <> (" (" <> (reason <> ")")))

  -- `pricingRepository.getEventsForEvent`
  unfoldable pub get_events_for_event : String → Action (List PricingEventRow)
  get_events_for_event event_id =
      gets (λ w. p.find_many_by (λ r. r.event_id == event_id) (λ r. r.created_at) w.pricing_events)

  unfoldable pub entry : PricingEventRow → PriceHistoryEntry
  unfolding describe_event
  entry r = record {
    id = r.id;
    type = r.type;
    section_name = r.section_name;
    payload = r.payload;
    timestamp = dates.to_iso r.created_at;
    description = describe_event r.payload;
  }

  unfoldable pub get_history : String → Action (List PriceHistoryEntry)
  get_history event_id = do events ← get_events_for_event event_id; pure (map entry events)
