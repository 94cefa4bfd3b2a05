-- ===== src/Pricing/Service.antt =====
-- src/modules/pricing/pricing.service.ts: base prices, surges, the early bird discount and the
-- price of a section. Multipliers and percentages are floating point numbers of the platform.
pub mod Rebuild
use tickethub_backend.Common.{
  ℕ, ◌-◌, String, ◌<>◌, Bool, true, false, Option, none, some, List, [], ◌∷◌, if◌then◌else◌,
}
use tickethub_backend.Platform.{Platform}
use tickethub_backend.Errors.{not_found_error}
use tickethub_backend.World.{Action, ◌>>=◌, ◌>>◌, pure, throw, or_throw}
use tickethub_backend.World.Rows.{
  PricingEventType, base_price_set, surge_applied, discount_applied, CurrentPriceRow,
}
use tickethub_backend.Shared.Cache.{Json}
use tickethub_backend.Pricing.Replay.{Price}
use tickethub_backend.Pricing.Repository.{append_event, get_current_prices}
use tickethub_backend.Pricing.Projection.{rebuild, get}

module _ ⦃p : Platform⦄ where
  -- `PRICING_RULES` of src/config/constants.ts
  abbrev pub low_availability_threshold : p.Float
  low_availability_threshold = p.literal 2 1

  abbrev pub low_availability_multiplier : p.Float
  low_availability_multiplier = p.literal 13 1

  abbrev pub critical_availability_threshold : p.Float
  critical_availability_threshold = p.literal 5 2

  abbrev pub critical_availability_multiplier : p.Float
  critical_availability_multiplier = p.literal 18 1

  abbrev pub last_minute_days : p.Float
  last_minute_days = p.literal 7 0

  abbrev pub last_minute_multiplier : p.Float
  last_minute_multiplier = p.literal 12 1

  abbrev pub early_bird_discount : p.Float
  early_bird_discount = p.literal 15 2

  -- The first `if` of `applySurge`: multiplier and reason by the seats that are left.
  unfoldable pub availability_surge : p.Float → p.Float × String
  availability_surge availability =
      if p.float_lt availability critical_availability_threshold
      then (critical_availability_multiplier, "LOW_AVAILABILITY")
      else if p.float_lt availability low_availability_threshold
      then (low_availability_multiplier, "HIGH_DEMAND")
      else (p.literal 1 0, "")

  -- `reason ? ... : 'LAST_MINUTE'`
  abbrev pub with_last_minute : String → String
  with_last_minute String.[] = "LAST_MINUTE"
  with_last_minute reason = reason <> "+LAST_MINUTE"

  -- The second `if`, on top of the first.
  unfoldable pub surge : (availability days : p.Float) → p.Float × String
  unfolding availability_surge
  surge availability days =
      let (m, reason) = availability_surge availability in
      if p.float_lt days last_minute_days
      then (p.product m last_minute_multiplier, with_last_minute reason)
      else (m, reason)

  module _ ⦃j : Json Price⦄ where
    unfoldable pub set_base_price : (event_id section : String) → ℕ → String → Action (Unit {0})
    unfolding append_event rebuild
    set_base_price event_id section cents set_by = do
      append_event event_id section PricingEventType.base_price_set (base_price_set cents set_by)
      _ ← rebuild event_id section
      pure tt

    -- The rest of `applySurge` once the surge is known.
    raise_price : (event_id section : String) → Price → p.Float × String → Action (Unit {0})
    unfolding append_event rebuild
    raise_price event_id section price (m, reason) =
        if p.float_le m (p.literal 1 0) then pure tt else do
          append_event event_id section PricingEventType.surge_applied (
              surge_applied m reason price.current_price_in_cents
                (p.round_product price.base_price_in_cents m))
          _ ← rebuild event_id section
          pure tt

    surge_from :
        (event_id section : String) (availability days : p.Float) → Option Price → Action (Unit {0})
    unfolding raise_price surge
    surge_from event_id section availability days none = pure tt
    surge_from event_id section availability days (some price) =
        raise_price event_id section price (surge availability days)

    unfoldable pub apply_surge :
        (event_id section : String) (availability days : p.Float) → Action (Unit {0})
    unfolding surge_from get
    apply_surge event_id section availability days = do
      price ← get event_id section
      surge_from event_id section availability days price

    -- The price after the early bird discount. The discount is never more than the price, so the
    -- difference does not fall below 0.
    unfoldable pub discounted : ℕ → ℕ
    discounted cents = cents - p.round_product cents early_bird_discount

    discount_from : (event_id section : String) → Option Price → Action (Unit {0})
    unfolding append_event rebuild discounted
    discount_from event_id section none = pure tt
    discount_from event_id section (some price) = do
      append_event event_id section PricingEventType.early_bird_applied (
          discount_applied (p.product early_bird_discount (p.literal 100 0)) "EARLY_BIRD"
            price.current_price_in_cents (discounted price.current_price_in_cents))
      _ ← rebuild event_id section
      pure tt

    unfoldable pub apply_early_bird_discount : (event_id section : String) → Action (Unit {0})
    unfolding discount_from get
    apply_early_bird_discount event_id section = do
      price ← get event_id section
      discount_from event_id section price

    price_or_throw : String → Option Price → Action ℕ
    price_or_throw key none = throw (not_found_error "Price" (some key))
    price_or_throw key (some price) = pure price.current_price_in_cents

    unfoldable pub get_section_price : String → String → Action ℕ
    unfolding price_or_throw get
    get_section_price event_id section = do
      price ← get event_id section
      price_or_throw (event_id <> "/" <> section) price

  some_prices : String → List CurrentPriceRow → Action (List CurrentPriceRow)
  some_prices event_id [] = throw (not_found_error "Pricing" (some event_id))
  some_prices event_id rows = pure rows

  -- `getCurrentPrices`, before its rows are formatted.
  unfoldable pub current_prices : String → Action (List CurrentPriceRow)
  unfolding some_prices get_current_prices
  current_prices event_id = do rows ← get_current_prices event_id; some_prices event_id rows
