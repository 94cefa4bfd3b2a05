-- ===== src/Pricing/Replay.antt =====
-- `replayPricingEvents` (src/modules/pricing/domain/pricing.events.ts): the price after a list of
-- events.
use tickethub_backend.Common.{ℕ, String, ◌≡◌, refl, Option, none, some, List, [], ◌∷◌, ◌++◌}
use tickethub_backend.Platform.{Platform}
use tickethub_backend.World.Rows.{
  PricingDomainEvent, base_price_set, surge_applied, discount_applied, price_adjusted,
}

pub record Price ⦃p : Platform⦄ : Type 0 where
  pub base_price_in_cents : ℕ
  pub current_price_in_cents : ℕ
  pub multiplier : p.Float

module _ ⦃p : Platform⦄ where
  abbrev pub no_price : Price
  no_price = record {
    base_price_in_cents = 0;
    current_price_in_cents = 0;
    multiplier = p.literal 1 0;
  }

  -- The body of the loop: one `case` for each type of event.
  unfoldable pub apply_event : Price → PricingDomainEvent → Price
  apply_event price (base_price_set cents set_by) = record {
    base_price_in_cents = cents;
    current_price_in_cents = cents;
    multiplier = p.literal 1 0;
  }
  apply_event price (surge_applied factor reason previous new) = record price {
    multiplier = factor;
    current_price_in_cents = new;
  }
  apply_event price (discount_applied percent reason previous new) = record price {
    current_price_in_cents = new;
  }
  apply_event price (price_adjusted previous new reason by) = record price {
    current_price_in_cents = new;
  }

  replay_from : Price → List PricingDomainEvent → Price
  unfolding apply_event
  replay_from price [] = price
  replay_from price (e ∷ es) = replay_from (apply_event price e) es

  unfoldable pub replay_pricing_events : List PricingDomainEvent → Price
  unfolding replay_from
  replay_pricing_events events = replay_from no_price events

  replay_from-append :
      (price : Price) (es fs : List PricingDomainEvent)
      → replay_from price (es ++ fs) ≡ replay_from (replay_from price es) fs
  unfolding replay_from
  replay_from-append price [] fs = refl
  replay_from-append price (e ∷ es) fs = replay_from-append (apply_event price e) es fs

  -- What was before the last base price no longer counts: only what follows it does.
  pub replay_after_base :
      (es fs : List PricingDomainEvent) (cents : ℕ) (set_by : String)
      → replay_pricing_events (es ++ base_price_set cents set_by ∷ fs)
        ≡ replay_pricing_events (base_price_set cents set_by ∷ fs)
  unfolding replay_pricing_events
  replay_after_base es fs cents set_by =
      replay_from-append no_price es (base_price_set cents set_by ∷ fs)

  -- The price that an event names, and the base price and the factor, if it names one.
  abbrev pub named_price : PricingDomainEvent → Option ℕ
  named_price (base_price_set cents set_by) = some cents
  named_price (surge_applied factor reason previous new) = some new
  named_price (discount_applied percent reason previous new) = some new
  named_price (price_adjusted previous new reason by) = some new

  abbrev pub named_base : PricingDomainEvent → Option ℕ
  named_base (base_price_set cents set_by) = some cents
  named_base _ = none

  abbrev pub named_factor : PricingDomainEvent → Option p.Float
  named_factor (base_price_set cents set_by) = some (p.literal 1 0)
  named_factor (surge_applied factor reason previous new) = some factor
  named_factor _ = none

  abbrev pub or_before : {A : Type 0} → Option A → A → A
  or_before none a = a
  or_before (some b) a = b

  -- What the last event names that names something.
  abbrev pub last_named :
      {A : Type 0} → (PricingDomainEvent → Option A) → A → List PricingDomainEvent → A
  last_named f a [] = a
  last_named f a (e ∷ es) = last_named f (or_before (f e) a) es

  -- The price that the events tell of, each of its parts on its own.
  pub record IsLastNamed (start : Price) (es : List PricingDomainEvent) (price : Price)
      : Type 0 where
    pub current :
        price.current_price_in_cents ≡ last_named named_price start.current_price_in_cents es
    pub base : price.base_price_in_cents ≡ last_named named_base start.base_price_in_cents es
    pub factor : price.multiplier ≡ last_named named_factor start.multiplier es

  replay_from-IsLastNamed :
      (es : List PricingDomainEvent) (start : Price) → IsLastNamed start es (replay_from start es)
  unfolding replay_from apply_event
  replay_from-IsLastNamed [] start = record { current = refl; base = refl; factor = refl }
  replay_from-IsLastNamed (base_price_set c s ∷ es) start =
      let h = replay_from-IsLastNamed es (apply_event start (base_price_set c s)) in
      record { current = h.current; base = h.base; factor = h.factor }
  replay_from-IsLastNamed (surge_applied f r q n ∷ es) start =
      let h = replay_from-IsLastNamed es (apply_event start (surge_applied f r q n)) in
      record { current = h.current; base = h.base; factor = h.factor }
  replay_from-IsLastNamed (discount_applied f r q n ∷ es) start =
      let h = replay_from-IsLastNamed es (apply_event start (discount_applied f r q n)) in
      record { current = h.current; base = h.base; factor = h.factor }
  replay_from-IsLastNamed (price_adjusted q n r b ∷ es) start =
      let h = replay_from-IsLastNamed es (apply_event start (price_adjusted q n r b)) in
      record { current = h.current; base = h.base; factor = h.factor }

  pub replay-IsLastNamed :
      (es : List PricingDomainEvent) → IsLastNamed no_price es (replay_pricing_events es)
  unfolding replay_pricing_events
  replay-IsLastNamed es = replay_from-IsLastNamed es no_price
