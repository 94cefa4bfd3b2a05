-- ===== src/Pricing/Repository/Upsert.antt =====
-- The table of current prices: an upsert never fails, and what it writes is read again.
use tickethub_backend.Common.{
  ◌≡◌, refl, inl, inr, String, Bool, true, false, none, some, string_eq, arith, ==_refl,
}
use tickethub_backend.Common.{List, [], ◌∷◌, ◌++◌, find, any, update, Option-cases}
use tickethub_backend.Platform.{Platform, IsLawful}
use tickethub_backend.Errors.{ok}
use tickethub_backend.World.{World}
use tickethub_backend.World.Rows.{CurrentPriceRow}
use tickethub_backend.Pricing.Replay.{Price}
use tickethub_backend.Pricing.Repository.{price_of, price_clash, priced, upsert_current_price}

module _ {R : Type 0} (q : R → Bool) where
  find-none-any : (xs : List R) → find q xs ≡ none → any q xs ≡ false
  find-none-any [] h = refl
  find-none-any (x ∷ xs) h = ground (arith, find-none-any xs)

  find-snoc : (xs : List R) (y : R) → find q xs ≡ none → q y ≡ true → find q (xs ++ y ∷ []) ≡ some y
  find-snoc [] y h k = ground arith
  find-snoc (x ∷ xs) y h k = ground (arith, find-snoc xs y)

  find-update :
      (f : R → R) (xs : List R) {x : R}
      → ((a : R) → q (f a) ≡ q a)
      → find q xs ≡ some x
      → find q (update q f xs) ≡ some (f x)
  find-update f [] same h = cc
  find-update f (y ∷ ys) {x} same h = ground (arith, find-update f ys {x = x} same, same y)

module _ ⦃p : Platform⦄ where
  abbrev price_row : String → String → Price → CurrentPriceRow
  price_row event_id section price = record {
    event_id = event_id;
    section_name = section;
    base_price_in_cents = price.base_price_in_cents;
    current_price_in_cents = price.current_price_in_cents;
    multiplier = price.multiplier;
  }

  -- The price that a row carries.
  abbrev pub price_in : CurrentPriceRow → Price
  price_in r = record {
    base_price_in_cents = r.base_price_in_cents;
    current_price_in_cents = r.current_price_in_cents;
    multiplier = r.multiplier;
  }

module _ ⦃p : Platform⦄ (L : IsLawful p) where
  -- An upsert of a section's price succeeds, changes the table of current prices only, and what
  -- the table then gives for the section is that price.
  pub upsert_current_price-find :
      (event_id section : String) (price : Price) (w : World)
      → (t : p.Table CurrentPriceRow) × (upsert_current_price event_id section price w
          ≡ (ok tt, record w { current_prices = t }))
        × ((r : CurrentPriceRow) × (find (price_of event_id section) (p.rows t) ≡ some r)
            × (price_in r ≡ price))
  unfolding upsert_current_price
  upsert_current_price-find event_id section price w =
      let q = price_of event_id section in
      elim (Option-cases (find q (p.rows w.current_prices))) [
        | inl missing ↦
            let row = price_row event_id section price in
            let (t, made, rows) =
              L.create_fresh price_clash row w.current_prices
                (find-none-any q (p.rows w.current_prices) missing) in
            (
              t,
              ground (arith, L.find_first-rows q w.current_prices),
              (
                row,
                ground (
                  arith,
                  find-snoc q (p.rows w.current_prices) row missing,
                  ==_refl event_id,
                  ==_refl section,
                ),
                refl,
              ),
            )
        | inr (old, found) ↦ (
          (p.update_many q (priced price) w.current_prices).0,
          ground (arith, L.find_first-rows q w.current_prices),
          (
            priced price old,
            ground (
              arith,
              L.rows-update_many q (priced price) w.current_prices,
              find-update q (priced price) (p.rows w.current_prices) {x = old} (λ a. refl) found,
            ),
            refl,
          ),
        )
      ]
