-- ===== src/Tests/Prices.antt =====
-- Prices on the test world.
use tickethub_backend.Common.{◌≡◌, some, map, find, string_eq}
use tickethub_backend.Errors.{ok}
use tickethub_backend.Platform.Memory.{memory, memory-IsLawful}
use tickethub_backend.World.Rows.{CurrentPriceRow}
use tickethub_backend.Pricing.Replay.{Price, no_price, IsLastNamed}
use tickethub_backend.Pricing.Repository.{price_of}
use tickethub_backend.Pricing.Repository.Upsert.{price_in}
use tickethub_backend.Pricing.Projection.{rebuild, domain_event}
use tickethub_backend.Pricing.Service.Rebuild.{rebuild_replays, events_of}
use tickethub_backend.Tests.Worlds.{world, forgetful}

rebuild_replays_example :
    let (res, w') = rebuild "e" "A" world in
    (price : Price) × (res ≡ ok price)
    × IsLastNamed no_price (map domain_event (events_of memory-IsLawful "e" "A" world)) price
    × ((r : CurrentPriceRow) × (find (price_of "e" "A") (memory.rows w'.current_prices) ≡ some r)
        × (price_in r ≡ price))
unfolding memory world string_eq
rebuild_replays_example = rebuild_replays memory-IsLawful "e" "A" world (tt, tt)
