-- ===== src/Mexc/LiveCandles/Tests.antt =====
-- The aggregator on a short tape, and the theorems at it.
use shortfire.Prelude.{ℕ, ◌*◌, ◌≡◌, refl, String, List, [], ◌∷◌, ◌++◌, map}
use shortfire.Prelude.Decimals.{pos, ◌+ℤ◌}
use shortfire.Prelude.Keys.{eq_string}
use shortfire.Prelude.Dicts.{lookup, insert}
use shortfire.Mexc.LiveCandles.{Trade, on_trade}
use shortfire.Mexc.LiveCandles.Runs.{candle, runs}
use shortfire.Mexc.LiveCandles.Refinement.{feed, buckets_of, trades_of, to_list, aggregator_refines}
use shortfire.Mexc.LiveCandles.Volume.{volumes, traded, volume_conserved}

abbrev trade : String → ℕ → ℕ → ℕ → Trade
trade s seconds price qty = record {
  symbol = s;
  ts = seconds * 1_000_000;
  price = pos price;
  qty = pos qty;
}

abbrev tape : List Trade
tape = trade "BTC" 5 100 2 ∷ trade "ETH" 6 10 1 ∷ trade "BTC" 59 90 3 ∷ trade "BTC" 61 95 1 ∷ []

btc_finalized :
    buckets_of "BTC" (feed [] tape).1
    ≡ record {
      ts = 0;
      open_price = pos 100;
      high = pos 100;
      low = pos 90;
      close = pos 90;
      volume = pos 5;
    }
      ∷ []
unfolding feed buckets_of on_trade lookup insert ◌+ℤ◌
btc_finalized = refl

aggregator_refines_example :
    buckets_of "BTC" (feed [] tape).1 ++ to_list (lookup "BTC" (feed [] tape).0)
    ≡ map candle (runs (trades_of "BTC" tape))
aggregator_refines_example = aggregator_refines "BTC" tape

volume_conserved_example :
    volumes (buckets_of "BTC" (feed [] tape).1 ++ to_list (lookup "BTC" (feed [] tape).0))
    ≡ traded (trades_of "BTC" tape)
volume_conserved_example = volume_conserved "BTC" tape
