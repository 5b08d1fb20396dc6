-- ===== src/Mexc/Backfill/Tests.antt =====
-- A backfill of two candles, one to a page, and one of the funding history, into databases in memory.
use shortfire.Prelude.{
  none, ℕ, String, ◌≡◌, refl, inl, inr, some, List, [], ◌∷◌, ok, arith, leb, if◌then◌else◌,
}
use shortfire.Prelude.Keys.{eq_string, eq_nat, eq_pair}
use shortfire.Prelude.Decimals.{pos}
use shortfire.Prelude.Times.{Time, aware}
use shortfire.Domain.Market.{Funding, Candle, mexc_native, m1}
use shortfire.Rows.{CandleRow, candle_key}
use shortfire.Storage.{Database, statements, copy_into_hypertable}
use shortfire.Storage.Memory.{Server, empty, memory}
use shortfire.Mexc.Backfill.{Fetch, page_loop, backfill_ohlcv, candle_row}
use shortfire.Mexc.Backfill.Fundings.{funding_key, backfill_funding}
use shortfire.DeadLetter.{letter_key}
use shortfire.Effects.{World, write}
use shortfire.Mexc.Backfill.Pages.{StartsAtSince}
use shortfire.Mexc.Backfill.Coverage.{Serves, backfill_covers}

abbrev db : Database candle_key
db = memory candle_key

abbrev candle_at : ℕ → Candle
candle_at ts = record {
  symbol = "BTC";
  source = mexc_native;
  timeframe = m1;
  ts = aware ts;
  open_price = pos 1;
  high = pos 2;
  low = pos 1;
  close = pos 2;
  volume = pos 5;
}

abbrev first : Candle
first = candle_at 60_000_000

abbrev second : Candle
second = candle_at 120_000_000

abbrev history : List Candle
history = first ∷ second ∷ []

abbrev page : Time → List Candle
page since =
    if leb since 60_000_000 then first ∷ [] else if leb since 120_000_000 then second ∷ [] else []

abbrev fetch : Fetch
fetch k since until = ok (page since)

starts : StartsAtSince fetch
starts k since until c cs e = ground arith

fetch-Serves : Serves history 60_000 fetch
fetch-Serves = record {
  starts = starts;
  no_gap = λ k since until c cs h e m a b. ground arith;
  no_more = λ k since until h e m a. ground arith;
  apart = λ k since until c cs h e m a. ground arith;
}

-- Both candles lie in the window from minute 1 to minute 3.
run :
    (r : Server CandleRow (String × Time)) × (backfill_ohlcv db fetch m1 60_000_000 180_000_000
        empty
      ≡ some (ok 2, r))
unfolding backfill_ohlcv page_loop copy_into_hypertable statements
run = (_, refl)

backfill_covers_example :
    (row : CandleRow) × (run.0.rows "raw_mexc_candles_1m" (candle_key (candle_row second))
      ≡ some row)
backfill_covers_example =
    backfill_covers db fetch m1 "raw_mexc_candles_1m" refl history 60_000_000 180_000_000 empty
      run.0 2 second fetch-Serves run.1 (inr (inl refl)) (omega arith) (omega arith)

-- A client whose page runs on past `until`.
abbrev long_fetch : Fetch
long_fetch k since until = ok (first ∷ second ∷ [])

long_run :
    (r : Server CandleRow (String × Time)) × (backfill_ohlcv db long_fetch m1 60_000_000 120_000_000
        empty
      ≡ some (ok 2, r))
unfolding backfill_ohlcv page_loop copy_into_hypertable statements
long_run = (_, refl)

abbrev funding_history : List Funding
funding_history =
    record {
      symbol = "BTC";
      source = mexc_native;
      published_ts = aware 1;
      settlement_ts = aware 2;
      rate = pos 3;
      next_funding_ts = none;
    }
    ∷ []

abbrev world : World (memory funding_key) (memory letter_key)
world = record {
  conn = empty;
  dead = empty;
  drawn = 0;
  calls = 0;
  freshness = [];
  rows_total = [];
  reconnects_total = [];
}

stores_fundings :
    let done =
      backfill_funding
        (memory funding_key)
        (memory letter_key)
        (λ symbol since until w. (ok funding_history, w))
        "BTC"
        0
        9
        world in
    (done.0 ≡ ok 1)
    × (done.1.conn.rows "raw_mexc_funding" ("BTC", 2)
        ≡ some (record {
          symbol = "BTC";
          settlement_ts = 2;
          published_ts = 1;
          rate = pos 3;
          next_funding_ts = none;
          source = "mexc_native";
          quality_flag = "ok";
        }))
unfolding backfill_funding write copy_into_hypertable statements
stores_fundings = (refl, refl)
