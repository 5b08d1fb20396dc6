-- ===== src/Mexc/Backfill.antt =====
-- ingest/mexc/backfill.py: the paginated REST backfill of one symbol.
-- The client is a parameter: `fetch k since until` is the answer to the k-th call.
pub mod Pages
pub mod Coverage
pub mod Fundings
pub mod Sweep
pub mod Turns
pub mod Growth
pub mod Interleaved
mod Tests
mod SweepTests
use shortfire.Prelude.{
  ℕ, zero, suc, ◌+◌, ◌-◌, String, Option, none, some, List, [], ◌∷◌, map, Result, ok, raised, ltb,
  if◌then◌else◌,
}
use shortfire.Prelude.Times.{Time, from_ms, to_ms}
use shortfire.Domain.Market.{Candle, Timeframe, m1, m5, m15, h1, h4, d1}
use shortfire.Rows.{CandleRow, candle_key}
use shortfire.Storage.{Database, copy_into_hypertable}

-- TIMEFRAME_MS
abbrev pub timeframe_ms : Timeframe → ℕ
timeframe_ms m1 = 60_000
timeframe_ms m5 = 300_000
timeframe_ms m15 = 900_000
timeframe_ms h1 = 3_600_000
timeframe_ms h4 = 14_400_000
timeframe_ms d1 = 86_400_000

-- TIMEFRAME_TO_TABLE
abbrev pub timeframe_to_table : Timeframe → Option String
timeframe_to_table m1 = some "raw_mexc_candles_1m"
timeframe_to_table d1 = some "raw_mexc_candles_1d"
timeframe_to_table _ = none

-- The tuple that is built for each candle.
abbrev pub candle_row : Candle → CandleRow
candle_row c = record {
  symbol = c.symbol;
  ts = c.ts.micros;
  open_price = c.open_price;
  high = c.high;
  low = c.low;
  close = c.close;
  volume = c.volume;
  source = "mexc_native";
  quality_flag = "ok";
}

-- candles[-1] of a page that is not empty.
abbrev pub last_candle : Candle → List Candle → Candle
last_candle c [] = c
last_candle c (d ∷ ds) = last_candle d ds

-- The cursor after a page.
abbrev pub next_cursor : ℕ → Candle → List Candle → ℕ
next_cursor step c cs = to_ms (last_candle c cs).ts.micros + step

abbrev pub Fetch : Type 0
Fetch = ℕ → Time → Time → Result (List Candle)

module _ (db : Database candle_key) (fetch : Fetch) (table : String) (step end_ms : ℕ) where
  -- What follows the write of a page: its exception, or the next round.
  abbrev pub after_write :
      (ℕ → db.Conn → Option (Result ℕ × db.Conn))
      → ℕ
      → Result ℕ × db.Conn
      → Option (Result ℕ × db.Conn)
  after_write next_round total (raised e, s) = some (raised e, s)
  after_write next_round total (ok n, s) = next_round (total + n) s

  -- What follows a fetch: its exception, the `break` on an empty page, or the write of the page.
  abbrev pub after_fetch :
      (ℕ → ℕ → db.Conn → Option (Result ℕ × db.Conn))
      → ℕ
      → db.Conn
      → Result (List Candle)
      → Option (Result ℕ × db.Conn)
  after_fetch next_round total s (raised e) = some (raised e, s)
  after_fetch next_round total s (ok []) = some (ok total, s)
  after_fetch next_round total s (ok (c ∷ cs)) =
      after_write (next_round (next_cursor step c cs)) total
        (copy_into_hypertable db table (map candle_row (c ∷ cs)) s)

  -- The `while cursor < end_ms` loop, on fuel; `none` means that the fuel ran out.
  unfoldable pub page_loop : (fuel call cursor total : ℕ) → db.Conn → Option (Result ℕ × db.Conn)
  page_loop zero call cursor total s = none
  page_loop (suc fuel) call cursor total s =
      let round =
        after_fetch (page_loop fuel (suc call)) total s
          (fetch call (from_ms cursor) (from_ms end_ms)) in
      if ltb cursor end_ms then round else some (ok total, s)

-- Each page moves the cursor by at least one millisecond, so this many rounds are enough.
abbrev pub rounds : (start_ms end_ms : ℕ) → ℕ
rounds start_ms end_ms = suc (end_ms - start_ms)

module _ (db : Database candle_key) (fetch : Fetch) where
  unfoldable pub in_table :
      Option String
      → (timeframe : Timeframe) → (since until : Time) → db.Conn
      → Option (Result ℕ × db.Conn)
  in_table none timeframe since until s = some (ok 0, s)
  in_table (some table) timeframe since until s =
      page_loop db fetch table (timeframe_ms timeframe) (to_ms until)
        (rounds (to_ms since) (to_ms until)) 0 (to_ms since) 0 s

  -- The semaphore, which bounds how many of these run at a time, is not modelled.
  unfoldable pub backfill_ohlcv :
      (timeframe : Timeframe) → (since until : Time) → db.Conn → Option (Result ℕ × db.Conn)
  unfolding in_table
  backfill_ohlcv timeframe since until s =
      in_table (timeframe_to_table timeframe) timeframe since until s
