-- ===== src/Mexc/Backfill/SweepTests.antt =====
-- Two symbols with two candles each, one to a page, and the turns of their backfills mixed.
use shortfire.Prelude.{
  ℕ, zero, suc, ◌≤◌, ◌<◌, ◌≡◌, refl, inl, inr, true, String, some, List, [], ◌∷◌, Result, ok,
  length, arith, leb, if◌then◌else◌,
}
use shortfire.Prelude.Keys.{eq_string, eq_nat, eq_pair}
use shortfire.Prelude.Dicts.{Dict, lookup}
use shortfire.Prelude.Decimals.{pos}
use shortfire.Prelude.Texts.{count}
use shortfire.Prelude.Times.{Time, aware}
use shortfire.Domain.Market.{Candle, mexc_native, Timeframe, m1}
use shortfire.Rows.{CandleRow, candle_key}
use shortfire.Storage.{Database, statements, copy_into_hypertable}
use shortfire.Storage.Memory.{empty, memory}
use shortfire.Mexc.Backfill.{Fetch, candle_row}
use shortfire.Mexc.Backfill.Pages.{StartsAtSince}
use shortfire.Mexc.Backfill.Coverage.{Serves}
use shortfire.Mexc.Backfill.Sweep.{
  backfill_universe, turns, turn, turn_at, advance_task, next_page, tasks_of, results_of,
}
use shortfire.Mexc.Backfill.Interleaved.{sweep_covers}
use shortfire.Mexc.Backfill.Turns.{sweep_ends}
use shortfire.Scheduler.GapRepair.{mexc_candles_backfill_1d_job_callable, gaps_repaired}

abbrev db : Database candle_key
db = memory candle_key

abbrev candle_of : String → ℕ → Candle
candle_of sym ts = record {
  symbol = sym;
  source = mexc_native;
  timeframe = m1;
  ts = aware ts;
  open_price = pos 1;
  high = pos 2;
  low = pos 1;
  close = pos 2;
  volume = pos 5;
}

abbrev history : String → List Candle
history sym = candle_of sym 60_000_000 ∷ candle_of sym 120_000_000 ∷ []

abbrev page : String → Time → List Candle
page sym since =
    if leb since 60_000_000
    then candle_of sym 60_000_000 ∷ []
    else if leb since 120_000_000
    then candle_of sym 120_000_000 ∷ []
    else []

abbrev fetches : String → Timeframe → Fetch
fetches sym tf k since until = ok (page sym since)

starts : (sym : String) (tf : Timeframe) → StartsAtSince (fetches sym tf)
starts sym tf k since until c cs e = ground arith

fetches-Serves : Serves (history "ETH") 60_000 (fetches "ETH" m1)
fetches-Serves = record {
  starts = starts "ETH" m1;
  no_gap = λ k since until c cs h e m a b. ground arith;
  no_more = λ k since until h e m a. ground arith;
  apart = λ k since until c cs h e m a. ground arith;
}

abbrev names : List String
names = "BTC" ∷ "ETH" ∷ []

abbrev mixed : List ℕ
mixed = 0 ∷ 1 ∷ 1 ∷ 0 ∷ 0 ∷ 1 ∷ []

mixed_run :
    (results : Dict String ℕ) × ((backfill_universe db fetches 60_000_000 180_000_000 names
        (m1 ∷ [])
        mixed
        empty).0
      ≡ some (ok results))
unfolding backfill_universe turns turn turn_at advance_task next_page tasks_of results_of
    copy_into_hypertable statements lookup
mixed_run = (_, refl)

counts : mixed_run.0 ≡ ("BTC.1m", 2) ∷ ("ETH.1m", 2) ∷ []
unfolding mixed_run
counts = refl

eth_stored :
    (row : CandleRow) × ((backfill_universe db fetches 60_000_000 180_000_000 names
          (m1 ∷ [])
          mixed
          empty).1.rows
        "raw_mexc_candles_1m"
        (candle_key (candle_row (candle_of "ETH" 120_000_000)))
      ≡ some row)
eth_stored =
    sweep_covers db fetches 60_000_000 180_000_000 names (m1 ∷ []) mixed empty mixed_run.0 "ETH" m1
      "raw_mexc_candles_1m" (history "ETH") (candle_of "ETH" 120_000_000) refl fetches-Serves
      (inr (inl refl)) (inl refl) mixed_run.1 (inr (inl refl)) (omega arith) (omega arith)

-- A window of two milliseconds.
three_turns :
    (j : ℕ)
    → j < length (tasks_of db fetches 60_000_000 60_002_000 names (m1 ∷ []))
    → 3 ≤ count j mixed
unfolding tasks_of
three_turns zero h = omega arith
three_turns (suc zero) h = omega arith
three_turns (suc (suc j)) h = absurd (omega (arith, h))

sweep_ends_example :
    (r : Result (Dict String ℕ)) × ((backfill_universe db fetches 60_000_000 60_002_000 names
        (m1 ∷ [])
        mixed
        empty).0
      ≡ some r)
sweep_ends_example =
    sweep_ends db fetches 60_000_000 60_002_000 starts names (m1 ∷ []) mixed empty three_turns

-- The job at one minute after 25 hours.
repairs :
    (mexc_candles_backfill_1d_job_callable db fetches true
      (ok names)
      mixed
      90_060_000_000
      90_060_000_000
      (ok tt)
      empty).0
    ≡ some (ok tt)
unfolding mexc_candles_backfill_1d_job_callable backfill_universe turns turn turn_at advance_task
    next_page tasks_of results_of copy_into_hypertable statements lookup
repairs = refl

gaps_repaired_example :
    (row : CandleRow) × ((mexc_candles_backfill_1d_job_callable db fetches true
          (ok names)
          mixed
          90_060_000_000
          90_060_000_000
          (ok tt)
          empty).1.rows
        "raw_mexc_candles_1m"
        (candle_key (candle_row (candle_of "ETH" 60_000_000)))
      ≡ some row)
gaps_repaired_example =
    gaps_repaired db fetches names mixed 90_060_000_000 90_060_000_000 (ok tt) empty "ETH"
      (history "ETH") (candle_of "ETH" 60_000_000) fetches-Serves (inr (inl refl)) repairs
      (inl refl) (omega arith) (omega arith)
