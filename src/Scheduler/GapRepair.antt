-- ===== src/Scheduler/GapRepair.antt =====
-- ingest/scheduler/jobs.py: mexc_candles_backfill_1d_job_callable, which reads the candles of the last
-- 25 hours again. `symbols` is the outcome of the query of the listed symbols, `order` the turns of
-- the backfills, `began` and `now` the two readings of the clock, `closing` the outcome of the close.
use shortfire.Prelude.{
  ℕ, ◌-◌, ◌≤◌, ◌<◌, ◌≡◌, refl, sym, String, Bool, true, false, Option, none, some, List, [], ◌∷◌,
  Holds, inl, Result, ok, raised, Checked,
}
use shortfire.Prelude.Dicts.{Dict}
use shortfire.Prelude.Times.{Time, from_ms, to_ms}
use shortfire.Domain.Market.{Candle, Timeframe, m1}
use shortfire.Rows.{CandleRow, candle_key}
use shortfire.Storage.{Database}
use shortfire.Mexc.Backfill.{Fetch, candle_row, timeframe_ms}
use shortfire.Mexc.Backfill.Coverage.{Serves}
use shortfire.Mexc.Backfill.Sweep.{backfill_universe}
use shortfire.Mexc.Backfill.Interleaved.{sweep_covers}
use shortfire.Scheduler.Daily.{finally, finally-ok}
use mathlib.Core.Path.{subst}
use mathlib.Core.Option.{some-injective}

module _ (db : Database candle_key) (fetch : String → Timeframe → Fetch) where
  open db use {Conn, find}

  abbrev pub ended : Checked → Option (Result (Dict String ℕ)) × Conn → Option Checked × Conn
  ended closing (none, s) = (none, s)
  ended closing (some (ok results), s) = (some (finally closing (ok tt)), s)
  ended closing (some (raised e), s) = (some (finally closing (raised e)), s)

  -- `none` is a run that has not ended with these turns.
  unfoldable pub mexc_candles_backfill_1d_job_callable :
      (configured : Bool)
      → Result (List String)
      → (order : List ℕ) → (began now : Time) → Checked
      → Conn
      → Option Checked × Conn
  mexc_candles_backfill_1d_job_callable false symbols order began now closing s = (some (ok tt), s)
  mexc_candles_backfill_1d_job_callable true (raised e) order began now closing s =
      (some (raised e), s)
  mexc_candles_backfill_1d_job_callable true (ok []) order began now closing s = (some (ok tt), s)
  mexc_candles_backfill_1d_job_callable true (ok (x ∷ symbols)) order began now closing s =
      ended closing
        (backfill_universe db fetch (began - 90_000_000_000) now (x ∷ symbols) (m1 ∷ []) order s)

  ended-ok :
      (closing : Checked) (r : Option (Result (Dict String ℕ))) (s : Conn)
      → (ended closing (r, s)).0 ≡ some (ok tt)
      → (results : Dict String ℕ) × (r ≡ some (ok results)) × ((ended closing (r, s)).1 ≡ s)
  ended-ok closing none s h = cc
  ended-ok closing (some (ok results)) s h = (results, refl, refl)
  ended-ok closing (some (raised e)) s h =
      let fine : finally closing (raised e) ≡ ok tt = some-injective _ _ h in
      let never : raised e ≡ ok tt = finally-ok closing (raised e) fine in cc

  -- If the client serves the minute candles of a listed symbol and the job returns, then, in whichever
  -- order the pages of the symbols come, every candle of the symbol between 25 hours before the start of
  -- the job and its second reading of the clock, cut to whole milliseconds, has a row in the table.
  pub gaps_repaired :
      (listed : List String) (order : List ℕ) (began now : Time) (closing : Checked) (s : Conn)
      (symbol : String) (history : List Candle) (h : Candle)
      → Serves history (timeframe_ms m1) (fetch symbol m1)
      → Holds symbol listed
      → (mexc_candles_backfill_1d_job_callable true (ok listed) order began now closing s).0
        ≡ some (ok tt)
      → Holds h history
      → began - 90_000_000_000 ≤ h.ts.micros
      → h.ts.micros < from_ms (to_ms now)
      → (row : CandleRow) × (find
            (mexc_candles_backfill_1d_job_callable true (ok listed) order began now closing s).1
            "raw_mexc_candles_1m"
            (candle_key (candle_row h))
          ≡ some row)
  unfolding mexc_candles_backfill_1d_job_callable
  gaps_repaired [] order began now closing s symbol history h serves a done m after before =
      absurd a
  gaps_repaired (x ∷ listed) order began now closing s symbol history h serves a done m after
        before =
      let sweep =
        backfill_universe db fetch (began - 90_000_000_000) now (x ∷ listed) (m1 ∷ []) order s in
      let (results, e, same) = ended-ok closing sweep.0 sweep.1 done in
      subst
        (λ s'.
          (row : CandleRow) × (find s' "raw_mexc_candles_1m" (candle_key (candle_row h))
            ≡ some row))
        (sym same)
        (sweep_covers db fetch (began - 90_000_000_000) now (x ∷ listed) (m1 ∷ []) order s results
          symbol m1 "raw_mexc_candles_1m" history h refl serves a (inl refl) e m after before)
