-- ===== src/Scheduler/Daily.antt =====
-- ingest/scheduler/jobs.py: the job of the universe, which takes the snapshot and then ranks the
-- symbols, and the job of CoinGecko. `closing` is the outcome of the close of the client in the
-- `finally` clause.
use shortfire.Prelude.{
  ℕ, ◌-◌, String, Bool, true, false, Option, List, [], ◌∷◌, ◌≡◌, ◌≢◌, ◌∙◌, refl, ap, Result, ok,
  raised, Checked, not,
}
use shortfire.Prelude.Keys.{eq_string, contains}
use shortfire.Prelude.Decimals.{Decimal}
use shortfire.Prelude.Dicts.{Dict}
use shortfire.Prelude.Times.{Time}
use shortfire.Storage.{Database}
use shortfire.DeadLetter.{letter_key}
use shortfire.Effects.{World, M, Ambient}
use shortfire.Universe.Tickers.{Ticker, Info, symbols_of, filter_qualifying_tickers}
use shortfire.Universe.Symbols.{tiered, SymbolTable, recompute_tier1}
use shortfire.Universe.Snapshot.{JobState, Snapshots, date_of, universe_snapshot_job}
use shortfire.Universe.Tiers.{recompute-row}
use shortfire.Universe.Listing.{row_after, job_updates}
use shortfire.Coingecko.{market_key, CoinsMarketsRow, fetch_and_write_daily}

-- `try … finally: await client.close()`: an exception of the close takes the place of the outcome.
abbrev pub finally : Checked → Checked → Checked
finally (ok done) r = r
finally (raised e) r = raised e

pub finally-ok : (closing r : Checked) → finally closing r ≡ ok tt → r ≡ ok tt
finally-ok (ok done) r h = h
finally-ok (raised e) r h = cc

module _ {Float : Type 0} (float : Decimal → Float) (snapshots : Snapshots Float)
    (table : SymbolTable) (dlq : Database letter_key) (amb : Ambient) where
  abbrev pub State : Type 0
  State = JobState float snapshots table dlq amb

  -- What follows the snapshot: its exception, or the ranking, also where it counted no rows.
  abbrev pub then_rank :
      (top : ℕ → Result (List String)) → Checked → Result ℕ × State → Checked × State
  then_rank top closing (raised e, j) = (finally closing (raised e), j)
  then_rank top closing (ok n, j) =
      let (r, s) = recompute_tier1 table top 50 j.symbols in
      (finally closing r, record j { symbols = s })

  unfoldable pub universe_snapshot_job_callable :
      (configured : Bool)
      → (start now : Time) → (ℕ → Result (Dict String Ticker))
      → (ℕ → Result (List String))
      → Checked
      → State
      → Checked × State
  universe_snapshot_job_callable false start now answers top closing j = (ok tt, j)
  universe_snapshot_job_callable true start now answers top closing j =
      then_rank top closing
        (universe_snapshot_job float snapshots table dlq amb start now answers j)

  then_rank-ok :
      (top : ℕ → Result (List String)) (closing : Checked) (q : Result ℕ × State)
      → (then_rank top closing q).0 ≡ ok tt
      → (n : ℕ) × (q.0 ≡ ok n)
        × (recompute_tier1 table top 50 q.1.symbols ≡ (ok tt, (then_rank top closing q).1.symbols))
        × (q.1.world ≡ (then_rank top closing q).1.world)
  then_rank-ok top closing (raised e, j) h =
      let never : raised e ≡ ok tt = finally-ok closing (raised e) h in cc
  then_rank-ok top closing (ok n, j) h =
      let ranked = recompute_tier1 table top 50 j.symbols in
      let done : ranked.0 ≡ ok tt = finally-ok closing ranked.0 h in
      (n, refl, ap (λ r. (r, ranked.1)) done, refl)

  -- A run of the job that returns, with a snapshot and an answer of the query that are not empty: every
  -- row of the table symbols is first updated by the snapshots of the two days, and then gets its tier
  -- by the answer, unless it is delisted. So a symbol that is new is ranked on its first day.
  pub daily_ranks :
      (start now : Time) (answers : ℕ → Result (Dict String Ticker))
      (query : ℕ → Result (List String)) (closing : Checked) (j : State)
      (tickers : Dict String Ticker) (x : String × Info) (rest : Dict String Info)
      (yesterday top : List String)
      → answers j.world.calls ≡ ok tickers
      → filter_qualifying_tickers tickers ≡ x ∷ rest
      → query 50 ≡ ok top
      → top ≢ []
      → let done = universe_snapshot_job_callable true start now answers query closing j in
        done.0 ≡ ok tt
        → snapshots.symbols_on (date_of start - 1) done.1.world.conn ≡ ok yesterday
        → (k : String)
        → table.row done.1.symbols k
          ≡ tiered 2 (not (contains k top)) (
              tiered 1 (contains k top) (
                row_after float snapshots table dlq amb now
                  (symbols_of (x ∷ rest))
                  yesterday
                  k
                  (table.row j.symbols k)))
  unfolding universe_snapshot_job_callable
  daily_ranks start now answers query closing j tickers x rest yesterday top e f asked ne done at
        k =
      let snap = universe_snapshot_job float snapshots table dlq amb start now answers j in
      let (n, counted, ranked, same) = then_rank-ok query closing snap done in
      let updated =
        job_updates float snapshots table dlq amb start now answers j n tickers x rest yesterday e f
          counted
          (ap (λ (w : World snapshots.db dlq). snapshots.symbols_on (date_of start - 1) w.conn) same
            ∙ at)
          k in
      recompute-row table query 50 top snap.1.symbols (then_rank query closing snap).1.symbols asked
        ne ranked k
      ∙ ap (λ o. tiered 2 (not (contains k top)) (tiered 1 (contains k top) o)) updated

module _ (db : Database market_key) (dlq : Database letter_key) (upper : String → String)
    (client : M db dlq (Option (List CoinsMarketsRow))) where
  abbrev pub closed_after : Checked → Result ℕ × World db dlq → Checked × World db dlq
  closed_after closing (ok n, w) = (finally closing (ok tt), w)
  closed_after closing (raised e, w) = (finally closing (raised e), w)

  unfoldable pub coingecko_universe_job_callable :
      (configured : Bool) → Time → Checked → World db dlq → Checked × World db dlq
  coingecko_universe_job_callable false ts closing w = (ok tt, w)
  coingecko_universe_job_callable true ts closing w =
      closed_after closing (fetch_and_write_daily db dlq upper client ts w)
