-- ===== src/Universe/Tests.antt =====
-- Runs of the jobs of the universe over tables in memory.
use shortfire.Prelude.{
  Checked, ℕ, zero, suc, ◌*◌, ◌≤◌, if◌then◌else◌, String, true, ◌≡◌, refl, none, some, List, [],
  ◌∷◌, length, Result, ok, arith,
}
use shortfire.Prelude.Keys.{eq_nat, eq_string, eq_pair, ◌==◌}
use shortfire.Prelude.Decimals.{pos, unit}
use shortfire.Prelude.Dicts.{Dict}
use shortfire.Prelude.Texts.{has_suffix}
use shortfire.Prelude.Times.{Time}
use shortfire.Storage.{Database, copy_into_hypertable, statements}
use shortfire.Storage.Memory.{empty, memory}
use mathlib.Core.Path.{subst}
use shortfire.DeadLetter.{letter_key}
use shortfire.Effects.{Ambient, request, write}
use shortfire.Scheduler.Daily.{universe_snapshot_job_callable, daily_ranks}
use shortfire.Universe.Tickers.{Ticker, Info, number, info_of, filter_qualifying_tickers}
use shortfire.Universe.Symbols.{SymbolRow, recompute_tier1, set_tiers, update_symbols, execute_all}
use shortfire.Universe.Snapshot.{universe_snapshot_job, store_snapshot, universe_at}
use shortfire.Universe.Listing.{StaysListed, State, job_updates}
use shortfire.Universe.Missed.{missed_day_keeps_listed}
use shortfire.Universe.Tiers.{IsTier1, tier1_bound}
use shortfire.Universe.Memory.{snapshot_lists, symbol_rows, Row, Rows, names, keep, good_names}

abbrev dlq : Database letter_key
dlq = memory letter_key

abbrev amb : Ambient
amb = record {
  stamps = λ n. record { id = n; now = 0 };
  wall = 7;
  type_name = λ e. "NetworkError";
  message = λ e. "bad";
  decode = λ b. "";
  str_int = λ n. "0";
}

abbrev ticker : Ticker
ticker = record { quote_volume = number (pos (600_000 * unit)); last = number (pos unit) }

abbrev tickers : Dict String Ticker
tickers = ("A/USDT:USDT", ticker) ∷ ("B/USDT", ticker) ∷ []

abbrev answers : ℕ → Result (Dict String Ticker)
answers n = ok tickers

filtered : filter_qualifying_tickers tickers ≡ ("A/USDT:USDT", info_of ticker) ∷ []
unfolding filter_qualifying_tickers has_suffix
filtered = refl

-- A row that is not in today's answer.
abbrev old_row : SymbolRow
old_row = record {
  mexc_native_symbol = "OLD_USDT";
  first_seen_at = 5;
  tier = 1;
  delisted_at = none;
}

abbrev with_old : Rows
with_old k = if k == "OLD/USDT:USDT" then some old_row else none

-- A snapshot of the second day, in which the old symbol was.
abbrev old_snapshot : Row
old_snapshot = record {
  snapshot_date = 1;
  symbol = "OLD/USDT:USDT";
  volume_24h_usd = pos (700_000 * unit);
  price_usd = none;
  is_qualifying = true;
  source = "mexc_native";
  quality_flag = "ok";
}

abbrev state : List Row → State (λ d. d) snapshot_lists symbol_rows dlq amb
state rows = record {
  world = record {
    conn = record { tables = λ t. rows; staging = λ t. none };
    dead = empty;
    drawn = 0;
    calls = 0;
    freshness = [];
    rows_total = [];
    reconnects_total = [];
  };
  symbols = with_old;
  universe_size = [];
}

-- In the third day.
abbrev third : Time
third = 172_800_000_005

abbrev run : List Row → Result ℕ × State (λ d. d) snapshot_lists symbol_rows dlq amb
run rows =
    universe_snapshot_job (λ d. d) snapshot_lists symbol_rows dlq amb third third answers
      (state rows)

runs : (run (old_snapshot ∷ [])).0 ≡ ok 1
unfolding universe_snapshot_job request store_snapshot filter_qualifying_tickers has_suffix write
    copy_into_hypertable statements update_symbols execute_all names
runs = refl

before_names :
    universe_at snapshot_lists (state (old_snapshot ∷ [])).world.conn 1 ≡ ok ("OLD/USDT:USDT" ∷ [])
unfolding names keep
before_names = refl

-- The qualifying symbols of the second day, after the run.
abbrev after_names : List String
after_names = good_names 1 (run (old_snapshot ∷ [])).1.world.conn

yesterday_names :
    snapshot_lists.symbols_on 1 (run (old_snapshot ∷ [])).1.world.conn ≡ ok ("OLD/USDT:USDT" ∷ [])
unfolding universe_snapshot_job request store_snapshot filter_qualifying_tickers has_suffix write
    copy_into_hypertable statements update_symbols execute_all names
yesterday_names = refl

abbrev info : Info
info = info_of ticker

job_updates_example :
    (run (old_snapshot ∷ [])).1.symbols "OLD/USDT:USDT"
    ≡ some (record old_row { delisted_at = some third })
job_updates_example =
    job_updates (λ d. d) snapshot_lists symbol_rows dlq amb third third answers
      (state (old_snapshot ∷ [])) 1 tickers ("A/USDT:USDT", info) [] ("OLD/USDT:USDT" ∷ []) refl
      filtered runs yesterday_names "OLD/USDT:USDT"

missed_day_keeps_listed_example :
    StaysListed
      (λ d. d)
      snapshot_lists
      symbol_rows
      dlq
      amb
      "OLD/USDT:USDT"
      with_old
      (run []).1.symbols
missed_day_keeps_listed_example =
    missed_day_keeps_listed (λ d. d) snapshot_lists symbol_rows dlq amb "OLD/USDT:USDT" third third
      answers (state []) (omega arith) (λ name. refl)

-- A query that gives one symbol, whatever the limit, and none for 0.
abbrev query : ℕ → Result (List String)
query zero = ok []
query (suc n) = ok ("NEW/USDT:USDT" ∷ [])

ranks :
    recompute_tier1 symbol_rows query 50 with_old
    ≡ (ok tt, (recompute_tier1 symbol_rows query 50 with_old).1)
unfolding recompute_tier1 set_tiers
ranks = refl

query-within : (n : ℕ) (l : List String) → query n ≡ ok l → length l ≤ n
query-within zero l e = let same : [] ≡ l = cc in subst (λ x. length x ≤ 0) same (omega arith)
query-within (suc n) l e =
    let same : "NEW/USDT:USDT" ∷ [] ≡ l = cc in subst (λ x. length x ≤ suc n) same (omega arith)

abbrev new_row : SymbolRow
new_row = record {
  mexc_native_symbol = "NEW_USDT";
  first_seen_at = 5;
  tier = 2;
  delisted_at = none;
}

abbrev with_new : Rows
with_new k = if k == "NEW/USDT:USDT" then some new_row else with_old k

ranks_new :
    recompute_tier1 symbol_rows query 50 with_new
    ≡ (ok tt, (recompute_tier1 symbol_rows query 50 with_new).1)
unfolding recompute_tier1 set_tiers
ranks_new = refl

new_first : IsTier1 symbol_rows (recompute_tier1 symbol_rows query 50 with_new).1 "NEW/USDT:USDT"
unfolding recompute_tier1 set_tiers
new_first = (record new_row { tier = 1 }, (refl, (refl, refl)))

tier1_bound_example : length {A = String} ("NEW/USDT:USDT" ∷ []) ≤ 50
tier1_bound_example =
    tier1_bound symbol_rows query 50 ("NEW/USDT:USDT" ∷ []) with_new
      (recompute_tier1 symbol_rows query 50 with_new).1 query-within refl (λ e. cc) ranks_new
      ("NEW/USDT:USDT" ∷ []) (λ m. absurd m, tt) (new_first, tt)

-- The job of the scheduler: the snapshot, the ranking, and a close that returns.
abbrev daily : Checked × State (λ d. d) snapshot_lists symbol_rows dlq amb
daily =
    universe_snapshot_job_callable (λ d. d) snapshot_lists symbol_rows dlq amb true third third
      answers query (ok tt) (state (old_snapshot ∷ []))

daily_runs : daily.0 ≡ ok tt
unfolding universe_snapshot_job_callable universe_snapshot_job request store_snapshot
    filter_qualifying_tickers has_suffix write copy_into_hypertable statements update_symbols
    execute_all names recompute_tier1 set_tiers
daily_runs = refl

daily_names : snapshot_lists.symbols_on 1 daily.1.world.conn ≡ ok ("OLD/USDT:USDT" ∷ [])
unfolding universe_snapshot_job_callable universe_snapshot_job request store_snapshot
    filter_qualifying_tickers has_suffix write copy_into_hypertable statements update_symbols
    execute_all names recompute_tier1 set_tiers
daily_names = refl

daily_ranks_example :
    daily.1.symbols "OLD/USDT:USDT" ≡ some (record old_row { delisted_at = some third })
daily_ranks_example =
    daily_ranks (λ d. d) snapshot_lists symbol_rows dlq amb third third answers query (ok tt)
      (state (old_snapshot ∷ [])) tickers ("A/USDT:USDT", info) [] ("OLD/USDT:USDT" ∷ [])
      ("NEW/USDT:USDT" ∷ []) refl filtered refl (λ e. cc) daily_runs daily_names "OLD/USDT:USDT"
