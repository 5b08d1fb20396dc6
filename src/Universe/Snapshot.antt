-- ===== src/Universe/Snapshot.antt =====
-- universe_snapshot_job and universe_at of ingest/universe/snapshot.py. The exchange and the queries
-- of PostgreSQL are parameters. The hooks for unit tests, event registrations and log lines are not
-- modelled.
use shortfire.Prelude.{
  ℕ, ◌-◌, ◌/◌, String, Bool, true, Option, none, some, List, [], ◌∷◌, map, length, ◌≡◌, ◌≢◌, ◌↔◌,
  Holds, Result, ok, raised,
}
use shortfire.Prelude.Keys.{eq_string}
use shortfire.Prelude.Decimals.{Decimal}
use shortfire.Prelude.Dicts.{Dict, insert}
use shortfire.Prelude.Times.{Time}
use shortfire.Storage.{Database}
use shortfire.DeadLetter.{letter_key, text}
use shortfire.Effects.{World, Ambient, request, write, dead_letter}
use shortfire.Universe.Tickers.{
  Ticker, Info, symbols_of, filter_qualifying_tickers, count_qualifying,
}
use shortfire.Universe.Symbols.{SymbolTable, update_symbols}

-- A day, counted from 1970 in UTC. `timedelta(days=1)` before the first is not modelled.
abbrev pub Day : Type 0
Day = ℕ

-- datetime.now(UTC).date()
abbrev pub date_of : Time → Day
date_of t = t / 86_400_000_000

pub record SnapshotRow (Float : Type 0) : Type 0 where
  pub snapshot_date : Day
  pub symbol : String
  pub volume_24h_usd : Float
  pub price_usd : Option Float
  pub is_qualifying : Bool
  pub source : String
  pub quality_flag : String

-- conflict_columns=("snapshot_date", "symbol")
abbrev pub snapshot_key : {Float : Type 0} → SnapshotRow Float → Day × String
snapshot_key r = (r.snapshot_date, r.symbol)

abbrev pub snapshots_table : String
snapshots_table = "universe_snapshots"

module _ {Float : Type 0} (float : Decimal → Float) where
  abbrev pub price_float : Option Decimal → Option Float
  price_float none = none
  price_float (some d) = some (float d)

  abbrev pub snapshot_row : Day → String × Info → SnapshotRow Float
  snapshot_row day (sym, info) = record {
    snapshot_date = day;
    symbol = sym;
    volume_24h_usd = float info.volume_24h_usd;
    price_usd = price_float info.price_usd;
    is_qualifying = info.is_qualifying;
    source = "mexc_native";
    quality_flag = "ok";
  }

-- The table universe_snapshots, with the two queries on it.
pub record Snapshots (Float : Type 0) : Type 1 where
  pub db : Database (snapshot_key {Float = Float})
  -- SELECT symbol … WHERE snapshot_date = :y
  pub symbols_on : Day → db.Conn → Result (List String)
  -- SELECT symbol … WHERE snapshot_date = :d AND is_qualifying = TRUE
  pub qualifying_on : Day → db.Conn → Result (List String)
  pub symbols_on-exact :
      (d : Day) (s : db.Conn) (l : List String)
      → symbols_on d s ≡ ok l
      → (sym : String) → Holds sym l ↔ (db.find s snapshots_table (d, sym) ≢ none)
  pub qualifying_on-exact :
      (d : Day) (s : db.Conn) (l : List String)
      → qualifying_on d s ≡ ok l
      → (sym : String)
      → Holds sym l ↔ (
          (r : SnapshotRow Float) × ((db.find s snapshots_table (d, sym) ≡ some r)
            × (r.is_qualifying ≡ true)))

module _ {Float : Type 0} (float : Decimal → Float) (snapshots : Snapshots Float)
    (table : SymbolTable) (dlq : Database letter_key) (amb : Ambient) where
  -- The tables and metrics of the ingest, the symbols, and the gauge by status.
  pub record JobState : Type 0 where
    pub world : World snapshots.db dlq
    pub symbols : table.State
    pub universe_size : Dict String ℕ

  abbrev pub with_world : JobState → World snapshots.db dlq → JobState
  with_world j w = record j { world = w }

  -- metrics.universe_symbols_count
  abbrev pub set_gauges : Dict String Info → Dict String ℕ → Dict String ℕ
  set_gauges qualifying g =
      let n = count_qualifying qualifying in
      insert "non_qualifying" (length qualifying - n) (insert "qualifying" n g)

  -- Steps 5 to 7.
  abbrev pub finish :
      ℕ → Dict String Info → JobState → Result (Unit {0}) × table.State → Result ℕ × JobState
  finish n qualifying j (raised e, s) = (raised e, record j { symbols = s })
  finish n qualifying j (ok u, s) =
      (ok n, record j { symbols = s; universe_size = set_gauges qualifying j.universe_size })

  -- Step 4: the query for the day before, and what follows it.
  abbrev pub diff :
      Time → ℕ → Dict String Info → JobState → Result (List String) → Result ℕ × JobState
  diff now n qualifying j (raised e) = (raised e, j)
  diff now n qualifying j (ok yesterday_set) =
      finish n qualifying j
        (update_symbols table now (symbols_of qualifying) yesterday_set j.symbols)

  -- What follows the write of the snapshot.
  abbrev pub after_write :
      (start now : Time)
      → Dict String Info
      → JobState
      → Result ℕ × World snapshots.db dlq
      → Result ℕ × JobState
  after_write start now qualifying j (raised e, w) = (raised e, with_world j w)
  after_write start now qualifying j (ok n, w) =
      diff now n qualifying (with_world j w) (snapshots.symbols_on (date_of start - 1) w.conn)

  unfoldable pub store_snapshot :
      (start now : Time) → Dict String Info → JobState → Result ℕ × JobState
  store_snapshot start now [] j = (ok 0, j)
  store_snapshot start now (entry ∷ entries) j =
      after_write start now (entry ∷ entries) j
        (write snapshots_table (map (snapshot_row float (date_of start)) (entry ∷ entries)) j.world)

  -- What follows load_markets and fetch_tickers. An exception of the dead letter is dropped.
  abbrev pub after_fetch :
      (start now : Time)
      → JobState
      → Result (Dict String Ticker) × World snapshots.db dlq
      → Result ℕ × JobState
  after_fetch start now j (raised e, w) =
      (ok 0, with_world j (dead_letter amb "mexc_native" "fetch_tickers" none (text "") e w).1)
  after_fetch start now j (ok tickers, w) =
      store_snapshot start now (filter_qualifying_tickers tickers) (with_world j w)

  -- `start` is the clock at the start, `now` that of the transaction on the symbols.
  unfoldable pub universe_snapshot_job :
      (start now : Time) → (ℕ → Result (Dict String Ticker)) → JobState → Result ℕ × JobState
  universe_snapshot_job start now answers j = after_fetch start now j (request answers j.world)

-- Return the symbols that were qualifying on that day.
abbrev pub universe_at :
    {Float : Type 0} (snapshots : Snapshots Float) → snapshots.db.Conn → Day → Result (List String)
universe_at snapshots s day = snapshots.qualifying_on day s
