-- ===== src/Mexc/Backfill/Sweep.antt =====
-- backfill_universe of ingest/mexc/backfill.py: the backfills of many symbols, which run at a time.
-- A run is a list of turns, each the number of the task that goes through its next page; a fetch and
-- the transaction of its rows are one turn, as a fetch does not read the tables. The semaphore allows
-- fewer of these runs. A task group that is cancelled takes no more turns.
use Prim.Native.String.{◌++◌ as append}
use shortfire.Prelude.{
  ℕ, zero, suc, ◌+◌, String, Option, none, some, List, [], ◌∷◌, ◌++◌, map, Result, Error, ok,
  raised, ltb, if◌then◌else◌,
}
use shortfire.Prelude.Keys.{eq_string, eq_pair}
use shortfire.Prelude.Dicts.{Dict, lookup}
use shortfire.Prelude.Times.{Time, from_ms, to_ms}
use shortfire.Domain.Market.{Candle, Timeframe, m1, m5, m15, h1, h4, d1}
use shortfire.Rows.{candle_key}
use shortfire.Storage.{Database, copy_into_hypertable}
use shortfire.Mexc.Backfill.{Fetch, candle_row, next_cursor, timeframe_ms, timeframe_to_table}

abbrev pub timeframe_text : Timeframe → String
timeframe_text m1 = "1m"
timeframe_text m5 = "5m"
timeframe_text m15 = "15m"
timeframe_text h1 = "1h"
timeframe_text h4 = "4h"
timeframe_text d1 = "1d"

-- f"{sym}.{tf}"
abbrev pub result_name : String → Timeframe → String
result_name sym tf = append sym (append "." (timeframe_text tf))

-- A backfill between two pages, or its end.
pub data Progress : Type 0 where
  running : (cursor total : ℕ) → Progress
  returned : ℕ → Progress
  failed : Error → Progress

pub record Task : Type 0 where
  pub symbol : String
  pub timeframe : Timeframe
  pub progress : Progress

module _ (db : Database candle_key) (fetch : String → Timeframe → Fetch) (since until : Time) where
  pub record Sweep : Type 0 where
    pub tasks : List Task
    pub conn : db.Conn
    pub calls : ℕ

  abbrev pub after_copy : (next total : ℕ) → Result ℕ × db.Conn → Progress × db.Conn
  after_copy next total (raised e, s) = (failed e, s)
  after_copy next total (ok n, s) = (running next (total + n), s)

  abbrev pub after_page :
      (table : String) (step total : ℕ) → db.Conn → Result (List Candle) → Progress × db.Conn
  after_page table step total s (raised e) = (failed e, s)
  after_page table step total s (ok []) = (returned total, s)
  after_page table step total s (ok (c ∷ cs)) =
      after_copy (next_cursor step c cs) total
        (copy_into_hypertable db table (map candle_row (c ∷ cs)) s)

  -- One round of the `while` of backfill_ohlcv, or its end; a timeframe without a table is at its end
  -- at once.
  unfoldable pub next_page :
      String → Timeframe → Option String → (call cursor total : ℕ) → db.Conn → Progress × db.Conn
  next_page symbol timeframe none call cursor total s = (returned 0, s)
  next_page symbol timeframe (some table) call cursor total s =
      let page =
        after_page table (timeframe_ms timeframe) total s
          (fetch symbol timeframe call (from_ms cursor) (from_ms (to_ms until))) in
      if ltb cursor (to_ms until) then page else (returned total, s)

  unfoldable pub advance_task : ℕ → Task → db.Conn → Progress × db.Conn
  advance_task call t s = from_progress t.progress s
    where
      from_progress : Progress → db.Conn → Progress × db.Conn
      from_progress (running cursor total) s =
          next_page t.symbol t.timeframe (timeframe_to_table t.timeframe) call cursor total s
      from_progress (returned n) s = (returned n, s)
      from_progress (failed e) s = (failed e, s)

  unfoldable pub turn_at : ℕ → ℕ → List Task → db.Conn → List Task × db.Conn
  turn_at call i [] s = ([], s)
  turn_at call zero (t ∷ tasks) s =
      let (p, s') = advance_task call t s in (record t { progress = p } ∷ tasks, s')
  turn_at call (suc i) (t ∷ tasks) s = let (tasks', s') = turn_at call i tasks s in (t ∷ tasks', s')

  unfoldable pub turn : ℕ → Sweep → Sweep
  turn i w =
      let (tasks, s) = turn_at w.calls i w.tasks w.conn in
      record { tasks = tasks; conn = s; calls = suc w.calls }

  unfoldable pub turns : List ℕ → Sweep → Sweep
  turns [] w = w
  turns (i ∷ is) w = turns is (turn i w)

  -- tg.create_task(backfill_ohlcv(…)), for each symbol and timeframe
  abbrev pub started : String → Timeframe → Task
  started sym tf = record { symbol = sym; timeframe = tf; progress = running (to_ms since) 0 }

  unfoldable pub tasks_of : List String → List Timeframe → List Task
  tasks_of [] timeframes = []
  tasks_of (sym ∷ symbols) timeframes = map (started sym) timeframes ++ tasks_of symbols timeframes

  -- The end of the task group: nothing while a task runs, an exception if one failed, or the counts
  -- by symbol and timeframe, of tasks with one name that of the last.
  abbrev pub keep_result : String → ℕ → Dict String ℕ → Option ℕ → Dict String ℕ
  keep_result name n results none = (name, n) ∷ results
  keep_result name n results (some later) = results

  abbrev pub with_result :
      String → Progress → Option (Result (Dict String ℕ)) → Option (Result (Dict String ℕ))
  with_result name (failed e) rest = some (raised e)
  with_result name (running cursor total) (some (raised e)) = some (raised e)
  with_result name (running cursor total) _ = none
  with_result name (returned n) none = none
  with_result name (returned n) (some (raised e)) = some (raised e)
  with_result name (returned n) (some (ok results)) =
      some (ok (keep_result name n results (lookup name results)))

  unfoldable pub results_of : List Task → Option (Result (Dict String ℕ))
  results_of [] = some (ok [])
  results_of (t ∷ tasks) =
      with_result (result_name t.symbol t.timeframe) t.progress (results_of tasks)

  -- backfill_universe with the turns that its tasks take.
  unfoldable pub backfill_universe :
      List String → List Timeframe → List ℕ → db.Conn → Option (Result (Dict String ℕ)) × db.Conn
  backfill_universe symbols timeframes order s =
      let w = turns order (record { tasks = tasks_of symbols timeframes; conn = s; calls = 0 }) in
      (results_of w.tasks, w.conn)
