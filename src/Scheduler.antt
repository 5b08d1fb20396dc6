-- ===== src/Scheduler.antt =====
-- ingest/scheduler/jobs.py: the Coinglass jobs and the poll of open interest, and the list of
-- schedules. The settings and the queries of the symbols table are parameters: whether a source is
-- configured, and the rows of the query. `client.close()` and log lines are not modelled.
pub mod Rotation
pub mod Starvation
pub mod Registry
pub mod Daily
pub mod GapRepair
mod Tests
use shortfire.Prelude.{
  ℕ, ◌+◌, ◌-◌, ◌%◌, min, String, Bool, true, false, Option, none, some, List, [], ◌∷◌, length, take,
  drop, Result, Error, ok, raised, ltb, if◌then◌else◌,
}
use shortfire.Prelude.Keys.{eq_string}
use shortfire.Prelude.Decimals.{Decimal}
use shortfire.Prelude.Dicts.{Dict, lookup, insert}
use shortfire.Prelude.Times.{Time}
use shortfire.Storage.{Database}
use shortfire.DeadLetter.{letter_key}
use shortfire.Effects.{World, M, Ambient, return, ◌>>=◌}
use shortfire.Retry.{Tenacity}
use shortfire.KvState.{State, RunTable, Json, load_kv_state, save_kv_state}
use shortfire.Coinglass.Schemas.{point_key, liq_key}
use shortfire.Coinglass.Client.{Outside}
use shortfire.Coinglass.Fetchers.{
  fetch_and_write_funding_agg, fetch_and_write_oi, fetch_and_write_liq, fetch_and_write_lsr,
}
use shortfire.Mexc.OpenInterest.{OpenInterest, oi_key, oi_round_robin_step}

-- (symbol, coinglass_symbol)
abbrev pub Pair : Type 0
Pair = String × String

abbrev pub or_zero : Option ℕ → ℕ
or_zero none = 0
or_zero (some n) = n

-- int(kv.get("last_symbol_index", 0)) % len(pairs)
unfoldable pub cursor : State → ℕ → ℕ
cursor kv n = or_zero (lookup "last_symbol_index" kv) % n

-- min(cursor + batch_size, len(pairs))
abbrev pub slice_end : ℕ → ℕ → ℕ → ℕ
slice_end batch_size from n = min (from + batch_size) n

-- pairs[cursor:end]
abbrev pub slice : List Pair → ℕ → ℕ → List Pair
slice pairs from to = take (to - from) (drop from pairs)

-- kv["last_symbol_index"] = end if end < len(pairs) else 0
abbrev pub moved : State → ℕ → ℕ → State
moved kv to n = insert "last_symbol_index" (if ltb to n then to else 0) kv

module _ {Row Key : Type 0} {key : Row → Key} (db : Database key) (dlq : Database letter_key) where
  -- The `for` loop over the slice: an exception of a fetch ends it.
  unfoldable pub fetch_all : (Pair → M db dlq ℕ) → List Pair → M db dlq (Unit {0})
  fetch_all fetch [] = return tt
  fetch_all fetch (p ∷ pairs) = do n ← fetch p; fetch_all fetch pairs

  module _ (json : Json) (runs : RunTable) (job_id : String) (id : ℕ) (now : Time) where
    -- A job's state: the world of its fetches, and the table of its cursor.
    abbrev pub JobWorld : Type 0
    JobWorld = World db dlq × runs.Conn

    abbrev pub saving : World db dlq → Result (Unit {0}) × runs.Conn → Result (Unit {0}) × JobWorld
    saving w (r, s) = (r, (w, s))

    -- What follows the fetches: their exception, or the save of the cursor.
    abbrev pub after_fetches :
        State → runs.Conn → Result (Unit {0}) × World db dlq → Result (Unit {0}) × JobWorld
    after_fetches kv s (raised e, w) = (raised e, (w, s))
    after_fetches kv s (ok u, w) = saving w (save_kv_state json runs id now job_id kv s)

    abbrev pub with_state :
        (batch_size : ℕ)
        → (Pair → M db dlq ℕ)
        → List Pair
        → JobWorld
        → Result State
        → Result (Unit {0}) × JobWorld
    with_state batch_size fetch pairs (w, s) (raised e) = (raised e, (w, s))
    with_state batch_size fetch pairs (w, s) (ok kv) =
        let n = length pairs in
        let from = cursor kv n in
        let to = slice_end batch_size from n in
        after_fetches (moved kv to n) s (fetch_all fetch (slice pairs from to) w)

    -- The body that the three round-robin jobs share, with `pairs` not empty.
    unfoldable pub rotate :
        (batch_size : ℕ) → (Pair → M db dlq ℕ) → List Pair → JobWorld → Result (Unit {0}) × JobWorld
    rotate batch_size fetch pairs (w, s) =
        with_state batch_size fetch pairs (w, s) (load_kv_state json runs job_id s)

    -- The guards: settings, the query of the pairs, and `if not pairs`.
    unfoldable pub round_robin :
        (configured : Bool)
        → Result (List Pair)
        → (batch_size : ℕ) → (Pair → M db dlq ℕ)
        → JobWorld
        → Result (Unit {0}) × JobWorld
    round_robin false pairs batch_size fetch jw = (ok tt, jw)
    round_robin true (raised e) batch_size fetch jw = (raised e, jw)
    round_robin true (ok []) batch_size fetch jw = (ok tt, jw)
    round_robin true (ok (p ∷ pairs)) batch_size fetch jw = rotate batch_size fetch (p ∷ pairs) jw

module _ {JsonValue : Type 0} (dlq : Database letter_key) (amb : Ambient) (out : Outside JsonValue)
    (tenacity : Tenacity) (json : Json) (runs : RunTable) (id : ℕ) (now : Time) where
  abbrev pub coinglass_oi_job_callable :
      (db : Database (point_key {V = Decimal}))
      → (configured : Bool) → Result (List Pair)
      → JobWorld db dlq json runs "coinglass.oi" id now
      → Result (Unit {0}) × JobWorld db dlq json runs "coinglass.oi" id now
  coinglass_oi_job_callable db configured pairs =
      round_robin db dlq json runs "coinglass.oi" id now configured pairs 5
        (λ p. fetch_and_write_oi dlq amb out tenacity db p.0 p.1 "1h")

  abbrev pub coinglass_liq_job_callable :
      (db : Database liq_key)
      → (configured : Bool) → Result (List Pair)
      → JobWorld db dlq json runs "coinglass.liq" id now
      → Result (Unit {0}) × JobWorld db dlq json runs "coinglass.liq" id now
  coinglass_liq_job_callable db configured pairs =
      round_robin db dlq json runs "coinglass.liq" id now configured pairs 3
        (λ p. fetch_and_write_liq dlq amb out tenacity db p.0 p.1 "1h")

  abbrev pub coinglass_lsr_job_callable :
      (db : Database (point_key {V = Option Decimal}))
      → (configured : Bool) → Result (List Pair)
      → JobWorld db dlq json runs "coinglass.lsr" id now
      → Result (Unit {0}) × JobWorld db dlq json runs "coinglass.lsr" id now
  coinglass_lsr_job_callable db configured pairs =
      round_robin db dlq json runs "coinglass.lsr" id now configured pairs 5
        (λ p. fetch_and_write_lsr dlq amb out tenacity db p.0 p.1 "1h")

  -- {r[1]: r[0] for r in rows}: a later row of the same coin takes the place of an earlier one.
  unfoldable pub mapping_of : List Pair → Dict String String → Dict String String
  mapping_of [] mapping = mapping
  mapping_of (p ∷ rows) mapping = mapping_of rows (insert p.1 p.0 mapping)

  -- `now` is also the clock of the writer. The number of rows that it returns is dropped.
  unfoldable pub coinglass_funding_agg_job_callable :
      (db : Database (point_key {V = Decimal}))
      → (configured : Bool) → Result (List Pair)
      → World db dlq
      → Result ℕ × World db dlq
  coinglass_funding_agg_job_callable db false rows w = (ok 0, w)
  coinglass_funding_agg_job_callable db true (raised e) w = (raised e, w)
  coinglass_funding_agg_job_callable db true (ok rows) w =
      fetch_and_write_funding_agg dlq amb out tenacity db (mapping_of rows []) now w

module _ (db : Database oi_key) (dlq : Database letter_key) (amb : Ambient)
    (client : String → M db dlq (List OpenInterest)) (json : Json) (runs : RunTable) (id : ℕ)
    (now : Time) where
  abbrev pub PollWorld : Type 0
  PollWorld = World db dlq × runs.Conn

  abbrev pub after_step : runs.Conn → Result State × World db dlq → Result (Unit {0}) × PollWorld
  after_step s (raised e, w) = (raised e, (w, s))
  after_step s (ok kv, w) =
      let (r, s') = save_kv_state json runs id now "mexc.oi.poll" kv s in (r, (w, s'))

  abbrev pub poll_with : List String → PollWorld → Result State → Result (Unit {0}) × PollWorld
  poll_with symbols (w, s) (raised e) = (raised e, (w, s))
  poll_with symbols (w, s) (ok kv) =
      after_step s (oi_round_robin_step db dlq amb client symbols 10 (some kv) w)

  unfoldable pub mexc_oi_poll_job_callable :
      (configured : Bool) → Result (List String) → PollWorld → Result (Unit {0}) × PollWorld
  mexc_oi_poll_job_callable false symbols jw = (ok tt, jw)
  mexc_oi_poll_job_callable true (raised e) jw = (raised e, jw)
  mexc_oi_poll_job_callable true (ok []) jw = (ok tt, jw)
  mexc_oi_poll_job_callable true (ok (sym ∷ symbols)) jw =
      poll_with (sym ∷ symbols) jw (load_kv_state json runs "mexc.oi.poll" jw.1)
