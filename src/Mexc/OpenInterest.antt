-- ===== src/Mexc/OpenInterest.antt =====
-- `oi_round_robin_step` of ingest/mexc/oi.py: which symbols a step polls, what it writes, and where
-- the next step starts. The client is a parameter: an action for each symbol.
pub mod Fairness
mod Tests
use shortfire.Prelude.{
  ℕ, zero, suc, ◌+◌, ◌-◌, ◌%◌, max, min, String, Option, none, some, List, [], ◌∷◌, ◌++◌, map,
  length, take, drop, ltb, if◌then◌else◌,
}
use shortfire.Prelude.Keys.{eq_string, add}
use shortfire.Prelude.Decimals.{Decimal, pos}
use shortfire.Prelude.Times.{Time, from_ms}
use shortfire.Prelude.Dicts.{lookup, insert}
use shortfire.Rows.{Point}
use shortfire.Storage.{Database}
use shortfire.DeadLetter.{letter_key, text}
use shortfire.Effects.{
  M, Ambient, return, catch, ◌>>=◌, ◌>>◌, write, mark_fresh, inc_rows, dead_letter,
}
use shortfire.KvState.{State}

-- kv_state.get("last_symbol_index", 0)
abbrev pub cursor_or_zero : Option ℕ → ℕ
cursor_or_zero none = 0
cursor_or_zero (some n) = n

-- start = kv_state.get("last_symbol_index", 0) % max(len(symbols), 1)
unfoldable pub start : Option ℕ → ℕ → ℕ
start last_symbol_index n = cursor_or_zero last_symbol_index % max n 1

-- end = min(start + batch_size, len(symbols))
abbrev pub end : ℕ → ℕ → ℕ → ℕ
end batch_size from n = min (from + batch_size) n

-- symbols[start:end]
abbrev pub symbol_slice : List String → ℕ → ℕ → List String
symbol_slice symbols from to = take (to - from) (drop from symbols)

-- The symbols that a step polls.
unfoldable pub polled_slice : List String → (batch_size : ℕ) → State → List String
polled_slice symbols batch_size kv_state =
    let from = start (lookup "last_symbol_index" kv_state) (length symbols) in
    symbol_slice symbols from (end batch_size from (length symbols))

-- end if end < len(symbols) else 0
abbrev pub next_index : ℕ → ℕ → ℕ
next_index to n = if ltb to n then to else 0

-- The cursor after a step.
unfoldable pub advance : (n batch_size : ℕ) → Option ℕ → ℕ
advance n batch_size last_symbol_index = next_index (end batch_size (start last_symbol_index n) n) n

-- The fields of MexcOpenInterestRow that the step reads.
pub record OpenInterest : Type 0 where
  pub timestamp : ℕ
  pub amount : Option Decimal

-- conflict_columns=("symbol", "ts")
abbrev pub oi_key : Point Decimal → String × Time
oi_key r = (r.symbol, r.ts)

abbrev pub or_sentinel : Option Decimal → Decimal
or_sentinel none = pos 0
or_sentinel (some d) = d

abbrev pub oi_row : String → OpenInterest → Point Decimal
oi_row sym row = record {
  symbol = sym;
  ts = from_ms row.timestamp;
  value = or_sentinel row.amount;
  source = "mexc_native";
  quality_flag = "ok";
}

-- {r[0] for r in records}
abbrev pub polled_symbols : List (Point Decimal) → List String
polled_symbols [] = []
polled_symbols (r ∷ rs) = add r.symbol (polled_symbols rs)

-- {"last_symbol_index": 0} for None
abbrev pub or_initial : Option State → State
or_initial none = ("last_symbol_index", 0) ∷ []
or_initial (some kv) = kv

module _ (db : Database oi_key) (dlq : Database letter_key) (amb : Ambient)
    (client : String → M db dlq (List OpenInterest)) where
  -- The body of the `for` loop.
  unfoldable pub poll_symbol : String → List (Point Decimal) → M db dlq (List (Point Decimal))
  poll_symbol sym records =
      catch (client sym >>= λ rows. return (records ++ map (oi_row sym) rows)) (λ e.
        dead_letter amb "mexc_native" "fetch_open_interest_history" (some sym) (text "") e
        >> return records)

  unfoldable pub poll_symbols : List String → List (Point Decimal) → M db dlq (List (Point Decimal))
  poll_symbols [] records = return records
  poll_symbols (sym ∷ symbols) records = do
    records' ← poll_symbol sym records
    poll_symbols symbols records'

  -- `if records:`
  unfoldable pub store_records : List (Point Decimal) → M db dlq (Unit {0})
  store_records [] = return tt
  store_records (r ∷ rs) = do
    n ← write "raw_mexc_oi" (r ∷ rs)
    mark_fresh amb.wall "mexc_native" "oi" (polled_symbols (r ∷ rs))
    inc_rows ("mexc_native", "oi") n

  unfoldable pub step_from : List String → (batch_size : ℕ) → State → M db dlq State
  step_from symbols batch_size kv_state = do
    records ← poll_symbols (polled_slice symbols batch_size kv_state) []
    store_records records
    return (
        insert "last_symbol_index"
          (advance (length symbols) batch_size (lookup "last_symbol_index" kv_state)) kv_state)

  abbrev pub oi_round_robin_step : List String → (batch_size : ℕ) → Option State → M db dlq State
  oi_round_robin_step symbols batch_size kv_state =
      step_from symbols batch_size (or_initial kv_state)
