-- ===== src/Mexc/Feeds/Trades.antt =====
-- trades_persist_loop of ingest/mexc/trades.py: one round of the loop for each answer of the exchange,
-- over the buffer and the time of the last flush.
pub mod Tape
mod Tests
use shortfire.Prelude.{
  ℕ, ◌-◌, String, Option, none, some, List, [], ◌∷◌, ◌++◌, Result, Error, ok, raised, value_error,
  leb, if◌then◌else◌,
}
use shortfire.Prelude.Keys.{eq_string, add}
use shortfire.Prelude.Decimals.{Decimal}
use shortfire.Prelude.Times.{Time, from_ms}
use shortfire.Storage.{Database}
use shortfire.DeadLetter.{letter_key, prefix, text}
use shortfire.Effects.{
  M, Ambient, return, ◌>>=◌, ◌>>◌, write, mark_fresh, inc_rows, inc_reconnects, dead_letter,
}

-- A trade as ccxt delivers it. For `symbol`, `id` and `side`: `none` for a key that is absent,
-- `some none` for the value None. For the others: `none` also for a value that its conversion refuses,
-- as each of the three refuses None.
pub record RawTrade : Type 0 where
  pub symbol : Option (Option String)
  pub timestamp : Option ℕ
  pub trade_id : Option (Option String)
  pub trade_side : Option (Option String)
  pub price : Option Decimal
  pub amount : Option Decimal
  pub shown : String

-- The tuple that goes to the buffer, with None where the trade has None.
pub record TradeRow : Type 0 where
  pub symbol : Option String
  pub ts : Time
  pub exchange_trade_id : Option String
  pub trade_side : Option String
  pub price : Decimal
  pub qty : Decimal
  pub source : String
  pub quality_flag : String

-- conflict_columns=("symbol", "ts", "exchange_trade_id")
abbrev pub trade_key : TradeRow → Option String × (Time × Option String)
trade_key r = (r.symbol, (r.ts, r.exchange_trade_id))

abbrev pub row_of :
    Option (Option String)
    → Option ℕ
    → Option (Option String)
    → Option (Option String)
    → Option Decimal
    → Option Decimal
    → Result TradeRow
row_of (some symbol) (some ms) (some trade_id) (some trade_side) (some price) (some amount) =
    ok (record {
      symbol = symbol;
      ts = from_ms ms;
      exchange_trade_id = trade_id;
      trade_side = trade_side;
      price = price;
      qty = amount;
      source = "mexc_native";
      quality_flag = "ok";
    })
row_of _ _ _ _ _ _ = raised value_error

abbrev pub trade_row : RawTrade → Result TradeRow
trade_row t = row_of t.symbol t.timestamp t.trade_id t.trade_side t.price t.amount

-- t.get("symbol")
abbrev pub got_symbol : Option (Option String) → Option String
got_symbol none = none
got_symbol (some symbol) = symbol

-- The label of a gauge is the text of its value.
abbrev pub symbol_label : Option String → String
symbol_label none = "None"
symbol_label (some symbol) = symbol

pub record TapeState : Type 0 where
  pub buffer : List TradeRow
  pub last_flush : Time

-- {r[0] for r in buffer}
abbrev pub seen_symbols : List TradeRow → List String
seen_symbols [] = []
seen_symbols (r ∷ rs) = add (symbol_label r.symbol) (seen_symbols rs)

abbrev pub trades_table : String
trades_table = "raw_mexc_trades"

-- An answer of the exchange: an exception, or a batch with the monotonic time after it.
pub data Event : Type 0 where
  failed : Error → Event
  batch : List RawTrade → Time → Event

module _ (db : Database trade_key) (dlq : Database letter_key) (amb : Ambient)
    (flush_seconds : Time) where
  -- The body of the `for` loop.
  unfoldable pub take_row : TapeState → RawTrade → Result TradeRow → M db dlq TapeState
  take_row st t (ok r) = return (record st { buffer = st.buffer ++ r ∷ [] })
  take_row st t (raised e) = do
    dead_letter amb "mexc_native" "trades_persist_loop" (got_symbol t.symbol)
        (text (prefix 8000 t.shown)) e
    return st

  unfoldable pub take_rows : TapeState → List RawTrade → M db dlq TapeState
  take_rows st [] = return st
  take_rows st (t ∷ ts) = do st' ← take_row st t (trade_row t); take_rows st' ts

  -- The write of the buffer, and what follows it.
  unfoldable pub write_tape : TapeState → List TradeRow → Time → M db dlq TapeState
  write_tape st rows now = do
    n ← write trades_table rows
    mark_fresh amb.wall "mexc_native" "trades" (seen_symbols rows)
    inc_rows ("mexc_native", "trades") n
    return (record st { buffer = []; last_flush = now })

  -- `if buffer and (now - last_flush >= flush_seconds)`
  unfoldable pub flush_tape : TapeState → List TradeRow → Time → M db dlq TapeState
  flush_tape st [] now = return st
  flush_tape st (r ∷ rs) now =
      if leb flush_seconds (now - st.last_flush) then write_tape st (r ∷ rs) now else return st

  unfoldable pub tape_round : TapeState → Event → M db dlq TapeState
  tape_round st (failed e) = do inc_reconnects ("mexc_native", "trades_persist"); return st
  tape_round st (batch trades now) = do st' ← take_rows st trades; flush_tape st' st'.buffer now

  -- The rounds for a sequence of answers. An exception of a round ends the loop.
  unfoldable pub trades_persist_loop : TapeState → List Event → M db dlq TapeState
  trades_persist_loop st [] = return st
  trades_persist_loop st (e ∷ events) = do st' ← tape_round st e; trades_persist_loop st' events
