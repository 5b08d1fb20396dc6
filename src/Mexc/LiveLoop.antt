-- ===== src/Mexc/LiveLoop.antt =====
-- `trades_aggregator_loop` of ingest/mexc/live_candles.py: one round of the loop for each answer of
-- the exchange, over the aggregator, the buffer of finalized candles and the time of the last flush.
pub mod Batches
pub mod NoLoss
pub mod Returns
mod Tests
use shortfire.Prelude.{
  ℕ, ◌-◌, String, Option, none, some, List, [], ◌∷◌, ◌++◌, Result, Error, ok, raised, value_error,
  leb, if◌then◌else◌,
}
use shortfire.Prelude.Keys.{eq_string, add}
use shortfire.Prelude.Decimals.{Decimal}
use shortfire.Prelude.Times.{Time, from_ms}
use shortfire.Rows.{CandleRow, candle_key}
use shortfire.Storage.{Database}
use shortfire.DeadLetter.{letter_key, prefix, text}
use shortfire.Effects.{
  M, Ambient, return, ◌>>=◌, ◌>>◌, write, mark_fresh, inc_rows, inc_reconnects, dead_letter,
}
use shortfire.Mexc.LiveCandles.{Bucket, Trade, MinuteAggregator, on_trade}

-- A trade as ccxt delivers it: `none` for a field that is absent or that `Decimal` does not read.
pub record RawTrade : Type 0 where
  pub symbol : Option String
  pub timestamp : Option ℕ
  pub price : Option Decimal
  pub amount : Option Decimal
  pub shown : String

-- ts_from_ms(t["timestamp"]), Decimal(str(t["price"])), Decimal(str(t["amount"])), t["symbol"]
abbrev pub parse : Option String → Option ℕ → Option Decimal → Option Decimal → Result Trade
parse (some symbol) (some ms) (some price) (some qty) =
    ok (record { symbol = symbol; ts = from_ms ms; price = price; qty = qty })
parse _ _ _ _ = raised value_error

abbrev pub parse_trade : RawTrade → Result Trade
parse_trade t = parse t.symbol t.timestamp t.price t.amount

pub record LoopState : Type 0 where
  pub agg : MinuteAggregator
  pub buffer : List CandleRow
  pub last_flush : Time

abbrev pub bucket_row : String → Bucket → CandleRow
bucket_row symbol b = record {
  symbol = symbol;
  ts = b.ts;
  open_price = b.open_price;
  high = b.high;
  low = b.low;
  close = b.close;
  volume = b.volume;
  source = "mexc_native";
  quality_flag = "ok";
}

-- `if fin is not None: buffer.append(…)`
abbrev pub finalized_rows : String → Option Bucket → List CandleRow
finalized_rows symbol none = []
finalized_rows symbol (some b) = bucket_row symbol b ∷ []

abbrev pub absorb : LoopState → Trade → LoopState
absorb st t =
    let (agg, fin) = on_trade st.agg t in
    record st { agg = agg; buffer = st.buffer ++ finalized_rows t.symbol fin }

-- {r[0] for r in buffer}
abbrev pub seen_symbols : List CandleRow → List String
seen_symbols [] = []
seen_symbols (r ∷ rs) = add r.symbol (seen_symbols rs)

abbrev pub table : String
table = "raw_mexc_candles_1m"

-- An answer of the exchange: an exception, or a batch with the monotonic time after it.
pub data Event : Type 0 where
  failed : Error → Event
  batch : List RawTrade → Time → Event

module _ (db : Database candle_key) (dlq : Database letter_key) (amb : Ambient)
    (flush_after : Time) where
  -- The body of the `for` loop: a trade that cannot be read goes to the dead letters.
  unfoldable pub take_parsed : LoopState → RawTrade → Result Trade → M db dlq LoopState
  take_parsed st t (ok trade) = return (absorb st trade)
  take_parsed st t (raised e) = do
    dead_letter amb "mexc_native" "trades_aggregator_loop" t.symbol (text (prefix 8000 t.shown)) e
    return st

  unfoldable pub take_trades : LoopState → List RawTrade → M db dlq LoopState
  take_trades st [] = return st
  take_trades st (t ∷ ts) = do st' ← take_parsed st t (parse_trade t); take_trades st' ts

  -- The write of the buffer, and what follows it.
  unfoldable pub write_buffer : LoopState → List CandleRow → Time → M db dlq LoopState
  write_buffer st rows now = do
    n ← write table rows
    mark_fresh amb.wall "mexc_native" "candles_1m" (seen_symbols rows)
    inc_rows ("mexc_native", "candles_1m") n
    return (record st { buffer = []; last_flush = now })

  -- `if buffer and (now - last_flush >= flush_seconds)`
  unfoldable pub flush : LoopState → List CandleRow → Time → M db dlq LoopState
  flush st [] now = return st
  flush st (r ∷ rs) now =
      if leb flush_after (now - st.last_flush) then write_buffer st (r ∷ rs) now else return st

  unfoldable pub loop_round : LoopState → Event → M db dlq LoopState
  loop_round st (failed e) = do inc_reconnects ("mexc_native", "trades_aggregator"); return st
  loop_round st (batch trades now) = do st' ← take_trades st trades; flush st' st'.buffer now

  -- The rounds for a sequence of answers. An exception of a round ends the loop.
  unfoldable pub loop : LoopState → List Event → M db dlq LoopState
  loop st [] = return st
  loop st (e ∷ events) = do st' ← loop_round st e; loop st' events
