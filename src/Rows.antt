-- ===== src/Rows.antt =====
-- The rows of the hypertables that several modules write, as the tuples of the code: the candles of
-- ingest/gap.py, ingest/mexc/backfill.py and ingest/mexc/live_candles.py with the columns of their
-- unique key, and the points of a series of ingest/mexc/oi.py and ingest/coinglass/schemas.py.
use shortfire.Prelude.{String}
use shortfire.Prelude.Decimals.{Decimal}
use shortfire.Prelude.Times.{Time}

pub record CandleRow : Type 0 where
  pub symbol : String
  pub ts : Time
  pub open_price : Decimal
  pub high : Decimal
  pub low : Decimal
  pub close : Decimal
  pub volume : Decimal
  pub source : String
  pub quality_flag : String

-- conflict_columns=("symbol", "ts")
abbrev pub candle_key : CandleRow → String × Time
candle_key r = (r.symbol, r.ts)

-- The tuple (symbol, ts, value, source, quality_flag).
pub record Point (V : Type 0) : Type 0 where
  pub symbol : String
  pub ts : Time
  pub value : V
  pub source : String
  pub quality_flag : String
