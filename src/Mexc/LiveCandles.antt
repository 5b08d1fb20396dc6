-- ===== src/Mexc/LiveCandles.antt =====
-- `MinuteAggregator` of ingest/mexc/live_candles.py: one-minute candles out of a stream of trades.
pub mod Runs
pub mod Refinement
pub mod Shape
pub mod Minutes
pub mod Volume
mod Tests
use shortfire.Prelude.{String, Bool, not, Option, none, some, List, [], ◌∷◌, if◌then◌else◌}
use shortfire.Prelude.Keys.{◌==◌, eq_nat, eq_string}
use shortfire.Prelude.Decimals.{Decimal, ◌+ℤ◌, lt_dec}
use shortfire.Prelude.Times.{Time, minute_floor}
use shortfire.Prelude.Dicts.{Dict, lookup, insert}

-- The dict {ts, open, high, low, close, volume}.
pub record Bucket : Type 0 where
  pub ts : Time
  pub open_price : Decimal
  pub high : Decimal
  pub low : Decimal
  pub close : Decimal
  pub volume : Decimal

pub record Trade : Type 0 where
  pub symbol : String
  pub ts : Time
  pub price : Decimal
  pub qty : Decimal

-- `_partial`
abbrev pub MinuteAggregator : Type 0
MinuteAggregator = Dict String Bucket

abbrev pub new_bucket : Time → Decimal → Decimal → Bucket
new_bucket bucket_ts price qty = record {
  ts = bucket_ts;
  open_price = price;
  high = price;
  low = price;
  close = price;
  volume = qty;
}

abbrev pub updated_bucket : Bucket → Decimal → Decimal → Bucket
updated_bucket cur price qty = record {
  ts = cur.ts;
  open_price = cur.open_price;
  high = if lt_dec cur.high price then price else cur.high;
  low = if lt_dec price cur.low then price else cur.low;
  close = price;
  volume = cur.volume +ℤ qty;
}

-- The three cases of `on_trade`: a first trade, a minute that rolled over, the same minute.
on_partial : MinuteAggregator → Trade → Option Bucket → MinuteAggregator × Option Bucket
on_partial agg t none = (insert t.symbol (new_bucket (minute_floor t.ts) t.price t.qty) agg, none)
on_partial agg t (some cur) =
    if not (minute_floor t.ts == cur.ts)
    then (insert t.symbol (new_bucket (minute_floor t.ts) t.price t.qty) agg, some cur)
    else (insert t.symbol (updated_bucket cur t.price t.qty) agg, none)

unfoldable pub on_trade : MinuteAggregator → Trade → MinuteAggregator × Option Bucket
unfolding on_partial
on_trade agg t = on_partial agg t (lookup t.symbol agg)
