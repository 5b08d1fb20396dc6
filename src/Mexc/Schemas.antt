-- ===== src/Mexc/Schemas.antt =====
-- ingest/mexc/schemas.py, and the conversions of ingest/mexc/client.py: how a row of an answer becomes
-- a value of the domain. The `info` field is not modelled.
use shortfire.Prelude.{
  ℕ, String, Option, none, some, Bool, List, ◌∷◌, Result, ok, raised, ◌>>=◌, value_error, key_error,
  if◌then◌else◌,
}
use shortfire.Prelude.Decimals.{Decimal, pos}
use shortfire.Prelude.Times.{from_ms, aware}
use shortfire.Domain.Market.{
  Candle, Timeframe, Funding, mexc_native, validate_candle, validate_funding,
}
use shortfire.Mexc.OpenInterest.{OpenInterest}

-- What Python and pydantic make of a value of an answer: `int(x)`, an `int` of a strict field,
-- `Decimal(str(x))` in a strict field, and the truth of `x`.
pub record Reading (Cell : Type 0) : Type 0 where
  pub int : Cell → Result ℕ
  pub strict_int : Cell → Result ℕ
  pub decimal : Cell → Result Decimal
  pub is_truthy : Cell → Bool

pub record MexcOhlcvRow : Type 0 where
  pub symbol : String
  pub timeframe : Timeframe
  pub ts_ms : ℕ
  pub open_price : Decimal
  pub high : Decimal
  pub low : Decimal
  pub close : Decimal
  pub volume : Decimal

pub record MexcFundingRow : Type 0 where
  pub symbol : String
  pub timestamp : ℕ
  pub funding_timestamp : ℕ
  pub funding_rate : Decimal

-- The entries of a dict of the funding history, and of the open interest history.
pub record FundingDict (Cell : Type 0) : Type 0 where
  pub timestamp : Option Cell
  pub funding_timestamp : Option Cell
  pub funding_rate : Option Cell

pub record OpenInterestDict (Cell : Type 0) : Type 0 where
  pub timestamp : Option Cell
  pub amount : Option Cell
  pub value : Option Cell

abbrev pub ohlcv_to_domain : MexcOhlcvRow → Result Candle
ohlcv_to_domain row = validate_candle (record {
  symbol = row.symbol;
  source = mexc_native;
  timeframe = row.timeframe;
  ts = aware (from_ms row.ts_ms);
  open_price = row.open_price;
  high = row.high;
  low = row.low;
  close = row.close;
  volume = row.volume;
})

abbrev pub funding_to_domain : MexcFundingRow → Result Funding
funding_to_domain row = validate_funding (record {
  symbol = row.symbol;
  source = mexc_native;
  published_ts = aware (from_ms row.timestamp);
  settlement_ts = aware (from_ms row.funding_timestamp);
  rate = row.funding_rate;
  next_funding_ts = none;
})

-- d[key]
abbrev pub item : {Cell : Type 0} → Option Cell → Result Cell
item none = raised key_error
item (some c) = ok c

-- d.get(key, default)
abbrev pub get : {Cell : Type 0} → Option Cell → Cell → Cell
get none default = default
get (some c) default = c

module _ {Cell : Type 0} (reading : Reading Cell) (symbol : String) where
  unfoldable pub from_ccxt_row : Timeframe → List Cell → Result MexcOhlcvRow
  from_ccxt_row timeframe (t ∷ o ∷ h ∷ l ∷ c ∷ v ∷ rest) = do
    ts_ms ← reading.int t
    open_price ← reading.decimal o
    high ← reading.decimal h
    low ← reading.decimal l
    close ← reading.decimal c
    volume ← reading.decimal v
    ok (record {
      symbol = symbol;
      timeframe = timeframe;
      ts_ms = ts_ms;
      open_price = open_price;
      high = high;
      low = low;
      close = close;
      volume = volume;
    })
  from_ccxt_row timeframe _ = raised value_error

  unfoldable pub read_ohlcv : Timeframe → List Cell → Result Candle
  read_ohlcv timeframe row = do schema ← from_ccxt_row timeframe row; ohlcv_to_domain schema

  unfoldable pub read_funding : FundingDict Cell → Result Funding
  read_funding d = do
    published ← item d.timestamp
    rate_cell ← item d.funding_rate
    rate ← reading.decimal rate_cell
    timestamp ← reading.strict_int published
    funding_timestamp ← reading.strict_int (get d.funding_timestamp published)
    funding_to_domain (record {
      symbol = symbol;
      timestamp = timestamp;
      funding_timestamp = funding_timestamp;
      funding_rate = rate;
    })

  -- Decimal(str(d.get(key) or "0"))
  abbrev pub decimal_or_zero : Option Cell → Result Decimal
  decimal_or_zero none = ok (pos 0)
  decimal_or_zero (some c) = if reading.is_truthy c then reading.decimal c else ok (pos 0)

  unfoldable pub read_open_interest : OpenInterestDict Cell → Result OpenInterest
  read_open_interest d = do
    published ← item d.timestamp
    amount ← decimal_or_zero d.amount
    value ← decimal_or_zero d.value
    timestamp ← reading.strict_int published
    ok (record { timestamp = timestamp; amount = some amount })
