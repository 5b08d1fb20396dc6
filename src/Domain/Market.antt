-- ===== src/Domain/Market.antt =====
-- domain/market.py. A validator returns the value, or raises pydantic's ValidationError.
pub mod Validity
pub mod Books
use shortfire.Prelude.{
  ℕ, String, Bool, true, false, Option, none, some, List, [], ◌∷◌, ◌&&◌, Result, Checked, ok,
  raised, validation_error, require, ◌>>=◌, ◌>>◌, leb, if◌then◌else◌,
}
use shortfire.Prelude.Decimals.{Decimal, pos, le_dec, lt_dec}
use shortfire.Prelude.Times.{DateTime}

pub data Source : Type 0 where
  mexc_native coinglass_aggregate coinglass_mexc_only coingecko : Source

pub data Timeframe : Type 0 where
  m1 m5 m15 h1 h4 d1 : Timeframe

pub data LiquidationSide : Type 0 where
  short long : LiquidationSide

pub record Candle : Type 0 where
  pub symbol : String
  pub source : Source
  pub timeframe : Timeframe
  pub ts : DateTime
  pub open_price : Decimal
  pub high : Decimal
  pub low : Decimal
  pub close : Decimal
  pub volume : Decimal

pub record OrderBookLevel : Type 0 where
  pub price : Decimal
  pub qty : Decimal

pub record OrderBook : Type 0 where
  pub symbol : String
  pub source : Source
  pub ts : DateTime
  pub bids : List OrderBookLevel
  pub asks : List OrderBookLevel

pub record Funding : Type 0 where
  pub symbol : String
  pub source : Source
  pub published_ts : DateTime
  pub settlement_ts : DateTime
  pub rate : Decimal
  pub next_funding_ts : Option DateTime

pub record Liquidation : Type 0 where
  pub symbol : String
  pub source : Source
  pub ts : DateTime
  pub side : LiquidationSide
  pub qty : Decimal
  pub price : Decimal

abbrev pub zero_decimal : Decimal
zero_decimal = pos 0

-- Field(ge=Decimal("0")) and Field(gt=Decimal("0"))
abbrev pub is_ge_zero : Decimal → Bool
is_ge_zero d = le_dec zero_decimal d

abbrev pub is_gt_zero : Decimal → Bool
is_gt_zero d = lt_dec zero_decimal d

abbrev pub reject_naive_ts : DateTime → Checked
reject_naive_ts t = require t.has_tz validation_error

unfoldable pub low_le_extremes_le_high : Candle → Checked
low_le_extremes_le_high c =
    require
      (le_dec c.low c.open_price
        && le_dec c.low c.close
        && le_dec c.open_price c.high
        && le_dec c.close c.high)
      validation_error

unfoldable pub validate_candle : Candle → Result Candle
unfolding low_le_extremes_le_high
validate_candle c = do
  require (is_ge_zero c.volume) validation_error
  reject_naive_ts c.ts
  low_le_extremes_le_high c
  ok c

unfoldable pub validate_level : OrderBookLevel → Result OrderBookLevel
validate_level l = do
  require (is_gt_zero l.price) validation_error
  require (is_gt_zero l.qty) validation_error
  ok l

-- The loop over `range(1, len(bids))`: each price below the one before it.
unfoldable pub bids_descending : List OrderBookLevel → Checked
bids_descending [] = ok tt
bids_descending (a ∷ []) = ok tt
bids_descending (a ∷ b ∷ rest) =
    let later = bids_descending (b ∷ rest) in
    if le_dec a.price b.price then raised validation_error else later

unfoldable pub asks_ascending : List OrderBookLevel → Checked
asks_ascending [] = ok tt
asks_ascending (a ∷ []) = ok tt
asks_ascending (a ∷ b ∷ rest) =
    let later = asks_ascending (b ∷ rest) in
    if le_dec b.price a.price then raised validation_error else later

unfoldable pub not_crossed : List OrderBookLevel → List OrderBookLevel → Checked
not_crossed [] asks = ok tt
not_crossed (b ∷ bids) [] = ok tt
not_crossed (b ∷ bids) (a ∷ asks) =
    if le_dec a.price b.price then raised validation_error else ok tt

unfoldable pub validate_order_book : OrderBook → Result OrderBook
validate_order_book b = do
  reject_naive_ts b.ts
  bids_descending b.bids
  asks_ascending b.asks
  not_crossed b.bids b.asks
  ok b

next_is_aware : Option DateTime → Checked
next_is_aware none = ok tt
next_is_aware (some t) = reject_naive_ts t

unfoldable pub validate_funding : Funding → Result Funding
unfolding next_is_aware
validate_funding f = do
  reject_naive_ts f.published_ts
  reject_naive_ts f.settlement_ts
  next_is_aware f.next_funding_ts
  require (leb f.published_ts.micros f.settlement_ts.micros) validation_error
  ok f

unfoldable pub validate_liquidation : Liquidation → Result Liquidation
validate_liquidation l = do
  require (is_gt_zero l.qty) validation_error
  require (is_gt_zero l.price) validation_error
  reject_naive_ts l.ts
  ok l
