-- ===== src/Domain/Market/Validity.antt =====
-- The checks of market.py accept exactly the values of which its docstrings speak.
use shortfire.Prelude.{
  ◌≤◌, ◌≡◌, ◌↔◌, ◌⊎◌, true, Option, none, some, ok, raised, validation_error, arith,
}
use shortfire.Prelude.Decimals.{◌≤ℤ◌, ◌<ℤ◌}
use shortfire.Prelude.Times.{DateTime}
use shortfire.Domain.Market.{
  Candle, Funding, Liquidation, zero_decimal, validate_candle, validate_funding,
  validate_liquidation,
}

pub record IsCandle (c : Candle) : Type 0 where
  pub volume_ge : zero_decimal ≤ℤ c.volume
  pub is_aware : c.ts.has_tz ≡ true
  pub low_open : c.low ≤ℤ c.open_price
  pub low_close : c.low ≤ℤ c.close
  pub open_high : c.open_price ≤ℤ c.high
  pub close_high : c.close ≤ℤ c.high

-- A candle is accepted exactly when its volume is not negative, its time is aware, and its open and
-- close lie between low and high; any other raises ValidationError.
pub candle_iff :
    (c : Candle)
    → ((validate_candle c ≡ ok c) ↔ IsCandle c)
      × ((validate_candle c ≡ ok c) ⊎ (validate_candle c ≡ raised validation_error))
unfolding validate_candle
candle_iff c = ground arith

abbrev pub IsAware : Option DateTime → Type 0
IsAware none = Unit
IsAware (some t) = t.has_tz ≡ true

pub record IsFunding (f : Funding) : Type 0 where
  pub published_aware : f.published_ts.has_tz ≡ true
  pub settlement_aware : f.settlement_ts.has_tz ≡ true
  pub next_aware : IsAware f.next_funding_ts
  pub in_order : f.published_ts.micros ≤ f.settlement_ts.micros

-- A funding record is accepted exactly when all its times are aware and it was not published after
-- its settlement; any other raises ValidationError.
pub funding_iff :
    (f : Funding)
    → ((validate_funding f ≡ ok f) ↔ IsFunding f)
      × ((validate_funding f ≡ ok f) ⊎ (validate_funding f ≡ raised validation_error))
unfolding validate_funding
funding_iff f = ground arith

pub record IsLiquidation (l : Liquidation) : Type 0 where
  pub qty_gt : zero_decimal <ℤ l.qty
  pub price_gt : zero_decimal <ℤ l.price
  pub is_aware : l.ts.has_tz ≡ true

-- A liquidation is accepted exactly when quantity and price are positive and its time is aware; any
-- other raises ValidationError.
pub liquidation_iff :
    (l : Liquidation)
    → ((validate_liquidation l ≡ ok l) ↔ IsLiquidation l)
      × ((validate_liquidation l ≡ ok l) ⊎ (validate_liquidation l ≡ raised validation_error))
unfolding validate_liquidation
liquidation_iff l = ground arith
