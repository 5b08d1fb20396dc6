-- ===== src/Domain/Trading.antt =====
-- domain/trading.py: signals, orders and positions.
use shortfire.Prelude.{
  String, ◌≡◌, ◌↔◌, ◌⊎◌, Bool, true, false, Option, List, ◌&&◌, not, Result, ok, raised,
  validation_error, Checked, require, ◌>>◌, arith,
}
use shortfire.Prelude.Decimals.{Decimal, pos, unit, le_dec, ◌≤ℤ◌, ◌<ℤ◌}
use shortfire.Prelude.Times.{DateTime}
use shortfire.Domain.Market.{zero_decimal, is_ge_zero, is_gt_zero, reject_naive_ts}

pub data SignalSide : Type 0 where
  short long : SignalSide

pub data SignalKind : Type 0 where
  pump_short trend_long : SignalKind

pub data OrderIntent : Type 0 where
  opening closing : OrderIntent

pub data OrderType : Type 0 where
  market limit : OrderType

pub record Signal : Type 0 where
  pub symbol : String
  pub side : SignalSide
  pub kind : SignalKind
  pub ts : DateTime
  pub confidence : Decimal
  pub shap_top : List (String × Decimal)

pub record Order : Type 0 where
  pub client_order_id : String
  pub symbol : String
  pub intent : OrderIntent
  pub side : SignalSide
  pub order_type : OrderType
  pub quantity : Decimal
  pub price : Option Decimal
  pub reduce_only : Bool
  pub ts : DateTime

pub record Position : Type 0 where
  pub symbol : String
  pub side : SignalSide
  pub qty : Decimal
  pub avg_entry_price : Decimal
  pub realized_pnl : Decimal
  pub unrealized_pnl : Decimal
  pub opened_ts : DateTime
  pub last_update_ts : DateTime

-- Field(ge=Decimal("0"), le=Decimal("1"))
unfoldable pub validate_signal : Signal → Result Signal
validate_signal s = do
  require (is_ge_zero s.confidence && le_dec s.confidence (pos unit)) validation_error
  reject_naive_ts s.ts
  ok s

abbrev pub is_closing : OrderIntent → Bool
is_closing opening = false
is_closing closing = true

unfoldable pub close_orders_must_be_reduce_only : Order → Checked
close_orders_must_be_reduce_only o =
    require (not (is_closing o.intent && not o.reduce_only)) validation_error

unfoldable pub validate_order : Order → Result Order
unfolding close_orders_must_be_reduce_only
validate_order o = do
  require (is_gt_zero o.quantity) validation_error
  reject_naive_ts o.ts
  close_orders_must_be_reduce_only o
  ok o

unfoldable pub validate_position : Position → Result Position
validate_position p = do
  require (is_ge_zero p.qty && is_ge_zero p.avg_entry_price) validation_error
  reject_naive_ts p.opened_ts
  reject_naive_ts p.last_update_ts
  ok p

pub record IsOrder (o : Order) : Type 0 where
  pub quantity_gt : zero_decimal <ℤ o.quantity
  pub is_aware : o.ts.has_tz ≡ true
  pub reduces : o.intent ≡ closing → o.reduce_only ≡ true

-- An order is accepted exactly when its quantity is positive, its time is aware, and it is
-- reduce-only if it closes a position; any other raises ValidationError.
pub order_iff :
    (o : Order)
    → ((validate_order o ≡ ok o) ↔ IsOrder o)
      × ((validate_order o ≡ ok o) ⊎ (validate_order o ≡ raised validation_error))
unfolding validate_order
order_iff o = ground arith

pub record IsSignal (s : Signal) : Type 0 where
  pub confidence_ge : zero_decimal ≤ℤ s.confidence
  pub confidence_le : s.confidence ≤ℤ pos unit
  pub is_aware : s.ts.has_tz ≡ true

-- A signal is accepted exactly when its confidence is between 0 and 1 and its time is aware.
pub signal_iff : (s : Signal) → (validate_signal s ≡ ok s) ↔ IsSignal s
unfolding validate_signal
signal_iff s = ground arith

pub record IsPosition (p : Position) : Type 0 where
  pub qty_ge : zero_decimal ≤ℤ p.qty
  pub avg_ge : zero_decimal ≤ℤ p.avg_entry_price
  pub opened_aware : p.opened_ts.has_tz ≡ true
  pub updated_aware : p.last_update_ts.has_tz ≡ true

-- A position is accepted exactly when quantity and entry price are not negative and both of its
-- times are aware.
pub position_iff : (p : Position) → (validate_position p ≡ ok p) ↔ IsPosition p
unfolding validate_position
position_iff p = ground arith
