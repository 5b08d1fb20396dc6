-- ===== src/Domain/Tests.antt =====
-- The validators at concrete values.
use shortfire.Prelude.{ℕ, ◌*◌, ◌≡◌, refl, ◌↔◌, false, none, [], ◌∷◌, ok, raised, validation_error}
use shortfire.Prelude.Decimals.{Decimal, pos, unit}
use shortfire.Prelude.Times.{DateTime, aware}
use shortfire.Domain.Market.{
  Candle, m1, mexc_native, OrderBook, OrderBookLevel, validate_candle, validate_order_book,
  bids_descending, asks_ascending, not_crossed, low_le_extremes_le_high,
}
use shortfire.Domain.Market.Books.{IsOrderBook, order_book_iff}
use shortfire.Domain.Trading.{
  Order, closing, short, market, validate_order, close_orders_must_be_reduce_only,
}
use shortfire.Domain.Risk.{RiskLimits, validate_risk_limits}

abbrev whole : ℕ → Decimal
whole n = pos (n * unit)

abbrev noon : DateTime
noon = aware 43_200_000_000

abbrev candle : Candle
candle = record {
  symbol = "BTC/USDT:USDT";
  source = mexc_native;
  timeframe = m1;
  ts = noon;
  open_price = whole 10;
  high = whole 12;
  low = whole 9;
  close = whole 11;
  volume = whole 0;
}

accepts_candle : validate_candle candle ≡ ok candle
unfolding validate_candle low_le_extremes_le_high
accepts_candle = refl

abbrev level : ℕ → OrderBookLevel
level p = record { price = whole p; qty = whole 1 }

abbrev book : OrderBook
book = record {
  symbol = "BTC/USDT:USDT";
  source = mexc_native;
  ts = noon;
  bids = level 9 ∷ level 8 ∷ [];
  asks = level 10 ∷ level 12 ∷ [];
}

order_book_iff_example : (validate_order_book book ≡ ok book) ↔ IsOrderBook book
order_book_iff_example = order_book_iff book

accepts_book : validate_order_book book ≡ ok book
unfolding validate_order_book bids_descending asks_ascending not_crossed
accepts_book = refl

rejects_crossed :
    validate_order_book (record book { asks = level 9 ∷ [] }) ≡ raised validation_error
unfolding validate_order_book bids_descending asks_ascending not_crossed
rejects_crossed = refl

-- A close that is not reduce-only.
abbrev bad_close : Order
bad_close = record {
  client_order_id = "a1";
  symbol = "BTC/USDT:USDT";
  intent = closing;
  side = short;
  order_type = market;
  quantity = whole 1;
  price = none;
  reduce_only = false;
  ts = noon;
}

rejects_bad_close : validate_order bad_close ≡ raised validation_error
unfolding validate_order close_orders_must_be_reduce_only
rejects_bad_close = refl

abbrev limits : RiskLimits
limits = record {
  max_per_trade_pct = pos 20_000_000_000_000_000;
  max_gross_exposure_pct = pos 150_000_000_000_000_000;
  kelly_fraction = pos 250_000_000_000_000_000;
  max_concurrent_positions = pos 20;
  daily_loss_limit_pct = pos 50_000_000_000_000_000;
}

accepts_limits : validate_risk_limits limits ≡ ok limits
unfolding validate_risk_limits
accepts_limits = refl
