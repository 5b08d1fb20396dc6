-- ===== src/Mexc/Feeds/Liquidations.antt =====
-- liquidations_dual_source_loop of ingest/mexc/liquidations.py: one round of the loop for each answer
-- of the exchange, or the path without watch_liquidations. The cancellation of the task is asyncio's.
pub mod Events
mod Tests
use shortfire.Prelude.{
  ℕ, String, Bool, Option, none, some, List, [], ◌∷◌, Result, Error, ok, raised, value_error,
  if◌then◌else◌,
}
use shortfire.Prelude.Decimals.{Decimal, pos}
use shortfire.Prelude.Times.{Time, from_ms}
use shortfire.Storage.{Database}
use shortfire.DeadLetter.{letter_key, prefix, text}
use shortfire.Effects.{M, Ambient, return, ◌>>=◌, ◌>>◌, set_freshness, inc_reconnects}
use shortfire.Mexc.Feeds.{Feed, attempt}

-- An event as ccxt delivers it: `none` for a field that is absent, or not read by its conversion. Of
-- the two quantities `none` also stands for a false value; `Decimal` of the first true one may fail.
pub record RawLiquidation : Type 0 where
  pub symbol : Option String
  pub timestamp : Option ℕ
  pub liq_side : Option String
  pub amount : Option (Option Decimal)
  pub qty : Option (Option Decimal)
  pub price : Option Decimal
  pub shown : String

pub record LiquidationRow : Type 0 where
  pub symbol : String
  pub ts : Time
  pub liq_side : String
  pub qty : Decimal
  pub price : Decimal
  pub source : String
  pub quality_flag : String

-- conflict_columns=("symbol", "ts", "side", "qty", "price")
abbrev pub liquidation_key : LiquidationRow → String × (Time × (String × (Decimal × Decimal)))
liquidation_key r = (r.symbol, (r.ts, (r.liq_side, (r.qty, r.price))))

abbrev pub liquidation_feed : Feed
liquidation_feed = record {
  table = "raw_mexc_liquidations";
  dataset = "liquidations";
  endpoint = "watch_liquidations";
}

-- Decimal(str(evt.get("amount") or evt.get("qty") or "0"))
abbrev pub quantity : Option (Option Decimal) → Option (Option Decimal) → Option Decimal
quantity (some amount) qty = amount
quantity none (some qty) = qty
quantity none none = some (pos 0)

abbrev pub record_of :
    Option String
    → Option ℕ
    → Option String
    → Option Decimal
    → Option Decimal
    → Result LiquidationRow
record_of (some symbol) (some ms) (some liq_side) (some qty) (some price) = ok (record {
  symbol = symbol;
  ts = from_ms ms;
  liq_side = liq_side;
  qty = qty;
  price = price;
  source = "mexc_native";
  quality_flag = "ok";
})
record_of _ _ _ _ _ = raised value_error

abbrev pub liquidation_record : RawLiquidation → Result LiquidationRow
liquidation_record e = record_of e.symbol e.timestamp e.liq_side (quantity e.amount e.qty) e.price

-- An answer of the exchange: an exception, or its events (a single one is a list of one).
pub data Event : Type 0 where
  failed : Error → Event
  events : List RawLiquidation → Event

module _ (db : Database liquidation_key) (dlq : Database letter_key) (amb : Ambient) where
  unfoldable pub take_events : List RawLiquidation → M db dlq (Unit {0})
  take_events [] = return tt
  take_events (e ∷ es) = do
    attempt db dlq amb liquidation_feed (λ r. r.symbol) e.symbol (text (prefix 8000 e.shown))
        (liquidation_record e)
    take_events es

  unfoldable pub liquidation_round : Event → M db dlq (Unit {0})
  liquidation_round (failed e) = inc_reconnects ("mexc_native", "liquidations")
  liquidation_round (events es) = take_events es

  unfoldable pub liquidation_rounds : List Event → M db dlq (Unit {0})
  liquidation_rounds [] = return tt
  liquidation_rounds (a ∷ answers) = do liquidation_round a; liquidation_rounds answers

  -- `for sym in symbols: ….set(0)`
  unfoldable pub mark_unavailable : List String → M db dlq (Unit {0})
  mark_unavailable [] = return tt
  mark_unavailable (sym ∷ symbols) = do
    set_freshness ("mexc_native", ("liquidations", sym)) 0
    mark_unavailable symbols

  -- `available` is hasattr(raw, "watch_liquidations").
  abbrev pub liquidations_dual_source_loop :
      (available : Bool) → (symbols : List String) → List Event → M db dlq (Unit {0})
  liquidations_dual_source_loop available symbols answers =
      if available then liquidation_rounds answers else mark_unavailable symbols
