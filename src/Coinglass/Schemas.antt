-- ===== src/Coinglass/Schemas.antt =====
-- ingest/coinglass/schemas.py: the rows of the answers, and the tuples for the tables.
-- `data` of a response is `entries`. Validation by pydantic is a parameter of the client.
use shortfire.Prelude.{ℕ, String, Option, none, some, List, [], ◌∷◌, map}
use shortfire.Prelude.Decimals.{ℤ, Decimal, pos}
use shortfire.Prelude.Times.{Time, from_ms}
pub use shortfire.Rows.{Point}

-- conflict_columns=("symbol", "ts", "source")
abbrev pub point_key : {V : Type 0} → Point V → String × (Time × String)
point_key p = (p.symbol, (p.ts, p.source))

abbrev pub point : {V : Type 0} → String → Time → V → Point V
point symbol ts value = record {
  symbol = symbol;
  ts = ts;
  value = value;
  source = "coinglass_aggregate";
  quality_flag = "ok";
}

abbrev pub or_zero_decimal : Option Decimal → Decimal
or_zero_decimal none = pos 0
or_zero_decimal (some d) = d

pub record FundingRateListRow : Type 0 where
  pub symbol : String
  pub funding_rate : Option Decimal
  pub next_funding_time : Option ℕ

pub record FundingRateListResponse : Type 0 where
  pub code : ℤ
  pub msg : String
  pub entries : List FundingRateListRow

pub record OpenInterestHistoryRow : Type 0 where
  pub time : ℕ
  pub open_interest_usd : Option Decimal

pub record OpenInterestHistoryResponse : Type 0 where
  pub code : ℤ
  pub msg : String
  pub entries : List OpenInterestHistoryRow

abbrev pub oi_records : String → OpenInterestHistoryResponse → List (Point Decimal)
oi_records symbol_unified resp =
    map (λ row. point symbol_unified (from_ms row.time) (or_zero_decimal row.open_interest_usd))
      resp.entries

pub record LiquidationCoinHistoryRow : Type 0 where
  pub time : ℕ
  pub liquidation_long_usd : Option Decimal
  pub liquidation_short_usd : Option Decimal

pub record LiquidationCoinHistoryResponse : Type 0 where
  pub code : ℤ
  pub msg : String
  pub entries : List LiquidationCoinHistoryRow

-- The tuple (symbol, ts, side, liquidation_usd, source, quality_flag).
pub record LiqRow : Type 0 where
  pub symbol : String
  pub ts : Time
  pub side : String
  pub liquidation_usd : Decimal
  pub source : String
  pub quality_flag : String

-- conflict_columns=("symbol", "ts", "source", "side")
abbrev pub liq_key : LiqRow → String × (Time × (String × String))
liq_key r = (r.symbol, (r.ts, (r.source, r.side)))

abbrev pub liq_row : String → Time → String → Option Decimal → LiqRow
liq_row symbol ts side usd = record {
  symbol = symbol;
  ts = ts;
  side = side;
  liquidation_usd = or_zero_decimal usd;
  source = "coinglass_aggregate";
  quality_flag = "ok";
}

-- The `for` loop: two records for each row.
unfoldable pub liq_rows : String → List LiquidationCoinHistoryRow → List LiqRow
liq_rows symbol [] = []
liq_rows symbol (row ∷ rows) =
    liq_row symbol (from_ms row.time) "long" row.liquidation_long_usd
    ∷ liq_row symbol (from_ms row.time) "short" row.liquidation_short_usd
    ∷ liq_rows symbol rows

abbrev pub liq_records : String → LiquidationCoinHistoryResponse → List LiqRow
liq_records symbol_unified resp = liq_rows symbol_unified resp.entries

pub record LongShortAccountRatioRow : Type 0 where
  pub time : ℕ
  pub long_short_ratio : Option Decimal

pub record LongShortAccountRatioResponse : Type 0 where
  pub code : ℤ
  pub msg : String
  pub entries : List LongShortAccountRatioRow

abbrev pub lsr_records : String → LongShortAccountRatioResponse → List (Point (Option Decimal))
lsr_records symbol_unified resp =
    map (λ row. point symbol_unified (from_ms row.time) row.long_short_ratio) resp.entries
