-- ===== src/Coinglass/Fetchers.antt =====
-- ingest/coinglass/funding_agg.py, oi.py, liq.py and lsr.py: from an answer to its table.
-- Log lines are not modelled.
use shortfire.Prelude.{ℕ, String, Option, none, some, List, [], ◌∷◌, ◌++◌}
use shortfire.Prelude.Keys.{eq_string}
use shortfire.Prelude.Decimals.{Decimal}
use shortfire.Prelude.Dicts.{Dict, lookup}
use shortfire.Prelude.Times.{Time}
use shortfire.Storage.{Database}
use shortfire.DeadLetter.{letter_key}
use shortfire.Effects.{M, Ambient, return, ◌>>=◌, write}
use shortfire.Retry.{Tenacity}
use shortfire.Coinglass.Schemas.{
  Point, point, point_key, FundingRateListRow, FundingRateListResponse, oi_records, liq_key,
  liq_records, lsr_records,
}
use shortfire.Coinglass.Client.{
  Outside, fetch_funding_rate_list, fetch_open_interest_history, fetch_liquidation_coin_history,
  fetch_long_short_account_ratio,
}

-- One round of the loop over `resp.data`: the mapped symbol and the rate, if there are both.
abbrev pub agg_record : Time → Option String → Option Decimal → List (Point Decimal)
agg_record ts_now none rate = []
agg_record ts_now (some unified) none = []
agg_record ts_now (some unified) (some rate) = point unified ts_now rate ∷ []

unfoldable pub agg_records :
    Dict String String → Time → List FundingRateListRow → List (Point Decimal)
agg_records coinglass_to_unified ts_now [] = []
agg_records coinglass_to_unified ts_now (row ∷ rows) =
    agg_record ts_now (lookup row.symbol coinglass_to_unified) row.funding_rate
    ++ agg_records coinglass_to_unified ts_now rows

-- `if resp is None: return 0`, or the write of its records.
module _ {Row Key : Type 0} {key : Row → Key} (db : Database key) (dlq : Database letter_key) where
  unfoldable pub write_answer : {R : Type 0} → String → (R → List Row) → Option R → M db dlq ℕ
  write_answer table to_records none = return 0
  write_answer table to_records (some resp) = write table (to_records resp)

module _ {Json : Type 0} (dlq : Database letter_key) (amb : Ambient) (out : Outside Json)
    (tenacity : Tenacity) where
  unfoldable pub fetch_and_write_funding_agg :
      (db : Database (point_key {V = Decimal})) → Dict String String → Time → M db dlq ℕ
  fetch_and_write_funding_agg db coinglass_to_unified ts_now = do
    resp ← fetch_funding_rate_list db dlq amb out tenacity
    write_answer db dlq "raw_coinglass_funding_agg"
        (λ (resp : FundingRateListResponse). agg_records coinglass_to_unified ts_now resp.entries)
        resp

  unfoldable pub fetch_and_write_oi :
      (db : Database (point_key {V = Decimal}))
      → (symbol_unified coinglass_symbol interval : String) → M db dlq ℕ
  fetch_and_write_oi db symbol_unified coinglass_symbol interval = do
    resp ← fetch_open_interest_history db dlq amb out tenacity coinglass_symbol interval
    write_answer db dlq "raw_coinglass_oi" (oi_records symbol_unified) resp

  unfoldable pub fetch_and_write_liq :
      (db : Database liq_key) → (symbol_unified coinglass_symbol interval : String) → M db dlq ℕ
  fetch_and_write_liq db symbol_unified coinglass_symbol interval = do
    resp ← fetch_liquidation_coin_history db dlq amb out tenacity coinglass_symbol interval
    write_answer db dlq "raw_coinglass_liq" (liq_records symbol_unified) resp

  unfoldable pub fetch_and_write_lsr :
      (db : Database (point_key {V = Option Decimal}))
      → (symbol_unified coinglass_symbol interval : String) → M db dlq ℕ
  fetch_and_write_lsr db symbol_unified coinglass_symbol interval = do
    resp ← fetch_long_short_account_ratio db dlq amb out tenacity coinglass_symbol interval
    write_answer db dlq "raw_coinglass_lsr" (lsr_records symbol_unified) resp
