-- ===== src/Gap/Tests.antt =====
-- `flag_gap` on a database in memory that holds one real candle.
use shortfire.Prelude.{String, ◌≡◌, ◌*◌, ◌+◌, refl, none, some, [], ◌∷◌, ok, arith}
use shortfire.Prelude.Keys.{eq_string, eq_nat, eq_pair}
use shortfire.Prelude.Decimals.{pos}
use shortfire.Prelude.Times.{Time, from_ms}
use shortfire.Rows.{CandleRow, candle_key}
use shortfire.Storage.{Database, statements, copy_into_hypertable}
use shortfire.Storage.Memory.{Server, empty, memory}
use shortfire.Gap.{gap_row, gap_records, write_if_any, flag_gap}
use shortfire.Gap.Marks.{flag_gap-marks}

abbrev db : Database candle_key
db = memory candle_key

abbrev table : String
table = "raw_mexc_candles_1m"

abbrev real : CandleRow
real = record (gap_row "BTC" "mexc_native" 60_000) { quality_flag = "ok"; close = pos 7 }

abbrev one_candle : Server CandleRow (String × Time)
one_candle = (copy_into_hypertable db table (real ∷ []) empty).1

-- Five minutes from minute 0 on, as microseconds.
abbrev flagged : Server CandleRow (String × Time)
flagged = (flag_gap db table "BTC" 0 300_000_000 (pos 60_000) "mexc_native" one_candle).1

returns_five :
    (flag_gap db table "BTC" 0 300_000_000 (pos 60_000) "mexc_native" one_candle).0 ≡ ok 5
unfolding flag_gap write_if_any gap_records copy_into_hypertable statements
returns_five = refl

has_real : one_candle.rows table ("BTC", from_ms 60_000) ≡ some real
unfolding copy_into_hypertable statements
has_real = refl

fresh_minute : one_candle.rows table ("BTC", from_ms 120_000) ≡ none
unfolding copy_into_hypertable statements
fresh_minute = refl

marked_minute :
    flagged.rows table ("BTC", from_ms 120_000) ≡ some (gap_row "BTC" "mexc_native" 120_000)
unfolding flag_gap write_if_any gap_records copy_into_hypertable statements
marked_minute = refl

flag_gap-marks_example :
    (r : CandleRow) × (flagged.rows table ("BTC", from_ms (0 + 4 * 60_000)) ≡ some r)
flag_gap-marks_example =
    flag_gap-marks db table "BTC" "mexc_native" 0 300_000_000 60_000 one_candle 5 4 (omega arith)
      (omega arith) returns_five (omega arith)
