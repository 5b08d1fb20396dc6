-- ===== src/Gap.antt =====
-- ingest/gap.py: rows with quality_flag='gap_detected' for the missing intervals of a window.
pub mod Grid
pub mod Marks
mod Tests
use shortfire.Prelude.{
  ℕ, zero, suc, ◌+◌, String, List, [], ◌∷◌, ◌||◌, Result, ok, ltb, leb, if◌then◌else◌,
}
use shortfire.Prelude.Decimals.{ℤ, Decimal, pos, pos_part, le_dec}
use shortfire.Prelude.Times.{Time, from_ms, to_ms}
use shortfire.Rows.{CandleRow, candle_key}
use shortfire.Storage.{Database, copy_into_hypertable}

-- _ZERO
abbrev pub sentinel : Decimal
sentinel = pos 0

abbrev pub gap_row : String → String → ℕ → CandleRow
gap_row symbol source cursor_ms = record {
  symbol = symbol;
  ts = from_ms cursor_ms;
  open_price = sentinel;
  high = sentinel;
  low = sentinel;
  close = sentinel;
  volume = sentinel;
  source = source;
  quality_flag = "gap_detected";
}

-- The `while cursor_ms < end_ms` loop, on fuel. The cursor grows by at least 1 in each round, so
-- `end_ms` rounds are enough.
pub gap_records : (fuel : ℕ) → (ℕ → CandleRow) → (cursor_ms end_ms step : ℕ) → List CandleRow
gap_records zero row cursor_ms end_ms step = []
gap_records (suc fuel) row cursor_ms end_ms step =
    let rest = gap_records fuel row (cursor_ms + step) end_ms step in
    if ltb cursor_ms end_ms then row cursor_ms ∷ rest else []

module _ (db : Database candle_key) where
  -- `if not records: return 0`
  write_if_any : String → List CandleRow → db.Conn → Result ℕ × db.Conn
  write_if_any target_table [] s = (ok 0, s)
  write_if_any target_table (r ∷ rs) s = copy_into_hypertable db target_table (r ∷ rs) s

  pub flag_gap :
      (target_table symbol : String) (gap_start gap_end : Time) (timeframe_ms : ℤ) (source : String)
      → db.Conn
      → Result ℕ × db.Conn
  flag_gap target_table symbol gap_start gap_end timeframe_ms source s =
      if leb gap_end gap_start || le_dec timeframe_ms (pos 0)
      then (ok 0, s)
      else write_if_any target_table
          (gap_records (to_ms gap_end) (gap_row symbol source) (to_ms gap_start) (to_ms gap_end)
            (pos_part timeframe_ms))
          s
