-- ===== src/Mexc/Streams/Divergence.antt =====
-- _cross_rest_divergence_check of ingest/mexc/streams.py. The statements on the table
-- raw_mexc_candles_1m are a parameter, with their documented behaviour as laws. The quotient of the
-- code is compared without its division, by which it is not rounded.
use shortfire.Prelude.{
  ℕ, zero, suc, ◌+◌, ◌-◌, ◌*◌, ◌%◌, String, Bool, false, Option, none, some, List, [], ◌∷◌, length,
  ◌≡◌, Result, ok, raised, ltb, nat_eq, if◌then◌else◌,
}
use shortfire.Prelude.Keys.{◌==◌, eq_nat, eq_string, eq_pair}
use shortfire.Prelude.Decimals.{Decimal, pos, negsuc, ◌-ℤ◌, pos_part, neg_part}
use shortfire.Prelude.Times.{Time, minute_floor, micros_per_minute}
use shortfire.Rows.{CandleRow}
use shortfire.Storage.{Database}
use shortfire.DeadLetter.{letter_key}
use shortfire.Domain.Market.{Candle}
use shortfire.Effects.{World, M}

-- UPDATE … SET quality_flag = 'ws_rest_divergence' WHERE … AND quality_flag = 'ok', on the row
abbrev pub flagged : Option CandleRow → Option CandleRow
flagged none = none
flagged (some r) =
    some (if r.quality_flag == "ok" then record r { quality_flag = "ws_rest_divergence" } else r)

abbrev pub close_of : Option CandleRow → Option Decimal
close_of none = none
close_of (some r) = some r.close

-- The table, with the two statements; `none` is an update that raises.
pub record Candles1m : Type 1 where
  pub State : Type 0
  pub row : State → String × Time → Option CandleRow
  pub select_close : String × Time → State → Result (Option Decimal)
  pub update_flag : String × Time → State → Option State
  pub select_close-row :
      (k : String × Time) (s : State) (o : Option Decimal)
      → select_close k s ≡ ok o
      → o ≡ close_of (row s k)
  pub row-update_flag :
      (k : String × Time) (s s' : State)
      → update_flag k s ≡ some s'
      → (l : String × Time) → row s' l ≡ (if k == l then flagged (row s l) else row s l)

-- rest_candles[-2], where there are two
abbrev pub second_last : List Candle → Option Candle
second_last [] = none
second_last (x ∷ []) = none
second_last (x ∷ y ∷ []) = some x
second_last (x ∷ y ∷ z ∷ candles) = second_last (y ∷ z ∷ candles)

abbrev pub distance : Decimal → Decimal → ℕ
distance a b = pos_part (a -ℤ b) + neg_part (a -ℤ b)

-- ref_close != 0 and abs(ws_close - ref_close) / ref_close > 0.005
abbrev pub diverges : (ws_close ref_close : Decimal) → Bool
diverges ws (pos n) = if nat_eq n 0 then false else ltb (5 * n) (1000 * distance ws (pos n))
diverges ws (negsuc n) = false

-- symbols_list[i], for an index in range
abbrev pub symbol_at : String → List String → ℕ → String
symbol_at sym symbols zero = sym
symbol_at sym [] (suc i) = sym
symbol_at sym (x ∷ symbols) (suc i) = symbol_at x symbols i

module _ {Row Key : Type 0} {key : Row → Key} (db : Database key) (dlq : Database letter_key)
    (table : Candles1m) (fetch : String → (since until : Time) → M db dlq (List Candle)) where
  -- The world of the client, the table of candles, and the cursor.
  pub record Checker : Type 0 where
    pub world : World db dlq
    pub candles : table.State
    pub cursor : ℕ

  abbrev pub marked : Checker → Option table.State → Checker
  marked c none = c
  marked c (some s) = record c { candles = s }

  -- An exception of a step ends the check, as its `except` clause only logs it.
  abbrev pub compare_close :
      String × Time → (ref_close : Decimal) → Checker → Result (Option Decimal) → Checker
  compare_close k ref c (raised e) = c
  compare_close k ref c (ok none) = c
  compare_close k ref c (ok (some ws)) =
      if diverges ws ref then marked c (table.update_flag k c.candles) else c

  abbrev pub compare_candle : String → Checker → Option Candle → Checker
  compare_candle sym c none = c
  compare_candle sym c (some ref) =
      let k : String × Time = (sym, minute_floor ref.ts.micros) in
      compare_close k ref.close c (table.select_close k c.candles)

  abbrev pub after_fetch : String → Checker → Result (List Candle) × World db dlq → Checker
  after_fetch sym c (raised e, w) = record c { world = w }
  after_fetch sym c (ok candles, w) =
      compare_candle sym (record c { world = w }) (second_last candles)

  -- The body of the loop after the sleep: the cursor moves first.
  abbrev pub check : String → List String → (now : Time) → Checker → Checker
  check x xs now c =
      let sym = symbol_at x xs (c.cursor % length (x ∷ xs)) in
      after_fetch sym (record c { cursor = c.cursor + 1 })
        (fetch sym (now - 3 * micros_per_minute) now c.world)

  -- A round: whether the event is set at its start, and the clock after the sleep.
  unfoldable pub check_loop : String → List String → List (Bool × Time) → Checker → Checker
  check_loop x xs [] c = c
  check_loop x xs ((is_set, now) ∷ rounds) c =
      let rest = check_loop x xs rounds (check x xs now c) in if is_set then c else rest

  abbrev pub cross_rest_divergence_check :
      (tier1_symbols : List String) → List (Bool × Time) → Checker → Checker
  cross_rest_divergence_check [] rounds c = c
  cross_rest_divergence_check (x ∷ xs) rounds c = check_loop x xs rounds c
