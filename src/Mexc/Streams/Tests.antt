-- ===== src/Mexc/Streams/Tests.antt =====
-- The watchdog and the check against the REST candles, over a table in memory.
use shortfire.Prelude.{
  ◌*◌, String, Bool, false, Option, none, some, List, [], ◌∷◌, ◌≡◌, ◌↔◌, refl, sym, ap, inl, inr,
  ok, arith, if◌then◌else◌,
}
use shortfire.Prelude.Keys.{◌==◌, eq_nat, eq_string, eq_pair}
use shortfire.Prelude.Decimals.{Decimal, pos, ◌-ℤ◌}
use shortfire.Prelude.Times.{Time, aware}
use shortfire.Rows.{CandleRow, candle_key}
use shortfire.Storage.{Database}
use shortfire.Storage.Memory.{empty, memory}
use shortfire.DeadLetter.{letter_key}
use shortfire.Domain.Market.{Candle, mexc_native, m1}
use shortfire.Effects.{M}
use shortfire.Freshness.{Sample, microseconds, degraded_key}
use shortfire.Freshness.Alerts.{gauge_of}
use shortfire.Mexc.Streams.{stream_names, Tick, heartbeat_watchdog}
use shortfire.Mexc.Streams.Watchdog.{IsRespawn, Reached, watchdog_iff, watchdog_outruns_alerter}
use shortfire.Mexc.Streams.Divergence.{flagged, close_of, Candles1m, Checker, check}
use shortfire.Mexc.Streams.Flags.{divergent, IsApart, check_exact}
use mathlib.Core.Option.{some-injective}

-- The gauge of a symbol without a trade for 70 seconds.
abbrev quiet : Sample
quiet = gauge_of "mexc_native" "trades" "QUIET/USDT:USDT" (100 * microseconds)

abbrev tick : Tick
tick = record { is_set = false; now = 170 * microseconds; samples = quiet ∷ [] }

watchdog_iff_example :
    IsRespawn (heartbeat_watchdog stream_names (tick ∷ [])) ↔ Reached stream_names (tick ∷ [])
watchdog_iff_example = watchdog_iff stream_names (tick ∷ [])

watchdog_outruns_alerter_example :
    (degraded_key (170 * microseconds) quiet ≡ none)
    × IsRespawn (heartbeat_watchdog stream_names (tick ∷ []))
watchdog_outruns_alerter_example =
    watchdog_outruns_alerter "trades" "QUIET/USDT:USDT" (100 * microseconds) (170 * microseconds)
      (quiet ∷ []) [] (inr (inr (inl refl))) (omega arith) (omega arith) (omega arith) (inl refl)

abbrev Rows : Type 0
Rows = String × Time → Option CandleRow

abbrev update_flag : String × Time → Rows → Option Rows
update_flag k s = some (λ l. if k == l then flagged (s l) else s l)

select_law :
    (k : String × Time) (s : Rows) (o : Option Decimal)
    → ok (close_of (s k)) ≡ ok o
    → o ≡ close_of (s k)
select_law k s o h = cc

update_law :
    (k : String × Time) (s s' : Rows)
    → update_flag k s ≡ some s'
    → (l : String × Time) → s' l ≡ (if k == l then flagged (s l) else s l)
update_law k s s' h l = ap (λ (f : Rows). f l) (sym (some-injective _ _ h))

abbrev candles_1m : Candles1m
candles_1m = record {
  State = Rows;
  row = λ s k. s k;
  select_close = λ k s. ok (close_of (s k));
  update_flag = update_flag;
  select_close-row = select_law;
  row-update_flag = update_law;
}

abbrev db : Database candle_key
db = memory candle_key

abbrev dlq : Database letter_key
dlq = memory letter_key

abbrev candle_at : Time → Candle
candle_at t = record {
  symbol = "A/USDT:USDT";
  source = mexc_native;
  timeframe = m1;
  ts = aware t;
  open_price = pos 1000;
  high = pos 1000;
  low = pos 1000;
  close = pos 1000;
  volume = pos 1;
}

abbrev rest_candles : List Candle
rest_candles = candle_at 60_000_000 ∷ candle_at 120_000_000 ∷ []

abbrev fetch : String → (since until : Time) → M db dlq (List Candle)
fetch sym since until w = (ok rest_candles, w)

-- A candle of the stream that is 0.6 per cent above the one of the REST answer.
abbrev streamed : CandleRow
streamed = record {
  symbol = "A/USDT:USDT";
  ts = 60_000_000;
  open_price = pos 1000;
  high = pos 1006;
  low = pos 1000;
  close = pos 1006;
  volume = pos 1;
  source = "mexc_native";
  quality_flag = "ok";
}

abbrev at_first : String × Time
at_first = ("A/USDT:USDT", 60_000_000)

abbrev table : Rows
table k = if at_first == k then some streamed else none

abbrev checker : Checker db dlq candles_1m fetch
checker = record {
  world = record {
    conn = empty;
    dead = empty;
    drawn = 0;
    calls = 0;
    freshness = [];
    rows_total = [];
    reconnects_total = [];
  };
  candles = table;
  cursor = 0;
}

abbrev two_rounds : List (Bool × Time)
two_rounds = (false, 180_000_000) ∷ (false, 240_000_000) ∷ []

abbrev after : Option CandleRow
after = (check db dlq candles_1m fetch "A/USDT:USDT" [] 180_000_000 checker).candles at_first

check_exact_example :
    (IsApart db dlq candles_1m fetch (pos 1006) (pos 1000) → after ≡ some (divergent streamed))
    × (¬ IsApart db dlq candles_1m fetch (pos 1006) (pos 1000) → after ≡ some streamed)
check_exact_example =
    check_exact db dlq candles_1m fetch "A/USDT:USDT" [] 180_000_000 checker rest_candles
      checker.world (candle_at 60_000_000) streamed (some (pos 1006))
      (λ l. if at_first == l then flagged (table l) else table l) refl refl refl refl refl refl

flagged_after : after ≡ some (divergent streamed)
unfolding ◌-ℤ◌
flagged_after = refl
