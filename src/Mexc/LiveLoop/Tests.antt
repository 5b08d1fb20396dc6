-- ===== src/Mexc/LiveLoop/Tests.antt =====
-- Two trades in two minutes, on databases in memory.
use shortfire.Prelude.{ℕ, ◌≡◌, ◌⊎◌, ◌↔◌, refl, inl, Option, some, List, [], ◌∷◌, ok, Holds, ◌++◌}
use shortfire.Prelude.Decimals.{pos}
use shortfire.Prelude.Keys.{eq_nat, eq_string, eq_pair}
use shortfire.Prelude.Dicts.{lookup, insert}
use shortfire.Rows.{CandleRow, candle_key}
use shortfire.Storage.{Database, copy_into_hypertable, statements}
use shortfire.Storage.Memory.{empty, memory, memory-IsUp}
use shortfire.DeadLetter.{letter_key, letter, write_letter}
use shortfire.Effects.{World, Ambient, write, mark_fresh, dead_letter, dead_letter_as}
use shortfire.Mexc.LiveCandles.{on_trade}
use shortfire.Mexc.LiveCandles.Refinement.{feed}
use shortfire.Mexc.LiveLoop.{
  RawTrade, LoopState, table, Event, batch, take_parsed, take_trades, write_buffer, flush,
  loop_round, loop,
}
use shortfire.Mexc.LiveLoop.Batches.{tape, rows_of}
use shortfire.Mexc.LiveLoop.NoLoss.{loop-keeps_candles}
use shortfire.Mexc.LiveLoop.Returns.{AreRead, returns_iff}

abbrev db : Database candle_key
db = memory candle_key

abbrev dlq : Database letter_key
dlq = memory letter_key

abbrev amb : Ambient
amb = record {
  stamps = λ n. record { id = n; now = 0 };
  wall = 7;
  type_name = λ e. "ValueError";
  message = λ e. "bad";
  decode = λ b. "";
  str_int = λ n. "";
}

abbrev raw : Option ℕ → ℕ → RawTrade
raw ms price = record {
  symbol = some "BTC";
  timestamp = ms;
  price = some (pos price);
  amount = some (pos 1);
  shown = "{}";
}

abbrev events : List Event
events = batch (raw (some 60_000) 5 ∷ raw (some 120_000) 7 ∷ []) 100 ∷ []

abbrev first_state : LoopState
first_state = record { agg = []; buffer = []; last_flush = 0 }

abbrev world : World db dlq
world = record {
  conn = empty;
  dead = empty;
  drawn = 0;
  calls = 0;
  freshness = [];
  rows_total = [];
  reconnects_total = [];
}

run :
    (st : LoopState) × ((w : World db dlq) × (loop db dlq amb 60 first_state events world
        ≡ (ok st, w)))
unfolding loop loop_round take_trades take_parsed flush write_buffer write mark_fresh dead_letter
    dead_letter_as copy_into_hypertable statements write_letter letter on_trade lookup insert
run = (_, (_, refl))

abbrev candle : CandleRow
candle = record {
  symbol = "BTC";
  ts = 60_000_000;
  open_price = pos 5;
  high = pos 5;
  low = pos 5;
  close = pos 5;
  volume = pos 1;
  source = "mexc_native";
  quality_flag = "ok";
}

finalizes_candle : Holds candle ([] ++ rows_of (feed [] (tape events)).1)
unfolding feed on_trade lookup insert
finalizes_candle = inl refl

loop-keeps_candles_example :
    (run.0.agg ≡ (feed [] (tape events)).0)
    × (Holds candle run.0.buffer
        ⊎ ((stored : CandleRow) × (db.find (run.1).0.conn table (candle_key candle) ≡ some stored)))
loop-keeps_candles_example =
    loop-keeps_candles db dlq amb 60 first_state run.0 events world (run.1).0 candle (run.1).1
      finalizes_candle

returns_iff_example :
    ((st : LoopState) × ((w : World db dlq) × (loop db dlq amb 60 first_state events world
          ≡ (ok st, w))))
    ↔ AreRead events
returns_iff_example = returns_iff db dlq amb 60 (memory-IsUp candle_key) first_state events world
