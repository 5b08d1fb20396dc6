-- ===== src/Mexc/Feeds/Trades/Tests.antt =====
-- A batch with a trade that can be read and one that cannot, into a table in memory.
use shortfire.Prelude.{
  none, some, List, [], ◌∷◌, ◌≡◌, ◌⊎◌, refl, inl, inr, Holds, ok, raised, transport_error,
  value_error, database_error,
}
use shortfire.Prelude.Keys.{eq_nat, eq_string, eq_pair, eq_option}
use shortfire.Prelude.Decimals.{pos}
use shortfire.Storage.{Database, copy_into_hypertable, statements}
use shortfire.Prelude.Dicts.{lookup, insert}
use shortfire.Storage.Memory.{empty, memory}
use shortfire.DeadLetter.{letter_key}
use shortfire.Effects.{World, Ambient, write, mark_fresh}
use shortfire.Mexc.Feeds.Trades.{
  RawTrade, TradeRow, trade_key, TapeState, Event, failed, batch, trades_persist_loop, tape_round,
  take_rows, take_row, flush_tape, write_tape,
}
use shortfire.Mexc.Feeds.Trades.Tape.{tape_kept, bad_trade_ends_tape}

abbrev db : Database trade_key
db = memory trade_key

abbrev dlq : Database letter_key
dlq = memory letter_key

abbrev amb : Ambient
amb = record {
  stamps = λ n. record { id = n; now = 0 };
  wall = 7;
  type_name = λ e. "KeyError";
  message = λ e. "price";
  decode = λ b. "";
  str_int = λ n. "";
}

abbrev world : World db dlq
world = record {
  conn = empty;
  dead = empty;
  drawn = 0;
  calls = 0;
  freshness = [];
  rows_total = [];
  reconnects_total = [];
}

abbrev good : RawTrade
good = record {
  symbol = some (some "A/USDT:USDT");
  timestamp = some 5;
  trade_id = some (some "t1");
  trade_side = some none;
  price = some (pos 3);
  amount = some (pos 4);
  shown = "{}";
}

-- A trade without a side goes to the buffer as it is, and one without a price does not.
abbrev bad : RawTrade
bad = record good { price = none }

abbrev good_row : TradeRow
good_row = record {
  symbol = some "A/USDT:USDT";
  ts = 5_000;
  exchange_trade_id = some "t1";
  trade_side = none;
  price = pos 3;
  qty = pos 4;
  source = "mexc_native";
  quality_flag = "ok";
}

abbrev answers : List Event
answers = failed transport_error ∷ batch (good ∷ []) 50 ∷ batch (good ∷ []) 70 ∷ []

abbrev start : TapeState
start = record { buffer = []; last_flush = 0 }

abbrev flushed : TapeState
flushed = record { buffer = []; last_flush = 70 }

returns : (trades_persist_loop db dlq amb 60 start answers world).0 ≡ ok flushed
unfolding trades_persist_loop tape_round take_rows take_row flush_tape write_tape write mark_fresh
    copy_into_hypertable statements lookup insert
returns = refl

tape_kept_example :
    Holds good_row []
    ⊎ ((x : TradeRow) × (db.find
            (trades_persist_loop db dlq amb 60 start answers world).1.conn
            "raw_mexc_trades"
            (trade_key good_row)
          ≡ some x))
tape_kept_example =
    tape_kept db dlq amb 60 answers start flushed world returns good_row
      (inr (inr (inl (inl refl))))

bad_trade_ends_tape_example :
    let out =
      trades_persist_loop db dlq amb 60 start (batch (good ∷ bad ∷ []) 70 ∷ answers) world in
    (out.0 ≡ raised database_error) × ((out.1.conn ≡ world.conn) × (out.1.dead ≡ world.dead))
bad_trade_ends_tape_example =
    bad_trade_ends_tape db dlq amb 60 answers (good ∷ bad ∷ []) 70 bad value_error start world
      (inr (inl refl)) refl
