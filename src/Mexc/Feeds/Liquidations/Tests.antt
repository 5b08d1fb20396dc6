-- ===== src/Mexc/Feeds/Liquidations/Tests.antt =====
-- An answer with an event, into a table in memory.
use shortfire.Prelude.{none, some, List, [], ◌∷◌, ◌≡◌, refl, Result, ok, transport_error, true}
use shortfire.Prelude.Keys.{eq_nat, eq_string, eq_pair, eq_decimal}
use shortfire.Prelude.Decimals.{pos}
use shortfire.Storage.{Database, copy_into_hypertable, statements}
use shortfire.Prelude.Dicts.{lookup, insert}
use shortfire.Mexc.Feeds.{attempt}
use shortfire.Storage.Memory.{empty, memory, memory-IsUp}
use shortfire.DeadLetter.{letter_key}
use shortfire.Effects.{World, Ambient, write}
use shortfire.Mexc.Feeds.Liquidations.{
  RawLiquidation, LiquidationRow, liquidation_key, Event, failed, events,
  liquidations_dual_source_loop, liquidation_rounds, liquidation_round, take_events,
}
use shortfire.Mexc.Feeds.Liquidations.Events.{InAnswers, liquidations_stored}

abbrev db : Database liquidation_key
db = memory liquidation_key

abbrev dlq : Database letter_key
dlq = memory letter_key

abbrev amb : Ambient
amb = record {
  stamps = λ n. record { id = n; now = 0 };
  wall = 7;
  type_name = λ e. "KeyError";
  message = λ e. "price";
  decode = λ b. "";
  str_int = λ n. "";
}

abbrev world : World db dlq
world = record {
  conn = empty;
  dead = empty;
  drawn = 0;
  calls = 0;
  freshness = [];
  rows_total = [];
  reconnects_total = [];
}

abbrev good : RawLiquidation
good = record {
  symbol = some "A/USDT:USDT";
  timestamp = some 5;
  liq_side = some "sell";
  amount = none;
  qty = some (some (pos 2));
  price = some (pos 3);
  shown = "{}";
}

abbrev answers : List Event
answers = failed transport_error ∷ events (good ∷ []) ∷ []

abbrev out : Result (Unit {0}) × World db dlq
out = liquidations_dual_source_loop db dlq amb true [] answers world

returns : out.0 ≡ ok tt
unfolding liquidation_rounds liquidation_round take_events attempt write copy_into_hypertable
    statements lookup insert
returns = refl

stored_good :
    (r : LiquidationRow)
    → InAnswers answers r
    → (x : LiquidationRow) × (db.find out.1.conn "raw_mexc_liquidations" (liquidation_key r)
        ≡ some x)
stored_good =
    (liquidations_stored db dlq amb (memory-IsUp liquidation_key) [] answers world returns).0
