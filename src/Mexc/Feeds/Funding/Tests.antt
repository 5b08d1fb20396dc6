-- ===== src/Mexc/Feeds/Funding/Tests.antt =====
-- Two passes over two symbols, into a table in memory.
use shortfire.Prelude.{
  ℕ, zero, suc, String, none, some, List, [], ◌∷◌, ◌≡◌, refl, Result, ok, raised, transport_error,
}
use shortfire.Prelude.Keys.{eq_nat, eq_string, eq_pair}
use shortfire.Prelude.Decimals.{pos}
use shortfire.Prelude.Times.{Time}
use shortfire.Storage.{Database, copy_into_hypertable, statements}
use shortfire.Prelude.Dicts.{lookup, insert}
use shortfire.Mexc.Feeds.{attempt}
use shortfire.Storage.Memory.{empty, memory, memory-IsUp}
use shortfire.DeadLetter.{letter_key}
use shortfire.Effects.{World, Ambient, write, request}
use shortfire.Mexc.Backfill.Fundings.{FundingRow, funding_key}
use shortfire.Mexc.Feeds.Funding.{RawFunding, funding_live_loop, funding_pass}
use shortfire.Mexc.Feeds.Funding.Publications.{InPasses, publications_stored}

abbrev db : Database funding_key
db = memory funding_key

abbrev dlq : Database letter_key
dlq = memory letter_key

abbrev amb : Ambient
amb = record {
  stamps = λ n. record { id = n; now = 0 };
  wall = 7;
  type_name = λ e. "KeyError";
  message = λ e. "price";
  decode = λ b. "";
  str_int = λ n. "";
}

abbrev world : World db dlq
world = record {
  conn = empty;
  dead = empty;
  drawn = 0;
  calls = 0;
  freshness = [];
  rows_total = [];
  reconnects_total = [];
}

abbrev published : RawFunding
published = record {
  funding_timestamp = some 9;
  timestamp = some 5;
  next_funding_timestamp = none;
  funding_rate = some (pos 3);
  shown = "{}";
}

-- The first request fails.
abbrev answers : ℕ → Result RawFunding
answers zero = raised transport_error
answers (suc n) = ok published

abbrev symbols : List String
symbols = "A/USDT:USDT" ∷ "B/USDT:USDT" ∷ []

abbrev out : Result (Unit {0}) × World db dlq
out = funding_live_loop db dlq amb answers 2 symbols world

returns : out.0 ≡ ok tt
unfolding funding_live_loop funding_pass request attempt write copy_into_hypertable statements
    lookup insert
returns = refl

publications_stored_example :
    ((r : FundingRow)
      → InPasses answers 2 0 symbols r
      → (x : FundingRow) × (db.find out.1.conn "raw_mexc_funding" (funding_key r) ≡ some x))
    × ((k : String × Time) (x : FundingRow)
        → db.find world.conn "raw_mexc_funding" k ≡ some x
        → db.find out.1.conn "raw_mexc_funding" k ≡ some x)
publications_stored_example =
    publications_stored answers db dlq amb (memory-IsUp funding_key) 2 symbols world returns
