-- ===== src/Mexc/Feeds/OrderBook.antt =====
-- l2_sample_loop of ingest/mexc/orderbook.py: one round of the loop for each answer of the exchange.
pub mod Cadence
mod Tests
use shortfire.Prelude.{
  ℕ, ◌-◌, String, Option, none, some, List, [], ◌∷◌, take, Result, Error, ok, raised, key_error,
  value_error, ltb, if◌then◌else◌,
}
use shortfire.Prelude.Times.{Time, from_ms}
use shortfire.Storage.{Database}
use shortfire.DeadLetter.{letter_key, text}
use shortfire.Effects.{M, Ambient, return, ◌>>=◌, ◌>>◌, inc_reconnects}
use shortfire.Mexc.Feeds.{Feed, attempt}

-- The texts of a level's price and amount; `none` is a level without them.
abbrev pub Level : Type 0
Level = Option (String × String)

-- A book as ccxt delivers it: `none` for a timestamp that is absent, None or 0, and for a side that
-- is absent.
pub record RawBook : Type 0 where
  pub timestamp : Option ℕ
  pub bids : Option (List Level)
  pub asks : Option (List Level)

-- raw_mexc_l2_top20, with the JSON texts of the two sides
pub record L2Row : Type 0 where
  pub symbol : String
  pub ts : Time
  pub bids : String
  pub asks : String
  pub source : String
  pub quality_flag : String

-- conflict_columns=("symbol", "ts")
abbrev pub l2_key : L2Row → String × Time
l2_key r = (r.symbol, r.ts)

abbrev pub l2_feed : Feed
l2_feed = record {
  table = "raw_mexc_l2_top20";
  dataset = "l2_top20";
  endpoint = "watch_order_book";
}

-- [[str(b[0]), str(b[1])] for b in levels]
abbrev pub texts_cons : Level → Result (List (String × String)) → Result (List (String × String))
texts_cons none rest = raised value_error
texts_cons (some l) (raised e) = raised e
texts_cons (some l) (ok ls) = ok (l ∷ ls)

unfoldable pub texts : List Level → Result (List (String × String))
texts [] = ok []
texts (l ∷ levels) = texts_cons l (texts levels)

-- book["bids"][:20], of which the texts are taken
abbrev pub side : Option (List Level) → Result (List (String × String))
side none = raised key_error
side (some levels) = texts (take 20 levels)

abbrev pub book_ts : Option ℕ → (utc_now : Time) → Time
book_ts none utc_now = utc_now
book_ts (some ms) utc_now = from_ms ms

-- An answer of the exchange: an exception, or a book with the monotonic and the UTC time after it.
pub data Event : Type 0 where
  failed : Error → Event
  book : RawBook → (now utc_now : Time) → Event

module _ (dumps : List (String × String) → String) (symbol : String) where
  abbrev pub row_of :
      Time → Result (List (String × String)) → Result (List (String × String)) → Result L2Row
  row_of ts (raised e) asks = raised e
  row_of ts (ok bids) (raised e) = raised e
  row_of ts (ok bids) (ok asks) = ok (record {
    symbol = symbol;
    ts = ts;
    bids = dumps bids;
    asks = dumps asks;
    source = "mexc_native";
    quality_flag = "ok";
  })

  unfoldable pub book_row : RawBook → (utc_now : Time) → Result L2Row
  book_row b utc_now = row_of (book_ts b.timestamp utc_now) (side b.bids) (side b.asks)

  module _ (db : Database l2_key) (dlq : Database letter_key) (amb : Ambient)
      (sample_seconds : Time) where
    -- The state of the loop is `last_emit`.
    unfoldable pub l2_round : Time → Event → M db dlq Time
    l2_round last_emit (failed e) = do inc_reconnects ("mexc_native", "l2"); return last_emit
    l2_round last_emit (book b now utc_now) =
        if ltb (now - last_emit) sample_seconds
        then return last_emit
        else attempt db dlq amb l2_feed (λ r. symbol) (some symbol) (text "") (book_row b utc_now)
          >> return now

    -- The rounds for a sequence of answers. An exception of a round ends the loop.
    unfoldable pub l2_sample_loop : Time → List Event → M db dlq Time
    l2_sample_loop last_emit [] = return last_emit
    l2_sample_loop last_emit (e ∷ events) = do
      last_emit' ← l2_round last_emit e
      l2_sample_loop last_emit' events
