-- ===== src/Mexc/Feeds.antt =====
-- The feeds of ingest/mexc/ that write each record on its own: orderbook.py, funding.py and
-- liquidations.py, each in a child; trades.py, with its buffer, is in another. This file has the step
-- that the three share: a record is built, written, and counted, or its exception goes to the dead
-- letters.
pub mod Attempt
pub mod Stored
pub mod OrderBook
pub mod Funding
pub mod Liquidations
pub mod Trades
use shortfire.Prelude.{String, Option, List, [], ◌∷◌, Result, Error}
use shortfire.Storage.{Database}
use shortfire.DeadLetter.{letter_key, Payload}
use shortfire.Effects.{
  M, Ambient, catch, lift, ◌>>=◌, ◌>>◌, write, set_freshness, inc_rows, dead_letter,
}

-- Where a feed writes, and under which names it counts and reports.
pub record Feed : Type 0 where
  pub table : String
  pub dataset : String
  pub endpoint : String

module _ {Row Key : Type 0} {key : Row → Key} (db : Database key) (dlq : Database letter_key)
    (amb : Ambient) (feed : Feed) where
  -- The gauge and the count, after the write.
  abbrev pub recorded : (symbol_of : Row → String) → Row → M db dlq (Unit {0})
  recorded symbol_of r =
      set_freshness ("mexc_native", (feed.dataset, symbol_of r)) amb.wall
      >> inc_rows ("mexc_native", feed.dataset) 1

  abbrev pub store : (symbol_of : Row → String) → Row → M db dlq (Unit {0})
  store symbol_of r = write feed.table (r ∷ []) >>= λ n. recorded symbol_of r

  -- `r` is the record as the code builds it.
  unfoldable pub attempt :
      (symbol_of : Row → String)
      → (symbol : Option String) → Payload
      → Result Row
      → M db dlq (Unit {0})
  attempt symbol_of symbol payload r =
      catch (lift r >>= store symbol_of)
        (λ e. dead_letter amb "mexc_native" feed.endpoint symbol payload e)
