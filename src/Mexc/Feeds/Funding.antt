-- ===== src/Mexc/Feeds/Funding.antt =====
-- funding_live_loop of ingest/mexc/funding.py: one answer of the exchange for each symbol in turn.
pub mod Publications
mod Tests
use shortfire.Prelude.{
  ℕ, zero, suc, String, Option, none, some, List, [], ◌∷◌, Result, Error, ok, raised, value_error,
}
use shortfire.Prelude.Decimals.{Decimal}
use shortfire.Prelude.Times.{Time, from_ms}
use shortfire.Storage.{Database}
use shortfire.DeadLetter.{letter_key, prefix, text}
use shortfire.Effects.{World, M, Ambient, return, ◌>>=◌, ◌>>◌, request, inc_reconnects}
use shortfire.Mexc.Backfill.Fundings.{FundingRow, funding_key}
use shortfire.Mexc.Feeds.{Feed, attempt}

-- A rate as ccxt delivers it. `none` stands for a value that is absent, and for a rate that `Decimal`
-- does not read; for the settlement and for the next one also for 0.
pub record RawFunding : Type 0 where
  pub funding_timestamp : Option ℕ
  pub timestamp : Option ℕ
  pub next_funding_timestamp : Option ℕ
  pub funding_rate : Option Decimal
  pub shown : String

abbrev pub funding_feed : Feed
funding_feed = record {
  table = "raw_mexc_funding";
  dataset = "funding";
  endpoint = "watch_funding_rate";
}

-- f.get("fundingTimestamp") or f["timestamp"]
abbrev pub settlement_of : Option ℕ → ℕ → ℕ
settlement_of none timestamp = timestamp
settlement_of (some ms) timestamp = ms

abbrev pub next_of : Option ℕ → Option Time
next_of none = none
next_of (some ms) = some (from_ms ms)

abbrev pub record_of : String → RawFunding → Option ℕ → Option Decimal → Result FundingRow
record_of sym f (some timestamp) (some rate) = ok (record {
  symbol = sym;
  settlement_ts = from_ms (settlement_of f.funding_timestamp timestamp);
  published_ts = from_ms timestamp;
  rate = rate;
  next_funding_ts = next_of f.next_funding_timestamp;
  source = "mexc_native";
  quality_flag = "ok";
})
record_of sym f _ _ = raised value_error

abbrev pub funding_record : String → RawFunding → Result FundingRow
funding_record sym f = record_of sym f f.timestamp f.funding_rate

module _ (db : Database funding_key) (dlq : Database letter_key) (amb : Ambient)
    (answers : ℕ → Result RawFunding) where
  -- What follows watch_funding_rate.
  abbrev pub received : String → Result RawFunding × World db dlq → Result (Unit {0}) × World db dlq
  received sym (raised e, w) = inc_reconnects ("mexc_native", "funding") w
  received sym (ok f, w) =
      attempt db dlq amb funding_feed (λ r. sym) (some sym) (text (prefix 8000 f.shown))
        (funding_record sym f) w

  -- The `for` loop over the symbols.
  unfoldable pub funding_pass : List String → M db dlq (Unit {0})
  funding_pass [] = return tt
  funding_pass (sym ∷ symbols) = do λ w. received sym (request answers w); funding_pass symbols

  -- So many rounds of the `while` loop.
  unfoldable pub funding_live_loop : (rounds : ℕ) → List String → M db dlq (Unit {0})
  funding_live_loop zero symbols = return tt
  funding_live_loop (suc rounds) symbols = do funding_pass symbols; funding_live_loop rounds symbols
