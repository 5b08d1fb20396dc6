-- ===== src/Mexc/Backfill/Fundings.antt =====
-- ingest/mexc/backfill.py, backfill_funding: the funding history of one symbol. The client is a
-- parameter, an action that gives the history. The semaphore and log lines are not modelled.
use shortfire.Prelude.{ℕ, String, Option, none, some, List, [], ◌∷◌, map}
use shortfire.Prelude.Decimals.{Decimal}
use shortfire.Prelude.Times.{Time, DateTime}
use shortfire.Domain.Market.{Funding}
use shortfire.Prelude.Keys.{eq_nat, eq_string, eq_pair}
use shortfire.Storage.{Database}
use shortfire.DeadLetter.{letter_key}
use shortfire.Effects.{M, return, ◌>>=◌, write}

pub record FundingRow : Type 0 where
  pub symbol : String
  pub settlement_ts : Time
  pub published_ts : Time
  pub rate : Decimal
  pub next_funding_ts : Option Time
  pub source : String
  pub quality_flag : String

-- conflict_columns=("symbol", "settlement_ts")
abbrev pub funding_key : FundingRow → String × Time
funding_key r = (r.symbol, r.settlement_ts)

abbrev pub time_of : Option DateTime → Option Time
time_of none = none
time_of (some t) = some t.micros

abbrev pub funding_row : Funding → FundingRow
funding_row f = record {
  symbol = f.symbol;
  settlement_ts = f.settlement_ts.micros;
  published_ts = f.published_ts.micros;
  rate = f.rate;
  next_funding_ts = time_of f.next_funding_ts;
  source = "mexc_native";
  quality_flag = "ok";
}

module _ (db : Database funding_key) (dlq : Database letter_key)
    (client : (symbol : String) → (since until : Time) → M db dlq (List Funding)) where
  -- `if not fundings: return 0`, or the write.
  abbrev pub write_fundings : List Funding → M db dlq ℕ
  write_fundings [] = return 0
  write_fundings (f ∷ fundings) = write "raw_mexc_funding" (map funding_row (f ∷ fundings))

  unfoldable pub backfill_funding : (symbol : String) → (since until : Time) → M db dlq ℕ
  backfill_funding symbol since until = do
    fundings ← client symbol since until
    write_fundings fundings
