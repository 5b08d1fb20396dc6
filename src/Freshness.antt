-- ===== src/Freshness.antt =====
-- ingest/freshness/alerter.py: the periodic check of the freshness gauges. A gauge holds the time of
-- the last write, in microseconds; 0 is the value of a gauge that was never set.
-- An alert is the key that it is about. `send_telegram_alert` swallows its own failures.
pub mod Alerts
pub mod Gauges
mod Tests
use shortfire.Prelude.{
  ℕ, ◌-◌, ◌*◌, String, Bool, true, false, not, Option, none, some, List, [], ◌∷◌, ◌++◌, ltb, leb,
  if◌then◌else◌,
}
use shortfire.Prelude.Keys.{Equality, ◌==◌, eq_string, eq_pair, contains, add, difference}
use shortfire.Prelude.Dicts.{Dict, lookup}
use shortfire.Prelude.Times.{Time}

-- (source, dataset, symbol)
abbrev pub Key : Type 0
Key = String × (String × String)

pub record Sample : Type 0 where
  pub name : String
  pub source : Option String
  pub dataset : Option String
  pub symbol : Option String
  pub value : Time

-- EXPECTED_LAG, in seconds
abbrev pub expected_lag : Dict (String × String) ℕ
expected_lag =
    (("mexc_native", "candles_1m"), 90)
    ∷ (("mexc_native", "funding"), 8 * 3600)
    ∷ (("mexc_native", "oi"), 5 * 60)
    ∷ (("mexc_native", "l2_top20"), 30)
    ∷ (("mexc_native", "trades"), 90)
    ∷ (("mexc_native", "liquidations"), 5 * 60)
    ∷ (("coinglass_aggregate", "funding_agg"), 6 * 60)
    ∷ (("coinglass_aggregate", "oi"), 6 * 60)
    ∷ (("coinglass_aggregate", "liq"), 12 * 60)
    ∷ (("coinglass_aggregate", "lsr"), 18 * 60)
    ∷ (("coingecko", "market"), 25 * 3600)
    ∷ []

abbrev pub or_default : Option ℕ → ℕ
or_default none = 600
or_default (some n) = n

-- EXPECTED_LAG.get((source, dataset), 600)
unfoldable pub expected : String → String → ℕ
expected source dataset = or_default (lookup (source, dataset) expected_lag)

abbrev pub microseconds : ℕ
microseconds = 1_000_000

-- 2 × the expected lag
unfoldable pub threshold : String → String → ℕ
threshold source dataset = 2 * expected source dataset * microseconds

abbrev pub gauge_name : String
gauge_name = "shortfire_data_platform_source_freshness_seconds"

-- The key of a sample that has all three labels.
abbrev pub labels : Option String → Option String → Option String → Option Key
labels (some source) (some dataset) (some symbol) = some (source, (dataset, symbol))
labels _ _ _ = none

-- One round of the loop over the samples, with the tests of its three `continue`s: the key of the
-- sample, if it is degraded.
lagging : Time → Time → Option Key → Option Key
lagging now value none = none
lagging now value (some (source, (dataset, symbol))) =
    let lag = now - value in
    if leb value 0
    then none
    else if ltb (threshold source dataset) lag
    then some (source, (dataset, symbol))
    else none

unfoldable pub degraded_key : Time → Sample → Option Key
unfolding lagging
degraded_key now sample =
    if not (sample.name == gauge_name)
    then none
    else lagging now sample.value (labels sample.source sample.dataset sample.symbol)

-- The two sets that the loop fills: all degraded keys, and those for which an alert is sent.
pub record Scan : Type 0 where
  pub currently_degraded : List Key
  pub alerts : List Key

abbrev pub note : List Key → Option Key → Scan → Scan
note degraded_set none scan = scan
note degraded_set (some key) scan = record {
  currently_degraded = add key scan.currently_degraded;
  alerts = if contains key degraded_set then scan.alerts else scan.alerts ++ key ∷ [];
}

-- The loop over the samples.
unfoldable pub scan_samples : List Key → Time → Scan → List Sample → Scan
scan_samples degraded_set now scan [] = scan
scan_samples degraded_set now scan (sample ∷ samples) =
    scan_samples degraded_set now (note degraded_set (degraded_key now sample) scan) samples

abbrev pub nothing : Scan
nothing = record { currently_degraded = []; alerts = [] }

pub record Report : Type 0 where
  pub degraded_set : List Key
  pub alerts : List Key
  pub recovered : List Key

-- `degraded_set` is the module's `_degraded_set`, before and after.
unfoldable pub freshness_check_job : List Key → Time → List Sample → Report
freshness_check_job degraded_set now samples =
    let scan = scan_samples degraded_set now nothing samples in
    record {
      degraded_set = scan.currently_degraded;
      alerts = scan.alerts;
      recovered = difference degraded_set scan.currently_degraded;
    }
