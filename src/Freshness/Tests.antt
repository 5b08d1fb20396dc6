-- ===== src/Freshness/Tests.antt =====
-- The job on a few samples, and the theorems at concrete inputs.
use shortfire.Prelude.{
  String, ◌≡◌, refl, sym, ap, ◌↔◌, inl, inr, true, false, some, List, [], ◌∷◌, Holds,
}
use shortfire.Prelude.Keys.{eq_string, eq_pair, contains}
use shortfire.Prelude.Dicts.{lookup}
use shortfire.Prelude.Times.{Time}
use shortfire.Freshness.{
  Key, Sample, gauge_name, expected, threshold, lagging, degraded_key, scan_samples,
  freshness_check_job, labels,
}
use shortfire.Freshness.Alerts.{IsStale, freshness_exact}

abbrev sample_at : String → Time → Sample
sample_at symbol value = record {
  name = gauge_name;
  source = some "mexc_native";
  dataset = some "candles_1m";
  symbol = some symbol;
  value = value;
}

abbrev key_of : String → Key
key_of symbol = ("mexc_native", ("candles_1m", symbol))

-- One gauge 300 seconds old, one 60 seconds old, one never set.
abbrev samples : List Sample
samples = sample_at "OLD" 700_000_000 ∷ sample_at "NEW" 940_000_000 ∷ sample_at "UNSET" 0 ∷ []

abbrev now : Time
now = 1_000_000_000

abbrev before : List Key
before = key_of "NEW" ∷ []

alerts_old : (freshness_check_job before now samples).alerts ≡ key_of "OLD" ∷ []
unfolding freshness_check_job scan_samples degraded_key lagging threshold expected lookup
alerts_old = refl

recovers_new : (freshness_check_job before now samples).recovered ≡ key_of "NEW" ∷ []
unfolding freshness_check_job scan_samples degraded_key lagging threshold expected lookup
recovers_new = refl

freshness_exact_example :
    let report = freshness_check_job before now samples in
    ((contains (key_of "OLD") report.degraded_set ≡ true) ↔ IsStale now samples (key_of "OLD"))
    × ((contains (key_of "OLD") report.alerts ≡ true)
        ↔ (IsStale now samples (key_of "OLD") × (contains (key_of "OLD") before ≡ false)))
    × ((contains (key_of "OLD") report.recovered ≡ true)
        ↔ ((contains (key_of "OLD") before ≡ true) × ¬ IsStale now samples (key_of "OLD")))
freshness_exact_example = freshness_exact before now samples (key_of "OLD")

only_unset :
    (sample : Sample)
    → Holds sample samples
    → labels sample.source sample.dataset sample.symbol ≡ some (key_of "UNSET")
    → sample.value ≡ 0
only_unset sample (inl e) h = cc
only_unset sample (inr (inl e)) h = cc
only_unset sample (inr (inr (inl e))) h = sym (ap (λ x. x.value) e)
only_unset sample (inr (inr (inr m))) h = absurd m
