-- ===== src/Freshness/Gauges.antt =====
-- src/shortfire/ingest/freshness/gauges.py: the update of the gauges after a write. A record is its
-- first element, `none` for an empty tuple.
use shortfire.Prelude.{◌≡◌, refl, String, Option, none, some, List, [], ◌∷◌, arith, if◌then◌else◌}
use shortfire.Prelude.Keys.{◌==◌, add, contains, eq_string, eq_pair}
use shortfire.Prelude.Dicts.{Dict, lookup, insert, lookup-insert}
use shortfire.Prelude.Times.{Time}
use shortfire.Effects.{Gauge}

-- {r[0] for r in records if r}
unfoldable pub symbols_in : List (Option String) → List String
symbols_in [] = []
symbols_in (none ∷ records) = symbols_in records
symbols_in (some sym ∷ records) = add sym (symbols_in records)

-- `.set(now)` for each symbol; an empty set leaves the gauges alone.
unfoldable pub set_all :
    (source dataset : String) → Time → List String → Dict Gauge Time → Dict Gauge Time
set_all source dataset now [] gauges = gauges
set_all source dataset now (sym ∷ symbols) gauges =
    set_all source dataset now symbols (insert (source, (dataset, sym)) now gauges)

unfoldable pub update_freshness_gauge :
    (source dataset : String) → List (Option String) → Time → Dict Gauge Time → Dict Gauge Time
update_freshness_gauge source dataset records now gauges =
    set_all source dataset now (symbols_in records) gauges

module _ (source dataset : String) (now : Time) where
  same_gauge :
      (x sym : String)
      → ◌==◌ {A = Gauge} (source, (dataset, x)) (source, (dataset, sym)) ≡ (x == sym)
  same_gauge x sym =
      ground (arith, eq_string.eq_test_iff source source, eq_string.eq_test_iff dataset dataset)

  set_all-lookup :
      (sym : String) (symbols : List String) (gauges : Dict Gauge Time)
      → lookup (source, (dataset, sym)) (set_all source dataset now symbols gauges)
        ≡ (if contains sym symbols then some now else lookup (source, (dataset, sym)) gauges)
  unfolding set_all
  set_all-lookup sym [] gauges = refl
  set_all-lookup sym (x ∷ symbols) gauges =
      let rest = set_all-lookup sym symbols (insert (source, (dataset, x)) now gauges) in
      let first = lookup-insert (source, (dataset, x)) (source, (dataset, sym)) now gauges in
      let same = same_gauge x sym in ground (arith, rest, first, same)

  -- The gauge of a symbol is set to the clock if a record has it, and else is as it was.
  pub update_freshness_gauge-lookup :
      (sym : String) (records : List (Option String)) (gauges : Dict Gauge Time)
      → lookup (source, (dataset, sym)) (update_freshness_gauge source dataset records now gauges)
        ≡ (if contains sym (symbols_in records)
            then some now
            else lookup (source, (dataset, sym)) gauges)
  unfolding update_freshness_gauge
  update_freshness_gauge-lookup sym records gauges = set_all-lookup sym (symbols_in records) gauges
