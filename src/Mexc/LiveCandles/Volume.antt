-- ===== src/Mexc/LiveCandles/Volume.antt =====
-- The aggregator neither loses nor invents volume.
use shortfire.Prelude.{String, ◌≡◌, refl, ap, ◌∙◌, inl, inr, List, [], ◌∷◌, ◌++◌, map, Bool-cases}
use shortfire.Prelude.Keys.{◌==◌, eq_nat, eq_string}
use shortfire.Prelude.Dicts.{lookup}
use shortfire.Prelude.Decimals.{Decimal, pos, ◌+ℤ◌, +ℤ_assoc}
use shortfire.Prelude.Times.{minute_floor}
use shortfire.Mexc.LiveCandles.{Bucket, Trade}
use shortfire.Mexc.LiveCandles.Runs.{Run, extend, total, candle, runs, cut}
use shortfire.Mexc.LiveCandles.Refinement.{feed, buckets_of, trades_of, to_list, aggregator_refines}

abbrev pub traded : List Trade → Decimal
traded [] = pos 0
traded (t ∷ ts) = t.qty +ℤ traded ts

abbrev pub volumes : List Bucket → Decimal
volumes [] = pos 0
volumes (b ∷ bs) = b.volume +ℤ volumes bs

total-snoc :
    (q : Decimal) (ts : List Trade) (t : Trade) → total q (ts ++ t ∷ []) ≡ total q ts +ℤ t.qty
total-snoc q [] t = refl
total-snoc q (x ∷ ts) t = total-snoc (q +ℤ x.qty) ts t

cut-volumes :
    (r : Run) (ts : List Trade)
    → volumes (map candle (cut r ts)) ≡ total r.first.qty r.rest +ℤ traded ts
unfolding cut candle
cut-volumes r [] = refl
cut-volumes r (t ∷ ts) = elim (Bool-cases (minute_floor t.ts == minute_floor r.first.ts)) [
  | inl e ↦ rw e (
      cut-volumes (extend r t) ts
      ∙ ap (λ q. q +ℤ traded ts) (total-snoc r.first.qty r.rest t)
      ∙ +ℤ_assoc (total r.first.qty r.rest) t.qty (traded ts))
  | inr e ↦
      rw e
        (ap (λ q. total r.first.qty r.rest +ℤ q) (cut-volumes (record { first = t; rest = [] }) ts))
]

runs-volumes : (ts : List Trade) → volumes (map candle (runs ts)) ≡ traded ts
unfolding runs
runs-volumes [] = refl
runs-volumes (t ∷ ts) = cut-volumes (record { first = t; rest = [] }) ts

-- For every symbol the volumes of the finalized buckets and of the open one add up to the
-- quantities of all trades of the symbol, in whatever order they came.
pub volume_conserved :
    (s : String) (ts : List Trade)
    → volumes (buckets_of s (feed [] ts).1 ++ to_list (lookup s (feed [] ts).0))
      ≡ traded (trades_of s ts)
volume_conserved s ts = ap volumes (aggregator_refines s ts) ∙ runs-volumes (trades_of s ts)
