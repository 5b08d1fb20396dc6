-- ===== src/Mexc/LiveCandles/Refinement.antt =====
-- The aggregator against the runs of trades: what it emits, and what it holds at the end.
use shortfire.Prelude.{
  String, ◌≡◌, refl, sym, ap, ◌∙◌, inl, inr, Bool, true, false, Option, none, some, List, [], ◌∷◌,
  ◌++◌, map, if◌then◌else◌, Bool-cases,
}
use shortfire.Prelude.Keys.{◌==◌, eq_nat, eq_string}
use shortfire.Prelude.Times.{minute_floor}
use shortfire.Prelude.Dicts.{lookup, insert, lookup-insert}
use shortfire.Mexc.LiveCandles.{
  Bucket, Trade, MinuteAggregator, new_bucket, updated_bucket, on_trade, on_partial,
}
use shortfire.Mexc.LiveCandles.Runs.{Run, extend, candle, cut, runs, candle-new, candle-extend}

-- The finalized bucket of one call, with its symbol.
abbrev pub tagged : String → Option Bucket → List (String × Bucket)
tagged s none = []
tagged s (some b) = (s, b) ∷ []

-- The calls of `on_trade` for a sequence of trades, and all that they finalize.
unfoldable pub feed : MinuteAggregator → List Trade → MinuteAggregator × List (String × Bucket)
feed agg [] = (agg, [])
feed agg (t ∷ ts) =
    let (agg', fin) = on_trade agg t in
    let (agg'', out) = feed agg' ts in (agg'', tagged t.symbol fin ++ out)

unfoldable pub buckets_of : String → List (String × Bucket) → List Bucket
buckets_of s [] = []
buckets_of s ((k, b) ∷ out) = if k == s then b ∷ buckets_of s out else buckets_of s out

unfoldable pub trades_of : String → List Trade → List Trade
trades_of s [] = []
trades_of s (t ∷ ts) = if t.symbol == s then t ∷ trades_of s ts else trades_of s ts

abbrev pub to_list : Option Bucket → List Bucket
to_list none = []
to_list (some b) = b ∷ []

-- The runs of a symbol whose open run is `o`.
abbrev runs_from : Option Run → List Trade → List Run
runs_from none ts = runs ts
runs_from (some r) ts = cut r ts

abbrev held : Option Run → Option Bucket
held none = none
held (some r) = some (candle r)

abbrev new_run : Trade → Run
new_run t = record { first = t; rest = [] }

-- Setting the bucket of one symbol is seen by that symbol alone.
lookup-other :
    (s : String) (agg : MinuteAggregator) (t : Trade) (b : Bucket)
    → (t.symbol == s) ≡ false
    → lookup s (insert t.symbol b agg) ≡ lookup s agg
lookup-other s agg t b ne = lookup-insert t.symbol s b agg ∙ (rw ne)

lookup-own :
    (s : String) (agg : MinuteAggregator) (t : Trade) (b : Bucket)
    → (t.symbol == s) ≡ true
    → lookup s (insert t.symbol b agg) ≡ some b
lookup-own s agg t b eq = lookup-insert t.symbol s b agg ∙ (rw eq)

on_other :
    (s : String) (agg : MinuteAggregator) (t : Trade)
    → (t.symbol == s) ≡ false
    → lookup s (on_trade agg t).0 ≡ lookup s agg
unfolding on_trade
on_other s agg t ne =
    elim (lookup t.symbol agg) as (λ o. lookup s (on_partial agg t o).0 ≡ lookup s agg) [
      | none ↦ lookup-other s agg t _ ne
      | some cur ↦ elim (Bool-cases (minute_floor t.ts == cur.ts)) [
        | inl e ↦ rw e (lookup-other s agg t _ ne)
        | inr e ↦ rw e (lookup-other s agg t _ ne)
      ]
    ]

-- The case that a call takes is that of the trade's own symbol.
on_trade-own :
    (s : String) (agg : MinuteAggregator) (t : Trade) (o : Option Bucket)
    → (t.symbol == s) ≡ true
    → lookup s agg ≡ o
    → on_trade agg t ≡ on_partial agg t o
unfolding on_trade
on_trade-own s agg t o eq h =
    ap (on_partial agg t) (ap (λ k. lookup k agg) ((eq_string.eq_test_iff t.symbol s).0 eq) ∙ h)

tagged-other :
    (s k : String) (o : Option Bucket) (out : List (String × Bucket))
    → (k == s) ≡ false
    → buckets_of s (tagged k o ++ out) ≡ buckets_of s out
unfolding buckets_of
tagged-other s k none out ne = refl
tagged-other s k (some b) out ne = rw ne

abbrev Refines : String → List Trade → MinuteAggregator → Option Run → Type 0
Refines s ts agg o =
    buckets_of s (feed agg ts).1 ++ to_list (lookup s (feed agg ts).0)
    ≡ map candle (runs_from o (trades_of s ts))

same_minute : Run → Trade → Bool
same_minute r t = minute_floor t.ts == minute_floor r.first.ts

update_partial :
    (agg : MinuteAggregator) (t : Trade) (b : Bucket)
    → (minute_floor t.ts == b.ts) ≡ true
    → on_partial agg t (some b) ≡ (insert t.symbol (updated_bucket b t.price t.qty) agg, none)
unfolding on_partial
update_partial agg t b h = rw h

roll_partial :
    (agg : MinuteAggregator) (t : Trade) (b : Bucket)
    → (minute_floor t.ts == b.ts) ≡ false
    → on_partial agg t (some b)
      ≡ (insert t.symbol (new_bucket (minute_floor t.ts) t.price t.qty) agg, some b)
unfolding on_partial
roll_partial agg t b h = rw h

on_partial-same :
    (agg : MinuteAggregator) (t : Trade) (r : Run)
    → same_minute r t ≡ true
    → on_partial agg t (some (candle r)) ≡ (insert t.symbol (candle (extend r t)) agg, none)
on_partial-same agg t r h =
    update_partial agg t (candle r) (unfold candle same_minute in h)
    ∙ ap (λ b. (insert t.symbol b agg, none)) (sym (candle-extend r t))

on_partial-rolled :
    (agg : MinuteAggregator) (t : Trade) (r : Run)
    → same_minute r t ≡ false
    → on_partial agg t (some (candle r))
      ≡ (insert t.symbol (candle (new_run t)) agg, some (candle r))
on_partial-rolled agg t r h =
    roll_partial agg t (candle r) (unfold candle same_minute in h)
    ∙ ap (λ b. (insert t.symbol b agg, some (candle r))) (sym (candle-new t))

cut-same :
    (r : Run) (t : Trade) (ts : List Trade)
    → same_minute r t ≡ true
    → cut r (t ∷ ts) ≡ cut (extend r t) ts
unfolding cut same_minute
cut-same r t ts h = rw h

cut-rolled :
    (r : Run) (t : Trade) (ts : List Trade)
    → same_minute r t ≡ false
    → cut r (t ∷ ts) ≡ r ∷ cut (new_run t) ts
unfolding cut same_minute
cut-rolled r t ts h = rw h

buckets_of-own :
    (s k : String) (b : Bucket) (out : List (String × Bucket))
    → (k == s) ≡ true
    → buckets_of s ((k, b) ∷ out) ≡ b ∷ buckets_of s out
unfolding buckets_of
buckets_of-own s k b out eq = rw eq

-- A trade of the symbol itself, for any continuation that refines.
module _ (s : String) (t : Trade) (ts : List Trade) (agg : MinuteAggregator)
    (eq : (t.symbol == s) ≡ true)
    (later : (agg' : MinuteAggregator) (o' : Option Run)
      → lookup s agg' ≡ held o'
      → Refines s ts agg' o') where
  own_first : lookup s agg ≡ none → Refines s (t ∷ ts) agg none
  unfolding feed trades_of on_partial runs
  own_first h =
      rw (eq, on_trade-own s agg t none eq h)
        (later _ (some (new_run t)) (lookup-own s agg t _ eq ∙ ap some (sym (candle-new t))))

  own_same :
      (r : Run)
      → same_minute r t ≡ true
      → lookup s agg ≡ some (candle r)
      → Refines s (t ∷ ts) agg (some r)
  unfolding feed trades_of
  own_same r same h =
      rw
        (
          eq,
          on_trade-own s agg t (some (candle r)) eq h,
          on_partial-same agg t r same,
          cut-same r t (trades_of s ts) same,
        )
        (later _ (some (extend r t)) (lookup-own s agg t _ eq))

  own_rolled :
      (r : Run)
      → same_minute r t ≡ false
      → lookup s agg ≡ some (candle r)
      → Refines s (t ∷ ts) agg (some r)
  unfolding feed trades_of
  own_rolled r rolled h =
      rw
        (
          eq,
          on_trade-own s agg t (some (candle r)) eq h,
          on_partial-rolled agg t r rolled,
          cut-rolled r t (trades_of s ts) rolled,
          buckets_of-own s t.symbol (candle r)
              (feed (insert t.symbol (candle (new_run t)) agg) ts).1 eq,
        )
        (ap (◌∷◌ (candle r)) (later _ (some (new_run t)) (lookup-own s agg t _ eq)))

  own_step : (o : Option Run) → lookup s agg ≡ held o → Refines s (t ∷ ts) agg o
  own_step none h = own_first h
  own_step (some r) h = elim (Bool-cases (same_minute r t)) [
    | inl same ↦ own_same r same h
    | inr rolled ↦ own_rolled r rolled h
  ]

-- For every symbol: the buckets that a sequence of calls finalizes, and then the bucket that it
-- leaves open, are the candles of the runs of that symbol's trades.
feed-runs_from :
    (s : String) (ts : List Trade) (agg : MinuteAggregator) (o : Option Run)
    → lookup s agg ≡ held o
    → Refines s ts agg o
unfolding feed trades_of
feed-runs_from s [] agg none h = unfold buckets_of runs in rw h
feed-runs_from s [] agg (some r) h = unfold buckets_of cut in rw h
feed-runs_from s (t ∷ ts) agg o h = elim (Bool-cases (t.symbol == s)) [
  | inr ne ↦
      rw (ne, tagged-other s t.symbol (on_trade agg t).1 (feed (on_trade agg t).0 ts).1 ne)
        (feed-runs_from s ts (on_trade agg t).0 o (on_other s agg t ne ∙ h))
  | inl eq ↦ own_step s t ts agg eq (feed-runs_from s ts) o h
]

-- From the empty aggregator on: for every symbol and every sequence of trades of any symbols, in
-- any order, the finalized buckets followed by the open one are the candles of the symbol's runs.
pub aggregator_refines :
    (s : String) (ts : List Trade)
    → buckets_of s (feed [] ts).1 ++ to_list (lookup s (feed [] ts).0)
      ≡ map candle (runs (trades_of s ts))
unfolding lookup
aggregator_refines s ts = feed-runs_from s ts [] none refl
