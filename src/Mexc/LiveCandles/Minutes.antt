-- ===== src/Mexc/LiveCandles/Minutes.antt =====
-- The minutes of the finalized buckets: distinct where the trades come in order, and not so else.
use shortfire.Prelude.{
  ℕ, suc, String, ◌<◌, ◌≤◌, ◌≡◌, refl, sym, ◌∙◌, ◌≢◌, inl, inr, true, false, List, [], ◌∷◌, ◌++◌,
  map, All, Bool-cases, arith,
}
use shortfire.Prelude.Keys.{◌==◌, eq_nat, eq_string}
use shortfire.Prelude.Dicts.{lookup}
use shortfire.Prelude.Times.{minute_floor}
use shortfire.Mexc.LiveCandles.{Bucket, Trade}
use shortfire.Mexc.LiveCandles.Runs.{Run, extend, candle, runs, cut}
use shortfire.Mexc.LiveCandles.Refinement.{feed, buckets_of, trades_of, to_list, aggregator_refines}
use shortfire.Mexc.LiveCandles.Shape.{All-trades_of, All-prefix}
use mathlib.Core.Path.{subst}

-- The minutes never go back.
abbrev pub InOrder : List Trade → Type 0
InOrder [] = Unit
InOrder (t ∷ ts) = All (λ u. minute_floor t.ts ≤ minute_floor u.ts) ts × InOrder ts

-- Each bucket is of a later minute than all before it.
abbrev pub Later : List Bucket → Type 0
Later [] = Unit
Later (b ∷ bs) = All (λ c. b.ts < c.ts) bs × Later bs

All-from : (p q : ℕ) (bs : List Bucket) → p ≤ q → All (λ b. q ≤ b.ts) bs → All (λ b. p ≤ b.ts) bs
All-from p q [] h a = tt
All-from p q (b ∷ bs) h a = (omega arith, All-from p q bs h a.1)

cut-Later :
    (r : Run) (ts : List Trade)
    → All (λ u. minute_floor r.first.ts ≤ minute_floor u.ts) ts
    → InOrder ts
    → All (λ b. minute_floor r.first.ts ≤ b.ts) (map candle (cut r ts))
      × Later (map candle (cut r ts))
unfolding cut candle
cut-Later r [] a o = ((omega arith, tt), (tt, tt))
cut-Later r (t ∷ ts) a o = elim (Bool-cases (minute_floor t.ts == minute_floor r.first.ts)) [
  | inl e ↦ rw e (cut-Later (extend r t) ts a.1 o.1)
  | inr e ↦
      let rest = cut-Later (record { first = t; rest = [] }) ts o.0 o.1 in
      let before : minute_floor r.first.ts < minute_floor t.ts = grind arith in
      rw e (
        (
          omega arith,
          All-from (minute_floor r.first.ts) (minute_floor t.ts) _ (omega arith) rest.0,
        ),
        (All-from (suc (minute_floor r.first.ts)) (minute_floor t.ts) _ before rest.0, rest.1),
      )
]

runs-Later : (ts : List Trade) → InOrder ts → Later (map candle (runs ts))
unfolding runs
runs-Later [] o = tt
runs-Later (t ∷ ts) o = (cut-Later (record { first = t; rest = [] }) ts o.0 o.1).1

InOrder-trades_of : (s : String) (ts : List Trade) → InOrder ts → InOrder (trades_of s ts)
unfolding trades_of
InOrder-trades_of s [] o = tt
InOrder-trades_of s (t ∷ ts) o = elim (Bool-cases (t.symbol == s)) [
  | inl e ↦ rw e (
    All-trades_of (λ u. minute_floor t.ts ≤ minute_floor u.ts) s ts o.0,
    InOrder-trades_of s ts o.1,
  )
  | inr e ↦ rw e (InOrder-trades_of s ts o.1)
]

Later-prefix : (xs ys : List Bucket) → Later (xs ++ ys) → Later xs
Later-prefix [] ys l = tt
Later-prefix (x ∷ xs) ys l = (All-prefix (λ c. x.ts < c.ts) xs ys l.0, Later-prefix xs ys l.1)

-- Where the trades come in the order of their minutes, the buckets that are finalized for a symbol
-- are of strictly later and later minutes: no two have the key (symbol, ts) of one row.
pub finalized-Later :
    (s : String) (ts : List Trade) → InOrder ts → Later (buckets_of s (feed [] ts).1)
finalized-Later s ts o =
    Later-prefix (buckets_of s (feed [] ts).1) (to_list (lookup s (feed [] ts).0)) (
      subst Later (sym (aggregator_refines s ts))
        (runs-Later (trades_of s ts) (InOrder-trades_of s ts o)))

-- Two buckets of one minute, with one between them.
abbrev pub SplitMinute : List Bucket → Type 0
SplitMinute (x ∷ y ∷ z ∷ []) = (x.ts ≡ z.ts) × (x.ts ≢ y.ts)
SplitMinute _ = ⊥

same_symbol : (s : String) (t : Trade) → t.symbol ≡ s → (t.symbol == s) ≡ true
same_symbol s t e = (eq_string.eq_test_iff t.symbol s).1 e

other_minute :
    (t u : Trade)
    → minute_floor t.ts ≢ minute_floor u.ts
    → (minute_floor t.ts == minute_floor u.ts) ≡ false
other_minute t u ne = ground arith

-- A trade that comes late, after one of another minute, closes the open bucket too, and opens a
-- second bucket of a minute that was finalized before.
pub late_trade_splits :
    (a b c : Trade)
    → b.symbol ≡ a.symbol
    → c.symbol ≡ a.symbol
    → minute_floor b.ts ≢ minute_floor a.ts
    → minute_floor c.ts ≡ minute_floor a.ts
    → SplitMinute (
        buckets_of a.symbol (feed [] (a ∷ b ∷ c ∷ [])).1
        ++ to_list (lookup a.symbol (feed [] (a ∷ b ∷ c ∷ [])).0))
late_trade_splits a b c sb sc mb mc =
    subst SplitMinute (sym (aggregator_refines a.symbol (a ∷ b ∷ c ∷ []))) (
      unfold trades_of runs cut candle in
      rw
        (
          same_symbol a.symbol a refl,
          same_symbol a.symbol b sb,
          same_symbol a.symbol c sc,
          other_minute b a mb,
          other_minute c b (λ e. mb (sym e ∙ mc)),
        )
        (sym mc, λ e. mb (sym e)))
