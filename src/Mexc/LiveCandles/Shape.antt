-- ===== src/Mexc/LiveCandles/Shape.antt =====
-- The candle of a run encloses its prices, and is a candle that the domain accepts.
use shortfire.Prelude.{
  String, ◌≡◌, refl, ◌∙◌, sym, ◌⊎◌, inl, inr, List, [], ◌∷◌, ◌++◌, map, All, Holds, Bool-cases, ok,
  arith, All-append,
}
use shortfire.Prelude.Decimals.{Decimal, ◌+ℤ◌, +ℤ-ge_zero, ◌≤ℤ◌, max_ℤ, min_ℤ, le_trans}
use shortfire.Prelude.Keys.{◌==◌, eq_nat, eq_string}
use shortfire.Prelude.Dicts.{lookup}
use shortfire.Prelude.Times.{aware, minute_floor}
use shortfire.Domain.Market.{Candle, Source, Timeframe, zero_decimal, validate_candle}
use shortfire.Domain.Market.Validity.{candle_iff}
use shortfire.Mexc.LiveCandles.{Bucket, Trade}
use shortfire.Mexc.LiveCandles.Runs.{
  Run, extend, trades, prices, highest, lowest, last_price, total, candle, runs, cut,
}
use shortfire.Mexc.LiveCandles.Refinement.{feed, buckets_of, trades_of, to_list, aggregator_refines}
use mathlib.Core.Path.{subst}

highest-ge : (p : Decimal) (ts : List Trade) → p ≤ℤ highest p ts
highest-ge p [] = omega arith
highest-ge p (t ∷ ts) =
    le_trans p (max_ℤ p t.price) (highest (max_ℤ p t.price) ts) (ground arith)
      (highest-ge (max_ℤ p t.price) ts)

lowest-le : (p : Decimal) (ts : List Trade) → lowest p ts ≤ℤ p
lowest-le p [] = omega arith
lowest-le p (t ∷ ts) =
    le_trans (lowest (min_ℤ p t.price) ts) (min_ℤ p t.price) p (lowest-le (min_ℤ p t.price) ts)
      (ground arith)

All-highest : (p : Decimal) (ts : List Trade) → All (λ t. t.price ≤ℤ highest p ts) ts
All-highest p [] = tt
All-highest p (t ∷ ts) =
    let q = max_ℤ p t.price in
    (le_trans t.price q (highest q ts) (ground arith) (highest-ge q ts), All-highest q ts)

All-lowest : (p : Decimal) (ts : List Trade) → All (λ t. lowest p ts ≤ℤ t.price) ts
All-lowest p [] = tt
All-lowest p (t ∷ ts) =
    let q = min_ℤ p t.price in
    (le_trans (lowest q ts) q t.price (lowest-le q ts) (ground arith), All-lowest q ts)

max_cases : (p q : Decimal) → (max_ℤ p q ≡ p) ⊎ (max_ℤ p q ≡ q)
max_cases p q = ground arith

min_cases : (p q : Decimal) → (min_ℤ p q ≡ p) ⊎ (min_ℤ p q ≡ q)
min_cases p q = ground arith

-- A member of `m ∷ l` is one of `p ∷ q ∷ l`, where `m` is `p` or `q`.
Holds-either :
    (h m p q : Decimal) (l : List Decimal)
    → (m ≡ p) ⊎ (m ≡ q)
    → Holds h (m ∷ l)
    → Holds h (p ∷ q ∷ l)
Holds-either h m p q l (inl e) (inl k) = inl (sym e ∙ k)
Holds-either h m p q l (inr e) (inl k) = inr (inl (sym e ∙ k))
Holds-either h m p q l c (inr k) = inr (inr k)

-- The bound is one of the prices.
highest-Holds : (p : Decimal) (ts : List Trade) → Holds (highest p ts) (p ∷ prices ts)
highest-Holds p [] = inl refl
highest-Holds p (t ∷ ts) =
    Holds-either (highest p (t ∷ ts)) (max_ℤ p t.price) p t.price (prices ts) (max_cases p t.price)
      (highest-Holds (max_ℤ p t.price) ts)

lowest-Holds : (p : Decimal) (ts : List Trade) → Holds (lowest p ts) (p ∷ prices ts)
lowest-Holds p [] = inl refl
lowest-Holds p (t ∷ ts) =
    Holds-either (lowest p (t ∷ ts)) (min_ℤ p t.price) p t.price (prices ts) (min_cases p t.price)
      (lowest-Holds (min_ℤ p t.price) ts)

last_price-between :
    (p lo hi : Decimal) (ts : List Trade)
    → lo ≤ℤ p
    → p ≤ℤ hi
    → All (λ t. lo ≤ℤ t.price) ts
    → All (λ t. t.price ≤ℤ hi) ts
    → (lo ≤ℤ last_price p ts) × (last_price p ts ≤ℤ hi)
last_price-between p lo hi [] h k a b = (h, k)
last_price-between p lo hi (t ∷ ts) h k a b = last_price-between t.price lo hi ts a.0 b.0 a.1 b.1

total-ge_zero :
    (q : Decimal) (ts : List Trade)
    → zero_decimal ≤ℤ q
    → All (λ t. zero_decimal ≤ℤ t.qty) ts
    → zero_decimal ≤ℤ total q ts
total-ge_zero q [] h a = h
total-ge_zero q (t ∷ ts) h a = total-ge_zero (q +ℤ t.qty) ts (+ℤ-ge_zero q t.qty h a.0) a.1

-- The high and the low of a run are prices of the run, and enclose all of them.
pub candle_encloses :
    (r : Run)
    → All (λ t. ((candle r).low ≤ℤ t.price) × (t.price ≤ℤ (candle r).high)) (trades r)
      × Holds (candle r).high (prices (trades r))
      × Holds (candle r).low (prices (trades r))
unfolding candle
candle_encloses r =
    let p = r.first.price in
    (
      both (lowest p r.rest) (highest p r.rest) (trades r) (lowest-le p r.rest, All-lowest p r.rest)
          (highest-ge p r.rest, All-highest p r.rest),
      highest-Holds p r.rest,
      lowest-Holds p r.rest,
    )
  where
    both :
        (lo hi : Decimal) (ts : List Trade)
        → All (λ t. lo ≤ℤ t.price) ts
        → All (λ t. t.price ≤ℤ hi) ts
        → All (λ t. (lo ≤ℤ t.price) × (t.price ≤ℤ hi)) ts
    both lo hi [] a b = tt
    both lo hi (t ∷ ts) a b = ((a.0, b.0), both lo hi ts a.1 b.1)

-- The domain candle with the fields of a bucket.
abbrev pub as_candle : String → Bucket → Candle
as_candle s b = record {
  symbol = s;
  source = Source.mexc_native;
  timeframe = Timeframe.m1;
  ts = aware b.ts;
  open_price = b.open_price;
  high = b.high;
  low = b.low;
  close = b.close;
  volume = b.volume;
}

abbrev pub IsAccepted : String → Bucket → Type 0
IsAccepted s b = validate_candle (as_candle s b) ≡ ok (as_candle s b)

candle-IsAccepted :
    (s : String) (r : Run) → All (λ t. zero_decimal ≤ℤ t.qty) (trades r) → IsAccepted s (candle r)
unfolding candle
candle-IsAccepted s r qtys =
    let p = r.first.price in
    let close =
      last_price-between p (lowest p r.rest) (highest p r.rest) r.rest (lowest-le p r.rest)
        (highest-ge p r.rest) (All-lowest p r.rest) (All-highest p r.rest) in
    (candle_iff (as_candle s (candle r))).0.1 (record {
      volume_ge = total-ge_zero r.first.qty r.rest qtys.0 qtys.1;
      is_aware = refl;
      low_open = lowest-le p r.rest;
      low_close = close.0;
      open_high = highest-ge p r.rest;
      close_high = close.1;
    })

-- What holds of all trades of a sequence holds of all trades of each of its runs.
module _ (P : Trade → Type 0) where
  All-cut :
      (r : Run) (ts : List Trade)
      → All P (trades r)
      → All P ts
      → All (λ q. All P (trades q)) (cut r ts)
  unfolding cut
  All-cut r [] a b = (a, tt)
  All-cut r (t ∷ ts) a b = elim (Bool-cases (minute_floor t.ts == minute_floor r.first.ts)) [
    | inl e ↦ rw e (All-cut (extend r t) ts (a.0, All-append P r.rest (t ∷ []) a.1 (b.0, tt)) b.1)
    | inr e ↦ rw e (a, All-cut (record { first = t; rest = [] }) ts (b.0, tt) b.1)
  ]

  All-runs : (ts : List Trade) → All P ts → All (λ q. All P (trades q)) (runs ts)
  unfolding runs
  All-runs [] a = tt
  All-runs (t ∷ ts) a = All-cut (record { first = t; rest = [] }) ts (a.0, tt) a.1

  pub All-trades_of : (s : String) (ts : List Trade) → All P ts → All P (trades_of s ts)
  unfolding trades_of
  All-trades_of s [] a = tt
  All-trades_of s (t ∷ ts) a = elim (Bool-cases (t.symbol == s)) [
    | inl e ↦ rw e (a.0, All-trades_of s ts a.1)
    | inr e ↦ rw e (All-trades_of s ts a.1)
  ]

All-map :
    (P : Bucket → Type 0) (Q : Run → Type 0) (rs : List Run)
    → ((r : Run) → Q r → P (candle r))
    → All Q rs
    → All P (map candle rs)
All-map P Q [] f a = tt
All-map P Q (r ∷ rs) f a = (f r a.0, All-map P Q rs f a.1)

pub All-prefix : (P : Bucket → Type 0) (xs ys : List Bucket) → All P (xs ++ ys) → All P xs
All-prefix P [] ys a = tt
All-prefix P (x ∷ xs) ys a = (a.0, All-prefix P xs ys a.1)

-- Whatever the sequence of trades with quantities of at least zero, every bucket that the
-- aggregator finalizes passes the validation of the domain's candle.
pub finalized-IsAccepted :
    (s : String) (ts : List Trade)
    → All (λ t. zero_decimal ≤ℤ t.qty) ts
    → All (IsAccepted s) (buckets_of s (feed [] ts).1)
finalized-IsAccepted s ts qtys =
    let HasQty = λ (t : Trade). zero_decimal ≤ℤ t.qty in
    All-prefix (IsAccepted s) (buckets_of s (feed [] ts).1) (to_list (lookup s (feed [] ts).0)) (
      subst (All (IsAccepted s)) (sym (aggregator_refines s ts)) (
        All-map (IsAccepted s) (λ r. All HasQty (trades r)) (runs (trades_of s ts))
          (candle-IsAccepted s)
          (All-runs HasQty (trades_of s ts) (All-trades_of HasQty s ts qtys))))
