-- ===== src/Mexc/LiveCandles/Runs.antt =====
-- What a candle should be: the summary of a run of trades of one symbol within one minute.
use shortfire.Prelude.{◌≡◌, refl, List, [], ◌∷◌, ◌++◌, map, if◌then◌else◌}
use shortfire.Prelude.Keys.{◌==◌, eq_nat}
use shortfire.Prelude.Decimals.{Decimal, ◌+ℤ◌, max_ℤ, min_ℤ}
use shortfire.Prelude.Times.{minute_floor}
use shortfire.Mexc.LiveCandles.{Bucket, Trade, new_bucket, updated_bucket}

pub record Run : Type 0 where
  pub first : Trade
  pub rest : List Trade

abbrev pub trades : Run → List Trade
trades r = r.first ∷ r.rest

abbrev pub extend : Run → Trade → Run
extend r t = record r { rest = r.rest ++ t ∷ [] }

abbrev pub prices : List Trade → List Decimal
prices = map λ t. t.price

abbrev pub last_price : Decimal → List Trade → Decimal
last_price p [] = p
last_price p (t ∷ ts) = last_price t.price ts

abbrev pub highest : Decimal → List Trade → Decimal
highest p [] = p
highest p (t ∷ ts) = highest (max_ℤ p t.price) ts

abbrev pub lowest : Decimal → List Trade → Decimal
lowest p [] = p
lowest p (t ∷ ts) = lowest (min_ℤ p t.price) ts

abbrev pub total : Decimal → List Trade → Decimal
total q [] = q
total q (t ∷ ts) = total (q +ℤ t.qty) ts

-- First price, highest, lowest, last price and total quantity of a run, at its minute.
unfoldable pub candle : Run → Bucket
candle r = record {
  ts = minute_floor r.first.ts;
  open_price = r.first.price;
  high = highest r.first.price r.rest;
  low = lowest r.first.price r.rest;
  close = last_price r.first.price r.rest;
  volume = total r.first.qty r.rest;
}

-- The trades of one symbol cut where the minute changes. `r` is the run that is open.
unfoldable pub cut : Run → List Trade → List Run
cut r [] = r ∷ []
cut r (t ∷ ts) =
    let same = cut (extend r t) ts in
    let other = r ∷ cut (record { first = t; rest = [] }) ts in
    if minute_floor t.ts == minute_floor r.first.ts then same else other

unfoldable pub runs : List Trade → List Run
runs [] = []
runs (t ∷ ts) = cut (record { first = t; rest = [] }) ts

highest-snoc :
    (p : Decimal) (ts : List Trade) (t : Trade)
    → highest p (ts ++ t ∷ []) ≡ max_ℤ (highest p ts) t.price
highest-snoc p [] t = refl
highest-snoc p (x ∷ ts) t = highest-snoc (max_ℤ p x.price) ts t

lowest-snoc :
    (p : Decimal) (ts : List Trade) (t : Trade)
    → lowest p (ts ++ t ∷ []) ≡ min_ℤ (lowest p ts) t.price
lowest-snoc p [] t = refl
lowest-snoc p (x ∷ ts) t = lowest-snoc (min_ℤ p x.price) ts t

last_price-snoc :
    (p : Decimal) (ts : List Trade) (t : Trade) → last_price p (ts ++ t ∷ []) ≡ t.price
last_price-snoc p [] t = refl
last_price-snoc p (x ∷ ts) t = last_price-snoc x.price ts t

total-snoc :
    (p : Decimal) (ts : List Trade) (t : Trade) → total p (ts ++ t ∷ []) ≡ total p ts +ℤ t.qty
total-snoc p [] t = refl
total-snoc p (x ∷ ts) t = total-snoc (p +ℤ x.qty) ts t

pub candle-new :
    (t : Trade)
    → candle (record { first = t; rest = [] }) ≡ new_bucket (minute_floor t.ts) t.price t.qty
unfolding candle
candle-new t = refl

pub candle-extend :
    (r : Run) (t : Trade) → candle (extend r t) ≡ updated_bucket (candle r) t.price t.qty
unfolding candle
candle-extend r t = λ i. record {
  ts = minute_floor r.first.ts;
  open_price = r.first.price;
  high = highest-snoc r.first.price r.rest t i;
  low = lowest-snoc r.first.price r.rest t i;
  close = last_price-snoc r.first.price r.rest t i;
  volume = total-snoc r.first.qty r.rest t i;
}
