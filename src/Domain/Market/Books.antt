-- ===== src/Domain/Market/Books.antt =====
-- The order book checks: strict order of each side, and no bid that meets an ask.
use shortfire.Prelude.{◌≡◌, refl, ◌↔◌, List, [], ◌∷◌, ok, All, arith, true}
use shortfire.Prelude.Decimals.{Decimal, ◌<ℤ◌}
use shortfire.Domain.Market.{
  OrderBook, OrderBookLevel, bids_descending, asks_ascending, not_crossed, validate_order_book,
}

abbrev Levels : Type 0
Levels = List OrderBookLevel

-- Every level is beyond all that stand after it.
abbrev pub Falls : Levels → Type 0
Falls [] = Unit
Falls (x ∷ xs) = All (λ y. y.price <ℤ x.price) xs × Falls xs

abbrev pub Rises : Levels → Type 0
Rises [] = Unit
Rises (x ∷ xs) = All (λ y. x.price <ℤ y.price) xs × Rises xs

All-below :
    (p q : Decimal) (xs : Levels) → q <ℤ p → All (λ y. y.price <ℤ q) xs → All (λ y. y.price <ℤ p) xs
All-below p q [] h k = tt
All-below p q (x ∷ xs) h k = (omega arith, All-below p q xs h k.1)

All-above :
    (p q : Decimal) (xs : Levels) → p <ℤ q → All (λ y. q <ℤ y.price) xs → All (λ y. p <ℤ y.price) xs
All-above p q [] h k = tt
All-above p q (x ∷ xs) h k = (omega arith, All-above p q xs h k.1)

bids_descending-Falls : (xs : Levels) → bids_descending xs ≡ ok tt → Falls xs
unfolding bids_descending
bids_descending-Falls [] h = tt
bids_descending-Falls (a ∷ []) h = (tt, tt)
bids_descending-Falls (a ∷ b ∷ xs) h =
    let below : b.price <ℤ a.price = ground arith in
    let rest = bids_descending-Falls (b ∷ xs) (ground arith) in
    ((below, All-below a.price b.price xs below rest.0), rest)

asks_ascending-Rises : (xs : Levels) → asks_ascending xs ≡ ok tt → Rises xs
unfolding asks_ascending
asks_ascending-Rises [] h = tt
asks_ascending-Rises (a ∷ []) h = (tt, tt)
asks_ascending-Rises (a ∷ b ∷ xs) h =
    let above : a.price <ℤ b.price = ground arith in
    let rest = asks_ascending-Rises (b ∷ xs) (ground arith) in
    ((above, All-above a.price b.price xs above rest.0), rest)

-- The converses: a side in strict order passes its loop.
Falls-bids_descending : (xs : Levels) → Falls xs → bids_descending xs ≡ ok tt
unfolding bids_descending
Falls-bids_descending [] h = refl
Falls-bids_descending (a ∷ []) h = refl
Falls-bids_descending (a ∷ b ∷ xs) h = ground (arith, Falls-bids_descending (b ∷ xs) h.1)

Rises-asks_ascending : (xs : Levels) → Rises xs → asks_ascending xs ≡ ok tt
unfolding asks_ascending
Rises-asks_ascending [] h = refl
Rises-asks_ascending (a ∷ []) h = refl
Rises-asks_ascending (a ∷ b ∷ xs) h = ground (arith, Rises-asks_ascending (b ∷ xs) h.1)

-- Every bid is below every ask.
abbrev pub Uncrossed : Levels → Levels → Type 0
Uncrossed bids asks = All (λ b. All (λ a. b.price <ℤ a.price) asks) bids

asks-above :
    (p : Decimal) (a : OrderBookLevel) (asks : Levels)
    → p <ℤ a.price
    → Rises (a ∷ asks)
    → All (λ y. p <ℤ y.price) (a ∷ asks)
asks-above p a asks h r = (h, All-above p a.price asks h r.0)

not_crossed-Uncrossed :
    (bids asks : Levels)
    → not_crossed bids asks ≡ ok tt
    → Falls bids
    → Rises asks
    → Uncrossed bids asks
unfolding not_crossed
not_crossed-Uncrossed [] asks h f r = tt
not_crossed-Uncrossed (b ∷ bids) [] h f r = (tt, all_empty bids)
  where
    all_empty : (xs : Levels) → Uncrossed xs []
    all_empty [] = tt
    all_empty (x ∷ xs) = (tt, all_empty xs)
not_crossed-Uncrossed (b ∷ bids) (a ∷ asks) h f r =
    let best : b.price <ℤ a.price = ground arith in
    (asks-above b.price a asks best r, lower bids f.0 best)
  where
    lower :
        (xs : Levels)
        → All (λ y. y.price <ℤ b.price) xs
        → b.price <ℤ a.price
        → Uncrossed xs (a ∷ asks)
    lower [] k best = tt
    lower (x ∷ xs) k best = (asks-above x.price a asks (omega arith) r, lower xs k.1 best)

Uncrossed-not_crossed : (bids asks : Levels) → Uncrossed bids asks → not_crossed bids asks ≡ ok tt
unfolding not_crossed
Uncrossed-not_crossed [] asks h = refl
Uncrossed-not_crossed (b ∷ bids) [] h = refl
Uncrossed-not_crossed (b ∷ bids) (a ∷ asks) h = ground arith

pub record IsOrderBook (b : OrderBook) : Type 0 where
  pub is_aware : b.ts.has_tz ≡ true
  pub falls : Falls b.bids
  pub rises : Rises b.asks
  pub uncrossed : Uncrossed b.bids b.asks

book-Is : (b : OrderBook) → validate_order_book b ≡ ok b → IsOrderBook b
unfolding validate_order_book
book-Is b h =
    let f = bids_descending-Falls b.bids (ground arith) in
    let r = asks_ascending-Rises b.asks (ground arith) in
    record {
      is_aware = ground arith;
      falls = f;
      rises = r;
      uncrossed = not_crossed-Uncrossed b.bids b.asks (ground arith) f r;
    }

Is-book : (b : OrderBook) → IsOrderBook b → validate_order_book b ≡ ok b
unfolding validate_order_book
Is-book b h = rw (
  h.is_aware,
  Falls-bids_descending b.bids h.falls,
  Rises-asks_ascending b.asks h.rises,
  Uncrossed-not_crossed b.bids b.asks h.uncrossed,
)

-- A book is accepted exactly when its time is aware, its bids fall strictly, its asks rise
-- strictly, and every bid, not only the best, is below every ask.
pub order_book_iff : (b : OrderBook) → (validate_order_book b ≡ ok b) ↔ IsOrderBook b
order_book_iff b = (book-Is b, Is-book b)
