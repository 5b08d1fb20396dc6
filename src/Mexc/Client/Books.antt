-- ===== src/Mexc/Client/Books.antt =====
-- What a book that fetch_order_book returns is like.
use shortfire.Prelude.{
  ℕ, suc, ◌≤◌, ◌≡◌, ◌∙◌, refl, sym, ap, String, List, [], ◌∷◌, take, length, length-take, Result,
  ok, raised, ◌>>=◌, ◌>>◌, Checked, arith,
}
use shortfire.Prelude.Times.{Time}
use shortfire.Domain.Market.{
  OrderBook, OrderBookLevel, validate_order_book, reject_naive_ts, bids_descending, asks_ascending,
  not_crossed,
}
use shortfire.Domain.Market.Books.{IsOrderBook, order_book_iff}
use mathlib.Core.Path.{subst}
use shortfire.Mexc.Schemas.{Reading}
use shortfire.Mexc.Client.Book.{BookDict, read_level, read_levels, book_time, read_book}

bind-ok :
    {A B : Type 0} (r : Result A) (next : A → Result B) (b : B)
    → (r >>= next) ≡ ok b
    → (a : A) × (r ≡ ok a) × (next a ≡ ok b)
bind-ok (ok a) next b h = (a, refl, h)
bind-ok (raised e) next b h = cc

then-ok : {A : Type 0} (r : Checked) (next : Result A) (a : A) → (r >> next) ≡ ok a → next ≡ ok a
then-ok (ok done) next a h = h
then-ok (raised e) next a h = cc

validated-same : (b b' : OrderBook) → validate_order_book b ≡ ok b' → b ≡ b'
unfolding validate_order_book
validated-same b b' h =
    let timed = then-ok (reject_naive_ts b.ts) _ b' h in
    let falling = then-ok (bids_descending b.bids) _ b' timed in
    let rising = then-ok (asks_ascending b.asks) _ b' falling in
    let last : ok b ≡ ok b' = then-ok (not_crossed b.bids b.asks) (ok b) b' rising in cc (last)

module _ {Cell : Type 0} (reading : Reading Cell) where
  read_levels-length :
      (xs : List (List Cell)) (levels : List OrderBookLevel)
      → read_levels reading xs ≡ ok levels
      → length levels ≡ length xs
  unfolding read_levels
  read_levels-length [] levels h = let same : [] ≡ levels = cc in ap length (sym same)
  read_levels-length (x ∷ xs) levels h =
      let (level, e, more) = bind-ok (read_level reading x) _ levels h in
      let (rest, e', built) = bind-ok (read_levels reading xs) _ levels more in
      let same : level ∷ rest ≡ levels = cc (built) in
      let short = read_levels-length xs rest e' in ap length (sym same) ∙ ap suc short

  -- A book that is returned is in order and not crossed, with an aware time, and has at most `depth`
  -- levels on each side.
  pub read_book-IsOrderBook :
      (symbol : String) (depth : ℕ) (now : Time) (raw : BookDict Cell) (b : OrderBook)
      → read_book reading symbol depth now raw ≡ ok b
      → IsOrderBook b × (length b.bids ≤ depth) × (length b.asks ≤ depth)
  unfolding read_book
  read_book-IsOrderBook symbol depth now raw b h =
      let (ts, e, h₁) = bind-ok (book_time reading now raw.timestamp) _ b h in
      let (bids, e₁, h₂) = bind-ok (read_levels reading (take depth raw.bids)) _ b h₁ in
      let (asks, e₂, h₃) = bind-ok (read_levels reading (take depth raw.asks)) _ b h₂ in
      let same = validated-same _ b h₃ in
      let valid = subst (λ c. validate_order_book c ≡ ok b) same h₃ in
      let few_bids = read_levels-length (take depth raw.bids) bids e₁ in
      let few_asks = read_levels-length (take depth raw.asks) asks e₂ in
      let b_bids : bids ≡ b.bids = ap (λ (c : OrderBook). c.bids) same in
      let b_asks : asks ≡ b.asks = ap (λ (c : OrderBook). c.asks) same in
      (
        (order_book_iff b).0 valid,
        omega (arith, ap length b_bids, few_bids, length-take depth raw.bids),
        omega (arith, ap length b_asks, few_asks, length-take depth raw.asks),
      )
