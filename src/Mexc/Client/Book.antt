-- ===== src/Mexc/Client/Book.antt =====
-- How fetch_order_book of ingest/mexc/client.py reads an answer.
use shortfire.Prelude.{
  ℕ, String, Option, none, some, List, [], ◌∷◌, take, Result, ok, raised, ◌>>=◌, index_error,
  if◌then◌else◌,
}
use shortfire.Prelude.Times.{Time, DateTime, from_ms, aware}
use shortfire.Domain.Market.{
  OrderBookLevel, OrderBook, mexc_native, validate_level, validate_order_book,
}
use shortfire.Mexc.Schemas.{Reading}

-- The entries of the answer that are read; `timestamp` is None, or an int of milliseconds.
pub record BookDict (Cell : Type 0) : Type 0 where
  pub timestamp : Option Cell
  pub bids : List (List Cell)
  pub asks : List (List Cell)

module _ {Cell : Type 0} (reading : Reading Cell) where
  -- OrderBookLevel(price=Decimal(str(b[0])), qty=Decimal(str(b[1])))
  unfoldable pub read_level : List Cell → Result OrderBookLevel
  read_level [] = raised index_error
  read_level (p ∷ []) = reading.decimal p >>= λ price. raised index_error
  read_level (p ∷ q ∷ rest) = reading.decimal p >>= λ price.
      reading.decimal q >>= λ qty. validate_level (record { price = price; qty = qty })

  unfoldable pub read_levels : List (List Cell) → Result (List OrderBookLevel)
  read_levels [] = ok []
  read_levels (x ∷ xs) = read_level x >>= λ level. read_levels xs >>= λ levels. ok (level ∷ levels)

  -- The time of the answer, or the clock where it has none or 0.
  abbrev pub book_time : Time → Option Cell → Result DateTime
  book_time now none = ok (aware now)
  book_time now (some t) =
      if reading.is_truthy t
      then reading.strict_int t >>= (λ ms. ok (aware (from_ms ms)))
      else ok (aware now)

  unfoldable pub read_book : (symbol : String) (depth : ℕ) → Time → BookDict Cell → Result OrderBook
  read_book symbol depth now raw = book_time now raw.timestamp >>= λ ts.
      read_levels (take depth raw.bids) >>= λ bids. read_levels (take depth raw.asks) >>= λ asks.
      validate_order_book
        (record { symbol = symbol; source = mexc_native; ts = ts; bids = bids; asks = asks })
