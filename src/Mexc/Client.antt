-- ===== src/Mexc/Client.antt =====
-- ingest/mexc/client.py: the methods of the client. The exchange (ccxt) is a parameter:
-- `ohlcv n` and the others are its answers to the request number `n`. The limiter, which only delays
-- a request, is not modelled.
pub mod Good
pub mod Book
pub mod Books
mod Tests
use shortfire.Prelude.{
  ℕ, String, Option, some, List, [], ◌∷◌, ◌++◌, Result, ok, raised, not_implemented_error,
}
use shortfire.Prelude.Times.{Time, to_ms}
use shortfire.Domain.Market.{Candle, Timeframe, Funding, OrderBook}
use shortfire.Storage.{Database}
use shortfire.DeadLetter.{letter_key, text}
use shortfire.Effects.{M, Ambient, return, raise, lift, catch, ◌>>=◌, ◌>>◌, request, dead_letter}
use shortfire.Retry.{Tenacity, mexc_retry}
use shortfire.Mexc.Client.Book.{BookDict, read_book}
use shortfire.Mexc.OpenInterest.{OpenInterest}
use shortfire.Mexc.Schemas.{
  Reading, FundingDict, OpenInterestDict, read_ohlcv, read_funding, read_open_interest,
}

abbrev pub appended : {A : Type 0} → List A → Result A → Result (List A)
appended values (ok a) = ok (values ++ a ∷ [])
appended values (raised e) = raised e

-- The body that the three methods share: `str_row` is `str` of a row, `read` its conversion.
module _ {Row Key : Type 0} {key : Row → Key} (db : Database key) (dlq : Database letter_key)
    (amb : Ambient) (endpoint symbol : String) where
  unfoldable pub call_exchange : {Raw : Type 0} → (ℕ → Result (List Raw)) → M db dlq (List Raw)
  call_exchange answers =
      catch (request answers)
        (λ e. dead_letter amb "mexc_native" endpoint (some symbol) (text "") e >> raise e)

  module _ {Raw A : Type 0} (str_row : Raw → String) (read : Raw → Result A) where
    unfoldable pub read_row : Raw → List A → M db dlq (List A)
    read_row row values = catch (lift (appended values (read row))) (λ e.
        dead_letter amb "mexc_native" endpoint (some symbol) (text (str_row row)) e
        >> return values)

    unfoldable pub read_rows : List Raw → List A → M db dlq (List A)
    read_rows [] values = return values
    read_rows (row ∷ rows) values = do values' ← read_row row values; read_rows rows values'

    unfoldable pub fetch_rows : Tenacity → (ℕ → Result (List Raw)) → M db dlq (List A)
    fetch_rows tenacity answers =
        tenacity.call mexc_retry (do rows ← call_exchange answers; read_rows rows [])

-- ccxt, and `str` of its rows.
pub record Exchange (Cell : Type 0) : Type 0 where
  pub ohlcv : ℕ → (symbol : String) → Timeframe → (since_ms : ℕ) → Result (List (List Cell))
  pub funding : ℕ → (symbol : String) → (since_ms : ℕ) → Result (List (FundingDict Cell))
  pub open_interest : ℕ → (symbol timeframe : String) → Result (List (OpenInterestDict Cell))
  pub str_ohlcv : List Cell → String
  pub str_funding : FundingDict Cell → String
  pub str_open_interest : OpenInterestDict Cell → String

module _ {Row Key Cell : Type 0} {key : Row → Key} (db : Database key) (dlq : Database letter_key)
    (amb : Ambient) (reading : Reading Cell) (exchange : Exchange Cell) (tenacity : Tenacity) where
  -- `until` is not used.
  abbrev pub fetch_ohlcv :
      (symbol : String) → Timeframe → (since until : Time) → M db dlq (List Candle)
  fetch_ohlcv symbol timeframe since until =
      fetch_rows db dlq amb "fetch_ohlcv" symbol exchange.str_ohlcv
        (read_ohlcv reading symbol timeframe) tenacity
        (λ n. exchange.ohlcv n symbol timeframe (to_ms since))

  abbrev pub fetch_funding_rate_history :
      (symbol : String) → (since until : Time) → M db dlq (List Funding)
  fetch_funding_rate_history symbol since until =
      fetch_rows db dlq amb "fetch_funding_rate_history" symbol exchange.str_funding
        (read_funding reading symbol) tenacity (λ n. exchange.funding n symbol (to_ms since))

  abbrev pub fetch_open_interest_history :
      (symbol timeframe : String) → M db dlq (List OpenInterest)
  fetch_open_interest_history symbol timeframe =
      fetch_rows db dlq amb "fetch_open_interest_history" symbol exchange.str_open_interest
        (read_open_interest reading symbol) tenacity
        (λ n. exchange.open_interest n symbol timeframe)

module _ {Row Key Cell : Type 0} {key : Row → Key} (db : Database key) (dlq : Database letter_key)
    (amb : Ambient) (reading : Reading Cell) (tenacity : Tenacity) where
  -- `answers n` is the answer of ccxt to the request number `n`. Only its exceptions are dead letters.
  unfoldable pub fetch_order_book :
      (answers : ℕ → (symbol : String) (limit : ℕ) → Result (BookDict Cell))
      → (symbol : String) (depth : ℕ) → M db dlq OrderBook
  fetch_order_book answers symbol depth = tenacity.call mexc_retry (do
    raw ←
        catch (request (λ n. answers n symbol depth)) (λ e.
          dead_letter amb "mexc_native" "fetch_order_book" (some symbol) (text "") e >> raise e)
    lift (read_book reading symbol depth amb.wall raw))

  unfoldable pub place_order : M db dlq String
  place_order = raise not_implemented_error

  unfoldable pub cancel_order : M db dlq (Unit {0})
  cancel_order = raise not_implemented_error
