-- ===== src/Coingecko.antt =====
-- ingest/coingecko/: schemas.py, client.py and the daily write of universe.py. HTTP and pydantic are
-- as in Coinglass/Client; `str.upper`, the JSON text and `str` of a payload are parameters. The
-- limiter, which only delays a request, is not modelled.
pub mod Tickers
pub mod Detail
mod Tests
use Prim.Native.String.{◌++◌ as append}
use shortfire.Prelude.{
  ℕ, String, Option, none, some, List, [], ◌∷◌, map, Result, Error, ok, raised, leb, if◌then◌else◌,
  http_status_error, validation_error, value_error,
}
use shortfire.Prelude.Keys.{◌==◌, eq_string}
use shortfire.Prelude.Decimals.{Decimal}
use shortfire.Prelude.Times.{Time}
use shortfire.Storage.{Database}
use shortfire.DeadLetter.{letter_key, prefix, text}
use shortfire.Effects.{M, Ambient, return, ◌>>=◌, ◌>>◌, raise, lift, request, write, dead_letter_as}
use shortfire.Retry.{Tenacity, coingecko_retry}
use shortfire.Coinglass.Client.{HttpResponse, is_retry_status, found}

-- A value of an item: absent or null, one that its conversion does not read, or what it reads.
pub data Field (A : Type 0) : Type 0 where
  missing unreadable : Field A
  value : A → Field A

-- An item of /coins/markets: `none` for a text that is absent or is not a text.
pub record RawCoin : Type 0 where
  pub id : Option String
  pub symbol : Option String
  pub name : Option String
  pub current_price : Field Decimal
  pub market_cap : Field Decimal
  pub total_volume : Field Decimal
  pub last_updated : Field Time
  pub json : String

pub record CoinsMarketsRow : Type 0 where
  pub id : String
  pub symbol : String
  pub name : String
  pub current_price : Option Decimal
  pub market_cap : Option Decimal
  pub total_volume : Option Decimal
  pub last_updated : Option Time
  pub raw_payload : Option String

-- `if k not in raw: continue`, None as it is, and the conversion with its exception
abbrev pub convert : {A : Type 0} → Error → Field A → Result (Option A)
convert e missing = ok none
convert e unreadable = raised e
convert e (value a) = ok (some a)

abbrev pub present : Option String → Result String
present none = raised validation_error
present (some s) = ok s

abbrev pub then_do : {A B : Type 0} → Result A → (A → Result B) → Result B
then_do (raised e) next = raised e
then_do (ok a) next = next a

-- from_raw: the loop over the known keys, then model_validate.
abbrev pub from_raw : RawCoin → Result CoinsMarketsRow
from_raw raw = then_do (convert value_error raw.current_price) (λ current_price.
    then_do (convert value_error raw.market_cap) (λ market_cap.
      then_do (convert value_error raw.total_volume) (λ total_volume.
        then_do (convert validation_error raw.last_updated) (λ last_updated.
          then_do (present raw.id) (λ id. then_do (present raw.symbol) (λ symbol.
            then_do (present raw.name) (λ name. ok (record {
              id = id;
              symbol = symbol;
              name = name;
              current_price = current_price;
              market_cap = market_cap;
              total_volume = total_volume;
              last_updated = last_updated;
              raw_payload = some raw.json;
            }))))))))

-- raw_coingecko_market; the category and the listing date are always None.
pub record MarketRow : Type 0 where
  pub symbol : String
  pub ts : Time
  pub price_usd : Option Decimal
  pub volume_24h_usd : Option Decimal
  pub market_cap_usd : Option Decimal
  pub raw_payload : Option String
  pub source : String
  pub quality_flag : String

-- _CONFLICT_COLUMNS
abbrev pub market_key : MarketRow → String × (Time × String)
market_key r = (r.symbol, (r.ts, r.source))

abbrev pub market_table : String
market_table = "raw_coingecko_market"

-- symbol_unified or self.symbol.upper()
abbrev pub unified_or : Option String → String → String
unified_or none upper = upper
unified_or (some s) upper = if s == "" then upper else s

abbrev pub to_record :
    (upper : String → String)
    → Time
    → (symbol_unified : Option String) → CoinsMarketsRow
    → MarketRow
to_record upper ts symbol_unified row = record {
  symbol = unified_or symbol_unified (upper row.symbol);
  ts = ts;
  price_usd = row.current_price;
  volume_24h_usd = row.total_volume;
  market_cap_usd = row.market_cap;
  raw_payload = row.raw_payload;
  source = "coingecko";
  quality_flag = "ok";
}

-- An answer of /coins/markets: null, a list, or another value.
pub data Payload : Type 0 where
  null other : Payload
  coins : List RawCoin → Payload

abbrev pub rows_cons :
    Result CoinsMarketsRow → Result (List CoinsMarketsRow) → Result (List CoinsMarketsRow)
rows_cons (raised e) rest = raised e
rows_cons (ok row) (raised e) = raised e
rows_cons (ok row) (ok rows) = ok (row ∷ rows)

-- tuple(CoinsMarketsRow.from_raw(raw) for raw in payload_list)
unfoldable pub rows_of : List RawCoin → Result (List CoinsMarketsRow)
rows_of [] = ok []
rows_of (raw ∷ payload) = rows_cons (from_raw raw) (rows_of payload)

-- What is outside: the server, and `str` of a payload.
pub record Outside : Type 0 where
  pub get : ℕ → Result (HttpResponse Payload)
  pub str_payload : Payload → String
  pub upper : String → String

module _ {Row Key : Type 0} {key : Row → Key} (db : Database key) (dlq : Database letter_key)
    (amb : Ambient) (out : Outside) (tenacity : Tenacity) where
  -- The part of `_call` after the request; `params_id` is params.get("id").
  unfoldable pub on_response :
      {J : Type 0} → String → (params_id : Option String) → HttpResponse J → M db dlq (Option J)
  on_response endpoint params_id r =
      if is_retry_status r.status_code
      then raise http_status_error
      else if leb 400 r.status_code
      then (do
        dead_letter_as amb "coingecko" endpoint params_id (text (prefix 8000 r.text))
            "HTTPStatusError" (append "HTTP " (amb.str_int r.status_code))
        return none)
      else lift (found r.json)

  -- `_call`
  unfoldable pub call :
      {J : Type 0} → String → Option String → (ℕ → Result (HttpResponse J)) → M db dlq (Option J)
  call endpoint params_id get = do r ← request get; on_response endpoint params_id r

  -- The `except` clause: an answer that is not valid goes to the dead letters.
  unfoldable pub on_rows :
      Payload → Result (List CoinsMarketsRow) → M db dlq (Option (List CoinsMarketsRow))
  on_rows payload (ok rows) = return (some rows)
  on_rows payload (raised e) = do
    dead_letter_as amb "coingecko" "/coins/markets" none
        (text (prefix 8000 (out.str_payload payload))) "ValidationError" (amb.message e)
    return none

  unfoldable pub on_payload : Option Payload → M db dlq (Option (List CoinsMarketsRow))
  on_payload none = return none
  on_payload (some null) = return none
  on_payload (some other) = on_rows other (raised value_error)
  on_payload (some (coins payload)) = on_rows (coins payload) (rows_of payload)

  unfoldable pub fetch_once : M db dlq (Option (List CoinsMarketsRow))
  fetch_once = do payload ← call "/coins/markets" none out.get; on_payload payload

  -- @coingecko_retry
  unfoldable pub fetch_coins_markets : M db dlq (Option (List CoinsMarketsRow))
  fetch_coins_markets = tenacity.call coingecko_retry fetch_once

module _ (db : Database market_key) (dlq : Database letter_key) (upper : String → String)
    (client : M db dlq (Option (List CoinsMarketsRow))) where
  -- `if not rows: return 0`, or the write
  abbrev pub write_markets : Time → Option (List CoinsMarketsRow) → M db dlq ℕ
  write_markets ts none = return 0
  write_markets ts (some []) = return 0
  write_markets ts (some (row ∷ rows)) =
      write market_table (map (to_record upper ts none) (row ∷ rows))

  -- `ts` is the argument, or the clock.
  unfoldable pub fetch_and_write_daily : Time → M db dlq ℕ
  fetch_and_write_daily ts = do rows ← client; write_markets ts rows
