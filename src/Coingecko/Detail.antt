-- ===== src/Coingecko/Detail.antt =====
-- ingest/coingecko/: CoinDetailResponse of schemas.py and fetch_coin_detail of client.py, which no job
-- of the scheduler calls.
use Prim.Native.String.{◌++◌ as append}
use shortfire.Prelude.{
  ℕ, String, Option, none, some, List, [], ◌∷◌, Result, ok, raised, validation_error, value_error,
}
use shortfire.Storage.{Database}
use shortfire.DeadLetter.{letter_key, prefix, text}
use shortfire.Effects.{M, Ambient, return, ◌>>=◌, ◌>>◌, dead_letter_as}
use shortfire.Retry.{Tenacity, coingecko_retry}
use shortfire.Coinglass.Client.{HttpResponse}
use shortfire.Coingecko.{Field, missing, unreadable, value, present, then_do, Outside, call}

-- An item of the list of categories: null, a text, or another value.
pub data Category : Type 0 where
  no_category : Category
  named : String → Category
  not_named : Category

-- The answer of /coins/{id}, with `unreadable` for a value that is not of its field's type; the
-- listing date is a day since 1970, market_data its JSON text.
pub record RawDetail : Type 0 where
  pub id : Option String
  pub symbol : Option String
  pub name : Option String
  pub categories : Field (List Category)
  pub genesis_date : Field (Option ℕ)
  pub market_data : Field (Option String)
  pub json : String

pub record CoinDetailResponse : Type 0 where
  pub id : String
  pub symbol : String
  pub name : String
  pub categories : List String
  pub genesis_date : Option ℕ
  pub market_data : Option String
  pub raw_payload : String

-- The default of a field that is absent.
abbrev pub field_or : {A : Type 0} → A → Field A → Result A
field_or default missing = ok default
field_or default unreadable = raised validation_error
field_or default (value a) = ok a

-- tuple(c for c in categories if c is not None), validated
unfoldable pub category_names : List Category → Result (List String)
category_names [] = ok []
category_names (no_category ∷ categories) = category_names categories
category_names (not_named ∷ categories) = raised validation_error
category_names (named c ∷ categories) = then_do (category_names categories) (λ rest. ok (c ∷ rest))

-- CoinDetailResponse.from_raw
unfoldable pub detail_from_raw : RawDetail → Result CoinDetailResponse
detail_from_raw raw = then_do (field_or none raw.genesis_date) (λ genesis_date.
    then_do (present raw.id) (λ id. then_do (present raw.symbol) (λ symbol.
      then_do (present raw.name) (λ name. then_do (field_or [] raw.categories) (λ categories.
        then_do (category_names categories) (λ category_list.
          then_do (field_or none raw.market_data) (λ market_data. ok (record {
            id = id;
            symbol = symbol;
            name = name;
            categories = category_list;
            genesis_date = genesis_date;
            market_data = market_data;
            raw_payload = raw.json;
          }))))))))

-- An answer: null, a dict, or another value, at which from_raw raises.
pub data DetailPayload : Type 0 where
  no_detail not_a_dict : DetailPayload
  detail : RawDetail → DetailPayload

abbrev pub read_detail : DetailPayload → Result (Option CoinDetailResponse)
read_detail no_detail = ok none
read_detail not_a_dict = raised value_error
read_detail (detail raw) = then_do (detail_from_raw raw) (λ d. ok (some d))

module _ {Row Key : Type 0} {key : Row → Key} (db : Database key) (dlq : Database letter_key)
    (amb : Ambient) (out : Outside) (tenacity : Tenacity)
    (get : ℕ → Result (HttpResponse DetailPayload)) (str_payload : DetailPayload → String)
    (coin_id : String) where
  abbrev pub detail_endpoint : String
  detail_endpoint = append "/coins/" coin_id

  -- The `except` clause.
  unfoldable pub on_read :
      DetailPayload → Result (Option CoinDetailResponse) → M db dlq (Option CoinDetailResponse)
  on_read payload (ok d) = return d
  on_read payload (raised e) = do
    dead_letter_as amb "coingecko" detail_endpoint (some coin_id)
        (text (prefix 8000 (str_payload payload))) "ValidationError" (amb.message e)
    return none

  unfoldable pub on_detail : Option DetailPayload → M db dlq (Option CoinDetailResponse)
  on_detail none = return none
  on_detail (some payload) = on_read payload (read_detail payload)

  -- @coingecko_retry
  unfoldable pub fetch_coin_detail : M db dlq (Option CoinDetailResponse)
  fetch_coin_detail = tenacity.call coingecko_retry (do
    payload ← call db dlq amb out tenacity detail_endpoint (some coin_id) get
    on_detail payload)
