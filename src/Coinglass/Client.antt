-- ===== src/Coinglass/Client.antt =====
-- ingest/coinglass/client.py: one rate-limited GET, and the four methods under the retry decorator.
-- HTTP, JSON and the validation by pydantic are parameters: `get n` answers the request number `n`,
-- and raises for a failure of the transport. The limiter, which only delays a request, is not
-- modelled.
use Prim.Native.String.{◌++◌ as append}
use shortfire.Prelude.{
  ℕ, String, Bool, ◌||◌, Option, none, some, [], ◌∷◌, Result, ok, raised, leb, nat_eq,
  if◌then◌else◌, http_status_error, validation_error,
}
use shortfire.Prelude.Keys.{eq_string}
use shortfire.Prelude.Dicts.{Dict, lookup}
use shortfire.Storage.{Database}
use shortfire.DeadLetter.{letter_key, prefix, text}
use shortfire.Effects.{M, Ambient, return, ◌>>=◌, ◌>>◌, raise, lift, request, dead_letter_as}
use shortfire.Retry.{Tenacity, coinglass_retry}
use shortfire.Coinglass.Schemas.{
  FundingRateListResponse, OpenInterestHistoryResponse, LiquidationCoinHistoryResponse,
  LongShortAccountRatioResponse,
}

abbrev pub Params : Type 0
Params = Option (Dict String String)

pub record HttpResponse (Json : Type 0) : Type 0 where
  pub status_code : ℕ
  pub text : String
  pub json : Result Json

-- _RETRY_STATUS_CODES
abbrev pub is_retry_status : ℕ → Bool
is_retry_status n = nat_eq n 429 || nat_eq n 500 || nat_eq n 502 || nat_eq n 503 || nat_eq n 504

abbrev pub params_symbol : Params → Option String
params_symbol none = none
params_symbol (some params) = lookup "symbol" params

-- params={"symbol": symbol, "interval": interval}
abbrev pub symbol_params : (symbol interval : String) → Params
symbol_params symbol interval = some (("symbol", symbol) ∷ ("interval", interval) ∷ [])

-- What is outside: the server, and the four `model_validate`s with `str` of a payload.
pub record Outside (Json : Type 0) : Type 0 where
  pub get : ℕ → String → Params → Result (HttpResponse Json)
  pub str_payload : Json → String
  pub validate_funding : Json → Result FundingRateListResponse
  pub validate_oi : Json → Result OpenInterestHistoryResponse
  pub validate_liq : Json → Result LiquidationCoinHistoryResponse
  pub validate_lsr : Json → Result LongShortAccountRatioResponse

abbrev pub found : {A : Type 0} → Result A → Result (Option A)
found (ok a) = ok (some a)
found (raised e) = raised e

module _ {Row Key Json : Type 0} {key : Row → Key} (db : Database key) (dlq : Database letter_key)
    (amb : Ambient) (out : Outside Json) (tenacity : Tenacity) where
  -- The part of `_call` after the request.
  unfoldable pub on_response : String → Params → HttpResponse Json → M db dlq (Option Json)
  on_response endpoint params r =
      if is_retry_status r.status_code
      then raise http_status_error
      else if leb 400 r.status_code
      then (do
        dead_letter_as amb "coinglass_aggregate" endpoint (params_symbol params)
            (text (prefix 8000 r.text)) "HTTPStatusError"
            (append "HTTP " (amb.str_int r.status_code))
        return none)
      else lift (found r.json)

  -- `_call`
  unfoldable pub call : String → Params → M db dlq (Option Json)
  call endpoint params = do
    r ← request (λ n. out.get n endpoint params)
    on_response endpoint params r

  -- `try: return ….model_validate(payload)` with its `except ValidationError`
  unfoldable pub on_validated :
      {R : Type 0} → String → Option String → Json → Result R → M db dlq (Option R)
  on_validated endpoint symbol payload (ok resp) = return (some resp)
  on_validated endpoint symbol payload (raised validation_error) = do
    dead_letter_as amb "coinglass_aggregate" endpoint symbol
        (text (prefix 8000 (out.str_payload payload))) "ValidationError"
        (amb.message validation_error)
    return none
  on_validated endpoint symbol payload (raised e) = raise e

  -- `if payload is None: return None`
  unfoldable pub validated :
      {R : Type 0} → String → Option String → (Json → Result R) → Option Json → M db dlq (Option R)
  validated endpoint symbol validate none = return none
  validated endpoint symbol validate (some payload) =
      on_validated endpoint symbol payload (validate payload)

  -- The body that the four methods share.
  unfoldable pub fetch_once :
      {R : Type 0} → String → Option String → Params → (Json → Result R) → M db dlq (Option R)
  fetch_once endpoint symbol params validate = do
    payload ← call endpoint params
    validated endpoint symbol validate payload

  -- @coinglass_retry
  unfoldable pub fetch :
      {R : Type 0} → String → Option String → Params → (Json → Result R) → M db dlq (Option R)
  fetch endpoint symbol params validate =
      tenacity.call coinglass_retry (fetch_once endpoint symbol params validate)

  abbrev pub fetch_funding_rate_list : M db dlq (Option FundingRateListResponse)
  fetch_funding_rate_list = fetch "/api/futures/funding-rate-list" none none out.validate_funding

  abbrev pub fetch_open_interest_history :
      (symbol interval : String) → M db dlq (Option OpenInterestHistoryResponse)
  fetch_open_interest_history symbol interval =
      fetch "/api/futures/open-interest/history" (some symbol) (symbol_params symbol interval)
        out.validate_oi

  abbrev pub fetch_liquidation_coin_history :
      (symbol interval : String) → M db dlq (Option LiquidationCoinHistoryResponse)
  fetch_liquidation_coin_history symbol interval =
      fetch "/api/futures/liquidation/coin-history" (some symbol) (symbol_params symbol interval)
        out.validate_liq

  abbrev pub fetch_long_short_account_ratio :
      (symbol interval : String) → M db dlq (Option LongShortAccountRatioResponse)
  fetch_long_short_account_ratio symbol interval =
      fetch "/api/futures/long-short-account-ratio" (some symbol) (symbol_params symbol interval)
        out.validate_lsr
