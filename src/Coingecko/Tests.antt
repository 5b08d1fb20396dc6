-- ===== src/Coingecko/Tests.antt =====
-- A page with two coins of one ticker, and one with a coin without a name.
use shortfire.Prelude.{
  ℕ, String, Option, none, some, List, [], ◌∷◌, ◌≡◌, refl, ap, inl, inr, ok, arith,
}
use shortfire.Prelude.Keys.{eq_nat, eq_string, eq_pair}
use shortfire.Prelude.Decimals.{Decimal, pos, pos_part}
use shortfire.Storage.{Database}
use shortfire.Storage.Memory.{empty, memory, memory-IsUp}
use shortfire.DeadLetter.{letter_key}
use shortfire.Effects.{World, M, Ambient}
use shortfire.Coingecko.Detail.{category_names, named, no_category}
use shortfire.Coingecko.{
  RawCoin, CoinsMarketsRow, MarketRow, market_key, missing, coins, Outside, fetch_and_write_daily,
}
use shortfire.Coingecko.Tickers.{IsStored, same_ticker_lost}
use mathlib.Core.Option.{get_or}

abbrev db : Database market_key
db = memory market_key

abbrev dlq : Database letter_key
dlq = memory letter_key

abbrev amb : Ambient
amb = record {
  stamps = λ n. record { id = n; now = 0 };
  wall = 7;
  type_name = λ e. "ValidationError";
  message = λ e. "bad";
  decode = λ b. "";
  str_int = λ n. "";
}

abbrev world : World db dlq
world = record {
  conn = empty;
  dead = empty;
  drawn = 0;
  calls = 0;
  freshness = [];
  rows_total = [];
  reconnects_total = [];
}

abbrev coin : String → Decimal → CoinsMarketsRow
coin id price = record {
  id = id;
  symbol = "uni";
  name = id;
  current_price = some price;
  market_cap = none;
  total_volume = none;
  last_updated = none;
  raw_payload = none;
}

abbrev uniswap : CoinsMarketsRow
uniswap = coin "uniswap" (pos 10)

abbrev unicorn : CoinsMarketsRow
unicorn = coin "unicorn-token" (pos 2)

abbrev upper : String → String
upper s = "UNI"

abbrev client : M db dlq (Option (List CoinsMarketsRow))
client w = (ok (some (uniswap ∷ unicorn ∷ [])), w)

abbrev price_of : MarketRow → ℕ
price_of r = pos_part (get_or r.price_usd (pos 0))

same_ticker_lost_example :
    let out = fetch_and_write_daily db dlq upper client 5 world in
    (out.0 ≡ ok 2)
    × (¬ (
        IsStored db dlq upper client 5 uniswap out.1
        × IsStored db dlq upper client 5 unicorn out.1))
same_ticker_lost_example =
    same_ticker_lost db dlq upper client 5 world world (uniswap ∷ unicorn ∷ []) uniswap unicorn
      (memory-IsUp market_key) refl (inl refl) (inr (inl refl)) refl
      (λ same. omega (arith, ap price_of same))

abbrev nameless : RawCoin
nameless = record {
  id = some "x";
  symbol = some "x";
  name = none;
  current_price = missing;
  market_cap = missing;
  total_volume = missing;
  last_updated = missing;
  json = "{}";
}

abbrev server : Outside
server = record {
  get = λ n. ok (record { status_code = 200; text = ""; json = ok (coins (nameless ∷ [])) });
  str_payload = λ p. "[]";
  upper = upper;
}

null_category :
    category_names (named "DeFi" ∷ no_category ∷ named "Layer 1" ∷ [])
    ≡ ok ("DeFi" ∷ "Layer 1" ∷ [])
unfolding category_names
null_category = refl
