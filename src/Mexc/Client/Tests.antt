-- ===== src/Mexc/Client/Tests.antt =====
-- An answer with a row that is too short, one whose high is below its low, and a good one.
use shortfire.Prelude.{ℕ, true, ◌≡◌, refl, none, some, List, [], ◌∷◌, ok, raised, transport_error}
use shortfire.Prelude.Keys.{eq_nat, eq_string, eq_pair}
use shortfire.Prelude.Decimals.{pos}
use shortfire.Prelude.Times.{aware}
use shortfire.Domain.Market.{m1, mexc_native, validate_candle, low_le_extremes_le_high}
use shortfire.Rows.{candle_key}
use shortfire.Storage.{Database}
use shortfire.Storage.Memory.{empty, memory}
use shortfire.DeadLetter.{letter_key}
use shortfire.Effects.{World, Ambient}
use shortfire.Retry.Structural.{structural}
use shortfire.Mexc.Schemas.{Reading, read_ohlcv, from_ccxt_row}
use shortfire.Mexc.Client.{Exchange, fetch_ohlcv}
use shortfire.Mexc.Client.Good.{read_all, outcome, fetch_rows-once}

abbrev db : Database candle_key
db = memory candle_key

abbrev dlq : Database letter_key
dlq = memory letter_key

abbrev amb : Ambient
amb = record {
  stamps = λ n. record { id = n; now = 0 };
  wall = 7;
  type_name = λ e. "ValueError";
  message = λ e. "bad";
  decode = λ b. "";
  str_int = λ n. "";
}

abbrev world : World db dlq
world = record {
  conn = empty;
  dead = empty;
  drawn = 0;
  calls = 0;
  freshness = [];
  rows_total = [];
  reconnects_total = [];
}

abbrev reading : Reading ℕ
reading = record {
  int = λ n. ok n;
  strict_int = λ n. ok n;
  decimal = λ n. ok (pos n);
  is_truthy = λ n. true;
}

abbrev rows : List (List ℕ)
rows = (60 ∷ 1 ∷ []) ∷ (60 ∷ 1 ∷ 2 ∷ 3 ∷ 1 ∷ 5 ∷ []) ∷ (120 ∷ 1 ∷ 2 ∷ 1 ∷ 2 ∷ 5 ∷ []) ∷ []

abbrev exchange : Exchange ℕ
exchange = record {
  ohlcv = λ n symbol timeframe since. ok rows;
  funding = λ n symbol since. raised transport_error;
  open_interest = λ n symbol timeframe. raised transport_error;
  str_ohlcv = λ row. "row";
  str_funding = λ d. "{}";
  str_open_interest = λ d. "{}";
}

abbrev last : List (List ℕ)
last = (120 ∷ 1 ∷ 2 ∷ 1 ∷ 2 ∷ 5 ∷ []) ∷ []

reads_last :
    read_all (read_ohlcv reading "BTC" m1) last
    ≡ some (
        record {
          symbol = "BTC";
          source = mexc_native;
          timeframe = m1;
          ts = aware 120_000;
          open_price = pos 1;
          high = pos 2;
          low = pos 1;
          close = pos 2;
          volume = pos 5;
        }
        ∷ [])
unfolding read_ohlcv from_ccxt_row validate_candle low_le_extremes_le_high
reads_last = refl

-- With the two others in the answer nothing comes of it.
reads_none : read_all (read_ohlcv reading "BTC" m1) rows ≡ none
unfolding read_ohlcv from_ccxt_row validate_candle low_le_extremes_le_high
reads_none = refl

fetch_rows-once_example :
    let done = fetch_ohlcv db dlq amb reading exchange structural "BTC" m1 0 180_000_000 world in
    (done.0 ≡ outcome (read_ohlcv reading "BTC" m1) (ok rows)) × (done.1.calls ≡ 1)
fetch_rows-once_example =
    fetch_rows-once db dlq amb "fetch_ohlcv" "BTC" exchange.str_ohlcv (read_ohlcv reading "BTC" m1)
      structural (λ n. exchange.ohlcv n "BTC" m1 0) world
