-- ===== src/Coinglass/Tests.antt =====
-- The client against servers that refuse, and the writers on small answers.
use shortfire.Prelude.{
  ℕ, String, ◌≡◌, refl, inl, inr, Bool, true, false, ◌||◌, Option, none, some, List, [], ◌∷◌, ◌++◌,
  Holds, Result, ok, raised, http_status_error, database_error, arith, if◌then◌else◌, Bool-cases,
  value_error,
}
use shortfire.Prelude.Keys.{eq_nat, eq_string, eq_pair}
use shortfire.Prelude.Decimals.{Decimal, pos}
use shortfire.Prelude.Dicts.{lookup}
use shortfire.Storage.{Database}
use shortfire.Storage.Memory.{
  Server, empty, memory, create, truncate, copy, insert, rows-create, staging-create, rows-truncate,
  staging-truncate, rows-copy, staging-copy, rows-insert, rows-insert_ne,
}
use shortfire.DeadLetter.{letter_key}
use shortfire.Effects.{World, Ambient, request}
use shortfire.Retry.Structural.{structural, attempt}
use shortfire.Coinglass.Schemas.{
  point, point_key, FundingRateListRow, LongShortAccountRatioResponse,
}
use shortfire.Coinglass.Client.{
  HttpResponse, Outside, Params, on_response, call, on_validated, validated, fetch_once, fetch,
  fetch_long_short_account_ratio,
}
use shortfire.Coinglass.Fetchers.{agg_records, fetch_and_write_lsr}
use shortfire.Coinglass.Errors.{fetch-exhausted, fetch-rejected}
use shortfire.Coinglass.Nulls.{LsrRow, IsNotNull, lsr_null_loses_batch}

abbrev rates : List FundingRateListRow
rates =
    record { symbol = "BTC"; funding_rate = some (pos 100); next_funding_time = none }
    ∷ record { symbol = "XYZ"; funding_rate = some (pos 7); next_funding_time = none }
    ∷ record { symbol = "ETH"; funding_rate = none; next_funding_time = none }
    ∷ []

abbrev mapping : List (String × String)
mapping = ("BTC", "BTC/USDT:USDT") ∷ ("ETH", "ETH/USDT:USDT") ∷ []

only_btc : agg_records mapping 5 rates ≡ point "BTC/USDT:USDT" 5 (pos 100) ∷ []
unfolding agg_records lookup
only_btc = refl

abbrev db : Database (point_key {V = Option Decimal})
db = memory point_key

abbrev dlq : Database letter_key
dlq = memory letter_key

abbrev amb : Ambient
amb = record {
  stamps = λ n. record { id = n; now = 0 };
  wall = 7;
  type_name = λ e. "ValidationError";
  message = λ e. "bad";
  decode = λ b. "";
  str_int = λ n. "404";
}

abbrev null_answer : LongShortAccountRatioResponse
null_answer = record {
  code = pos 0;
  msg = "success";
  entries =
      record { time = 60; long_short_ratio = some (pos 9) }
      ∷ record { time = 120; long_short_ratio = none }
      ∷ [];
}

-- Every request gets the same status, and the JSON of an answer is the number 0.
abbrev server : ℕ → Outside ℕ
server status = record {
  get = λ n endpoint params. ok (record { status_code = status; text = "body"; json = ok 0 });
  str_payload = λ j. "{}";
  validate_funding = λ j. raised value_error;
  validate_oi = λ j. raised value_error;
  validate_liq = λ j. raised value_error;
  validate_lsr = λ j. ok null_answer;
}

abbrev endpoint : String
endpoint = "/api/futures/long-short-account-ratio"

abbrev params : Params
params = some (("symbol", "BTC") ∷ ("interval", "1h") ∷ [])

abbrev validate : ℕ → Result LongShortAccountRatioResponse
validate j = ok null_answer

abbrev world : World db dlq
world = record {
  conn = empty;
  dead = empty;
  drawn = 0;
  calls = 0;
  freshness = [];
  rows_total = [];
  reconnects_total = [];
}

fetch-exhausted_example :
    fetch db dlq amb (server 503) structural endpoint (some "BTC") params validate world
    ≡ (raised http_status_error, record world { calls = 5 })
fetch-exhausted_example =
    fetch-exhausted db dlq amb (server 503) structural endpoint (some "BTC") params validate world
      (λ i lt. (record { status_code = 503; text = "body"; json = ok 0 }, (refl, ground arith)))

abbrev not_found : HttpResponse ℕ
not_found = record { status_code = 404; text = "body"; json = ok 0 }

fetch-rejected_example :
    fetch db dlq amb (server 404) structural endpoint (some "BTC") params validate world
    ≡ (raised database_error, record world { calls = 1; drawn = 1 })
fetch-rejected_example =
    fetch-rejected db dlq amb (server 404) structural endpoint (some "BTC") params validate world
      not_found refl (ground arith) (omega arith)

-- A database in memory whose COPY refuses nulls.
abbrev is_null : Option Decimal → Bool
is_null none = true
is_null (some d) = false

abbrev any_null : List LsrRow → Bool
any_null [] = false
any_null (r ∷ rs) = is_null r.value || any_null rs

abbrev LsrServer : Type 0
LsrServer = Server LsrRow (String × (ℕ × String))

abbrev strict_copy : String → List LsrRow → LsrServer → Option LsrServer
strict_copy t rs s = if any_null rs then none else copy t rs s

strict-find :
    (t : String) (rs : List LsrRow) (s s' : LsrServer)
    → strict_copy t rs s ≡ some s'
    → (u : String) (k : String × (ℕ × String)) → s'.rows u k ≡ s.rows u k
strict-find t rs s s' h u k = elim (Bool-cases (any_null rs)) [
  | inl e ↦ cc (rw e at h)
  | inr e ↦ rows-copy point_key t rs s s' (rw e at h) u k
]

strict-staged :
    (t : String) (rs xs : List LsrRow) (s s' : LsrServer)
    → strict_copy t rs s ≡ some s'
    → s.staging t ≡ some xs
    → s'.staging t ≡ some (xs ++ rs)
strict-staged t rs xs s s' h g = elim (Bool-cases (any_null rs)) [
  | inl e ↦ cc (rw e at h)
  | inr e ↦ staging-copy point_key t rs xs s s' (rw e at h) g
]

abbrev strict : Database (point_key {V = Option Decimal})
strict = record {
  Conn = LsrServer;
  find = λ s t k. s.rows t k;
  staged = λ s t. s.staging t;
  create_staging = create;
  truncate = truncate;
  copy_records = strict_copy;
  insert_staged = insert point_key;
  find-create = rows-create point_key;
  staged-create = staging-create point_key;
  find-truncate = rows-truncate point_key;
  staged-truncate = staging-truncate point_key;
  find-copy = strict-find;
  staged-copy = strict-staged;
  find-insert = rows-insert point_key;
  find-insert_ne = rows-insert_ne point_key;
}

any_null-Holds : (rs : List LsrRow) (r : LsrRow) → Holds r rs → r.value ≡ none → any_null rs ≡ true
any_null-Holds [] r m e = absurd m
any_null-Holds (x ∷ rs) r (inl same) e = rw (same, e)
any_null-Holds (x ∷ rs) r (inr m) e = ground (arith, any_null-Holds rs r m e)

strict-IsNotNull : IsNotNull strict
strict-IsNotNull rs r s m e = rw (any_null-Holds rs r m e)

abbrev strict_world : World strict dlq
strict_world = record {
  conn = empty;
  dead = empty;
  drawn = 0;
  calls = 0;
  freshness = [];
  rows_total = [];
  reconnects_total = [];
}

fetches :
    fetch_long_short_account_ratio strict dlq amb (server 200) structural "BTC" "1h" strict_world
    ≡ (ok (some null_answer), record strict_world { calls = 1 })
unfolding fetch fetch_once attempt call request on_response validated on_validated
fetches = refl

lsr_null_loses_batch_example :
    let done =
      fetch_and_write_lsr dlq amb
        (server 200)
        structural
        strict
        "BTC/USDT:USDT"
        "BTC"
        "1h"
        strict_world in
    (done.0 ≡ raised database_error) × (done.1.conn ≡ empty)
lsr_null_loses_batch_example =
    lsr_null_loses_batch dlq amb (server 200) structural strict strict-IsNotNull "BTC/USDT:USDT"
      "BTC" "1h" strict_world (record strict_world { calls = 1 }) null_answer
      (record { time = 120; long_short_ratio = none }) fetches (inr (inl refl)) refl
