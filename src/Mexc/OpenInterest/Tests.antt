-- ===== src/Mexc/OpenInterest/Tests.antt =====
-- A list of five symbols in batches of two.
use shortfire.Prelude.{ℕ, ◌<◌, ◌≡◌, refl, some, [], ◌∷◌, arith}
use shortfire.Prelude.{String, List, ok, Result, Holds, inl, inr, ap, if◌then◌else◌}
use shortfire.Prelude.Keys.{eq_nat, eq_string, eq_pair, ◌==◌}
use shortfire.Prelude.Decimals.{pos}
use shortfire.Storage.{Database, copy_into_hypertable, statements}
use shortfire.Prelude.Dicts.{lookup, insert}
use shortfire.Storage.Memory.{empty, memory}
use shortfire.DeadLetter.{letter_key}
use shortfire.Effects.{World, M, Ambient, write, mark_fresh}
use shortfire.KvState.{State}
use shortfire.Mexc.OpenInterest.{
  OpenInterest, oi_key, start, end, symbol_slice, advance, polled_slice, poll_symbol, poll_symbols,
  store_records, step_from,
}
use shortfire.Mexc.OpenInterest.Fairness.{steps, round_robin_fair}

moves_on : advance 5 2 (some 2) ≡ 4
unfolding advance start
moves_on = refl

wraps : advance 5 2 (some 4) ≡ 0
unfolding advance start
wraps = refl

last_batch : symbol_slice ("A" ∷ "B" ∷ "C" ∷ "D" ∷ "E" ∷ []) 4 (end 2 4 5) ≡ "E" ∷ []
last_batch = refl

abbrev db : Database oi_key
db = memory oi_key

abbrev dlq : Database letter_key
dlq = memory letter_key

abbrev amb : Ambient
amb = record {
  stamps = λ n. record { id = n; now = 0 };
  wall = 7;
  type_name = λ e. "NetworkError";
  message = λ e. "bad";
  decode = λ b. "";
  str_int = λ n. "";
}

abbrev world : World db dlq
world = record {
  conn = empty;
  dead = empty;
  drawn = 0;
  calls = 0;
  freshness = [];
  rows_total = [];
  reconnects_total = [];
}

-- A client that answers for all symbols, with a row for one of them.
abbrev client : String → M db dlq (List OpenInterest)
client sym w =
    (ok (if sym == "B" then record { timestamp = 60; amount = some (pos 4) } ∷ [] else []), w)

abbrev kv : State
kv = ("last_symbol_index", 7) ∷ []

abbrev symbols : List String
symbols = "A" ∷ "B" ∷ "C" ∷ "D" ∷ "E" ∷ []

abbrev out : Result State × World db dlq
out = steps db dlq amb client symbols 2 11 kv world

returns : out.0 ≡ ok (("last_symbol_index", 0) ∷ [])
unfolding steps step_from polled_slice start advance poll_symbols poll_symbol store_records write
    mark_fresh copy_into_hypertable statements lookup insert
returns = refl

round_robin_fair_example :
    (k : ℕ) × ((k < 11)
      × ((kvₖ : State) × ((wₖ : World db dlq) × ((steps db dlq amb client symbols 2 k kv world
                ≡ (ok kvₖ, wₖ))
              × Holds "D" (polled_slice symbols 2 kvₖ)))))
round_robin_fair_example =
    round_robin_fair db dlq amb client symbols 2 "D" kv (("last_symbol_index", 0) ∷ []) world out.1
      (omega arith) (inr (inr (inr (inl refl)))) (ap (λ (x : Result State). (x, out.1)) returns)
