-- ===== src/Scheduler/Tests.antt =====
-- Jobs over seven pairs: one with a client that answers, one with a server that is out of order.
use shortfire.Prelude.{
  ℕ, String, ◌≡◌, refl, inl, inr, some, List, [], ◌∷◌, Holds, ok, raised, http_status_error, arith,
  value_error, Error, ap, if◌then◌else◌,
}
use shortfire.Prelude.Keys.{◌==◌, eq_nat, eq_string, eq_pair}
use shortfire.Prelude.Times.{Time}
use shortfire.Prelude.Decimals.{Decimal}
use shortfire.Prelude.Dicts.{lookup}
use shortfire.Storage.{Database}
use shortfire.Storage.Memory.{empty, memory}
use shortfire.DeadLetter.{letter_key}
use shortfire.Effects.{World, M, Ambient}
use shortfire.Retry.Structural.{structural}
use shortfire.KvState.{Run, json_text, Json, load_kv_state}
use shortfire.KvState.Memory.{newest_of, run_list}
use shortfire.Coinglass.Schemas.{point_key}
use shortfire.Coinglass.Client.{Outside, symbol_params}
use shortfire.Coinglass.Errors.{fetch-exhausted}
use shortfire.Coinglass.Fetchers.{fetch_and_write_oi}
use shortfire.Scheduler.{Pair, cursor, slice, slice_end, fetch_all, rotate}
use shortfire.Scheduler.Rotation.{job_never_moves}
use shortfire.Scheduler.Starvation.{AlwaysRaises, run_jobs, job_starves}

abbrev db : Database (point_key {V = Decimal})
db = memory point_key

abbrev dlq : Database letter_key
dlq = memory letter_key

abbrev amb : Ambient
amb = record {
  stamps = λ n. record { id = n; now = 0 };
  wall = 7;
  type_name = λ e. "HTTPStatusError";
  message = λ e. "bad";
  decode = λ b. "";
  str_int = λ n. "503";
}

abbrev pairs : List Pair
pairs =
    ("A/USDT:USDT", "A")
    ∷ ("B/USDT:USDT", "B")
    ∷ ("C/USDT:USDT", "C")
    ∷ ("D/USDT:USDT", "D")
    ∷ ("E/USDT:USDT", "E")
    ∷ ("F/USDT:USDT", "F")
    ∷ ("G/USDT:USDT", "G")
    ∷ []

-- The text of a state is the same for all: no state comes to be stored.
abbrev json : Json
json = record {
  dumps = λ state. "{}";
  loads = λ t. ("last_symbol_index", 5) ∷ [];
  stored = λ t. json_text t;
}

abbrev world : World db dlq
world = record {
  conn = empty;
  dead = empty;
  drawn = 0;
  calls = 0;
  freshness = [];
  rows_total = [];
  reconnects_total = [];
}

abbrev job : String
job = "coinglass.oi"

abbrev fetch_nothing : Pair → M db dlq ℕ
fetch_nothing p w = (ok 0, w)

-- It raises for a pair that is not in the first slice.
abbrev fetch_most : Pair → M db dlq ℕ
fetch_most (symbol, base) w = (if base == "G" then raised value_error else ok 0, w)

loads_nothing : load_kv_state json run_list job [] ≡ ok []
unfolding load_kv_state newest_of
loads_nothing = refl

slice_same :
    (p : Pair) (v : World db dlq)
    → Holds p (slice pairs 0 (slice_end 5 0 7))
    → fetch_nothing p v ≡ fetch_most p v
slice_same p v (inl e) = ap (λ (q : Pair). fetch_most q v) e
slice_same p v (inr (inl e)) = ap (λ (q : Pair). fetch_most q v) e
slice_same p v (inr (inr (inl e))) = ap (λ (q : Pair). fetch_most q v) e
slice_same p v (inr (inr (inr (inl e)))) = ap (λ (q : Pair). fetch_most q v) e
slice_same p v (inr (inr (inr (inr (inl e))))) = ap (λ (q : Pair). fetch_most q v) e
slice_same p v (inr (inr (inr (inr (inr m))))) = absurd m

abbrev ticks : List (ℕ × Time)
ticks = (1, 100) ∷ (2, 400) ∷ (3, 700) ∷ []

job_never_moves_example :
    ((e : Error) × ((rotate db dlq json run_list job 4 900 5 fetch_nothing pairs
          (run_jobs db dlq json run_list job 5 fetch_nothing pairs ticks (world, []))).0
        ≡ raised e))
    × (((run_jobs db dlq json run_list job 5 fetch_nothing pairs ticks (world, [])).1 ≡ [])
        × (run_jobs db dlq json run_list job 5 fetch_nothing pairs ticks (world, [])
            ≡ run_jobs db dlq json run_list job 5 fetch_most pairs ticks (world, [])))
unfolding cursor lookup
job_never_moves_example =
    job_never_moves db dlq json run_list job 5 pairs fetch_nothing fetch_most [] ticks 4 900 world
      [] loads_nothing slice_same

-- A server that answers every request with 503.
abbrev server : Outside ℕ
server = record {
  get = λ n endpoint params. ok (record { status_code = 503; text = "body"; json = ok 0 });
  str_payload = λ j. "{}";
  validate_funding = λ j. raised value_error;
  validate_oi = λ j. raised value_error;
  validate_liq = λ j. raised value_error;
  validate_lsr = λ j. raised value_error;
}

abbrev fetch_refused : Pair → M db dlq ℕ
fetch_refused p = fetch_and_write_oi dlq amb server structural db p.0 p.1 "1h"

always_refused : (p : Pair) → AlwaysRaises db dlq fetch_refused p
unfolding fetch_and_write_oi
always_refused p w =
    let refused =
      fetch-exhausted db dlq amb server structural "/api/futures/open-interest/history" (some p.1)
        (symbol_params p.1 "1h") server.validate_oi w
        (λ i lt.
          (record { status_code = 503; text = "body"; json = ok 0 }, (refl, ground arith))) in
    (http_status_error, (rw refused))

first_in_slice : Holds ("B/USDT:USDT", "B") (slice pairs 0 (slice_end 5 0 7))
first_in_slice = inr (inl refl)

abbrev starved : World db dlq × List Run
starved = run_jobs db dlq json run_list job 5 fetch_refused pairs ticks (world, [])

job_starves_example :
    (starved.1 ≡ [])
    × ((e : Error) × (((fetch_all db dlq fetch_refused
              (slice pairs 0 (slice_end 5 0 7))
              starved.0).0
            ≡ raised e)
          × ((rotate db dlq json run_list job 4 900 5 fetch_refused pairs starved).0 ≡ raised e)))
unfolding cursor lookup
job_starves_example =
    job_starves db dlq json run_list job 5 fetch_refused pairs ticks 4 900 [] ("B/USDT:USDT", "B")
      world [] loads_nothing first_in_slice (always_refused ("B/USDT:USDT", "B"))
