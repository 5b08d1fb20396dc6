-- ===== src/KvState.antt =====
-- ingest/state/kv_state.py: the cursor of a job, kept in the newest row of ingest_runs.
-- The table is a parameter: `RunTable` has the two statements of the code, with the documented
-- behaviour of each.
pub mod Binds
pub mod Memory
pub mod Saves
mod Tests
use Prim.Native.Char.{Char, code}
use Prim.Native.String
use text.Mathlib.Text.{starts_with}
use shortfire.Prelude.{
  ℕ, ◌≤◌, String, true, ◌≡◌, ◌≢◌, Option, none, some, List, [], ◌∷◌, ◌++◌, Holds, Result, Error, ok,
  raised, database_error, nat_eq, if◌then◌else◌,
}
use shortfire.Prelude.Dicts.{Dict}
use shortfire.Prelude.Times.{Time}
use shortfire.KvState.Binds.{has_unbound}

abbrev pub State : Type 0
State = Dict String ℕ

-- What asyncpg hands over for the JSONB column: a dict, or its text.
pub data Column : Type 0 where
  object : State → Column
  json_text : String → Column

-- A row of ingest_runs, with the columns that the code writes or reads.
pub record Run : Type 0 where
  pub id : ℕ
  pub ts : Time
  pub source : String
  pub dataset : String
  pub job_id : String
  pub status : String
  pub rows_written : ℕ
  pub kv_state : Option Column
  pub quality_flag : String

-- WHERE job_id = :j AND kv_state IS NOT NULL
pub record IsStateOf (job_id : String) (r : Run) : Type 0 where
  pub of_job : r.job_id ≡ job_id
  pub has_state : r.kv_state ≢ none

pub record RunTable : Type 1 where
  pub Conn : Type 0
  pub rows : Conn → List Run
  -- SELECT … ORDER BY ts DESC LIMIT 1
  pub newest : String → Conn → Result (Option Run)
  -- INSERT INTO ingest_runs …, of the given text: a marker that is not bound goes to the server with its
  -- colon, which is no SQL.
  pub insert : String → Run → Conn → Option Conn
  pub newest-none :
      (j : String) (s : Conn) (r : Run) → newest j s ≡ ok none → Holds r (rows s) → ¬ IsStateOf j r
  pub newest-some :
      (j : String) (s : Conn) (r : Run)
      → newest j s ≡ ok (some r)
      → Holds r (rows s)
        × (IsStateOf j r × ((x : Run) → Holds x (rows s) → IsStateOf j x → x.ts ≤ r.ts))
  pub rows-insert :
      (sql : String) (r : Run) (s s' : Conn) → insert sql r s ≡ some s' → rows s' ≡ r ∷ rows s
  pub insert-unbound :
      (sql : String) (r : Run) (s : Conn) → has_unbound sql ≡ true → insert sql r s ≡ none

-- What `json` and the JSONB column do: `stored` is what comes back for an inserted text.
pub record Json : Type 0 where
  pub dumps : State → String
  pub loads : String → State
  pub stored : String → Column

-- source, from the prefix of the job's id
unfoldable pub source_of : String → String
source_of job_id =
    if starts_with job_id "coinglass"
    then "coinglass_aggregate"
    else if starts_with job_id "coingecko"
    then "coingecko"
    else if starts_with job_id "mexc"
    then "mexc_native"
    else "mexc_native"

-- job_id.split(".", 1)[1] if "." in job_id
unfoldable pub after_dot : String → Option String
after_dot String.[] = none
after_dot (String.◌∷◌ c rest) =
    let later = after_dot rest in if nat_eq (code c) 46 then some rest else later

abbrev pub or_whole : String → Option String → String
or_whole job_id none = job_id
or_whole job_id (some dataset) = dataset

-- The text that `save_kv_state` executes, with a space for each line break.
abbrev pub insert_sql : String
insert_sql =
    "INSERT INTO ingest_runs (id, ts, source, dataset, job_id, started_at, finished_at, status, rows_written, kv_state, quality_flag) VALUES (:id, :ts, :src, :ds, :jid, :ts, :ts, 'succeeded', 0, :st::jsonb, 'ok')"

module _ (json : Json) where
  abbrev pub from_column : Column → State
  from_column (object state) = state
  from_column (json_text t) = json.loads t

  -- `if row is None or row[0] is None: return {}`
  abbrev pub from_row : Option Run → State
  from_row none = []
  from_row (some r) = from_kv r.kv_state
    where
      from_kv : Option Column → State
      from_kv none = []
      from_kv (some c) = from_column c

  abbrev pub read : Result (Option Run) → Result State
  read (ok r) = ok (from_row r)
  read (raised e) = raised e

  module _ (runs : RunTable) where
    unfoldable pub load_kv_state : String → runs.Conn → Result State
    load_kv_state job_id s = read (runs.newest job_id s)

    abbrev pub saved : runs.Conn → Option runs.Conn → Result (Unit {0}) × runs.Conn
    saved s none = (raised database_error, s)
    saved s (some s') = (ok tt, s')

    -- The id and the time are what uuid4() and datetime.now(UTC) return.
    abbrev pub state_run : (id : ℕ) (now : Time) (job_id : String) → State → Run
    state_run id now job_id state = record {
      id = id;
      ts = now;
      source = source_of job_id;
      dataset = or_whole job_id (after_dot job_id);
      job_id = job_id;
      status = "succeeded";
      rows_written = 0;
      kv_state = some (json.stored (json.dumps state));
      quality_flag = "ok";
    }

    unfoldable pub save_kv_state :
        (id : ℕ) (now : Time) (job_id : String) → State → runs.Conn → Result (Unit {0}) × runs.Conn
    save_kv_state id now job_id state s =
        saved s (runs.insert insert_sql (state_run id now job_id state) s)
