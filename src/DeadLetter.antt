-- ===== src/DeadLetter.antt =====
-- ingest/dead_letter/writer.py: one row of the dead_letter table for a failure.
pub mod Laws
pub mod Alerter
pub mod Spikes
mod Tests
use Prim.Native.String
use shortfire.Prelude.{
  ℕ, zero, suc, String, Bool, true, false, ◌&&◌, Option, List, [], ◌∷◌, Result, raised,
  database_error, if◌then◌else◌,
}
use shortfire.Prelude.Keys.{eq_string, contains}
use shortfire.Prelude.Times.{Time}
use shortfire.Storage.{Database, copy_into_hypertable}

-- text[:n]
pub prefix : ℕ → String → String
prefix zero text = String.[]
prefix (suc n) String.[] = String.[]
prefix (suc n) (String.◌∷◌ c text) = String.◌∷◌ c (prefix n text)

pub data Payload : Type 0 where
  text : String → Payload
  bytes : List ℕ → Payload

pub record Letter : Type 0 where
  pub id : ℕ
  pub ts : Time
  pub source : String
  pub endpoint : String
  pub symbol : Option String
  pub raw_payload : String
  pub error_type : String
  pub error_msg : String
  pub retries_attempted : ℕ
  pub quality_flag : String

-- The primary key of the table dead_letter, ("id", "ts"): migration 0013.
abbrev pub letter_key : Letter → ℕ × Time
letter_key l = (l.id, l.ts)

-- Its columns. The table has no other unique index.
abbrev pub primary_key : List String
primary_key = "id" ∷ "ts" ∷ []

-- conflict_columns=("id",)
abbrev pub conflict_columns : List String
conflict_columns = "id" ∷ []

abbrev pub covers : List String → List String → Bool
covers columns [] = true
covers columns (c ∷ cs) = contains c columns && covers columns cs

-- PostgreSQL, as documented, takes the columns of ON CONFLICT for a unique index that is of exactly
-- these columns, in whichever order.
abbrev pub is_index : List String → List String → Bool
is_index index columns = covers index columns && covers columns index

-- What uuid4() and datetime.now(UTC) return in one call.
pub record Stamp : Type 0 where
  pub id : ℕ
  pub now : Time

-- `decode` is bytes.decode("utf-8", errors="replace").
module _ (decode : List ℕ → String) where
  abbrev pub payload_str : Payload → String
  payload_str (text t) = t
  payload_str (bytes b) = decode b

  unfoldable pub letter :
      Stamp
      → (source endpoint : String) → Option String
      → Payload
      → (error_type error_msg : String) → ℕ
      → Letter
  letter stamp source endpoint symbol raw_payload error_type error_msg retries_attempted = record {
    id = stamp.id;
    ts = stamp.now;
    source = source;
    endpoint = endpoint;
    symbol = symbol;
    raw_payload = payload_str raw_payload;
    error_type = error_type;
    error_msg = prefix 2000 error_msg;
    retries_attempted = retries_attempted;
    quality_flag = "schema_warn";
  }

module _ (dlq : Database letter_key) where
  -- `write_to_dead_letter`, for the record that it builds. An ON CONFLICT whose columns are of no
  -- unique index raises; the transaction is rolled back.
  unfoldable pub write_letter : Letter → dlq.Conn → Result ℕ × dlq.Conn
  write_letter l s =
      let stored = copy_into_hypertable dlq "dead_letter" (l ∷ []) s in
      if is_index primary_key conflict_columns then stored else (raised database_error, s)
