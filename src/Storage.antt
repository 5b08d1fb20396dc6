-- ===== src/Storage.antt =====
-- ingest/storage/copy.py: the one write path into the hypertables.
-- PostgreSQL is a parameter: `Database` has a statement for each one that the code sends, and the
-- documented behaviour of each as a law. A statement that raises returns `none`.
pub mod Laws
pub mod Memory
pub mod Listed
mod Tests
use shortfire.Prelude.{
  ℕ, String, ◌≡◌, ◌≢◌, Option, none, some, List, [], ◌∷◌, ◌++◌, Result, ok, raised, database_error,
  length, All, Holds,
}
use mathlib.Core.Option.{get_or}

module _ {Row Key : Type 0} (key : Row → Key) where
  -- What INSERT … SELECT … ON CONFLICT DO NOTHING may leave at key `k`, of rows that it proposes
  -- in an order that SQL does not fix: the row that was there, or else one of the proposed rows of
  -- that key, or nothing if there is none.
  abbrev pub Picked : List Row → Key → Option Row → Type 0
  Picked proposed k none = All (λ r. key r ≢ k) proposed
  Picked proposed k (some r) = Holds r proposed × (key r ≡ k)

  abbrev pub Inserted : List Row → Key → Option Row → Option Row → Type 0
  Inserted proposed k none after = Picked proposed k after
  Inserted proposed k (some r) after = after ≡ some r

  -- One backend's view of the server. `find s t k` is the row of table `t` at the value `k` of its
  -- unique index; `staged s t` is the staging table of this backend for `t`, if there is one.
  pub record Database : Type 1 where
    pub Conn : Type 0
    pub find : Conn → String → Key → Option Row
    pub staged : Conn → String → Option (List Row)
    pub create_staging : String → Conn → Option Conn
    pub truncate : String → Conn → Option Conn
    pub copy_records : String → List Row → Conn → Option Conn
    pub insert_staged : String → Conn → Option Conn
    pub find-create :
        (t : String) (s s' : Conn)
        → create_staging t s ≡ some s'
        → (u : String) (k : Key) → find s' u k ≡ find s u k
    pub staged-create :
        (t : String) (s s' : Conn)
        → create_staging t s ≡ some s'
        → staged s' t ≡ some (get_or (staged s t) [])
    pub find-truncate :
        (t : String) (s s' : Conn)
        → truncate t s ≡ some s'
        → (u : String) (k : Key) → find s' u k ≡ find s u k
    pub staged-truncate :
        (t : String) (s s' : Conn) → truncate t s ≡ some s' → staged s' t ≡ some []
    pub find-copy :
        (t : String) (rs : List Row) (s s' : Conn)
        → copy_records t rs s ≡ some s'
        → (u : String) (k : Key) → find s' u k ≡ find s u k
    pub staged-copy :
        (t : String) (rs xs : List Row) (s s' : Conn)
        → copy_records t rs s ≡ some s'
        → staged s t ≡ some xs
        → staged s' t ≡ some (xs ++ rs)
    pub find-insert :
        (t : String) (xs : List Row) (s s' : Conn)
        → insert_staged t s ≡ some s'
        → staged s t ≡ some xs
        → (k : Key) → Inserted xs k (find s t k) (find s' t k)
    pub find-insert_ne :
        (t u : String) (s s' : Conn)
        → insert_staged t s ≡ some s'
        → t ≢ u
        → (k : Key) → find s' u k ≡ find s u k

-- A chain of statements: the first that raises ends it.
infixl 5 ◌>>=◌
abbrev pub ◌>>=◌ {α β} :
    {State : Type α} {Out : Type β} → Option State → (State → Option Out) → Option Out
none >>= next = none
some state >>= next = next state

module _ {Row Key : Type 0} {key : Row → Key} (db : Database key) where
  open db use {Conn, create_staging, truncate, copy_records, insert_staged}

  -- The statements of the transaction, in the order of the code.
  unfoldable pub statements : String → List Row → Conn → Option Conn
  statements target_table records s = do
    created ← create_staging target_table s
    emptied ← truncate target_table created
    copied ← copy_records target_table records emptied
    insert_staged target_table copied

  -- A transaction that raises is rolled back, and the exception goes on to the caller.
  abbrev pub transaction : ℕ → Option Conn → Conn → Result ℕ × Conn
  transaction n none s = (raised database_error, s)
  transaction n (some s') s = (ok n, s')

  unfoldable pub copy_into_hypertable : String → List Row → Conn → Result ℕ × Conn
  copy_into_hypertable target_table [] s = (ok 0, s)
  copy_into_hypertable target_table (r ∷ rs) s =
      transaction (length (r ∷ rs)) (statements target_table (r ∷ rs) s) s
