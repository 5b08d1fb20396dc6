-- ===== src/Storage/Tests.antt =====
-- The writer on a database in memory, with rows (key, value), and the theorems at concrete inputs.
use shortfire.Prelude.{
  ℕ, String, ◌≡◌, refl, ◌⊎◌, none, some, List, [], ◌∷◌, ok, raised, database_error,
}
use shortfire.Prelude.Keys.{eq_nat}
use shortfire.Storage.{Database, statements, copy_into_hypertable}
use shortfire.Storage.Memory.{Server, empty, memory}
use shortfire.Storage.Laws.{Committed, copy_outcome}

abbrev db : Database (λ (r : ℕ × String). r.0)
db = memory (λ r. r.0)

abbrev t1 : String
t1 = "raw_mexc_oi"

-- A connection whose staging table still holds a row of an earlier cycle.
abbrev stale : Server (ℕ × String) ℕ
stale = record empty { staging = λ t. some ((7, "stale") ∷ []) }

abbrev first : List (ℕ × String)
first = (1, "a") ∷ (2, "b") ∷ []

abbrev stored : Server (ℕ × String) ℕ
stored = (copy_into_hypertable db t1 first stale).1

writes : (copy_into_hypertable db t1 first stale).0 ≡ ok 2
unfolding copy_into_hypertable statements
writes = refl

no_stale_row : stored.rows t1 7 ≡ none
unfolding copy_into_hypertable statements
no_stale_row = refl

has_first : stored.rows t1 1 ≡ some (1, "a")
unfolding copy_into_hypertable statements
has_first = refl

copy_outcome_example :
    ((s' : Server (ℕ × String) ℕ) × (copy_into_hypertable db t1 first stale ≡ (ok 2, s'))
      × Committed db t1 first stale s')
    ⊎ (copy_into_hypertable db t1 first stale ≡ (raised database_error, stale))
copy_outcome_example = copy_outcome db t1 first stale
