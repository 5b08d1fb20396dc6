-- ===== src/KvState/Saves.antt =====
-- The statement of a save.
use shortfire.Prelude.{ℕ, String, true, ◌≡◌, refl, ap, raised, database_error}
use shortfire.Prelude.Times.{Time}
use shortfire.KvState.{State, RunTable, Json, insert_sql, saved, state_run, save_kv_state}
use shortfire.KvState.Binds.{class_of, scan, has_unbound}

insert_sql_unbound : has_unbound insert_sql ≡ true
unfolding class_of scan
insert_sql_unbound = refl

-- A save raises, and leaves the rows as they are: the marker `:st` is followed by the cast `::jsonb`,
-- and is not bound.
pub save_raises :
    (json : Json) (runs : RunTable) (id : ℕ) (now : Time) (job_id : String) (state : State)
    (s : runs.Conn)
    → save_kv_state json runs id now job_id state s ≡ (raised database_error, s)
unfolding save_kv_state
save_raises json runs id now job_id state s =
    ap (saved json runs s) (
      runs.insert-unbound insert_sql (state_run json runs id now job_id state) s insert_sql_unbound)
