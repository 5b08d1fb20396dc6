-- ===== src/Scheduler/Starvation.antt =====
-- A round-robin job whose slice holds a pair that always fails.
use shortfire.Prelude.{
  ℕ, String, ◌≡◌, refl, sym, ap, ◌∙◌, inl, inr, List, [], ◌∷◌, length, Holds, Result, Error, ok,
  raised,
}
use shortfire.Prelude.Times.{Time}
use mathlib.Core.Path.{subst}
use shortfire.Storage.{Database}
use shortfire.DeadLetter.{letter_key}
use shortfire.Effects.{World, M, bind_result}
use shortfire.KvState.{State, RunTable, Json, load_kv_state}
use shortfire.Scheduler.{Pair, cursor, slice_end, slice, moved, fetch_all, after_fetches, rotate}

module _ {Row Key : Type 0} {key : Row → Key} (db : Database key) (dlq : Database letter_key) where
  -- The fetch of the pair raises, whatever the world is.
  abbrev pub AlwaysRaises : (Pair → M db dlq ℕ) → Pair → Type 0
  AlwaysRaises fetch p = (w : World db dlq) → (e : Error) × ((fetch p w).0 ≡ raised e)

  bind-raises :
      {A B : Type 0} (r : Result A × World db dlq) (f : A → M db dlq B) (e : Error)
      → r.0 ≡ raised e
      → (bind_result r f).0 ≡ raised e
  bind-raises (ok a, w) f e h = cc
  bind-raises (raised e', w) f e h = cc

  bind-rest-raises :
      {A B : Type 0} (r : Result A × World db dlq) (f : A → M db dlq B)
      → ((a : A) (w : World db dlq) → (e : Error) × ((f a w).0 ≡ raised e))
      → (e : Error) × ((bind_result r f).0 ≡ raised e)
  bind-rest-raises (ok a, w) f h = h a w
  bind-rest-raises (raised e, w) f h = (e, refl)

  fetch_all-raises :
      (fetch : Pair → M db dlq ℕ) (p : Pair) (pairs : List Pair) (w : World db dlq)
      → Holds p pairs
      → AlwaysRaises fetch p
      → (e : Error) × ((fetch_all db dlq fetch pairs w).0 ≡ raised e)
  unfolding fetch_all
  fetch_all-raises fetch p [] w m h = absurd m
  fetch_all-raises fetch p (x ∷ pairs) w (inl same) h =
      let (e, f) = subst (AlwaysRaises fetch) (sym same) h w in
      (e, bind-raises (fetch x w) (λ n. fetch_all db dlq fetch pairs) e f)
  fetch_all-raises fetch p (x ∷ pairs) w (inr m) h =
      bind-rest-raises (fetch x w) (λ n. fetch_all db dlq fetch pairs)
        (λ n v. fetch_all-raises fetch p pairs v m h)

  module _ (json : Json) (runs : RunTable) (job_id : String) (batch_size : ℕ)
      (fetch : Pair → M db dlq ℕ) (pairs : List Pair) where
    -- One run after the other, at the given ids and times; the scheduler goes on after a failure.
    unfoldable pub run_jobs : List (ℕ × Time) → World db dlq × runs.Conn → World db dlq × runs.Conn
    run_jobs [] jw = jw
    run_jobs ((id, now) ∷ ticks) jw =
        run_jobs ticks (rotate db dlq json runs job_id id now batch_size fetch pairs jw).1

    kept-on_raise :
        (id : ℕ) (now : Time) (kv : State) (s : runs.Conn) (r : Result (Unit {0}) × World db dlq)
        (e : Error)
        → r.0 ≡ raised e
        → ((after_fetches db dlq json runs job_id id now kv s r).0 ≡ raised e)
          × ((after_fetches db dlq json runs job_id id now kv s r).1.1 ≡ s)
    kept-on_raise id now kv s (ok u, w) e h = cc
    kept-on_raise id now kv s (raised e', w) e h = (h, refl)

    run-raises :
        (id : ℕ) (now : Time) (kv : State) (p : Pair) (jw : World db dlq × runs.Conn)
        → load_kv_state json runs job_id jw.1 ≡ ok kv
        → let from = cursor kv (length pairs) in
          let to = slice_end batch_size from (length pairs) in
          Holds p (slice pairs from to)
          → AlwaysRaises fetch p
          → let done = rotate db dlq json runs job_id id now batch_size fetch pairs jw in
            ((e : Error) × (((fetch_all db dlq fetch (slice pairs from to) jw.0).0 ≡ raised e)
                × (done.0 ≡ raised e)))
            × (done.1.1 ≡ jw.1)
    unfolding rotate
    run-raises id now kv p (w, s) loaded m h =
        let n = length pairs in
        let from = cursor kv n in
        let to = slice_end batch_size from n in
        let (e, f) = fetch_all-raises fetch p (slice pairs from to) w m h in
        let (g, same) =
          kept-on_raise id now (moved kv to n) s (fetch_all db dlq fetch (slice pairs from to) w) e
            f in
        rw loaded ((e, (f, g)), same)

    -- If the fetch of one pair of the current slice raises whenever it is tried, no number of runs
    -- moves the cursor: the stored rows stay as they are, so every run polls the same slice again, and
    -- raises the exception of its fetches, before it comes to a save.
    pub job_starves :
        (ticks : List (ℕ × Time)) (id : ℕ) (now : Time) (kv : State) (p : Pair) (w : World db dlq)
        (s : runs.Conn)
        → load_kv_state json runs job_id s ≡ ok kv
        → let from = cursor kv (length pairs) in
          let to = slice_end batch_size from (length pairs) in
          Holds p (slice pairs from to)
          → AlwaysRaises fetch p
          → let done = run_jobs ticks (w, s) in
            (done.1 ≡ s)
            × ((e : Error) × (((fetch_all db dlq fetch (slice pairs from to) done.0).0 ≡ raised e)
                  × ((rotate db dlq json runs job_id id now batch_size fetch pairs done).0
                      ≡ raised e)))
    unfolding run_jobs
    job_starves [] id now kv p w s loaded m h = (refl, (run-raises id now kv p (w, s) loaded m h).0)
    job_starves ((id', now') ∷ ticks) id now kv p w s loaded m h =
        let done = rotate db dlq json runs job_id id' now' batch_size fetch pairs (w, s) in
        let same = (run-raises id' now' kv p (w, s) loaded m h).1 in
        let (kept, raises) =
          job_starves ticks id now kv p done.1.0 done.1.1
            (ap (load_kv_state json runs job_id) same ∙ loaded) m h in
        (kept ∙ same, raises)
