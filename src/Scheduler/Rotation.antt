-- ===== src/Scheduler/Rotation.antt =====
-- Where the round-robin jobs get to: a run that comes to its save raises there.
use shortfire.Prelude.{
  ℕ, String, ◌≡◌, refl, sym, ap, ◌∙◌, inl, inr, List, [], ◌∷◌, Holds, length, Result, Error, ok,
  raised, database_error, Result-cases,
}
use shortfire.Prelude.Times.{Time}
use shortfire.Storage.{Database}
use shortfire.DeadLetter.{letter_key}
use shortfire.Effects.{World, M, bind_result}
use shortfire.KvState.{State, RunTable, Json, load_kv_state}
use shortfire.KvState.Saves.{save_raises}
use shortfire.Scheduler.{Pair, cursor, slice_end, slice, moved, fetch_all, after_fetches, rotate}
use shortfire.Scheduler.Starvation.{run_jobs}

module _ {Row Key : Type 0} {key : Row → Key} (db : Database key) (dlq : Database letter_key) where
  bind-agree :
      {A B : Type 0} (r : Result A × World db dlq) (f g : A → M db dlq B)
      → ((a : A) (w : World db dlq) → f a w ≡ g a w)
      → bind_result r f ≡ bind_result r g
  bind-agree (ok a, w) f g h = h a w
  bind-agree (raised e, w) f g h = refl

  -- The fetches of a list depend on what is done for its pairs only.
  fetch_all-agree :
      (fetch fetch' : Pair → M db dlq ℕ) (pairs : List Pair) (w : World db dlq)
      → ((p : Pair) (v : World db dlq) → Holds p pairs → fetch p v ≡ fetch' p v)
      → fetch_all db dlq fetch pairs w ≡ fetch_all db dlq fetch' pairs w
  unfolding fetch_all
  fetch_all-agree fetch fetch' [] w same = refl
  fetch_all-agree fetch fetch' (p ∷ pairs) w same =
      ap (λ r. bind_result r (λ n. fetch_all db dlq fetch pairs)) (same p w (inl refl))
      ∙ bind-agree (fetch' p w) (λ n. fetch_all db dlq fetch pairs)
          (λ n. fetch_all db dlq fetch' pairs)
          (λ n v. fetch_all-agree fetch fetch' pairs v (λ q u m. same q u (inr m)))

  module _ (json : Json) (runs : RunTable) (job_id : String) (batch_size : ℕ)
      (pairs : List Pair) where
    after_fetches-keeps :
        (id : ℕ) (now : Time) (kv : State) (s : runs.Conn) (r : Result (Unit {0}) × World db dlq)
        → ((e : Error) × ((after_fetches db dlq json runs job_id id now kv s r).0 ≡ raised e))
          × ((after_fetches db dlq json runs job_id id now kv s r).1.1 ≡ s)
    after_fetches-keeps id now kv s (raised e, w) = ((e, refl), refl)
    after_fetches-keeps id now kv s (ok u, w) =
        let lost = save_raises json runs id now job_id kv s in
        rw lost ((database_error, refl), refl)

    rotate-keeps :
        (fetch : Pair → M db dlq ℕ) (id : ℕ) (now : Time) (w : World db dlq) (s : runs.Conn)
        → let done = rotate db dlq json runs job_id id now batch_size fetch pairs (w, s) in
          ((e : Error) × (done.0 ≡ raised e)) × (done.1.1 ≡ s)
    unfolding rotate
    rotate-keeps fetch id now w s = elim (Result-cases (load_kv_state json runs job_id s)) [
      | inr (e, h) ↦ rw h ((e, refl), refl)
      | inl (kv, h) ↦ rw h (after_fetches-keeps id now _ s _)
    ]

    module _ (fetch fetch' : Pair → M db dlq ℕ) (kv : State) (s : runs.Conn)
        (loaded : load_kv_state json runs job_id s ≡ ok kv)
        (same : (p : Pair) (v : World db dlq)
          → Holds p (
              slice pairs
                (cursor kv (length pairs))
                (slice_end batch_size (cursor kv (length pairs)) (length pairs)))
          → fetch p v ≡ fetch' p v) where
      rotate-agree :
          (id : ℕ) (now : Time) (w : World db dlq)
          → rotate db dlq json runs job_id id now batch_size fetch pairs (w, s)
            ≡ rotate db dlq json runs job_id id now batch_size fetch' pairs (w, s)
      unfolding rotate
      rotate-agree id now w =
          let n = length pairs in
          let from = cursor kv n in
          let to = slice_end batch_size from n in
          rw loaded (
            ap (after_fetches db dlq json runs job_id id now (moved kv to n) s)
              (fetch_all-agree fetch fetch' (slice pairs from to) w same))

      runs-agree :
          (ticks : List (ℕ × Time)) (w : World db dlq)
          → (run_jobs db dlq json runs job_id batch_size fetch pairs ticks (w, s)
              ≡ run_jobs db dlq json runs job_id batch_size fetch' pairs ticks (w, s))
            × ((run_jobs db dlq json runs job_id batch_size fetch pairs ticks (w, s)).1 ≡ s)
      unfolding run_jobs
      runs-agree [] w = (refl, refl)
      runs-agree ((id, now) ∷ ticks) w =
          let done = rotate db dlq json runs job_id id now batch_size fetch pairs (w, s) in
          let kept : done.1 ≡ (done.1.0, s) =
            ap (λ (x : runs.Conn). (done.1.0, x)) (rotate-keeps fetch id now w s).1 in
          let (agree, rows) = runs-agree ticks done.1.0 in
          (
            ap (run_jobs db dlq json runs job_id batch_size fetch pairs ticks) kept
                ∙ agree
                ∙ ap (run_jobs db dlq json runs job_id batch_size fetch' pairs ticks)
                    (sym kept ∙ ap (λ x. x.1) (rotate-agree id now w)),
            ap (λ jw. (run_jobs db dlq json runs job_id batch_size fetch pairs ticks jw).1) kept
                ∙ rows,
          )

    -- A round-robin job never gets past its first slice: however often it runs, every run raises and
    -- the stored rows stay as they are; and two clients that do the same for the pairs of the slice
    -- that the stored cursor gives lead to the same world, whatever they would do for the others.
    pub job_never_moves :
        (fetch fetch' : Pair → M db dlq ℕ) (kv : State) (ticks : List (ℕ × Time)) (id : ℕ)
        (now : Time) (w : World db dlq) (s : runs.Conn)
        → load_kv_state json runs job_id s ≡ ok kv
        → let n = length pairs in
          ((p : Pair) (v : World db dlq)
            → Holds p (slice pairs (cursor kv n) (slice_end batch_size (cursor kv n) n))
            → fetch p v ≡ fetch' p v)
          → let done = run_jobs db dlq json runs job_id batch_size fetch pairs ticks (w, s) in
            ((e : Error) × ((rotate db dlq json runs job_id id now batch_size fetch pairs done).0
                ≡ raised e))
            × ((done.1 ≡ s)
                × (done ≡ run_jobs db dlq json runs job_id batch_size fetch' pairs ticks (w, s)))
    job_never_moves fetch fetch' kv ticks id now w s loaded same =
        let (agree, kept) = runs-agree fetch fetch' kv s loaded same ticks w in
        let done = run_jobs db dlq json runs job_id batch_size fetch pairs ticks (w, s) in
        ((rotate-keeps fetch id now done.0 done.1).0, (kept, agree))
