-- ===== src/Mexc/Backfill/Turns.antt =====
-- A sweep comes to an end if each of its tasks gets enough turns, in any order.
use shortfire.Prelude.{
  ℕ, zero, suc, ◌-◌, ◌≤◌, ◌<◌, ◌≡◌, refl, String, Option, none, some, List, [], ◌∷◌, map, inl, inr,
  All, All-append, length, Result, ok, raised, ltb, nat_eq, if◌then◌else◌, arith, Bool-cases,
}
use shortfire.Prelude.Dicts.{Dict}
use shortfire.Prelude.Texts.{count}
use shortfire.Prelude.Times.{Time, from_ms, to_ms}
use shortfire.Domain.Market.{Candle, Timeframe, m1, m5, m15, h1, h4, d1}
use shortfire.Rows.{candle_key}
use shortfire.Storage.{Database}
use shortfire.Mexc.Backfill.{Fetch, next_cursor, timeframe_ms, timeframe_to_table}
use shortfire.Mexc.Backfill.Pages.{StartsAtSince, cursor_moves}
use shortfire.Mexc.Backfill.Sweep.{
  Progress, running, returned, failed, Task, Sweep, after_copy, after_page, next_page, advance_task,
  turn_at, turn, turns, started, tasks_of, result_name, with_result, results_of, backfill_universe,
}

timeframe_ms-pos : (tf : Timeframe) → 0 < timeframe_ms tf
timeframe_ms-pos m1 = omega arith
timeframe_ms-pos m5 = omega arith
timeframe_ms-pos m15 = omega arith
timeframe_ms-pos h1 = omega arith
timeframe_ms-pos h4 = omega arith
timeframe_ms-pos d1 = omega arith

module _ (db : Database candle_key) (fetch : String → Timeframe → Fetch) (since until : Time)
    (starts : (symbol : String) (tf : Timeframe) → StartsAtSince (fetch symbol tf)) where
  -- A bound on the turns that a task still needs.
  abbrev remaining : Progress → ℕ
  remaining (running cursor total) = suc (to_ms until - cursor)
  remaining (returned n) = 0
  remaining (failed e) = 0

  after_copy-remaining :
      (bound next total : ℕ) (r : Result ℕ × db.Conn)
      → suc (to_ms until - next) ≤ bound
      → remaining (after_copy db fetch since until next total r).0 ≤ bound
  after_copy-remaining bound next total (raised e, s) h = omega arith
  after_copy-remaining bound next total (ok n, s) h = h

  after_page-remaining :
      (symbol : String) (tf : Timeframe) (table : String) (call cursor total : ℕ) (s : db.Conn)
      (r : Result (List Candle))
      → cursor < to_ms until
      → fetch symbol tf call (from_ms cursor) (from_ms (to_ms until)) ≡ r
      → remaining (after_page db fetch since until table (timeframe_ms tf) total s r).0
        ≤ to_ms until - cursor
  after_page-remaining symbol tf table call cursor total s (raised e) inside same = omega arith
  after_page-remaining symbol tf table call cursor total s (ok []) inside same = omega arith
  after_page-remaining symbol tf table call cursor total s (ok (c ∷ cs)) inside same =
      let moved =
        cursor_moves db (fetch symbol tf) table (timeframe_ms tf) (to_ms until) (starts symbol tf)
          call cursor c cs same in
      after_copy-remaining (to_ms until - cursor) (next_cursor (timeframe_ms tf) c cs) total _
        (omega (arith, moved, timeframe_ms-pos tf, inside))

  next_page-remaining :
      (symbol : String) (tf : Timeframe) (table : Option String) (call cursor total : ℕ)
      (s : db.Conn)
      → remaining (next_page db fetch since until symbol tf table call cursor total s).0
        ≤ to_ms until - cursor
  unfolding next_page
  next_page-remaining symbol tf none call cursor total s = omega arith
  next_page-remaining symbol tf (some table) call cursor total s =
      elim (Bool-cases (ltb cursor (to_ms until))) [
        | inl t ↦
            rw t
              (after_page-remaining symbol tf table call cursor total s _ (ground (arith, t)) refl)
        | inr f ↦ rw f (omega arith)
      ]

  advance_task-remaining :
      (call : ℕ) (symbol : String) (tf : Timeframe) (p : Progress) (s : db.Conn)
      → remaining
          (advance_task db fetch since until call
            (record { symbol = symbol; timeframe = tf; progress = p })
            s).0
        ≤ remaining p - 1
  unfolding advance_task
  advance_task-remaining call symbol tf (running cursor total) s =
      let next = next_page-remaining symbol tf (timeframe_to_table tf) call cursor total s in
      omega (arith, next)
  advance_task-remaining call symbol tf (returned n) s = omega arith
  advance_task-remaining call symbol tf (failed e) s = omega arith

  abbrev remaining_at : ℕ → List Task → ℕ
  remaining_at j [] = 0
  remaining_at zero (t ∷ tasks) = remaining t.progress
  remaining_at (suc j) (t ∷ tasks) = remaining_at j tasks

  turn_at-remaining :
      (call i j : ℕ) (tasks : List Task) (s : db.Conn)
      → remaining_at j (turn_at db fetch since until call i tasks s).0
        ≤ remaining_at j tasks - (if nat_eq j i then 1 else 0)
  unfolding turn_at
  turn_at-remaining call i j [] s = omega arith
  turn_at-remaining call zero zero (t ∷ tasks) s =
      advance_task-remaining call t.symbol t.timeframe t.progress s
  turn_at-remaining call zero (suc j) (t ∷ tasks) s = ground arith
  turn_at-remaining call (suc i) zero (t ∷ tasks) s = ground arith
  turn_at-remaining call (suc i) (suc j) (t ∷ tasks) s =
      let rest = turn_at-remaining call i j tasks s in ground (arith, rest)

  turns-remaining :
      (j : ℕ) (order : List ℕ) (w : Sweep db fetch since until)
      → remaining_at j (turns db fetch since until order w).tasks
        ≤ remaining_at j w.tasks - count j order
  unfolding turns turn
  turns-remaining j [] w = omega arith
  turns-remaining j (i ∷ order) w =
      let rest = turns-remaining j order (turn db fetch since until i w) in
      let first = turn_at-remaining w.calls i j w.tasks w.conn in ground (arith, rest, first)

  with_result-some :
      (name : String) (p : Progress) (r : Result (Dict String ℕ))
      → remaining p ≡ 0
      → (r' : Result (Dict String ℕ)) × (with_result db fetch since until name p (some r) ≡ some r')
  with_result-some name (running cursor total) r h = absurd (omega (arith, h))
  with_result-some name (returned n) (ok results) h = (_, refl)
  with_result-some name (returned n) (raised e) h = (_, refl)
  with_result-some name (failed e) r h = (_, refl)

  results_of-some :
      (tasks : List Task)
      → ((j : ℕ) → remaining_at j tasks ≡ 0)
      → (r : Result (Dict String ℕ)) × (results_of db fetch since until tasks ≡ some r)
  unfolding results_of
  results_of-some [] done = (ok [], refl)
  results_of-some (t ∷ tasks) done =
      let (r, e) = results_of-some tasks (λ j. done (suc j)) in
      rw e (with_result-some (result_name t.symbol t.timeframe) t.progress r (done 0))

  abbrev IsFresh : Task → Type 0
  IsFresh t = remaining t.progress ≤ suc (to_ms until - to_ms since)

  started-IsFresh :
      (symbols : List String) (timeframes : List Timeframe)
      → All IsFresh (tasks_of db fetch since until symbols timeframes)
  unfolding tasks_of
  started-IsFresh [] timeframes = tt
  started-IsFresh (x ∷ symbols) timeframes =
      All-append IsFresh _ _ (of_symbol timeframes) (started-IsFresh symbols timeframes)
    where
      of_symbol : (tfs : List Timeframe) → All IsFresh (map (started db fetch since until x) tfs)
      of_symbol [] = tt
      of_symbol (f ∷ tfs) = (omega arith, of_symbol tfs)

  -- A task that is there needs at most that many turns, and there is none beyond the last.
  remaining_at-bound :
      (j : ℕ) (tasks : List Task) (turns_of : ℕ)
      → All IsFresh tasks
      → (j < length tasks → suc (to_ms until - to_ms since) ≤ turns_of)
      → remaining_at j tasks ≤ turns_of
  remaining_at-bound j [] turns_of all enough = omega arith
  remaining_at-bound zero (t ∷ tasks) turns_of all enough =
      let given = enough (omega arith) in omega (arith, all.0, given)
  remaining_at-bound (suc j) (t ∷ tasks) turns_of all enough =
      remaining_at-bound j tasks turns_of all.1 (λ h. enough (omega (arith, h)))

  -- Where no page ends before its `since`: if each task gets as many turns as the window has milliseconds, and one more, in any order, the
  -- sweep ends, with counts or an exception.
  pub sweep_ends :
      (symbols : List String) (timeframes : List Timeframe) (order : List ℕ) (s : db.Conn)
      → ((j : ℕ)
          → j < length (tasks_of db fetch since until symbols timeframes)
          → suc (to_ms until - to_ms since) ≤ count j order)
      → (r : Result (Dict String ℕ)) × ((backfill_universe db fetch since until symbols timeframes
            order s).0
          ≡ some r)
  unfolding backfill_universe
  sweep_ends symbols timeframes order s enough =
      let tasks = tasks_of db fetch since until symbols timeframes in
      let start : Sweep db fetch since until = record { tasks = tasks; conn = s; calls = 0 } in
      results_of-some (turns db fetch since until order start).tasks (λ j.
        let left = turns-remaining j order start in
        let bound =
          remaining_at-bound j tasks (count j order) (started-IsFresh symbols timeframes)
            (enough j) in
        omega (arith, left, bound))
