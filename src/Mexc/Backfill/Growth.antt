-- ===== src/Mexc/Backfill/Growth.antt =====
-- No turn of a sweep loses a row or a task.
use shortfire.Prelude.{
  ℕ, zero, suc, ◌≡◌, refl, sym, ap, ◌∙◌, ◌⊎◌, inl, inr, String, Option, none, some, List, [], ◌∷◌,
  ◌++◌, map, Holds, Holds-append_left, Holds-append_right, Result, ok, raised, ltb, Bool-cases,
}
use shortfire.Prelude.Times.{Time, to_ms}
use shortfire.Domain.Market.{Candle, Timeframe}
use shortfire.Rows.{CandleRow, candle_key}
use shortfire.Storage.{Database, copy_into_hypertable}
use shortfire.Storage.Laws.{first_write_wins}
use shortfire.Mexc.Backfill.{Fetch, candle_row, next_cursor, timeframe_ms, timeframe_to_table}
use shortfire.Mexc.Backfill.Sweep.{
  Progress, running, returned, failed, Task, Sweep, after_copy, after_page, next_page, advance_task,
  turn_at, turn, turns, started, tasks_of,
}
use mathlib.Core.Path.{subst}

module _ (db : Database candle_key) (fetch : String → Timeframe → Fetch) (since until : Time) where
  open db use {Conn, find}

  -- No row is lost.
  abbrev pub Grows : Conn → Conn → Type 0
  Grows s s' =
      (u : String) (k : String × Time) (row : CandleRow)
      → find s u k ≡ some row
      → find s' u k ≡ some row

  copy-Grows :
      (table : String) (rows : List CandleRow) (s : Conn)
      → Grows s (copy_into_hypertable db table rows s).1
  copy-Grows table rows s u k row there = first_write_wins db table u rows s k row there

  after_copy-Grows :
      (next total : ℕ) (s : Conn) (r : Result ℕ × Conn)
      → Grows s r.1
      → Grows s (after_copy db fetch since until next total r).1
  after_copy-Grows next total s (raised e, s') grows = grows
  after_copy-Grows next total s (ok n, s') grows = grows

  after_page-Grows :
      (table : String) (step total : ℕ) (s : Conn) (r : Result (List Candle))
      → Grows s (after_page db fetch since until table step total s r).1
  after_page-Grows table step total s (raised e) = λ u k row there. there
  after_page-Grows table step total s (ok []) = λ u k row there. there
  after_page-Grows table step total s (ok (c ∷ cs)) =
      after_copy-Grows (next_cursor step c cs) total s _
        (copy-Grows table (map candle_row (c ∷ cs)) s)

  pub next_page-Grows :
      (symbol : String) (tf : Timeframe) (table : Option String) (call cursor total : ℕ) (s : Conn)
      → Grows s (next_page db fetch since until symbol tf table call cursor total s).1
  unfolding next_page
  next_page-Grows symbol tf none call cursor total s = λ u k row there. there
  next_page-Grows symbol tf (some table) call cursor total s =
      elim (Bool-cases (ltb cursor (to_ms until))) [
        | inl t ↦ rw t (after_page-Grows table (timeframe_ms tf) total s _)
        | inr f ↦ rw f (λ u k row there. there)
      ]

  advance_task-Grows :
      (call : ℕ) (symbol : String) (tf : Timeframe) (p : Progress) (s : Conn)
      → Grows s
          (advance_task db fetch since until call
            (record { symbol = symbol; timeframe = tf; progress = p })
            s).1
  unfolding advance_task
  advance_task-Grows call symbol tf (running cursor total) s =
      next_page-Grows symbol tf (timeframe_to_table tf) call cursor total s
  advance_task-Grows call symbol tf (returned n) s = λ u k row there. there
  advance_task-Grows call symbol tf (failed e) s = λ u k row there. there

  pub turn_at-Grows :
      (call i : ℕ) (tasks : List Task) (s : Conn)
      → Grows s (turn_at db fetch since until call i tasks s).1
  unfolding turn_at
  turn_at-Grows call i [] s = λ u k row there. there
  turn_at-Grows call zero (t ∷ tasks) s = advance_task-Grows call t.symbol t.timeframe t.progress s
  turn_at-Grows call (suc i) (t ∷ tasks) s = turn_at-Grows call i tasks s

  -- The symbol and the timeframe of a task.
  abbrev pub label : Task → String × Timeframe
  label t = (t.symbol, t.timeframe)

  turn_at-label :
      (call i : ℕ) (tasks : List Task) (s : Conn)
      → map label (turn_at db fetch since until call i tasks s).0 ≡ map label tasks
  unfolding turn_at
  turn_at-label call i [] s = refl
  turn_at-label call zero (t ∷ tasks) s = refl
  turn_at-label call (suc i) (t ∷ tasks) s = ap (◌∷◌ (label t)) (turn_at-label call i tasks s)

  pub turns-label :
      (order : List ℕ) (w : Sweep db fetch since until)
      → map label (turns db fetch since until order w).tasks ≡ map label w.tasks
  unfolding turns turn
  turns-label [] w = refl
  turns-label (i ∷ order) w = turns-label order _ ∙ turn_at-label w.calls i w.tasks w.conn

  map-append : (xs ys : List Task) → map label (xs ++ ys) ≡ map label xs ++ map label ys
  map-append [] ys = refl
  map-append (t ∷ xs) ys = ap (◌∷◌ (label t)) (map-append xs ys)

  pub tasks_of-Holds :
      (symbol : String) (tf : Timeframe) (symbols : List String) (timeframes : List Timeframe)
      → Holds symbol symbols
      → Holds tf timeframes
      → Holds (symbol, tf) (map label (tasks_of db fetch since until symbols timeframes))
  unfolding tasks_of
  tasks_of-Holds symbol tf [] timeframes a b = absurd a
  tasks_of-Holds symbol tf (x ∷ symbols) timeframes a b =
      subst (Holds (symbol, tf))
        (sym (map-append (map (started db fetch since until x) timeframes) _))
        (here_or_later a (λ n. tasks_of-Holds symbol tf symbols timeframes n b))
    where
      of_symbol :
          (tfs : List Timeframe)
          → x ≡ symbol
          → Holds tf tfs
          → Holds (symbol, tf) (map label (map (started db fetch since until x) tfs))
      of_symbol [] e n = absurd n
      of_symbol (f ∷ tfs) e (inl e') = inl (λ i. (e i, e' i))
      of_symbol (f ∷ tfs) e (inr n) = inr (of_symbol tfs e n)

      here_or_later :
          (x ≡ symbol) ⊎ Holds symbol symbols
          → (Holds symbol symbols
              → Holds (symbol, tf) (map label (tasks_of db fetch since until symbols timeframes)))
          → Holds
              (symbol, tf)
              (map label (map (started db fetch since until x) timeframes)
                ++ map label (tasks_of db fetch since until symbols timeframes))
      here_or_later (inl e) next = Holds-append_left _ _ _ (of_symbol timeframes e b)
      here_or_later (inr n) next =
          Holds-append_right _ (map label (map (started db fetch since until x) timeframes)) _
            (next n)
