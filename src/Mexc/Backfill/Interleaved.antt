-- ===== src/Mexc/Backfill/Interleaved.antt =====
-- What the backfills of many symbols leave in the tables, in whichever order their pages come.
use shortfire.Prelude.{
  ℕ, zero, suc, ◌≤◌, ◌<◌, ◌≡◌, refl, sym, ap, ◌⊎◌, inl, inr, String, Option, none, some, List, [],
  ◌∷◌, map, All, All-append, Holds, Result, ok, raised, ltb, arith, Bool-cases,
}
use shortfire.Prelude.Dicts.{Dict}
use shortfire.Prelude.Times.{Time, from_ms, to_ms}
use shortfire.Domain.Market.{Candle, Timeframe}
use shortfire.Rows.{CandleRow, candle_key}
use shortfire.Storage.{Database, copy_into_hypertable}
use shortfire.Storage.Laws.{copy-stored}
use shortfire.Mexc.Backfill.{
  Fetch, candle_row, last_candle, next_cursor, timeframe_ms, timeframe_to_table,
}
use shortfire.Mexc.Backfill.Coverage.{Serves, Holds-map}
use shortfire.Mexc.Backfill.Sweep.{
  Progress, running, returned, failed, Task, Sweep, after_copy, after_page, next_page, advance_task,
  turn_at, turn, turns, started, tasks_of, result_name, with_result, results_of, backfill_universe,
}
use shortfire.Mexc.Backfill.Growth.{
  Grows, label, turn_at-Grows, next_page-Grows, turns-label, tasks_of-Holds,
}
use native.Mathlib.Decide.{dec_le}
use mathlib.Core.Path.{subst}

module _ (db : Database candle_key) (fetch : String → Timeframe → Fetch) (since until : Time) where
  open db use {Conn, find}

  -- One candle of one symbol and timeframe, in the window.
  module _ (symbol : String) (tf : Timeframe) (table : String)
      (has_table : timeframe_to_table tf ≡ some table) (history : List Candle)
      (serves : Serves history (timeframe_ms tf) (fetch symbol tf)) (h : Candle)
      (m : Holds h history) (before : h.ts.micros < from_ms (to_ms until)) where
    abbrev IsStored : Conn → Type 0
    IsStored s = (row : CandleRow) × (find s table (candle_key (candle_row h)) ≡ some row)

    -- The candle is stored, or is ahead of a task that still runs or has failed.
    abbrev Due : Progress → Conn → Type 0
    Due (running cursor total) s = IsStored s ⊎ (from_ms cursor ≤ h.ts.micros)
    Due (returned n) s = IsStored s
    Due (failed e) s = Unit

    Due-stored : (p : Progress) (s : Conn) → IsStored s → Due p s
    Due-stored (running cursor total) s there = inl there
    Due-stored (returned n) s there = there
    Due-stored (failed e) s there = tt

    IsStored-kept : (s s' : Conn) → Grows db fetch since until s s' → IsStored s → IsStored s'
    IsStored-kept s s' grows (row, there) = (row, grows table (candle_key (candle_row h)) row there)

    Due-kept : (p : Progress) (s s' : Conn) → Grows db fetch since until s s' → Due p s → Due p s'
    Due-kept (running cursor total) s s' grows (inl there) = inl (IsStored-kept s s' grows there)
    Due-kept (running cursor total) s s' grows (inr ahead) = inr ahead
    Due-kept (returned n) s s' grows there = IsStored-kept s s' grows there
    Due-kept (failed e) s s' grows there = tt

    after_copy-Due :
        (c : Candle) (cs : List Candle) (total : ℕ) (s : Conn) (r : Result ℕ × Conn)
        → copy_into_hypertable db table (map candle_row (c ∷ cs)) s ≡ r
        → Holds h (c ∷ cs) ⊎ (from_ms (next_cursor (timeframe_ms tf) c cs) ≤ h.ts.micros)
        → let next = after_copy db fetch since until (next_cursor (timeframe_ms tf) c cs) total r in
          Due next.0 next.1
    after_copy-Due c cs total s (raised e, s') same found = tt
    after_copy-Due c cs total s (ok n, s') same (inr ahead) = inr ahead
    after_copy-Due c cs total s (ok n, s') same (inl inside) = inl (
        subst (λ (r : Result ℕ × Conn). IsStored r.1) same
          (copy-stored db table (map candle_row (c ∷ cs)) s n (candle_row h)
            (ap (λ (r : Result ℕ × Conn). r.0) same) (Holds-map h (c ∷ cs) inside)))

    after_page-Due :
        (call cursor total : ℕ) (s : Conn) (r : Result (List Candle))
        → fetch symbol tf call (from_ms cursor) (from_ms (to_ms until)) ≡ r
        → from_ms cursor ≤ h.ts.micros
        → let next = after_page db fetch since until table (timeframe_ms tf) total s r in
          Due next.0 next.1
    after_page-Due call cursor total s (raised e) same ahead = tt
    after_page-Due call cursor total s (ok []) same ahead =
        absurd (
          omega
            (arith, serves.no_more call (from_ms cursor) (from_ms (to_ms until)) h same m ahead))
    after_page-Due call cursor total s (ok (c ∷ cs)) same ahead =
        after_copy-Due c cs total s _ refl (elim (dec_le h.ts.micros (last_candle c cs).ts.micros) [
          | yes inside ↦ inl (
              serves.no_gap call (from_ms cursor) (from_ms (to_ms until)) c cs h same m ahead
                inside)
          | no beyond ↦ inr (
              let far =
                serves.apart call (from_ms cursor) (from_ms (to_ms until)) c cs h same m
                  (omega arith) in
              omega arith)
        ])

    next_page-Due :
        (call cursor total : ℕ) (s : Conn)
        → IsStored s ⊎ (from_ms cursor ≤ h.ts.micros)
        → let next = next_page db fetch since until symbol tf (some table) call cursor total s in
          Due next.0 next.1
    unfolding next_page
    next_page-Due call cursor total s (inl there) = Due-stored _ _ (
        IsStored-kept s _
          (next_page-Grows db fetch since until symbol tf (some table) call cursor total s) there)
    next_page-Due call cursor total s (inr ahead) = elim (Bool-cases (ltb cursor (to_ms until))) [
      | inl t ↦ rw t (after_page-Due call cursor total s _ refl ahead)
      | inr f ↦ absurd (let out : to_ms until ≤ cursor = ground arith in omega arith)
    ]

    advance_task-Due :
        (call : ℕ) (p : Progress) (s : Conn)
        → Due p s
        → let next =
            advance_task db fetch since until call
              (record { symbol = symbol; timeframe = tf; progress = p })
              s in
          Due next.0 next.1
    unfolding advance_task
    advance_task-Due call (running cursor total) s due =
        rw has_table (next_page-Due call cursor total s due)
    advance_task-Due call (returned n) s due = due
    advance_task-Due call (failed e) s due = tt

    -- So for a task of the symbol and the timeframe; the others do not matter.
    abbrev DueIn : Conn → Task → Type 0
    DueIn s t = label db fetch since until t ≡ (symbol, tf) → Due t.progress s

    DueIn-kept :
        (s s' : Conn) (tasks : List Task)
        → Grows db fetch since until s s'
        → All (DueIn s) tasks
        → All (DueIn s') tasks
    DueIn-kept s s' [] grows all = tt
    DueIn-kept s s' (t ∷ tasks) grows all =
        (λ e. Due-kept t.progress s s' grows (all.0 e), DueIn-kept s s' tasks grows all.1)

    turn_at-Due :
        (call i : ℕ) (tasks : List Task) (s : Conn)
        → All (DueIn s) tasks
        → let next = turn_at db fetch since until call i tasks s in All (DueIn next.1) next.0
    unfolding turn_at
    turn_at-Due call i [] s all = tt
    turn_at-Due call zero (t ∷ tasks) s all = (
      λ e. same_label t.symbol t.timeframe t.progress e (all.0 e),
      DueIn-kept s _ tasks (turn_at-Grows db fetch since until call zero (t ∷ tasks) s) all.1,
    )
      where
        same_label :
            (x : String) (f : Timeframe) (p : Progress)
            → ◌≡◌ {A = String × Timeframe} (x, f) (symbol, tf)
            → Due p s
            → let next =
                advance_task db fetch since until call
                  (record { symbol = x; timeframe = f; progress = p })
                  s in
              Due next.0 next.1
        same_label x f p e due =
            subst
              (λ (q : String × Timeframe).
                let next =
                  advance_task db fetch since until call
                    (record { symbol = q.0; timeframe = q.1; progress = p }) s in
                Due next.0 next.1)
              (sym e) (advance_task-Due call p s due)
    turn_at-Due call (suc i) (t ∷ tasks) s all = (
      λ e.
          Due-kept t.progress s _ (turn_at-Grows db fetch since until call (suc i) (t ∷ tasks) s)
            (all.0 e),
      turn_at-Due call i tasks s all.1,
    )

    turns-Due :
        (order : List ℕ) (w : Sweep db fetch since until)
        → All (DueIn w.conn) w.tasks
        → let end = turns db fetch since until order w in All (DueIn end.conn) end.tasks
    unfolding turns turn
    turns-Due [] w all = all
    turns-Due (i ∷ order) w all = turns-Due order _ (turn_at-Due w.calls i w.tasks w.conn all)

    started-Due :
        (s : Conn) (symbols : List String) (timeframes : List Timeframe)
        → since ≤ h.ts.micros
        → All (DueIn s) (tasks_of db fetch since until symbols timeframes)
    unfolding tasks_of
    started-Due s [] timeframes after = tt
    started-Due s (x ∷ symbols) timeframes after =
        All-append (DueIn s) _ _ (one_symbol timeframes) (started-Due s symbols timeframes after)
      where
        one_symbol :
            (tfs : List Timeframe) → All (DueIn s) (map (started db fetch since until x) tfs)
        one_symbol [] = tt
        one_symbol (f ∷ tfs) = (λ e. inr (omega (arith, after)), one_symbol tfs)

    result_parts :
        (name : String) (p : Progress) (rest : Option (Result (Dict String ℕ)))
        (results : Dict String ℕ) (s : Conn) (Here There : Type 0)
        → with_result db fetch since until name p rest ≡ some (ok results)
        → (Here → Due p s)
        → ((later : Dict String ℕ) → rest ≡ some (ok later) → There → IsStored s)
        → Here ⊎ There
        → IsStored s
    result_parts name (failed x) rest results s Here There e due next here = cc
    result_parts name (running cursor total) none results s Here There e due next here = cc
    result_parts name (running cursor total) (some (ok later)) results s Here There e due next
          here =
        cc
    result_parts name (running cursor total) (some (raised x)) results s Here There e due next
          here =
        cc
    result_parts name (returned n) none results s Here There e due next here = cc
    result_parts name (returned n) (some (raised x)) results s Here There e due next here = cc
    result_parts name (returned n) (some (ok later)) results s Here There e due next (inl here) =
        due here
    result_parts name (returned n) (some (ok later)) results s Here There e due next (inr there) =
        next later refl there

    -- Where all tasks returned, the candle of a task that there is is stored.
    results-IsStored :
        (s : Conn) (tasks : List Task) (results : Dict String ℕ)
        → results_of db fetch since until tasks ≡ some (ok results)
        → All (DueIn s) tasks
        → Holds (symbol, tf) (map (label db fetch since until) tasks)
        → IsStored s
    unfolding results_of
    results-IsStored s [] results e all here = absurd here
    results-IsStored s (t ∷ tasks) results e all here =
        result_parts (result_name t.symbol t.timeframe) t.progress
          (results_of db fetch since until tasks) results s _ _ e all.0
          (λ later e' there. results-IsStored s tasks later e' all.1 there) here

  -- In whichever order the pages of the backfills come: if the client serves a symbol and a timeframe
  -- that has a table, and the sweep gives counts, every candle of the symbol in the window is stored.
  pub sweep_covers :
      (symbols : List String) (timeframes : List Timeframe) (order : List ℕ) (s : Conn)
      (results : Dict String ℕ) (symbol : String) (tf : Timeframe) (table : String)
      (history : List Candle) (h : Candle)
      → timeframe_to_table tf ≡ some table
      → Serves history (timeframe_ms tf) (fetch symbol tf)
      → Holds symbol symbols
      → Holds tf timeframes
      → (backfill_universe db fetch since until symbols timeframes order s).0 ≡ some (ok results)
      → Holds h history
      → since ≤ h.ts.micros
      → h.ts.micros < from_ms (to_ms until)
      → (row : CandleRow) × (find
            (backfill_universe db fetch since until symbols timeframes order s).1
            table
            (candle_key (candle_row h))
          ≡ some row)
  unfolding backfill_universe
  sweep_covers symbols timeframes order s results symbol tf table history h has serves a b done m
        after before =
      let start : Sweep db fetch since until = record {
        tasks = tasks_of db fetch since until symbols timeframes;
        conn = s;
        calls = 0;
      } in
      let end = turns db fetch since until order start in
      results-IsStored symbol tf table has history serves h m before end.conn end.tasks results done
        (turns-Due symbol tf table has history serves h m before order start
          (started-Due symbol tf table has history serves h m before s symbols timeframes after))
        (subst (Holds (symbol, tf)) (sym (turns-label db fetch since until order start))
          (tasks_of-Holds db fetch since until symbol tf symbols timeframes a b))
