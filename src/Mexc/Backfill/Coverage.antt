-- ===== src/Mexc/Backfill/Coverage.antt =====
-- What a backfill has put into its table when it returns.
use shortfire.Prelude.{
  ℕ, zero, suc, ◌+◌, ◌-◌, ◌≤◌, ◌<◌, ◌≡◌, refl, sym, ap, ◌∙◌, inl, inr, true, String, Option, some,
  List, [], ◌∷◌, map, Holds, Result, ok, raised, ltb, arith, Bool-cases,
}
use shortfire.Prelude.Times.{Time, from_ms, to_ms}
use shortfire.Domain.Market.{Candle, Timeframe, m1, m5, m15, h1, h4, d1}
use shortfire.Rows.{CandleRow, candle_key}
use shortfire.Storage.{Database, copy_into_hypertable}
use shortfire.Storage.Laws.{copy-stored, first_write_wins}
use shortfire.Mexc.Backfill.{
  Fetch, candle_row, last_candle, next_cursor, page_loop, rounds, timeframe_ms, timeframe_to_table,
  in_table, backfill_ohlcv,
}
use shortfire.Mexc.Backfill.Pages.{StartsAtSince, after_fetch-rule, page_loop-Returns}
use native.Mathlib.Decide.{dec_le}
use mathlib.Core.Path.{subst}
use mathlib.Core.Option.{some-injective}

-- What the exchange's paginated endpoint promises of the candles that it has, at a grid of `step`
-- milliseconds: a page starts at `since`, has no gap up to its last candle, and is empty only if
-- there is nothing before `until`; the candle after the last is at least a step away.
pub record Serves (history : List Candle) (step : ℕ) (fetch : Fetch) : Type 0 where
  pub starts : StartsAtSince fetch
  pub no_gap :
      (k : ℕ) (since until : Time) (c : Candle) (cs : List Candle) (h : Candle)
      → fetch k since until ≡ ok (c ∷ cs)
      → Holds h history
      → since ≤ h.ts.micros
      → h.ts.micros ≤ (last_candle c cs).ts.micros
      → Holds h (c ∷ cs)
  pub no_more :
      (k : ℕ) (since until : Time) (h : Candle)
      → fetch k since until ≡ ok []
      → Holds h history
      → since ≤ h.ts.micros
      → until ≤ h.ts.micros
  pub apart :
      (k : ℕ) (since until : Time) (c : Candle) (cs : List Candle) (h : Candle)
      → fetch k since until ≡ ok (c ∷ cs)
      → Holds h history
      → (last_candle c cs).ts.micros < h.ts.micros
      → to_ms (last_candle c cs).ts.micros + step ≤ to_ms h.ts.micros

pub Holds-map :
    (h : Candle) (cs : List Candle) → Holds h cs → Holds (candle_row h) (map candle_row cs)
Holds-map h [] m = absurd m
Holds-map h (c ∷ cs) (inl e) = inl (ap candle_row e)
Holds-map h (c ∷ cs) (inr m) = inr (Holds-map h cs m)

module _ (db : Database candle_key) (fetch : Fetch) (table : String) (step end_ms : ℕ) where
  open db use {Conn, find}

  -- Every result of `o` has the property.
  abbrev Ends : (Result ℕ × Conn → Type 0) → Option (Result ℕ × Conn) → Type 0
  Ends Q o = (r : Result ℕ × Conn) → o ≡ some r → Q r

  Ends-some : (Q : Result ℕ × Conn → Type 0) (r : Result ℕ × Conn) → Q r → Ends Q (some r)
  Ends-some Q r q r' e = subst Q (some-injective _ _ e) q

  -- A row that is in a table stays there through all rounds.
  pub page_loop-keeps :
      (u : String) (k : String × Time) (row : CandleRow) (fuel call cursor total : ℕ) (s : Conn)
      → find s u k ≡ some row
      → Ends
          (λ r. find r.1 u k ≡ some row)
          (page_loop db fetch table step end_ms fuel call cursor total s)
  unfolding page_loop
  page_loop-keeps u k row zero call cursor total s there = λ r e. cc
  page_loop-keeps u k row (suc fuel) call cursor total s there =
      let Kept = λ (r : Result ℕ × Conn). find r.1 u k ≡ some row in
      elim (Bool-cases (ltb cursor end_ms)) [
        | inr e ↦ rw e (Ends-some Kept (ok total, s) there)
        | inl e ↦ rw e (
            after_fetch-rule db fetch table step end_ms (Ends Kept)
              (page_loop db fetch table step end_ms fuel (suc call)) total s
              (fetch call (from_ms cursor) (from_ms end_ms))
              (λ x p. Ends-some Kept (raised x, s) there) (λ p. Ends-some Kept (ok total, s) there)
              (λ c cs x s' p q. Ends-some Kept (raised x, s') (after_copy c cs (raised x) s' q))
              (λ c cs n s' p q.
                page_loop-keeps u k row fuel (suc call) (next_cursor step c cs) (total + n) s'
                  (after_copy c cs (ok n) s' q)))
      ]
    where
      after_copy :
          (c : Candle) (cs : List Candle) (o : Result ℕ) (s' : Conn)
          → copy_into_hypertable db table (map candle_row (c ∷ cs)) s ≡ (o, s')
          → find s' u k ≡ some row
      after_copy c cs o s' q =
          subst (λ (p : Result ℕ × Conn). find p.1 u k ≡ some row) q
            (first_write_wins db table u (map candle_row (c ∷ cs)) s k row there)

  -- There is a row at the key of the candle.
  abbrev pub Stored : Candle → Conn → Type 0
  Stored h s = (row : CandleRow) × (find s table (candle_key (candle_row h)) ≡ some row)

  -- If the rounds return, rather than raise, the candle is stored.
  abbrev pub Covered : Candle → Result ℕ × Conn → Type 0
  Covered h r = (n : ℕ) → r.0 ≡ ok n → Stored h r.1

  page-Stored :
      (h c : Candle) (cs : List Candle) (n : ℕ) (s s' : Conn)
      → copy_into_hypertable db table (map candle_row (c ∷ cs)) s ≡ (ok n, s')
      → Holds h (c ∷ cs)
      → Stored h s'
  page-Stored h c cs n s s' q m =
      subst (λ (p : Result ℕ × Conn). Stored h p.1) q
        (copy-stored db table (map candle_row (c ∷ cs)) s n (candle_row h)
          (ap (λ (p : Result ℕ × Conn). p.0) q) (Holds-map h (c ∷ cs) m))

  -- The first page is written whole, whatever the times of its candles.
  pub first_page-Stored :
      (h c : Candle) (cs : List Candle)
      → Holds h (c ∷ cs)
      → (fuel cursor : ℕ) (s : Conn) → cursor < end_ms
      → fetch 0 (from_ms cursor) (from_ms end_ms) ≡ ok (c ∷ cs)
      → Ends (Covered h) (page_loop db fetch table step end_ms (suc fuel) 0 cursor 0 s)
  unfolding page_loop
  first_page-Stored h c cs m fuel cursor s inside page =
      let test : ltb cursor end_ms ≡ true = ground arith in
      rw (test, page)
        (after_fetch-rule db fetch table step end_ms (Ends (Covered h))
          (page_loop db fetch table step end_ms fuel 1) 0 s (ok (c ∷ cs)) (λ x p. cc) (λ p. cc)
          (λ c' cs' x s' p q. Ends-some (Covered h) (raised x, s') (λ n o. cc))
          (λ c' cs' n s' p q r e n' o.
            let same : (c ∷ cs) ≡ (c' ∷ cs') = cc in
            let (row, there) = page-Stored h c' cs' n s s' q (subst (Holds h) same m) in
            (
              row,
              page_loop-keeps table (candle_key (candle_row h)) row fuel 1 (next_cursor step c' cs')
                  (0 + n) s' there r e,
            )))

  module _ (history : List Candle) (serves : Serves history step fetch) (h : Candle)
      (m : Holds h history) where
    pub page_loop-Covered :
        (fuel call cursor total : ℕ) (s : Conn)
        → from_ms cursor ≤ h.ts.micros
        → h.ts.micros < from_ms end_ms
        → Ends (Covered h) (page_loop db fetch table step end_ms fuel call cursor total s)
    unfolding page_loop
    page_loop-Covered zero call cursor total s after before = λ r e. cc
    page_loop-Covered (suc fuel) call cursor total s after before =
        elim (Bool-cases (ltb cursor end_ms)) [
          | inr e ↦ absurd (let out : end_ms ≤ cursor = ground arith in omega arith)
          | inl e ↦ rw e (
              after_fetch-rule db fetch table step end_ms (Ends (Covered h))
                (page_loop db fetch table step end_ms fuel (suc call)) total s
                (fetch call (from_ms cursor) (from_ms end_ms))
                (λ x p. Ends-some (Covered h) (raised x, s) (λ n q. cc))
                (λ p. absurd (
                  let late = serves.no_more call (from_ms cursor) (from_ms end_ms) h p m after in
                  omega arith))
                (λ c cs x s' p q. Ends-some (Covered h) (raised x, s') (λ n o. cc))
                (λ c cs n s' p q. elim (dec_le h.ts.micros (last_candle c cs).ts.micros) [
                  | yes inside ↦ kept_row fuel (suc call) (next_cursor step c cs) (total + n) s' (
                      page-Stored h c cs n s s' q (
                        serves.no_gap call (from_ms cursor) (from_ms end_ms) c cs h p m after
                          inside))
                  | no beyond ↦
                      page_loop-Covered fuel (suc call) (next_cursor step c cs) (total + n) s'
                        (let far =
                            serves.apart call (from_ms cursor) (from_ms end_ms) c cs h p m
                              (omega arith) in
                          omega arith)
                        before
                ]))
        ]
      where
        kept_row :
            (fuel call cursor total : ℕ) (s : Conn)
            → Stored h s
            → Ends (Covered h) (page_loop db fetch table step end_ms fuel call cursor total s)
        kept_row fuel call cursor total s (row, there) = λ r e n o. (
          row,
          page_loop-keeps table (candle_key (candle_row h)) row fuel call cursor total s there r e,
        )

module _ (db : Database candle_key) (fetch : Fetch) (timeframe : Timeframe) (table : String)
    (has_table : timeframe_to_table timeframe ≡ some table) where
  open db use {Conn, find}

  backfill-loop :
      (since until : Time) (s : Conn)
      → backfill_ohlcv db fetch timeframe since until s
        ≡ page_loop db fetch table
            (timeframe_ms timeframe)
            (to_ms until)
            (rounds (to_ms since) (to_ms until))
            0
            (to_ms since)
            0
            s
  unfolding backfill_ohlcv
  backfill-loop since until s = ap (λ o. in_table db fetch o timeframe since until s) has_table

  -- Where no page ends before its `since`, the backfill ends, with a count or an exception.
  pub backfill_returns :
      (since until : Time) (s : Conn)
      → StartsAtSince fetch
      → (r : Result ℕ × Conn) × (backfill_ohlcv db fetch timeframe since until s ≡ some r)
  backfill_returns since until s starts = rw (backfill-loop since until s) (
      page_loop-Returns db fetch table (timeframe_ms timeframe) (to_ms until) starts
        (step_pos timeframe) (rounds (to_ms since) (to_ms until)) 0 (to_ms since) 0 s (omega arith))
    where
      step_pos : (tf : Timeframe) → 0 < timeframe_ms tf
      step_pos m1 = omega arith
      step_pos m5 = omega arith
      step_pos m15 = omega arith
      step_pos h1 = omega arith
      step_pos h4 = omega arith
      step_pos d1 = omega arith

  -- Of a timeframe that has a table: if the client's pages start at their `since`, have no gap up to
  -- their last candle, are empty only if nothing is left before `until`, and the candle after a page
  -- is a timeframe or more away, a backfill that returns a count has put every candle of the window
  -- (its end cut to whole milliseconds) into the table.
  pub backfill_covers :
      (history : List Candle) (since until : Time) (s s' : Conn) (n : ℕ) (h : Candle)
      → Serves history (timeframe_ms timeframe) fetch
      → backfill_ohlcv db fetch timeframe since until s ≡ some (ok n, s')
      → Holds h history
      → since ≤ h.ts.micros
      → h.ts.micros < from_ms (to_ms until)
      → (row : CandleRow) × (find s' table (candle_key (candle_row h)) ≡ some row)
  backfill_covers history since until s s' n h serves e m after before =
      page_loop-Covered db fetch table (timeframe_ms timeframe) (to_ms until) history serves h m
        (rounds (to_ms since) (to_ms until)) 0 (to_ms since) 0 s (omega arith) before (ok n, s')
        (sym (backfill-loop since until s) ∙ e) n refl

  -- Of a timeframe that has a table and a window that is not empty: every candle of the first page
  -- is in the table after a backfill that returned a count, also where its time is not before
  -- `until`.
  pub backfill_overshoots :
      (since until : Time) (s s' : Conn) (n : ℕ) (c h : Candle) (cs : List Candle)
      → to_ms since < to_ms until
      → fetch 0 (from_ms (to_ms since)) (from_ms (to_ms until)) ≡ ok (c ∷ cs)
      → Holds h (c ∷ cs)
      → until ≤ h.ts.micros
      → backfill_ohlcv db fetch timeframe since until s ≡ some (ok n, s')
      → (row : CandleRow) × (find s' table (candle_key (candle_row h)) ≡ some row)
  backfill_overshoots since until s s' n c h cs window page m late e =
      first_page-Stored db fetch table (timeframe_ms timeframe) (to_ms until) h c cs m
        (to_ms until - to_ms since) (to_ms since) s window page (ok n, s')
        (sym (backfill-loop since until s) ∙ e) n refl
