-- ===== src/Mexc/LiveLoop/NoLoss.antt =====
-- No finalized candle is lost while the loop runs: it waits in the buffer, or is in the table.
use shortfire.Prelude.{
  ℕ, ◌-◌, ◌≡◌, refl, sym, ap, ◌∙◌, ◌⊎◌, inl, inr, some, List, [], ◌∷◌, ◌++◌, Holds, Result, ok, leb,
  Bool-cases, Holds-append_left, Holds-append_right,
}
use shortfire.Prelude.Times.{Time}
use shortfire.Rows.{CandleRow, candle_key}
use shortfire.Storage.{Database, copy_into_hypertable}
use shortfire.Storage.Laws.{copy-stored, first_write_wins}
use shortfire.DeadLetter.{letter_key}
use shortfire.Effects.{
  World, M, Ambient, return, bind_result, ◌>>◌, write, mark_fresh, inc_rows, bind_result-ok,
  mark_fresh-conn, write-conn, write-result,
}
use shortfire.Mexc.LiveCandles.{Trade}
use shortfire.Mexc.LiveCandles.Refinement.{feed}
use shortfire.Mexc.LiveLoop.{
  LoopState, seen_symbols, table, Event, failed, batch, take_trades, write_buffer, flush,
  loop_round, loop,
}
use mathlib.Core.Path.{subst}
use shortfire.Mexc.LiveLoop.Batches.{
  parsed, tape, answered, rows_of, rows_of-append, feed-append, Took, returned, take_trades-Took,
}

Holds-append_cases :
    (r : CandleRow) (xs ys : List CandleRow) → Holds r (xs ++ ys) → Holds r xs ⊎ Holds r ys
Holds-append_cases r [] ys m = inr m
Holds-append_cases r (x ∷ xs) ys (inl e) = inl (inl e)
Holds-append_cases r (x ∷ xs) ys (inr m) = elim (Holds-append_cases r xs ys m) [
  | inl a ↦ inl (inr a)
  | inr b ↦ inr b
]

module _ (db : Database candle_key) (dlq : Database letter_key) (amb : Ambient)
    (flush_after : Time) where
  -- The row waits in the buffer, or its key is in the table.
  abbrev pub Safe : CandleRow → LoopState → World db dlq → Type 0
  Safe r st w =
      Holds r st.buffer
      ⊎ ((stored : CandleRow) × (db.find w.conn table (candle_key r) ≡ some stored))

  write-Safe :
      (rows : List CandleRow) (w w' : World db dlq) (n : ℕ) (r : CandleRow)
      → write table rows w ≡ (ok n, w')
      → Holds r rows ⊎ ((stored : CandleRow) × (db.find w.conn table (candle_key r) ≡ some stored))
      → (stored : CandleRow) × (db.find w'.conn table (candle_key r) ≡ some stored)
  write-Safe rows w w' n r h safe =
      let end_conn : (copy_into_hypertable db table rows w.conn).1 ≡ w'.conn =
        sym (write-conn table rows w) ∙ ap (λ (p : Result ℕ × World db dlq). p.1.conn) h in
      let done : (copy_into_hypertable db table rows w.conn).0 ≡ ok n =
        sym (write-result table rows w) ∙ ap (λ (p : Result ℕ × World db dlq). p.0) h in
      elim safe [
        | inl m ↦
            let (x, e) = copy-stored db table rows w.conn n r done m in
            (x, ap (λ c. db.find c table (candle_key r)) (sym end_conn) ∙ e)
        | inr (x, e) ↦ (
          x,
          ap (λ c. db.find c table (candle_key r)) (sym end_conn)
              ∙ first_write_wins db table table rows w.conn (candle_key r) x e,
        )
      ]

  write_buffer-Safe :
      (st st' : LoopState) (rows : List CandleRow) (now : Time) (w w' : World db dlq)
      → st.buffer ≡ rows
      → write_buffer db dlq amb flush_after st rows now w ≡ (ok st', w')
      → (st'.agg ≡ st.agg) × ((r : CandleRow) → Safe r st w → Safe r st' w')
  unfolding write_buffer
  write_buffer-Safe st st' rows now w w' same h =
      let marking : World db dlq → Result (Unit {0}) × World db dlq =
        mark_fresh amb.wall "mexc_native" "candles_1m" (seen_symbols rows) in
      let counting : ℕ → M db dlq LoopState = λ n.
        inc_rows ("mexc_native", "candles_1m") n
        >> return (record st { buffer = []; last_flush = now }) in
      let (n, w₁, written, h₁) =
        bind_result-ok (write table rows w) (λ n v. bind_result (marking v) (λ _. counting n)) st'
          w' h in
      let (u, w₂, marked, h₂) = bind_result-ok (marking w₁) (λ _. counting n) st' w' h₁ in
      let (e, e') =
        returned db dlq amb flush_after (record st { buffer = []; last_flush = now }) st' _ w' h₂ in
      let conns : w'.conn ≡ w₁.conn =
        sym (ap (λ (v : World db dlq). v.conn) e')
        ∙ sym (ap (λ (p : Result (Unit {0}) × World db dlq). p.1.conn) marked)
        ∙ mark_fresh-conn amb.wall "mexc_native" "candles_1m" (seen_symbols rows) w₁ in
      (
        ap (λ (x : LoopState). x.agg) (sym e),
        λ r safe.
            let (x, there) = write-Safe rows w w₁ n r written (
              subst
                (λ l.
                  Holds r l
                  ⊎ ((stored : CandleRow) × (db.find w.conn table (candle_key r) ≡ some stored)))
                same safe) in
            inr (x, ap (λ c. db.find c table (candle_key r)) conns ∙ there),
      )

  unchanged-Safe :
      (st st' : LoopState) (w w' : World db dlq)
      → return {db = db} {dlq = dlq} st w ≡ (ok st', w')
      → (st'.agg ≡ st.agg) × ((r : CandleRow) → Safe r st w → Safe r st' w')
  unchanged-Safe st st' w w' h =
      let (e, e') = returned db dlq amb flush_after st st' w w' h in
      (
        ap (λ (x : LoopState). x.agg) (sym e),
        λ r safe. subst (λ v. Safe r st' v) e' (subst (λ x. Safe r x w) e safe),
      )

  flush-Safe :
      (st st' : LoopState) (buffer : List CandleRow) (now : Time) (w w' : World db dlq)
      → st.buffer ≡ buffer
      → flush db dlq amb flush_after st buffer now w ≡ (ok st', w')
      → (st'.agg ≡ st.agg) × ((r : CandleRow) → Safe r st w → Safe r st' w')
  unfolding flush
  flush-Safe st st' [] now w w' same h = unchanged-Safe st st' w w' h
  flush-Safe st st' (x ∷ xs) now w w' same h =
      elim (Bool-cases (leb flush_after (now - st.last_flush))) [
        | inl due ↦ write_buffer-Safe st st' (x ∷ xs) now w w' same (rw due at h)
        | inr early ↦ unchanged-Safe st st' w w' (rw early at h)
      ]

  -- What one round, or several, do with the rows.
  record Kept (ts : List Trade) (st st' : LoopState) (w w' : World db dlq) : Type 0 where
    pub aggregated : st'.agg ≡ (feed st.agg ts).0
    pub safe : (r : CandleRow) → Safe r st w ⊎ Holds r (rows_of (feed st.agg ts).1) → Safe r st' w'

  Took-Safe :
      (ts : List Trade) (st st' : LoopState) (w w' : World db dlq)
      → Took db dlq amb flush_after ts st st' w w'
      → (r : CandleRow) → Safe r st w ⊎ Holds r (rows_of (feed st.agg ts).1)
      → Safe r st' w'
  Took-Safe ts st st' w w' took r (inl (inl m)) =
      inl (subst (Holds r) (sym took.buffered) (Holds-append_left r st.buffer _ m))
  Took-Safe ts st st' w w' took r (inl (inr (x, e))) =
      inr (x, ap (λ c. db.find c table (candle_key r)) took.untouched ∙ e)
  Took-Safe ts st st' w w' took r (inr m) =
      inl (subst (Holds r) (sym took.buffered) (Holds-append_right r st.buffer _ m))

  round-Kept :
      (st st' : LoopState) (event : Event) (w w' : World db dlq)
      → loop_round db dlq amb flush_after st event w ≡ (ok st', w')
      → Kept (answered event) st st' w w'
  unfolding loop_round feed
  round-Kept st st' (failed e₀) w w' h =
      let (e, e') = returned db dlq amb flush_after st st' _ w' h in
      record {
        aggregated = ap (λ (x : LoopState). x.agg) (sym e);
        safe = λ r kept. elim kept [
          | inr none_left ↦ absurd none_left
          | inl safe ↦ subst (λ v. Safe r st' v) e' (subst (λ x. Safe r x w) e safe)
        ];
      }
  round-Kept st st' (batch trades now) w w' h =
      let (s₁, w₁, h₁, h₂) =
        bind_result-ok (take_trades db dlq amb flush_after st trades w)
          (λ x. flush db dlq amb flush_after x x.buffer now) st' w' h in
      let took = take_trades-Took db dlq amb flush_after st s₁ trades w w₁ h₁ in
      let (kept_agg, kept) = flush-Safe s₁ st' s₁.buffer now w₁ w' refl h₂ in
      record {
        aggregated = kept_agg ∙ took.aggregated;
        safe = λ r given. kept r (Took-Safe (parsed trades) st s₁ w w₁ took r given);
      }

  Kept-append :
      (xs ys : List Trade) (s₀ s₁ s₂ : LoopState) (w₀ w₁ w₂ : World db dlq)
      → Kept xs s₀ s₁ w₀ w₁
      → Kept ys s₁ s₂ w₁ w₂
      → Kept (xs ++ ys) s₀ s₂ w₀ w₂
  Kept-append xs ys s₀ s₁ s₂ w₀ w₁ w₂ a b =
      let fed = feed-append s₀.agg xs ys in
      let rows : rows_of (feed s₀.agg (xs ++ ys)).1
          ≡ rows_of (feed s₀.agg xs).1 ++ rows_of (feed s₁.agg ys).1 =
        ap rows_of fed.1
        ∙ rows_of-append (feed s₀.agg xs).1 (feed (feed s₀.agg xs).0 ys).1
        ∙ ap (λ g. rows_of (feed s₀.agg xs).1 ++ rows_of (feed g ys).1) (sym a.aggregated) in
      record {
        aggregated = b.aggregated ∙ ap (λ g. (feed g ys).0) a.aggregated ∙ sym fed.0;
        safe = λ r kept. elim kept [
          | inl before ↦ b.safe r (inl (a.safe r (inl before)))
          | inr made ↦
              elim (Holds-append_cases r (rows_of (feed s₀.agg xs).1) (rows_of (feed s₁.agg ys).1)
                (subst (Holds r) rows made)) [
                  | inl m ↦ b.safe r (inl (a.safe r (inr m)))
                  | inr m ↦ b.safe r (inr m)
                ]
        ];
      }

  loop-Kept :
      (st st' : LoopState) (events : List Event) (w w' : World db dlq)
      → loop db dlq amb flush_after st events w ≡ (ok st', w')
      → Kept (tape events) st st' w w'
  unfolding loop feed
  loop-Kept st st' [] w w' h =
      let (e, e') = returned db dlq amb flush_after st st' w w' h in
      record {
        aggregated = ap (λ (x : LoopState). x.agg) (sym e);
        safe = λ r kept. elim kept [
          | inr none_left ↦ absurd none_left
          | inl safe ↦ subst (λ v. Safe r st' v) e' (subst (λ x. Safe r x w) e safe)
        ];
      }
  loop-Kept st st' (event ∷ events) w w' h =
      let (s₁, w₁, h₁, h₂) =
        bind_result-ok (loop_round db dlq amb flush_after st event w)
          (λ x. loop db dlq amb flush_after x events) st' w' h in
      Kept-append (answered event) (tape events) st s₁ st' w w₁ w' (round-Kept st s₁ event w w₁ h₁)
        (loop-Kept s₁ st' events w₁ w' h₂)

  -- While the loop runs without an exception of its own, whatever the answers of the exchange: the
  -- aggregator has seen every trade that could be read, and each candle that was finalized before or
  -- since is in the buffer still, or there is a row at its key in the table.
  pub loop-keeps_candles :
      (st st' : LoopState) (events : List Event) (w w' : World db dlq) (r : CandleRow)
      → loop db dlq amb flush_after st events w ≡ (ok st', w')
      → Holds r (st.buffer ++ rows_of (feed st.agg (tape events)).1)
      → (st'.agg ≡ (feed st.agg (tape events)).0)
        × (Holds r st'.buffer
            ⊎ ((stored : CandleRow) × (db.find w'.conn table (candle_key r) ≡ some stored)))
  loop-keeps_candles st st' events w w' r h made =
      let kept = loop-Kept st st' events w w' h in
      (
        kept.aggregated,
        elim (Holds-append_cases r st.buffer (rows_of (feed st.agg (tape events)).1) made) [
          | inl m ↦ kept.safe r (inl (inl m))
          | inr m ↦ kept.safe r (inr m)
        ],
      )
