-- ===== src/Mexc/Feeds/Trades/Tape.antt =====
-- No trade of the tape is lost in rounds that return: it waits in the buffer, or is in the table. A
-- trade that cannot be read ends the loop.
use shortfire.Prelude.{
  ℕ, suc, Error, database_error, Result-cases, ◌-◌, some, List, [], ◌∷◌, ◌++◌, ◌≡◌, ◌⊎◌, refl, sym,
  ap, ◌∙◌, inl, inr, Result, ok, raised, leb, Bool-cases, Holds, Holds-append_left,
  Holds-append_right,
}
use shortfire.Prelude.Times.{Time}
use shortfire.Storage.{Database, copy_into_hypertable}
use shortfire.Storage.Laws.{copy-stored, first_write_wins}
use shortfire.DeadLetter.{letter_key, prefix, text}
use shortfire.Effects.{
  World, M, Ambient, bind_result, bind_result-ok, write, mark_fresh-conn, write-conn, write-result,
}
use shortfire.Effects.Returns.{mark_fresh-Returns, dead_letter-raises}
use shortfire.Mexc.Feeds.Trades.{
  RawTrade, TradeRow, trade_key, trade_row, got_symbol, TapeState, seen_symbols, trades_table,
  Event, failed, batch, take_row, take_rows, write_tape, flush_tape, tape_round,
  trades_persist_loop,
}
use mathlib.Core.Path.{subst}

-- The row is of a trade of the batch, or of the answers.
abbrev pub InBatch : List RawTrade → TradeRow → Type 0
InBatch [] r = ⊥
InBatch (t ∷ ts) r = (trade_row t ≡ ok r) ⊎ InBatch ts r

abbrev pub InAnswer : Event → TradeRow → Type 0
InAnswer (failed e) r = ⊥
InAnswer (batch ts now) r = InBatch ts r

abbrev pub InAnswers : List Event → TradeRow → Type 0
InAnswers [] r = ⊥
InAnswers (a ∷ answers) r = InAnswer a r ⊎ InAnswers answers r

module _ (db : Database trade_key) (dlq : Database letter_key) (amb : Ambient)
    (flush_seconds : Time) where
  -- The row waits in the buffer, or its key is in the table.
  abbrev pub IsSafe : TradeRow → TapeState → World db dlq → Type 0
  IsSafe r st w =
      Holds r st.buffer ⊎ ((x : TradeRow) × (db.find w.conn trades_table (trade_key r) ≡ some x))

  -- A piece of the loop: if it returns, the rows of `Made` and those that were safe are safe.
  record Kept (Made : TradeRow → Type 0) (st : TapeState) (w : World db dlq)
      (out : Result TapeState × World db dlq) : Type 0 where
    pub safe :
        (s : TapeState) → out.0 ≡ ok s → (r : TradeRow) → IsSafe r st w ⊎ Made r → IsSafe r s out.1

  Kept-none : (st : TapeState) (w : World db dlq) → Kept (λ r. ⊥) st w (ok st, w)
  Kept-none st w = record {
    safe = λ s returned r given. elim given [
      | inl before ↦ let same : st ≡ s = cc in subst (λ x. IsSafe r x w) same before
      | inr made ↦ absurd made
    ];
  }

  Kept-then :
      (First Then : TradeRow → Type 0) (st : TapeState) (w : World db dlq)
      (out : Result TapeState × World db dlq) (f : TapeState → M db dlq TapeState)
      → Kept First st w out
      → ((s : TapeState) → Kept Then s out.1 (f s out.1))
      → Kept (λ r. First r ⊎ Then r) st w (bind_result out f)
  Kept-then First Then st w (raised e, v) f a next = record { safe = λ s returned. cc }
  Kept-then First Then st w (ok s, v) f a next =
      let b = next s in
      record {
        safe = λ s' returned r given. elim given [
          | inl before ↦ b.safe s' returned r (inl (a.safe s refl r (inl before)))
          | inr made ↦ elim made [
            | inl first ↦ b.safe s' returned r (inl (a.safe s refl r (inr first)))
            | inr then ↦ b.safe s' returned r (inr then)
          ]
        ];
      }

  append-IsSafe :
      (st : TapeState) (x r : TradeRow) (w : World db dlq)
      → IsSafe r st w ⊎ (ok x ≡ ok r)
      → IsSafe r (record st { buffer = st.buffer ++ x ∷ [] }) w
  append-IsSafe st x r w (inl (inl m)) = inl (Holds-append_left r st.buffer (x ∷ []) m)
  append-IsSafe st x r w (inl (inr there)) = inr there
  append-IsSafe st x r w (inr e) =
      let same : x ≡ r = cc in inl (Holds-append_right r st.buffer (x ∷ []) (inl same))

  take_row-Kept :
      (st : TapeState) (t : RawTrade) (r : Result TradeRow) (w : World db dlq)
      → Kept (λ x. r ≡ ok x) st w (take_row db dlq amb flush_seconds st t r w)
  unfolding take_row
  take_row-Kept st t (ok x) w = record {
    safe = λ s returned r given.
        let same : record st { buffer = st.buffer ++ x ∷ [] } ≡ s = cc in
        subst (λ y. IsSafe r y w) same (append-IsSafe st x r w given);
  }
  take_row-Kept st t (raised e) w =
      let lost =
        dead_letter-raises {db = db} {dlq = dlq} amb "mexc_native" "trades_persist_loop"
          (got_symbol t.symbol) (text (prefix 8000 t.shown)) e w in
      rw lost (record { safe = λ s returned. cc })

  take_rows-Kept :
      (ts : List RawTrade) (st : TapeState) (w : World db dlq)
      → Kept (InBatch ts) st w (take_rows db dlq amb flush_seconds st ts w)
  unfolding take_rows
  take_rows-Kept [] st w = Kept-none st w
  take_rows-Kept (t ∷ ts) st w =
      Kept-then (λ x. trade_row t ≡ ok x) (InBatch ts) st w
        (take_row db dlq amb flush_seconds st t (trade_row t) w)
        (λ s. take_rows db dlq amb flush_seconds s ts) (take_row-Kept st t (trade_row t) w)
        (λ s. take_rows-Kept ts s _)

  -- A write that returns has the rows in the table beside those that were there.
  written :
      (rows : List TradeRow) (n : ℕ) (w : World db dlq) (r : TradeRow)
      → (copy_into_hypertable db trades_table rows w.conn).0 ≡ ok n
      → Holds r rows ⊎ ((x : TradeRow) × (db.find w.conn trades_table (trade_key r) ≡ some x))
      → (x : TradeRow) × (db.find
            (copy_into_hypertable db trades_table rows w.conn).1
            trades_table
            (trade_key r)
          ≡ some x)
  written rows n w r e (inl m) = copy-stored db trades_table rows w.conn n r e m
  written rows n w r e (inr (x, there)) =
      (x, first_write_wins db trades_table trades_table rows w.conn (trade_key r) x there)

  -- A write of the tape that returns is one whose copy returned.
  write_tape-copied :
      (st s : TapeState) (rows : List TradeRow) (now : Time) (w : World db dlq)
      → let out = write_tape db dlq amb flush_seconds st rows now w in
        out.0 ≡ ok s
        → let copy = copy_into_hypertable db trades_table rows w.conn in
          ((n : ℕ) × (copy.0 ≡ ok n)) × (out.1.conn ≡ copy.1)
  unfolding write_tape
  write_tape-copied st s rows now w returned =
      let out = write_tape db dlq amb flush_seconds st rows now w in
      let whole : out ≡ (ok s, out.1) = ap (λ (x : Result TapeState). (x, out.1)) returned in
      let (n, w₁, wrote, rest) = bind_result-ok (write trades_table rows w) _ s out.1 whole in
      let (u, (w₂, marked)) =
        mark_fresh-Returns amb.wall "mexc_native" "trades" (seen_symbols rows) w₁ in
      let done = rw marked at rest in
      (
        (
          n,
          sym (write-result trades_table rows w) ∙ ap (λ (p : Result ℕ × World db dlq). p.0) wrote,
        ),
        ap (λ (p : Result TapeState × World db dlq). p.1.conn) (sym done)
            ∙ ap (λ (p : Result (Unit {0}) × World db dlq). p.1.conn) (sym marked)
            ∙ mark_fresh-conn amb.wall "mexc_native" "trades" (seen_symbols rows) w₁
            ∙ ap (λ (p : Result ℕ × World db dlq). p.1.conn) (sym wrote)
            ∙ write-conn trades_table rows w,
      )

  write_tape-Kept :
      (st : TapeState) (rows : List TradeRow) (now : Time) (w : World db dlq)
      → st.buffer ≡ rows
      → Kept (λ r. ⊥) st w (write_tape db dlq amb flush_seconds st rows now w)
  write_tape-Kept st rows now w same = record {
    safe = λ s returned r given. elim given [
      | inr made ↦ absurd made
      | inl before ↦
          let ((n, copied), conn) = write_tape-copied st s rows now w returned in
          let (x, there) = written rows n w r copied (
            subst
              (λ l.
                Holds r l ⊎ ((x : TradeRow) × (db.find w.conn trades_table (trade_key r) ≡ some x)))
              same before) in
          inr (x, ap (λ c. db.find c trades_table (trade_key r)) conn ∙ there)
    ];
  }

  flush_tape-Kept :
      (st : TapeState) (rows : List TradeRow) (now : Time) (w : World db dlq)
      → st.buffer ≡ rows
      → Kept (λ r. ⊥) st w (flush_tape db dlq amb flush_seconds st rows now w)
  unfolding flush_tape
  flush_tape-Kept st [] now w same = Kept-none st w
  flush_tape-Kept st (x ∷ xs) now w same =
      elim (Bool-cases (leb flush_seconds (now - st.last_flush))) [
        | inl due ↦ rw due (write_tape-Kept st (x ∷ xs) now w same)
        | inr early ↦ rw early (Kept-none st w)
      ]

  round-Kept :
      (a : Event) (st : TapeState) (w : World db dlq)
      → Kept (λ r. InAnswer a r ⊎ ⊥) st w (tape_round db dlq amb flush_seconds st a w)
  unfolding tape_round
  round-Kept (failed e) st w = record {
    safe = λ s returned r given. elim given [
      | inl before ↦ let same : st ≡ s = cc in subst (λ x. IsSafe r x w) same before
      | inr made ↦ elim made [ inl m ↦ absurd m | inr m ↦ absurd m ]
    ];
  }
  round-Kept (batch ts now) st w =
      Kept-then (InBatch ts) (λ r. ⊥) st w (take_rows db dlq amb flush_seconds st ts w)
        (λ s. flush_tape db dlq amb flush_seconds s s.buffer now) (take_rows-Kept ts st w)
        (λ s. flush_tape-Kept s s.buffer now _ refl)

  Kept-of :
      (Made Other : TradeRow → Type 0) (st : TapeState) (w : World db dlq)
      (out : Result TapeState × World db dlq)
      → ((r : TradeRow) → Other r → Made r)
      → Kept Made st w out
      → Kept Other st w out
  Kept-of Made Other st w out within a = record {
    safe = λ s returned r given.
        a.safe s returned r (elim given [ inl s ↦ inl s | inr made ↦ inr (within r made) ]);
  }

  loop-Kept :
      (answers : List Event) (st : TapeState) (w : World db dlq)
      → Kept (InAnswers answers) st w (trades_persist_loop db dlq amb flush_seconds st answers w)
  unfolding trades_persist_loop
  loop-Kept [] st w = Kept-none st w
  loop-Kept (a ∷ answers) st w =
      Kept-then (InAnswer a) (InAnswers answers) st w (tape_round db dlq amb flush_seconds st a w)
        (λ s. trades_persist_loop db dlq amb flush_seconds s answers)
        (Kept-of (λ r. InAnswer a r ⊎ ⊥) (InAnswer a) st w _ (λ r made. inl made)
          (round-Kept a st w))
        (λ s. loop-Kept answers s _)

  -- If the loop comes through a sequence of answers, whatever errors of the exchange are in it, each
  -- trade of the answers that can be read, and each that waited before, is in the buffer, or there is
  -- a row at its key in the table.
  pub tape_kept :
      (answers : List Event) (st st' : TapeState) (w : World db dlq)
      → let out = trades_persist_loop db dlq amb flush_seconds st answers w in
        out.0 ≡ ok st'
        → (r : TradeRow) → Holds r st.buffer ⊎ InAnswers answers r
        → Holds r st'.buffer
          ⊎ ((x : TradeRow) × (db.find out.1.conn "raw_mexc_trades" (trade_key r) ≡ some x))
  tape_kept answers st st' w returned r given =
      (loop-Kept answers st w).safe st' returned r
        (elim given [ inl m ↦ inl (inl m) | inr made ↦ inr made ])

  -- A batch with a trade that cannot be read.
  take_rows-raises :
      (ts : List RawTrade) (t : RawTrade) (e : Error) (st : TapeState) (w : World db dlq)
      → Holds t ts
      → trade_row t ≡ raised e
      → take_rows db dlq amb flush_seconds st ts w
        ≡ (raised database_error, record w { drawn = suc w.drawn })
  unfolding take_rows take_row
  take_rows-raises [] t e st w m bad = absurd m
  take_rows-raises (x ∷ ts) t e st w m bad = elim (Result-cases (trade_row x)) [
    | inr (e', h) ↦
        let lost =
          dead_letter-raises {db = db} {dlq = dlq} amb "mexc_native" "trades_persist_loop"
            (got_symbol x.symbol) (text (prefix 8000 x.shown)) e' w in
        rw (h, lost) refl
    | inl (r, h) ↦ elim m [
      | inl same ↦ let never : ok r ≡ raised e = sym h ∙ ap trade_row same ∙ bad in cc
      | inr later ↦
          rw h (take_rows-raises ts t e (record st { buffer = st.buffer ++ r ∷ [] }) w later bad)
    ]
  ]

  -- A trade that cannot be read ends the loop, whichever trades came with it and whatever would have
  -- come later: the loop raises the error of the dead letter, and no table changes, that of the dead
  -- letters neither.
  pub bad_trade_ends_tape :
      (answers : List Event) (ts : List RawTrade) (now : Time) (t : RawTrade) (e : Error)
      (st : TapeState) (w : World db dlq)
      → Holds t ts
      → trade_row t ≡ raised e
      → let out = trades_persist_loop db dlq amb flush_seconds st (batch ts now ∷ answers) w in
        (out.0 ≡ raised database_error) × ((out.1.conn ≡ w.conn) × (out.1.dead ≡ w.dead))
  unfolding trades_persist_loop tape_round
  bad_trade_ends_tape answers ts now t e st w m bad =
      let lost = take_rows-raises ts t e st w m bad in rw lost (refl, (refl, refl))
