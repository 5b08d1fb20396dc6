-- ===== src/Mexc/LiveLoop/Returns.antt =====
-- Which sequences of answers the loop comes through.
use shortfire.Prelude.{
  ◌-◌, ◌≡◌, ◌↔◌, refl, inl, inr, List, [], ◌∷◌, Result, ok, raised, leb, Bool-cases,
}
use shortfire.Prelude.Times.{Time}
use shortfire.Rows.{CandleRow, candle_key}
use shortfire.Storage.{Database}
use shortfire.Storage.Laws.{IsUp}
use shortfire.DeadLetter.{letter_key, text, prefix}
use shortfire.Effects.{World, Ambient, write, bind_result-ok}
use shortfire.Effects.Returns.{
  Returns, bind-Returns, dead_letter-raises, write-Returns, mark_fresh-Returns,
}
use shortfire.Mexc.LiveCandles.{Trade}
use shortfire.Mexc.LiveLoop.{
  RawTrade, parse_trade, LoopState, table, Event, failed, batch, take_parsed, take_trades, absorb,
  write_buffer, flush, loop_round, loop,
}

-- Every trade of the batch, or of the answers, can be read.
abbrev pub AllRead : List RawTrade → Type 0
AllRead [] = Unit {0}
AllRead (t ∷ ts) = ((x : Trade) × (parse_trade t ≡ ok x)) × AllRead ts

abbrev pub AreRead : List Event → Type 0
AreRead [] = Unit {0}
AreRead (failed e ∷ events) = AreRead events
AreRead (batch trades now ∷ events) = AllRead trades × AreRead events

module _ (db : Database candle_key) (dlq : Database letter_key) (amb : Ambient)
    (flush_after : Time) where
  take_parsed-read :
      (st st' : LoopState) (t : RawTrade) (r : Result Trade) (w w' : World db dlq)
      → take_parsed db dlq amb flush_after st t r w ≡ (ok st', w')
      → (x : Trade) × (r ≡ ok x)
  unfolding take_parsed
  take_parsed-read st st' t (ok x) w w' h = (x, refl)
  take_parsed-read st st' t (raised e) w w' h =
      let lost =
        dead_letter-raises {db = db} {dlq = dlq} amb "mexc_native" "trades_aggregator_loop" t.symbol
          (text (prefix 8000 t.shown)) e w in
      let never = rw lost at h in cc

  take_trades-read :
      (st st' : LoopState) (ts : List RawTrade) (w w' : World db dlq)
      → take_trades db dlq amb flush_after st ts w ≡ (ok st', w')
      → AllRead ts
  unfolding take_trades
  take_trades-read st st' [] w w' h = tt
  take_trades-read st st' (t ∷ ts) w w' h =
      let (s, v, first, rest) =
        bind_result-ok (take_parsed db dlq amb flush_after st t (parse_trade t) w)
          (λ x. take_trades db dlq amb flush_after x ts) st' w' h in
      (take_parsed-read st s t (parse_trade t) w v first, take_trades-read s st' ts v w' rest)

  loop-read :
      (st st' : LoopState) (events : List Event) (w w' : World db dlq)
      → loop db dlq amb flush_after st events w ≡ (ok st', w')
      → AreRead events
  unfolding loop loop_round
  loop-read st st' [] w w' h = tt
  loop-read st st' (failed e ∷ events) w w' h = loop-read st st' events _ w' h
  loop-read st st' (batch trades now ∷ events) w w' h =
      let (s, v, first, rest) =
        bind_result-ok (loop_round db dlq amb flush_after st (batch trades now) w)
          (λ x. loop db dlq amb flush_after x events) st' w' h in
      let (s', v', taken, flushed) =
        bind_result-ok (take_trades db dlq amb flush_after st trades w)
          (λ x. flush db dlq amb flush_after x x.buffer now) s v first in
      (take_trades-read st s' trades w v' taken, loop-read s st' events v w' rest)

  module _ (up : IsUp db) where
    take_trades-Returns :
        (st : LoopState) (ts : List RawTrade) (w : World db dlq)
        → AllRead ts
        → Returns (take_trades db dlq amb flush_after st ts w)
    unfolding take_trades take_parsed
    take_trades-Returns st [] w read = (st, (w, refl))
    take_trades-Returns st (t ∷ ts) w ((x, e), read) =
        rw e (take_trades-Returns (absorb st x) ts w read)

    flush-Returns :
        (st : LoopState) (rows : List CandleRow) (now : Time) (w : World db dlq)
        → Returns (flush db dlq amb flush_after st rows now w)
    unfolding flush write_buffer
    flush-Returns st [] now w = (st, (w, refl))
    flush-Returns st (x ∷ xs) now w = elim (Bool-cases (leb flush_after (now - st.last_flush))) [
      | inr early ↦ rw early (st, (w, refl))
      | inl due ↦ rw due (
          bind-Returns (write table (x ∷ xs) w) _ (write-Returns up table (x ∷ xs) w)
            (λ n v. bind-Returns _ _ (mark_fresh-Returns _ _ _ _ v) (λ u v'. (_, (_, refl)))))
    ]

    loop-Returns :
        (st : LoopState) (events : List Event) (w : World db dlq)
        → AreRead events
        → Returns (loop db dlq amb flush_after st events w)
    unfolding loop loop_round
    loop-Returns st [] w read = (st, (w, refl))
    loop-Returns st (failed e ∷ events) w read = loop-Returns st events _ read
    loop-Returns st (batch trades now ∷ events) w (all, read) =
        bind-Returns (loop_round db dlq amb flush_after st (batch trades now) w)
          (λ x. loop db dlq amb flush_after x events)
          (bind-Returns (take_trades db dlq amb flush_after st trades w)
            (λ x. flush db dlq amb flush_after x x.buffer now) (take_trades-Returns st trades w all)
            (λ x v. flush-Returns x x.buffer now v))
          (λ x v. loop-Returns x events v read)

    -- With the server of the tables up, the loop comes through a sequence of answers exactly if every
    -- trade in them can be read, whatever errors of the exchange are among them.
    pub returns_iff :
        (st : LoopState) (events : List Event) (w : World db dlq)
        → ((st' : LoopState) × ((w' : World db dlq) × (loop db dlq amb flush_after st events w
                ≡ (ok st', w'))))
          ↔ AreRead events
    returns_iff st events w =
        (λ (st', (w', h)). loop-read st st' events w w' h, loop-Returns st events w)
