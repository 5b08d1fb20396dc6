-- ===== src/Mexc/LiveLoop/Batches.antt =====
-- What the trades of a batch do to the aggregator and the buffer.
use shortfire.Prelude.{
  String, ◌≡◌, refl, sym, ap, ◌∙◌, Option, none, some, List, [], ◌∷◌, ◌++◌, Result, ok, raised,
}
use shortfire.Prelude.Times.{Time}
use shortfire.Rows.{CandleRow, candle_key}
use shortfire.Storage.{Database}
use shortfire.DeadLetter.{letter_key, prefix, text}
use shortfire.Effects.{World, Ambient, return, dead_letter, bind_result-ok, dead_letter-conn}
use shortfire.Mexc.LiveCandles.{Bucket, Trade, MinuteAggregator, on_trade}
use shortfire.Mexc.LiveCandles.Refinement.{feed, tagged}
use shortfire.Mexc.LiveLoop.{
  RawTrade, parse_trade, LoopState, bucket_row, finalized_rows, absorb, Event, failed, batch,
  take_parsed, take_trades,
}
use mathlib.Core.Path.{subst}
use mathlib.Core.List.{append_assoc, append-nil}

-- The trades of a batch that can be read, and of all batches.
abbrev pub parsed_trade : Result Trade → List Trade
parsed_trade (ok t) = t ∷ []
parsed_trade (raised e) = []

abbrev pub parsed : List RawTrade → List Trade
parsed [] = []
parsed (t ∷ ts) = parsed_trade (parse_trade t) ++ parsed ts

abbrev pub answered : Event → List Trade
answered (failed e) = []
answered (batch trades now) = parsed trades

abbrev pub tape : List Event → List Trade
tape [] = []
tape (event ∷ events) = answered event ++ tape events

abbrev pub rows_of : List (String × Bucket) → List CandleRow
rows_of [] = []
rows_of ((s, b) ∷ out) = bucket_row s b ∷ rows_of out

pub rows_of-append :
    (xs ys : List (String × Bucket)) → rows_of (xs ++ ys) ≡ rows_of xs ++ rows_of ys
rows_of-append [] ys = refl
rows_of-append ((s, b) ∷ xs) ys = ap (◌∷◌ (bucket_row s b)) (rows_of-append xs ys)

pub feed-append :
    (agg : MinuteAggregator) (xs ys : List Trade)
    → ((feed agg (xs ++ ys)).0 ≡ (feed (feed agg xs).0 ys).0)
      × ((feed agg (xs ++ ys)).1 ≡ (feed agg xs).1 ++ (feed (feed agg xs).0 ys).1)
unfolding feed
feed-append agg [] ys = (refl, refl)
feed-append agg (x ∷ xs) ys =
    let rest = feed-append (on_trade agg x).0 xs ys in
    (
      rest.0,
      ap (◌++◌ (tagged x.symbol (on_trade agg x).1)) rest.1
          ∙ sym (append_assoc (tagged x.symbol (on_trade agg x).1) _ _),
    )

rows_of-tagged : (s : String) (o : Option Bucket) → rows_of (tagged s o) ≡ finalized_rows s o
rows_of-tagged s none = refl
rows_of-tagged s (some b) = refl

module _ (db : Database candle_key) (dlq : Database letter_key) (amb : Ambient)
    (flush_after : Time) where
  -- What a piece of the loop did: it fed the trades, and appended the rows that were finalized.
  pub record Took (ts : List Trade) (st st' : LoopState) (w w' : World db dlq) : Type 0 where
    pub aggregated : st'.agg ≡ (feed st.agg ts).0
    pub buffered : st'.buffer ≡ st.buffer ++ rows_of (feed st.agg ts).1
    pub untouched : w'.conn ≡ w.conn

  pub Took-nil :
      (st st' : LoopState) (w w' : World db dlq) → st ≡ st' → w'.conn ≡ w.conn → Took [] st st' w w'
  unfolding feed
  Took-nil st st' w w' e c =
      subst (λ x. Took [] st x w w') e
        (record { aggregated = refl; buffered = sym (append-nil st.buffer); untouched = c })

  Took-one : (st : LoopState) (x : Trade) (w : World db dlq) → Took (x ∷ []) st (absorb st x) w w
  unfolding feed
  Took-one st x w = record {
    aggregated = refl;
    buffered =
        ap (λ l. st.buffer ++ l)
          (sym (
            ap rows_of (append-nil (tagged x.symbol (on_trade st.agg x).1))
            ∙ rows_of-tagged x.symbol (on_trade st.agg x).1));
    untouched = refl;
  }

  Took-append :
      (xs ys : List Trade) (s₀ s₁ s₂ : LoopState) (w₀ w₁ w₂ : World db dlq)
      → Took xs s₀ s₁ w₀ w₁
      → Took ys s₁ s₂ w₁ w₂
      → Took (xs ++ ys) s₀ s₂ w₀ w₂
  Took-append xs ys s₀ s₁ s₂ w₀ w₁ w₂ a b =
      let fed = feed-append s₀.agg xs ys in
      record {
        aggregated = b.aggregated ∙ ap (λ g. (feed g ys).0) a.aggregated ∙ sym fed.0;
        buffered =
            b.buffered
            ∙ ap (λ g. s₁.buffer ++ rows_of (feed g ys).1) a.aggregated
            ∙ ap (λ l. l ++ rows_of (feed (feed s₀.agg xs).0 ys).1) a.buffered
            ∙ append_assoc s₀.buffer (rows_of (feed s₀.agg xs).1)
                (rows_of (feed (feed s₀.agg xs).0 ys).1)
            ∙ ap (λ l. s₀.buffer ++ l)
                (sym (
                  ap rows_of fed.1
                  ∙ rows_of-append (feed s₀.agg xs).1 (feed (feed s₀.agg xs).0 ys).1));
        untouched = b.untouched ∙ a.untouched;
      }

  pub returned :
      {A : Type 0} (a b : A) (w w' : World db dlq)
      → return {db = db} {dlq = dlq} a w ≡ (ok b, w')
      → (a ≡ b) × (w ≡ w')
  returned {A = A} a b w w' h = (cc, ap (λ (p : Result A × World db dlq). p.1) h)

  take_parsed-Took :
      (st st' : LoopState) (t : RawTrade) (r : Result Trade) (w w' : World db dlq)
      → take_parsed db dlq amb flush_after st t r w ≡ (ok st', w')
      → Took (parsed_trade r) st st' w w'
  unfolding take_parsed
  take_parsed-Took st st' t (ok x) w w' h =
      let (e, e') = returned (absorb st x) st' w w' h in
      subst (λ v. Took (x ∷ []) st st' w v) e'
        (subst (λ v. Took (x ∷ []) st v w w) e (Took-one st x w))
  take_parsed-Took st st' t (raised e₀) w w' h =
      let (u, w₁, h₁, h₂) =
        bind_result-ok
          (dead_letter {db = db} {dlq = dlq} amb "mexc_native" "trades_aggregator_loop" t.symbol
            (text (prefix 8000 t.shown)) e₀ w)
          (λ (u : Unit {0}). return {db = db} {dlq = dlq} st) st' w' h in
      let (e, e') = returned st st' w₁ w' h₂ in
      Took-nil st st' w w' e (
        sym (ap (λ (v : World db dlq). v.conn) e')
        ∙ sym (ap (λ (p : Result (Unit {0}) × World db dlq). p.1.conn) h₁)
        ∙ dead_letter-conn amb "mexc_native" "trades_aggregator_loop" t.symbol
            (text (prefix 8000 t.shown)) e₀ w)

  pub take_trades-Took :
      (st st' : LoopState) (ts : List RawTrade) (w w' : World db dlq)
      → take_trades db dlq amb flush_after st ts w ≡ (ok st', w')
      → Took (parsed ts) st st' w w'
  unfolding take_trades
  take_trades-Took st st' [] w w' h =
      let (e, e') = returned st st' w w' h in
      Took-nil st st' w w' e (sym (ap (λ (v : World db dlq). v.conn) e'))
  take_trades-Took st st' (t ∷ ts) w w' h =
      let (s₁, w₁, h₁, h₂) =
        bind_result-ok (take_parsed db dlq amb flush_after st t (parse_trade t) w)
          (λ x. take_trades db dlq amb flush_after x ts) st' w' h in
      Took-append (parsed_trade (parse_trade t)) (parsed ts) st s₁ st' w w₁ w'
        (take_parsed-Took st s₁ t (parse_trade t) w w₁ h₁) (take_trades-Took s₁ st' ts w₁ w' h₂)
