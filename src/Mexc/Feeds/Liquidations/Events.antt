-- ===== src/Mexc/Feeds/Liquidations/Events.antt =====
-- What becomes of the liquidations that the exchange reports.
use shortfire.Prelude.{String, List, [], ◌∷◌, ◌≡◌, ◌⊎◌, some, ok, arith, true}
use shortfire.Prelude.Times.{Time}
use shortfire.Prelude.Decimals.{Decimal}
use shortfire.Storage.{Database}
use shortfire.Storage.Laws.{IsUp}
use shortfire.DeadLetter.{letter_key, prefix, text}
use shortfire.Effects.{World, Ambient}
use shortfire.Mexc.Feeds.{attempt}
use shortfire.Mexc.Feeds.Stored.{Stored, Stored-none, Stored-then, attempt-Stored}
use shortfire.Mexc.Feeds.Liquidations.{
  RawLiquidation, LiquidationRow, liquidation_key, liquidation_feed, liquidation_record, Event,
  failed, events, take_events, liquidation_round, liquidation_rounds, liquidations_dual_source_loop,
}

-- The record is of an event of the list, or of the answers.
abbrev pub InEvents : List RawLiquidation → LiquidationRow → Type 0
InEvents [] r = ⊥
InEvents (e ∷ es) r = (liquidation_record e ≡ ok r) ⊎ InEvents es r

abbrev pub InAnswer : Event → LiquidationRow → Type 0
InAnswer (failed e) r = ⊥
InAnswer (events es) r = InEvents es r

abbrev pub InAnswers : List Event → LiquidationRow → Type 0
InAnswers [] r = ⊥
InAnswers (a ∷ answers) r = InAnswer a r ⊎ InAnswers answers r

module _ (db : Database liquidation_key) (dlq : Database letter_key) (amb : Ambient)
    (up : IsUp db) where
  abbrev table : String
  table = liquidation_feed.table

  take_events-Stored :
      (es : List RawLiquidation) (w : World db dlq)
      → Stored db dlq table (InEvents es) 0 w (take_events db dlq amb es w)
  unfolding take_events
  take_events-Stored [] w = Stored-none db dlq table w
  take_events-Stored (e ∷ es) w =
      let letter = text (prefix 8000 e.shown) in
      let r = liquidation_record e in
      Stored-then db dlq table (λ x. r ≡ ok x) (InEvents es) 0 0 w
        (attempt db dlq amb liquidation_feed (λ x. x.symbol) e.symbol letter r w)
        (λ u. take_events db dlq amb es)
        (attempt-Stored db dlq amb liquidation_feed (λ x. x.symbol) e.symbol letter up r w)
        (λ req. take_events-Stored es _)

  round-Stored :
      (a : Event) (w : World db dlq)
      → Stored db dlq table (InAnswer a) 0 w (liquidation_round db dlq amb a w)
  unfolding liquidation_round
  round-Stored (failed e) w = record {
    requests = λ returned. omega arith;
    keeps = λ k x there. there;
    stores = λ returned r made. absurd made;
  }
  round-Stored (events es) w = take_events-Stored es w

  rounds-Stored :
      (answers : List Event) (w : World db dlq)
      → Stored db dlq table (InAnswers answers) 0 w (liquidation_rounds db dlq amb answers w)
  unfolding liquidation_rounds
  rounds-Stored [] w = Stored-none db dlq table w
  rounds-Stored (a ∷ answers) w =
      Stored-then db dlq table (InAnswer a) (InAnswers answers) 0 0 w
        (liquidation_round db dlq amb a w) (λ u. liquidation_rounds db dlq amb answers)
        (round-Stored a w) (λ req. rounds-Stored answers _)

  -- With the server of the tables up and watch_liquidations there: if the loop comes through a sequence
  -- of answers, every event of them that can be read is then in the table, and a row that was there
  -- stays.
  pub liquidations_stored :
      (symbols : List String) (answers : List Event) (w : World db dlq)
      → let out = liquidations_dual_source_loop db dlq amb true symbols answers w in
        out.0 ≡ ok tt
        → ((r : LiquidationRow)
            → InAnswers answers r
            → (x : LiquidationRow) × (db.find out.1.conn "raw_mexc_liquidations" (liquidation_key r)
                ≡ some x))
          × ((k : String × (Time × (String × (Decimal × Decimal)))) (x : LiquidationRow)
              → db.find w.conn "raw_mexc_liquidations" k ≡ some x
              → db.find out.1.conn "raw_mexc_liquidations" k ≡ some x)
  liquidations_stored symbols answers w returned =
      let s = rounds-Stored answers w in (s.stores returned, s.keeps)
