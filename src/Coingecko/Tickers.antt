-- ===== src/Coingecko/Tickers.antt =====
-- What the daily write makes of a page of coins.
use shortfire.Prelude.{
  suc, ◌<◌, database_error, String, false, Option, none, some, List, [], ◌∷◌, map, length, ◌≡◌, ◌≢◌,
  refl, sym, ap, ◌∙◌, inl, inr, Holds, Error, ok, raised, leb, arith, Result-cases,
}
use shortfire.Prelude.Times.{Time}
use shortfire.Storage.{Database}
use shortfire.Storage.Laws.{IsUp, copy_total}
use shortfire.DeadLetter.{letter_key, prefix, text}
use shortfire.Effects.{World, M, Ambient, request, write-result}
use shortfire.Effects.Returns.{dead_letter_as-raises}
use shortfire.Retry.{Tenacity, coingecko_retry}
use shortfire.Coinglass.Client.{HttpResponse, is_retry_status}
use shortfire.Coingecko.{
  RawCoin, CoinsMarketsRow, from_raw, MarketRow, market_key, market_table, to_record, Payload,
  coins, rows_of, Outside, on_response, call, on_rows, on_payload, fetch_once, fetch_coins_markets,
  write_markets, fetch_and_write_daily,
}
use mathlib.Core.Option.{some-injective}

module _ (db : Database market_key) (dlq : Database letter_key) (upper : String → String)
    (client : M db dlq (Option (List CoinsMarketsRow))) (ts : Time) where
  abbrev pub market_row : CoinsMarketsRow → MarketRow
  market_row row = to_record upper ts none row

  -- The record of the coin is in the table.
  abbrev pub IsStored : CoinsMarketsRow → World db dlq → Type 0
  IsStored row w = db.find w.conn market_table (market_key (market_row row)) ≡ some (market_row row)

  length-map : (rows : List CoinsMarketsRow) → length (map market_row rows) ≡ length rows
  length-map [] = refl
  length-map (row ∷ rows) = ap suc (length-map rows)

  write_markets-counts :
      (up : IsUp db) (rows : List CoinsMarketsRow) (w : World db dlq)
      → (write_markets db dlq upper client ts (some rows) w).0 ≡ ok (length rows)
  write_markets-counts up [] w = refl
  write_markets-counts up (row ∷ rows) w =
      write-result market_table (map market_row (row ∷ rows)) w
      ∙ copy_total db up market_table (map market_row (row ∷ rows)) w.conn
      ∙ ap ok (length-map (row ∷ rows))

  apart :
      (a b : CoinsMarketsRow) (w : World db dlq)
      → upper a.symbol ≡ upper b.symbol
      → market_row a ≢ market_row b
      → ¬ (IsStored a w × IsStored b w)
  apart a b w same differ (stored, stored') =
      let keys : market_key (market_row a) ≡ market_key (market_row b) =
        ap (λ s. (s, (ts, "coingecko"))) same in
      differ (some-injective _ _ (sym stored ∙ ap (db.find w.conn market_table) keys ∙ stored'))

  -- With the server up, a page with two coins of the same ticker that differ in a column is counted
  -- as a whole, but at most one of the two is in the table.
  pub same_ticker_lost :
      (w w₁ : World db dlq) (rows : List CoinsMarketsRow) (a b : CoinsMarketsRow)
      → IsUp db
      → client w ≡ (ok (some rows), w₁)
      → Holds a rows
      → Holds b rows
      → upper a.symbol ≡ upper b.symbol
      → to_record upper ts none a ≢ to_record upper ts none b
      → let out = fetch_and_write_daily db dlq upper client ts w in
        (out.0 ≡ ok (length rows)) × (¬ (IsStored a out.1 × IsStored b out.1))
  unfolding fetch_and_write_daily
  same_ticker_lost w w₁ rows a b up answered m m' same differ =
      let after = (write_markets db dlq upper client ts (some rows) w₁).1 in
      rw answered (write_markets-counts up rows w₁, apart a b after same differ)

-- A coin that cannot be read makes the whole page unreadable.
rows_of-raised :
    (payload : List RawCoin) (raw : RawCoin) (e : Error)
    → Holds raw payload
    → from_raw raw ≡ raised e
    → (e' : Error) × (rows_of payload ≡ raised e')
unfolding rows_of
rows_of-raised [] raw e m bad = absurd m
rows_of-raised (x ∷ payload) raw e (inl same) bad =
    (e, (let h = ap from_raw same ∙ bad in rw h refl))
rows_of-raised (x ∷ payload) raw e (inr m) bad =
    let (e', rest) = rows_of-raised payload raw e m bad in
    elim (Result-cases (from_raw x)) [
      | inr (e₀, h) ↦ (e₀, (rw h refl))
      | inl (row, h) ↦ (e', (rw (h, rest) refl))
    ]

module _ (db : Database market_key) (dlq : Database letter_key) (amb : Ambient) (out : Outside)
    (tenacity : Tenacity) where
  once_bad :
      (w : World db dlq) (r : HttpResponse Payload) (payload : List RawCoin) (e : Error)
      → out.get w.calls ≡ ok r
      → r.status_code < 400
      → r.json ≡ ok (coins payload)
      → rows_of payload ≡ raised e
      → fetch_once db dlq amb out tenacity w
        ≡ (raised database_error, record w { calls = suc w.calls; drawn = suc w.drawn })
  unfolding fetch_once call request on_response on_payload on_rows
  once_bad w r payload e got fine answered bad =
      let kept : is_retry_status r.status_code ≡ false = ground arith in
      let accepted : leb 400 r.status_code ≡ false = ground arith in
      let lost =
        dead_letter_as-raises {db = db} {dlq = dlq} amb "coingecko" "/coins/markets" none
          (text (prefix 8000 (out.str_payload (coins payload)))) "ValidationError" (amb.message e)
          (record w { calls = suc w.calls }) in
      rw (got, kept, accepted, answered, bad, lost) refl

  -- One coin of a page that cannot be read, as a number of it is not one or a name is missing, loses
  -- the page and ends the daily write: it raises the error of the dead letter, and no table changes.
  pub bad_coin_loses_page :
      (upper : String → String) (ts : Time) (w : World db dlq) (r : HttpResponse Payload)
      (payload : List RawCoin) (raw : RawCoin) (e : Error)
      → out.get w.calls ≡ ok r
      → r.status_code < 400
      → r.json ≡ ok (coins payload)
      → Holds raw payload
      → from_raw raw ≡ raised e
      → let done =
          fetch_and_write_daily db dlq upper (fetch_coins_markets db dlq amb out tenacity) ts w in
        (done.0 ≡ raised database_error) × (done.1.conn ≡ w.conn)
  unfolding fetch_and_write_daily fetch_coins_markets
  bad_coin_loses_page upper ts w r payload raw e got fine answered m bad =
      let (e', page) = rows_of-raised payload raw e m bad in
      let once = once_bad w r payload e' got fine answered page in
      let run =
        tenacity.call-other coingecko_retry (fetch_once db dlq amb out tenacity) w _ database_error
          once refl in
      rw run (refl, refl)
