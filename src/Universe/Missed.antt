-- ===== src/Universe/Missed.antt =====
-- What a run of the job does after a day that has no snapshot.
use shortfire.Prelude.{
  ℕ, ◌-◌, ◌<◌, String, none, List, [], ◌∷◌, ◌≡◌, ◌≢◌, refl, sym, ◌∙◌, ap, inl, inr, Result, ok,
  raised, Result-cases, arith,
}
use shortfire.Prelude.Decimals.{Decimal}
use shortfire.Prelude.Dicts.{Dict}
use shortfire.Prelude.Times.{Time}
use shortfire.DeadLetter.{letter_key}
use shortfire.Storage.{Database}
use shortfire.Effects.{World, Ambient, request, write}
use shortfire.Universe.Tickers.{Ticker, Info, symbols_of, filter_qualifying_tickers}
use shortfire.Universe.Symbols.{SymbolTable, update_symbols}
use shortfire.Universe.Snapshot.{
  date_of, snapshots_table, Snapshots, finish, diff, after_write, store_snapshot,
  universe_snapshot_job,
}
use shortfire.Universe.History.{at, after_write-conn, job-other}
use shortfire.Universe.Listing.{
  State, StaysListed, update-StaysListed, asked_once, rows, job-after_write,
}
use mathlib.Core.Path.{subst⁻¹}

module _ {Float : Type 0} (float : Decimal → Float) (snapshots : Snapshots Float)
    (table : SymbolTable) (dlq : Database letter_key) (amb : Ambient) (k : String) where
  open snapshots use {db}

  abbrev Stays : table.State → table.State → Type 0
  Stays = StaysListed float snapshots table dlq amb k

  finish-Stays :
      (now : Time) (n : ℕ) (q : Dict String Info) (j : State float snapshots table dlq amb)
      (u : Result (Unit {0}) × table.State)
      → update_symbols table now (symbols_of q) [] j.symbols ≡ u
      → Stays j.symbols (finish float snapshots table dlq amb n q j u).1.symbols
  finish-Stays now n q j (raised e, s) h =
      update-StaysListed float snapshots table dlq amb now (symbols_of q) k j.symbols (raised e, s)
        h
  finish-Stays now n q j (ok u, s) h =
      update-StaysListed float snapshots table dlq amb now (symbols_of q) k j.symbols (ok u, s) h

  diff-Stays :
      (now : Time) (n : ℕ) (q : Dict String Info) (j : State float snapshots table dlq amb)
      (r : Result (List String))
      → ((y : List String) → r ≡ ok y → y ≡ [])
      → Stays j.symbols (diff float snapshots table dlq amb now n q j r).1.symbols
  diff-Stays now n q j (raised e) h = λ r there listed. (r, (there, listed))
  diff-Stays now n q j (ok y) h =
      finish-Stays now n q j (update_symbols table now (symbols_of q) y j.symbols)
        (ap (λ l. update_symbols table now (symbols_of q) l j.symbols) (sym (h y refl)))

  no_symbols :
      (d : ℕ) (s : db.Conn)
      → ((name : String) → at float snapshots table dlq amb s d name ≡ none)
      → (y : List String) → snapshots.symbols_on d s ≡ ok y
      → y ≡ []
  no_symbols d s empty [] e = refl
  no_symbols d s empty (x ∷ y) e =
      absurd ((snapshots.symbols_on-exact d s (x ∷ y) e x).0 (inl refl) (empty x))

  after_write-Stays :
      (start now : Time) (q : Dict String Info) (j : State float snapshots table dlq amb)
      (r : Result ℕ × World db dlq)
      → ((name : String)
          → at float snapshots table dlq amb r.1.conn (date_of start - 1) name ≡ none)
      → Stays j.symbols (after_write float snapshots table dlq amb start now q j r).1.symbols
  after_write-Stays start now q j (raised e, w) empty = λ r there listed. (r, (there, listed))
  after_write-Stays start now q j (ok n, w) empty =
      diff-Stays now n q (record j { world = w }) _ (no_symbols (date_of start - 1) w.conn empty)

  job_on_filter :
      (start now : Time) (answers : ℕ → Result (Dict String Ticker))
      (j : State float snapshots table dlq amb) (tickers : Dict String Ticker)
      (q : Dict String Info)
      → answers j.world.calls ≡ ok tickers
      → filter_qualifying_tickers tickers ≡ q
      → date_of start - 1 ≢ date_of start
      → ((name : String)
          → at float snapshots table dlq amb j.world.conn (date_of start - 1) name ≡ none)
      → Stays j.symbols
          (universe_snapshot_job float snapshots table dlq amb start now answers j).1.symbols
  unfolding universe_snapshot_job request store_snapshot
  job_on_filter start now answers j tickers [] e f ne empty =
      rw (e, f) (λ r there listed. (r, (there, listed)))
  job_on_filter start now answers j tickers (x ∷ q) e f ne empty =
      let written =
        write snapshots_table (rows float snapshots table dlq amb start (x ∷ q))
          (asked_once float snapshots table dlq amb j).world in
      let ran = job-after_write float snapshots table dlq amb start now answers j tickers x q e f in
      let conn = sym (
        ap (λ (y : Result ℕ × State float snapshots table dlq amb). y.1.world.conn) ran
        ∙ after_write-conn float snapshots table dlq amb start now (x ∷ q)
            (asked_once float snapshots table dlq amb j) written) in
      subst⁻¹ (λ (y : Result ℕ × State float snapshots table dlq amb). Stays j.symbols y.1.symbols)
        ran
        (after_write-Stays start now (x ∷ q) (asked_once float snapshots table dlq amb j) written
          (λ name.
            ap (λ s. at float snapshots table dlq amb s (date_of start - 1) name) conn
            ∙ job-other float snapshots table dlq amb start now answers j (date_of start - 1) name
                ne
            ∙ empty name))

  -- If the day before has no snapshot, a run delists no symbol, also none that has left the exchange
  -- since the last snapshot.
  pub missed_day_keeps_listed :
      (start now : Time) (answers : ℕ → Result (Dict String Ticker))
      (j : State float snapshots table dlq amb)
      → 0 < date_of start
      → ((name : String)
          → at float snapshots table dlq amb j.world.conn (date_of start - 1) name ≡ none)
      → StaysListed float snapshots table dlq amb k j.symbols
          (universe_snapshot_job float snapshots table dlq amb start now answers j).1.symbols
  unfolding universe_snapshot_job request
  missed_day_keeps_listed start now answers j later empty =
      elim (Result-cases (answers j.world.calls)) [
        | inl (tickers, e) ↦
            job_on_filter start now answers j tickers _ e refl (λ same. omega arith) empty
        | inr (x, e) ↦ rw e (λ r there listed. (r, (there, listed)))
      ]
