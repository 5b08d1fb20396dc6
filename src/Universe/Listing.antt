-- ===== src/Universe/Listing.antt =====
-- What a run of the job makes of the table symbols.
use shortfire.Prelude.{
  ℕ, ◌-◌, String, Bool, true, false, not, ◌&&◌, Option, none, some, List, [], ◌∷◌, map, ◌≡◌, refl,
  sym, ◌∙◌, ap, suc, Result, ok, raised,
}
use shortfire.Prelude.Keys.{eq_string, contains}
use shortfire.Prelude.Decimals.{Decimal}
use shortfire.Prelude.Dicts.{Dict}
use shortfire.Prelude.Times.{Time}
use shortfire.Storage.{Database}
use shortfire.DeadLetter.{letter_key}
use shortfire.Effects.{World, Ambient, request, write}
use shortfire.Universe.Tickers.{Ticker, Info, symbols_of, filter_qualifying_tickers}
use shortfire.Universe.Symbols.{SymbolRow, SymbolTable, update_symbols}
use shortfire.Universe.Snapshot.{
  date_of, SnapshotRow, snapshot_row, snapshots_table, Snapshots, finish, diff, after_write,
  store_snapshot, universe_snapshot_job,
}
use shortfire.Universe.Diff.{changed, update_symbols-row, update_symbols-raised}
use shortfire.Universe.History.{Job, after_write-conn}
use mathlib.Core.Path.{subst, subst⁻¹}

module _ {Float : Type 0} (float : Decimal → Float) (snapshots : Snapshots Float)
    (table : SymbolTable) (dlq : Database letter_key) (amb : Ambient) where
  open snapshots use {db}

  abbrev pub State : Type 0
  State = Job float snapshots table dlq amb

  -- What the update makes of the row of a symbol, from the two days' symbols.
  abbrev pub row_after :
      Time → (today yesterday : List String) → String → Option SymbolRow → Option SymbolRow
  row_after now today yesterday k =
      changed table now k (contains k today && not (contains k yesterday))
        (contains k yesterday && not (contains k today))

  finish-ok :
      (n m : ℕ) (q : Dict String Info) (j : State) (r : Result (Unit {0}) × table.State)
      → (finish float snapshots table dlq amb n q j r).0 ≡ ok m
      → (r ≡ (ok tt, r.1)) × ((finish float snapshots table dlq amb n q j r).1.symbols ≡ r.1)
  finish-ok n m q j (raised e, s) h = cc
  finish-ok n m q j (ok u, s) h = (refl, refl)

  diff-ok :
      (now : Time) (n m : ℕ) (q : Dict String Info) (j : State) (r : Result (List String))
      (y : List String) (k : String)
      → r ≡ ok y
      → (diff float snapshots table dlq amb now n q j r).0 ≡ ok m
      → table.row (diff float snapshots table dlq amb now n q j r).1.symbols k
        ≡ row_after now (symbols_of q) y k (table.row j.symbols k)
  diff-ok now n m q j (raised e) y k h done = cc
  diff-ok now n m q j (ok x) y k h done =
      let u = update_symbols table now (symbols_of q) x j.symbols in
      let (ran, same) = finish-ok n m q j u done in
      let e : x ≡ y = cc in
      subst
        (λ l.
          table.row (finish float snapshots table dlq amb n q j u).1.symbols k
          ≡ row_after now (symbols_of q) l k (table.row j.symbols k))
        e
        (ap (λ s. table.row s k) same
          ∙ update_symbols-row table now (symbols_of q) x j.symbols u.1 ran k)

  after_write-ok :
      (start now : Time) (m : ℕ) (q : Dict String Info) (j : State) (r : Result ℕ × World db dlq)
      (y : List String) (k : String)
      → (after_write float snapshots table dlq amb start now q j r).0 ≡ ok m
      → snapshots.symbols_on
          (date_of start - 1)
          (after_write float snapshots table dlq amb start now q j r).1.world.conn
        ≡ ok y
      → table.row (after_write float snapshots table dlq amb start now q j r).1.symbols k
        ≡ row_after now (symbols_of q) y k (table.row j.symbols k)
  after_write-ok start now m q j (raised e, w) y k done asked = cc
  after_write-ok start now m q j (ok n, w) y k done asked =
      let conn = after_write-conn float snapshots table dlq amb start now q j (ok n, w) in
      diff-ok now n m q (record j { world = w }) _ y k
        (ap (snapshots.symbols_on (date_of start - 1)) (sym conn) ∙ asked) done

  abbrev pub asked_once : State → State
  asked_once j = record j { world = record j.world { calls = suc j.world.calls } }

  abbrev pub rows : Time → Dict String Info → List (SnapshotRow Float)
  rows start q = map (snapshot_row float (date_of start)) q

  pub job-after_write :
      (start now : Time) (answers : ℕ → Result (Dict String Ticker)) (j : State)
      (tickers : Dict String Ticker) (x : String × Info) (rest : Dict String Info)
      → answers j.world.calls ≡ ok tickers
      → filter_qualifying_tickers tickers ≡ x ∷ rest
      → universe_snapshot_job float snapshots table dlq amb start now answers j
        ≡ after_write float snapshots table dlq amb start now
            (x ∷ rest)
            (asked_once j)
            (write snapshots_table (rows start (x ∷ rest)) (asked_once j).world)
  unfolding universe_snapshot_job request store_snapshot
  job-after_write start now answers j tickers x rest e f = rw (e, f) refl

  -- A run that returns with a snapshot that is not empty: the symbols that are in it and were not in
  -- that of the day before are in the table and listed; those that were, and are not in it, are
  -- delisted if they are in the table; every other row is as it was.
  pub job_updates :
      (start now : Time) (answers : ℕ → Result (Dict String Ticker)) (j : State) (n : ℕ)
      (tickers : Dict String Ticker) (x : String × Info) (rest : Dict String Info)
      (yesterday : List String)
      → answers j.world.calls ≡ ok tickers
      → filter_qualifying_tickers tickers ≡ x ∷ rest
      → let done = universe_snapshot_job float snapshots table dlq amb start now answers j in
        done.0 ≡ ok n
        → snapshots.symbols_on (date_of start - 1) done.1.world.conn ≡ ok yesterday
        → (k : String)
        → table.row done.1.symbols k
          ≡ row_after now (symbols_of (x ∷ rest)) yesterday k (table.row j.symbols k)
  job_updates start now answers j n tickers x rest yesterday e f =
      subst⁻¹
        (λ (r : Result ℕ × State).
          r.0 ≡ ok n
          → snapshots.symbols_on (date_of start - 1) r.1.world.conn ≡ ok yesterday
          → (k : String)
          → table.row r.1.symbols k
            ≡ row_after now (symbols_of (x ∷ rest)) yesterday k (table.row j.symbols k))
        (job-after_write start now answers j tickers x rest e f)
        (λ done asked k.
          after_write-ok start now n (x ∷ rest) (asked_once j)
            (write snapshots_table (rows start (x ∷ rest)) (asked_once j).world) yesterday k done
            asked)

  -- The row of the symbol stays, and is listed if it was.
  abbrev pub StaysListed : String → table.State → table.State → Type 0
  StaysListed k s s' =
      (r : SymbolRow)
      → table.row s k ≡ some r
      → r.delisted_at ≡ none
      → (r' : SymbolRow) × ((table.row s' k ≡ some r') × (r'.delisted_at ≡ none))

  changed-listed :
      (now : Time) (k : String) (is_new : Bool) (r : SymbolRow)
      → r.delisted_at ≡ none
      → (r' : SymbolRow) × ((changed table now k is_new false (some r) ≡ some r')
          × (r'.delisted_at ≡ none))
  changed-listed now k true r e = (record r { delisted_at = none }, (refl, refl))
  changed-listed now k false r e = (r, (refl, e))

  pub update-StaysListed :
      (now : Time) (today : List String) (k : String) (s : table.State)
      (u : Result (Unit {0}) × table.State)
      → update_symbols table now today [] s ≡ u
      → StaysListed k s u.1
  update-StaysListed now today k s (raised x, s') e r there listed =
      let same : s' ≡ s =
        ap (λ (v : Result (Unit {0}) × table.State). v.1) (sym e)
        ∙ update_symbols-raised table now today [] s x
            (ap (λ (v : Result (Unit {0}) × table.State). v.0) e) in
      (r, (ap (λ t. table.row t k) same ∙ there, listed))
  update-StaysListed now today k s (ok u, s') e r there listed =
      let (r', (is, still)) = changed-listed now k (contains k today && true) r listed in
      (
        r',
        (
          update_symbols-row table now today [] s s' e k
              ∙ ap (changed table now k (contains k today && true) false) there
              ∙ is,
          still,
        ),
      )
