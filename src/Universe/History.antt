-- ===== src/Universe/History.antt =====
-- What a run of the job leaves of the days before, and what it makes of a day that was missed.
use shortfire.Prelude.{
  ℕ, String, Option, none, some, List, [], ◌∷◌, map, ◌≡◌, ◌≢◌, ◌↔◌, refl, sym, ◌∙◌, ap, inl, inr,
  Holds, Result, ok, raised, Result-cases,
}
use shortfire.Prelude.Keys.{eq_string}
use shortfire.Prelude.Decimals.{Decimal}
use shortfire.Prelude.Dicts.{Dict}
use shortfire.Prelude.Times.{Time}
use shortfire.Storage.{Database, copy_into_hypertable, Inserted}
use shortfire.Storage.Laws.{copy_outcome}
use shortfire.DeadLetter.{letter_key, text}
use shortfire.Effects.{World, Ambient, request, write, dead_letter-conn, write-conn}
use shortfire.Universe.Tickers.{Ticker, Info, filter_qualifying_tickers}
use shortfire.Universe.Symbols.{SymbolTable}
use shortfire.Universe.Snapshot.{
  Day, date_of, SnapshotRow, snapshot_key, snapshot_row, snapshots_table, Snapshots, JobState,
  finish, diff, after_write, store_snapshot, universe_snapshot_job, universe_at,
}

module _ {Float : Type 0} (float : Decimal → Float) (snapshots : Snapshots Float)
    (table : SymbolTable) (dlq : Database letter_key) (amb : Ambient) where
  open snapshots use {db}

  abbrev pub at : db.Conn → Day → String → Option (SnapshotRow Float)
  at s d name = db.find s snapshots_table (d, name)

  -- The rows of a batch are all of its day.
  day_of :
      (day : Day) (entries : List (String × Info)) (r : SnapshotRow Float)
      → Holds r (map (snapshot_row float day) entries)
      → r.snapshot_date ≡ day
  day_of day [] r h = absurd h
  day_of day (x ∷ entries) r (inl e) = ap (λ (y : SnapshotRow Float). y.snapshot_date) (sym e)
  day_of day (x ∷ entries) r (inr m) = day_of day entries r m

  Inserted-other :
      (day d : Day) (name : String) (entries : List (String × Info))
      (before after : Option (SnapshotRow Float))
      → d ≢ day
      → Inserted snapshot_key (map (snapshot_row float day) entries) (d, name) before after
      → after ≡ before
  Inserted-other day d name entries (some r) after ne h = h
  Inserted-other day d name entries none none ne h = refl
  Inserted-other day d name entries none (some r) ne (m, e) =
      absurd (ne (ap (λ (k : Day × String). k.0) (sym e) ∙ day_of day entries r m))

  -- A write of a day leaves the rows of every other day.
  pub copy-other :
      (day d : Day) (name : String) (entries : List (String × Info)) (s : db.Conn)
      → d ≢ day
      → at
          (copy_into_hypertable db snapshots_table (map (snapshot_row float day) entries) s).1
          d
          name
        ≡ at s d name
  copy-other day d name entries s ne =
      elim (copy_outcome db snapshots_table (map (snapshot_row float day) entries) s) [
        | inl (s', h, done) ↦
            ap (λ (r : Result ℕ × db.Conn). at r.1 d name) h
            ∙ Inserted-other day d name entries _ _ ne (done.0 (d, name))
        | inr h ↦ ap (λ (r : Result ℕ × db.Conn). at r.1 d name) h
      ]

  abbrev pub Job : Type 0
  Job = JobState float snapshots table dlq amb

  finish-conn :
      (n : ℕ) (q : Dict String Info) (j : Job) (r : Result (Unit {0}) × table.State)
      → (finish float snapshots table dlq amb n q j r).1.world.conn ≡ j.world.conn
  finish-conn n q j (raised e, s) = refl
  finish-conn n q j (ok u, s) = refl

  diff-conn :
      (now : Time) (n : ℕ) (q : Dict String Info) (j : Job) (r : Result (List String))
      → (diff float snapshots table dlq amb now n q j r).1.world.conn ≡ j.world.conn
  diff-conn now n q j (raised e) = refl
  diff-conn now n q j (ok y) = finish-conn n q j _

  pub after_write-conn :
      (start now : Time) (q : Dict String Info) (j : Job) (r : Result ℕ × World db dlq)
      → (after_write float snapshots table dlq amb start now q j r).1.world.conn ≡ r.1.conn
  after_write-conn start now q j (raised e, w) = refl
  after_write-conn start now q j (ok n, w) = diff-conn now n q _ _

  pub store_snapshot-other :
      (start now : Time) (q : Dict String Info) (j : Job) (d : Day) (name : String)
      → d ≢ date_of start
      → at (store_snapshot float snapshots table dlq amb start now q j).1.world.conn d name
        ≡ at j.world.conn d name
  unfolding store_snapshot
  store_snapshot-other start now [] j d name ne = refl
  store_snapshot-other start now (x ∷ q) j d name ne =
      let rows = map (snapshot_row float (date_of start)) (x ∷ q) in
      ap (λ s. at s d name)
        (after_write-conn start now (x ∷ q) j (write snapshots_table rows j.world)
          ∙ write-conn snapshots_table rows j.world)
      ∙ copy-other (date_of start) d name (x ∷ q) j.world.conn ne

  pub job-other :
      (start now : Time) (answers : ℕ → Result (Dict String Ticker)) (j : Job) (d : Day)
      (name : String)
      → d ≢ date_of start
      → at
          (universe_snapshot_job float snapshots table dlq amb start now answers j).1.world.conn
          d
          name
        ≡ at j.world.conn d name
  unfolding universe_snapshot_job request
  job-other start now answers j d name ne = elim (Result-cases (answers j.world.calls)) [
    | inl (tickers, e) ↦
        rw e (store_snapshot-other start now (filter_qualifying_tickers tickers) _ d name ne)
    | inr (x, e) ↦ rw e (
        ap (λ s. at s d name)
          (dead_letter-conn amb "mexc_native" "fetch_tickers" none (text "") x _))
  ]

  -- A run of the job, whatever it meets, does not change which symbols were qualifying on any other
  -- day.
  pub universe_at_stable :
      (start now : Time) (answers : ℕ → Result (Dict String Ticker)) (j : Job) (d : Day)
      (before after : List String)
      → d ≢ date_of start
      → universe_at snapshots j.world.conn d ≡ ok before
      → universe_at snapshots
          (universe_snapshot_job float snapshots table dlq amb start now answers j).1.world.conn
          d
        ≡ ok after
      → (name : String) → Holds name after ↔ Holds name before
  universe_at_stable start now answers j d before after ne asked asked' name =
      let old = snapshots.qualifying_on-exact d j.world.conn before asked name in
      let new = snapshots.qualifying_on-exact d _ after asked' name in
      let same = job-other start now answers j d name ne in
      (
        λ m. let (r, (e, q)) = new.0 m in old.1 (r, (sym same ∙ e, q)),
        λ m. let (r, (e, q)) = old.0 m in new.1 (r, (same ∙ e, q)),
      )
