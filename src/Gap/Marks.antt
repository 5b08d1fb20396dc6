-- ===== src/Gap/Marks.antt =====
-- What `flag_gap` does to its table.
use shortfire.Prelude.{
  ℕ, String, ◌+◌, ◌*◌, ◌<◌, ◌≡◌, refl, sym, ap, ◌∙◌, ◌⊎◌, inl, inr, Option, none, some, List, [],
  ◌∷◌, Holds, Result, ok, length, leb, ◌||◌, arith, Bool-cases,
}
use shortfire.Prelude.Decimals.{ℤ, pos, pos_part, le_dec}
use shortfire.Prelude.Times.{Time, from_ms, to_ms}
use shortfire.Rows.{CandleRow, candle_key}
use shortfire.Storage.{Database, Inserted, copy_into_hypertable}
use shortfire.Storage.Laws.{
  IsUp, copy_outcome, copy-stored, copy_again, copy_total, first_write_wins,
}
use shortfire.Gap.{gap_row, gap_records, write_if_any, flag_gap}
use shortfire.Gap.Grid.{grid-Holds, Holds-grid, OnGrid}
use mathlib.Core.Path.{subst}
use mathlib.Core.Option.{some-injective}

module _ (db : Database candle_key) where
  open db use {Conn, find}

  -- The batch that a call with a proper window writes.
  abbrev pub batch : (symbol source : String) (gap_start gap_end : Time) (step : ℕ) → List CandleRow
  batch symbol source gap_start gap_end step =
      gap_records (to_ms gap_end) (gap_row symbol source) (to_ms gap_start) (to_ms gap_end) step

  write_if_any-copy :
      (t : String) (rs : List CandleRow) (s : Conn)
      → write_if_any db t rs s ≡ copy_into_hypertable db t rs s
  unfolding write_if_any copy_into_hypertable
  write_if_any-copy t [] s = refl
  write_if_any-copy t (r ∷ rs) s = refl

  flag_gap-batch :
      (t symbol source : String) (a b : Time) (step : ℕ) (s : Conn)
      → a < b
      → 0 < step
      → flag_gap db t symbol a b (pos step) source s
        ≡ copy_into_hypertable db t (batch symbol source a b step) s
  unfolding flag_gap
  flag_gap-batch t symbol source a b step s h k =
      ground arith ∙ write_if_any-copy t (batch symbol source a b step) s

  -- After a call that returned, there is a row at every point of the window's grid.
  pub flag_gap-marks :
      (t symbol source : String) (a b : Time) (step : ℕ) (s : Conn) (n i : ℕ)
      → a < b
      → 0 < step
      → (flag_gap db t symbol a b (pos step) source s).0 ≡ ok n
      → to_ms a + i * step < to_ms b
      → (r : CandleRow) × (find
            (flag_gap db t symbol a b (pos step) source s).1
            t
            (symbol, from_ms (to_ms a + i * step))
          ≡ some r)
  flag_gap-marks t symbol source a b step s n i h k done inside =
      let e = flag_gap-batch t symbol source a b step s h k in
      let row = gap_row symbol source in
      let written : (copy_into_hypertable db t (batch symbol source a b step) s).0 ≡ ok n =
        ap (λ (p : Result ℕ × Conn). p.0) (sym e) ∙ done in
      rw e (
        copy-stored db t (batch symbol source a b step) s n (row (to_ms a + i * step)) written
          (grid-Holds row (to_ms b) step k (to_ms b) (to_ms a) i (omega arith) inside))

  -- Two ways for a call to end: with nothing done, or as the write of the batch of a proper window.
  -- Which one it is does not depend on the database.
  flag_gap_cases :
      (t symbol source : String) (a b : Time) (tf : ℤ)
      → ((s : Conn) → flag_gap db t symbol a b tf source s ≡ (ok 0, s))
        ⊎ ((0 < pos_part tf)
            × ((s : Conn)
                → flag_gap db t symbol a b tf source s
                  ≡ copy_into_hypertable db t (batch symbol source a b (pos_part tf)) s))
  unfolding flag_gap
  flag_gap_cases t symbol source a b tf = elim (Bool-cases (leb b a || le_dec tf (pos 0))) [
    | inl e ↦ inl (λ s. rw e)
    | inr e ↦
        inr
          (ground arith, λ s. rw e (write_if_any-copy t (batch symbol source a b (pos_part tf)) s))
  ]

  -- Whatever the arguments, a row of any table that was there stays as it was.
  pub flag_gap-keeps :
      (t symbol source : String) (a b : Time) (tf : ℤ) (s : Conn) (u : String) (k : String × Time)
      (r : CandleRow)
      → find s u k ≡ some r
      → find (flag_gap db t symbol a b tf source s).1 u k ≡ some r
  flag_gap-keeps t symbol source a b tf s u k r there =
      elim (flag_gap_cases t symbol source a b tf) [
        | inl e ↦ rw (e s) there
        | inr (_, e) ↦
            rw (e s) (first_write_wins db t u (batch symbol source a b (pos_part tf)) s k r there)
      ]

  Inserted-new :
      (rs : List CandleRow) (k : String × Time) (before after : Option CandleRow) (r : CandleRow)
      → Inserted candle_key rs k before after
      → before ≡ none
      → after ≡ some r
      → Holds r rs × (candle_key r ≡ k)
  Inserted-new rs k (some x) after r h e e' = cc
  Inserted-new rs k none none r h e e' = cc
  Inserted-new rs k none (some x) r h e e' =
      let same : x ≡ r = some-injective _ _ e' in
      (subst (λ y. Holds y rs) same h.0, subst (λ y. candle_key y ≡ k) same h.1)

  -- Whatever the arguments, a row of the table that was not there before is a gap row of the symbol,
  -- at a point of the window's grid, and has the flag 'gap_detected'.
  pub flag_gap-only :
      (t symbol source : String) (a b : Time) (tf : ℤ) (s : Conn) (k : String × Time)
      (r : CandleRow)
      → find s t k ≡ none
      → find (flag_gap db t symbol a b tf source s).1 t k ≡ some r
      → OnGrid (gap_row symbol source) (to_ms b) (pos_part tf) (to_ms a) r
        × (candle_key r ≡ k)
        × (r.quality_flag ≡ "gap_detected")
  flag_gap-only t symbol source a b tf s k r fresh after =
      elim (flag_gap_cases t symbol source a b tf) [
        | inl e ↦ cc (fresh, rw (e s) at after)
        | inr (moves, e) ↦ elim (copy_outcome db t (batch symbol source a b (pos_part tf)) s) [
          | inr e' ↦ cc (fresh, rw (e s, e') at after)
          | inl (s', e', done) ↦
              let new =
                Inserted-new (batch symbol source a b (pos_part tf)) k (find s t k) (find s' t k) r
                  (done.0 k) fresh (rw (e s, e') at after) in
              let place =
                Holds-grid (gap_row symbol source) (to_ms b) (pos_part tf) moves (to_ms b) (to_ms a)
                  r new.0 in
              (place, new.1, ap (λ x. x.quality_flag) place.1)
        ]
      ]

  -- With the server up, a second call returns the count of the first although no row is inserted.
  pub flag_gap_again :
      (up : IsUp db) (t symbol source : String) (a b : Time) (tf : ℤ) (s : Conn)
      → let s' = (flag_gap db t symbol a b tf source s).1 in
        ((flag_gap db t symbol a b tf source s').0 ≡ (flag_gap db t symbol a b tf source s).0)
        × ((k : String × Time) → find (flag_gap db t symbol a b tf source s').1 t k ≡ find s' t k)
  flag_gap_again up t symbol source a b tf s = elim (flag_gap_cases t symbol source a b tf) [
    | inl e ↦ rw (e s, e s) (refl, λ k. refl)
    | inr (_, e) ↦
        let rs = batch symbol source a b (pos_part tf) in
        let first = copy_total db up t rs s in
        rw (e s, e (copy_into_hypertable db t rs s).1)
          (
            copy_total db up t rs (copy_into_hypertable db t rs s).1 ∙ sym first,
            λ k. copy_again db t rs s (length rs) k first,
          )
  ]
