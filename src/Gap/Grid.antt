-- ===== src/Gap/Grid.antt =====
-- The loop makes exactly the rows at start, start + step, … before the end.
use shortfire.Prelude.{
  ℕ, zero, suc, ◌+◌, ◌-◌, ◌*◌, ◌≤◌, ◌<◌, ◌≡◌, sym, ap, ◌∙◌, ◌⊎◌, inl, inr, true, Holds, ltb, arith,
  Bool-cases,
}
use shortfire.Rows.{CandleRow}
use shortfire.Gap.{gap_records}
use mathlib.Core.Path.{subst}

-- A row of the grid that starts at `cursor`.
abbrev pub OnGrid : (ℕ → CandleRow) → ℕ → ℕ → ℕ → CandleRow → Type 0
OnGrid row end_ms step cursor r =
    (i : ℕ) × (r ≡ row (cursor + i * step)) × (cursor + i * step < end_ms)

module _ (row : ℕ → CandleRow) (end_ms step : ℕ) (moves : 0 < step) where
  pub grid-Holds :
      (fuel cursor i : ℕ)
      → end_ms - cursor ≤ fuel
      → cursor + i * step < end_ms
      → Holds (row (cursor + i * step)) (gap_records fuel row cursor end_ms step)
  unfolding gap_records
  grid-Holds zero cursor i enough h = absurd (omega arith)
  grid-Holds (suc fuel) cursor zero enough h =
      let here : ltb cursor end_ms ≡ true = ground arith in rw here (inl (ap row (omega arith)))
  grid-Holds (suc fuel) cursor (suc i) enough h =
      let here : ltb cursor end_ms ≡ true = grind arith in
      let moved : cursor + step + i * step ≡ cursor + suc i * step = grind arith in
      rw here (
        inr (
          subst (λ c. Holds (row c) (gap_records fuel row (cursor + step) end_ms step)) moved
            (grid-Holds fuel (cursor + step) i (omega arith) (rw moved h))))

  OnGrid-later :
      (cursor : ℕ) (r : CandleRow)
      → OnGrid row end_ms step (cursor + step) r
      → OnGrid row end_ms step cursor r
  OnGrid-later cursor r (i, e, h) =
      let moved : cursor + step + i * step ≡ cursor + suc i * step = grind arith in
      (suc i, e ∙ ap row moved, rw moved at h)

  pub Holds-grid :
      (fuel cursor : ℕ) (r : CandleRow)
      → Holds r (gap_records fuel row cursor end_ms step)
      → OnGrid row end_ms step cursor r
  unfolding gap_records
  Holds-grid zero cursor r m = absurd m
  Holds-grid (suc fuel) cursor r m = elim (Bool-cases (ltb cursor end_ms)) [
    | inr e ↦ absurd (rw e at m)
    | inl e ↦
        let split : (row cursor ≡ r) ⊎ Holds r (gap_records fuel row (cursor + step) end_ms step) =
          rw e at m in
        elim split [
          | inl p ↦ (0, sym p ∙ ap row (omega arith), ground arith)
          | inr q ↦ OnGrid-later cursor r (Holds-grid fuel (cursor + step) r q)
        ]
  ]
