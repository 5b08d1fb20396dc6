-- ===== src/Mexc/Backfill/Pages.antt =====
-- The loop ends, and no row that it finds or writes is lost.
use shortfire.Prelude.{
  ℕ, zero, suc, ◌+◌, ◌-◌, ◌≤◌, ◌<◌, ◌≡◌, refl, inl, inr, String, Option, some, List, [], ◌∷◌, map,
  Result, Error, ok, raised, ltb, arith, Bool-cases,
}
use shortfire.Prelude.Times.{Time, from_ms}
use shortfire.Domain.Market.{Candle}
use shortfire.Rows.{candle_key}
use shortfire.Storage.{Database, copy_into_hypertable}
use shortfire.Mexc.Backfill.{
  Fetch, candle_row, last_candle, next_cursor, after_write, after_fetch, page_loop,
}

-- ccxt's `since`: no page ends before it.
abbrev pub StartsAtSince : Fetch → Type 0
StartsAtSince fetch =
    (k : ℕ) (since until : Time) (c : Candle) (cs : List Candle)
    → fetch k since until ≡ ok (c ∷ cs)
    → since ≤ (last_candle c cs).ts.micros

module _ (db : Database candle_key) (fetch : Fetch) (table : String) (step end_ms : ℕ) where
  open db use {Conn, find}

  abbrev pub Round : Type 0
  Round = ℕ → ℕ → Conn → Option (Result ℕ × Conn)

  -- A property of all results of a round holds after a fetch, if it holds where the round ends
  -- and after every next round.
  module _ (P : Option (Result ℕ × Conn) → Type 0) where
    after_write-rule :
        (next : ℕ → Conn → Option (Result ℕ × Conn)) (total : ℕ) (w : Result ℕ × Conn)
        → ((e : Error) (s : Conn) → w ≡ (raised e, s) → P (some (raised e, s)))
        → ((n : ℕ) (s : Conn) → w ≡ (ok n, s) → P (next (total + n) s))
        → P (after_write db fetch table step end_ms next total w)
    after_write-rule next total (raised e, s) f g = f e s refl
    after_write-rule next total (ok n, s) f g = g n s refl

    pub after_fetch-rule :
        (next : Round) (total : ℕ) (s : Conn) (r : Result (List Candle))
        → ((e : Error) → r ≡ raised e → P (some (raised e, s)))
        → (r ≡ ok [] → P (some (ok total, s)))
        → ((c : Candle) (cs : List Candle) (e : Error) (s' : Conn)
            → r ≡ ok (c ∷ cs)
            → copy_into_hypertable db table (map candle_row (c ∷ cs)) s ≡ (raised e, s')
            → P (some (raised e, s')))
        → ((c : Candle) (cs : List Candle) (n : ℕ) (s' : Conn)
            → r ≡ ok (c ∷ cs)
            → copy_into_hypertable db table (map candle_row (c ∷ cs)) s ≡ (ok n, s')
            → P (next (next_cursor step c cs) (total + n) s'))
        → P (after_fetch db fetch table step end_ms next total s r)
    after_fetch-rule next total s (raised e) f g h k = f e refl
    after_fetch-rule next total s (ok []) f g h k = g refl
    after_fetch-rule next total s (ok (c ∷ cs)) f g h k =
        after_write-rule (next (next_cursor step c cs)) total
          (copy_into_hypertable db table (map candle_row (c ∷ cs)) s) (λ e s' w. h c cs e s' refl w)
          (λ n s' w. k c cs n s' refl w)

  -- A round moves the cursor on.
  pub cursor_moves :
      StartsAtSince fetch
      → (call cursor : ℕ) (c : Candle) (cs : List Candle)
      → fetch call (from_ms cursor) (from_ms end_ms) ≡ ok (c ∷ cs)
      → cursor + step ≤ next_cursor step c cs
  cursor_moves starts call cursor c cs e =
      omega (arith, starts call (from_ms cursor) (from_ms end_ms) c cs e)

  abbrev pub Returns : Option (Result ℕ × Conn) → Type 0
  Returns o = (r : Result ℕ × Conn) × (o ≡ some r)

  pub page_loop-Returns :
      StartsAtSince fetch
      → 0 < step
      → (fuel call cursor total : ℕ) (s : Conn) → end_ms - cursor < fuel
      → Returns (page_loop db fetch table step end_ms fuel call cursor total s)
  unfolding page_loop
  page_loop-Returns starts moves zero call cursor total s h = absurd (omega arith)
  page_loop-Returns starts moves (suc fuel) call cursor total s h =
      elim (Bool-cases (ltb cursor end_ms)) [
        | inr e ↦ rw e ((ok total, s), refl)
        | inl e ↦ rw e (
            after_fetch-rule Returns (page_loop db fetch table step end_ms fuel (suc call)) total s
              (fetch call (from_ms cursor) (from_ms end_ms)) (λ x p. (_, refl)) (λ p. (_, refl))
              (λ c cs x s' p q. (_, refl))
              (λ c cs n s' p q.
                page_loop-Returns starts moves fuel (suc call) (next_cursor step c cs) (total + n)
                  s'
                  (let inside : cursor < end_ms = ground arith in
                    omega (arith, cursor_moves starts call cursor c cs p))))
      ]
