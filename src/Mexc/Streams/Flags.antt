-- ===== src/Mexc/Streams/Flags.antt =====
-- What the check against the REST candles makes of the table.
use shortfire.Prelude.{
  ℕ, ◌+◌, ◌-◌, ◌*◌, ◌%◌, ◌<◌, String, Bool, true, Option, none, some, List, [], ◌∷◌, length, ◌≡◌,
  ◌↔◌, ◌⊎◌, refl, sym, ap, ◌∙◌, inl, inr, Result, ok, raised, arith, Bool-cases, if◌then◌else◌,
}
use shortfire.Prelude.Keys.{◌==◌, eq_nat, eq_string, eq_pair}
use shortfire.Prelude.Decimals.{Decimal, pos, negsuc, pos_part}
use shortfire.Prelude.Times.{Time, minute_floor, micros_per_minute}
use shortfire.Rows.{CandleRow}
use shortfire.Storage.{Database}
use shortfire.DeadLetter.{letter_key}
use shortfire.Domain.Market.{Candle}
use shortfire.Effects.{World, M}
use shortfire.Mexc.Streams.Divergence.{
  flagged, close_of, Candles1m, second_last, distance, diverges, symbol_at, Checker, marked,
  compare_close, compare_candle, after_fetch, check, check_loop, cross_rest_divergence_check,
}
use mathlib.Core.Bool.{false≢true}
use mathlib.Core.Path.{subst}
use mathlib.Core.Option.{some-injective}

abbrev pub divergent : CandleRow → CandleRow
divergent r = record r { quality_flag = "ws_rest_divergence" }

-- The row is as it was, or was flagged "ok" and is flagged "ws_rest_divergence".
abbrev pub OnlyFlagged : Option CandleRow → Option CandleRow → Type 0
OnlyFlagged before after =
    (after ≡ before)
    ⊎ ((r : CandleRow) × ((before ≡ some r)
          × ((r.quality_flag ≡ "ok") × (after ≡ some (divergent r)))))

flagged_lem : (o : Option CandleRow) → OnlyFlagged o (flagged o)
flagged_lem none = inl refl
flagged_lem (some r) = elim (Bool-cases (r.quality_flag == "ok")) [
  | inl t ↦ rw t (inr (r, (refl, ((eq_string.eq_test_iff r.quality_flag "ok").0 t, refl))))
  | inr f ↦ rw f (inl refl)
]

OnlyFlagged-trans : (a b c : Option CandleRow) → OnlyFlagged a b → OnlyFlagged b c → OnlyFlagged a c
OnlyFlagged-trans a b c (inl e) h = subst (λ x. OnlyFlagged x c) e h
OnlyFlagged-trans a b c (inr (r, rest)) (inl e) = subst (OnlyFlagged a) (sym e) (inr (r, rest))
OnlyFlagged-trans a b c (inr (r, (e, (k, f)))) (inr (r', (e', (k', f')))) =
    let same : divergent r ≡ r' = some-injective _ _ (sym f ∙ e') in
    let clash : "ws_rest_divergence" ≡ "ok" = ap (λ (x : CandleRow). x.quality_flag) same ∙ k' in
    absurd (false≢true (ap (λ flag. flag == "ok") clash))

module _ {Row Key : Type 0} {key : Row → Key} (db : Database key) (dlq : Database letter_key)
    (table : Candles1m) (fetch : String → (since until : Time) → M db dlq (List Candle)) where
  abbrev pub Check : Type 0
  Check = Checker db dlq table fetch

  abbrev pub FlagsOnly : Check → Check → Type 0
  FlagsOnly c c' =
      (k : String × Time) → OnlyFlagged (table.row c.candles k) (table.row c'.candles k)

  marked-FlagsOnly :
      (k : String × Time) (c : Check) (o : Option table.State)
      → table.update_flag k c.candles ≡ o
      → FlagsOnly c (marked db dlq table fetch c o)
  marked-FlagsOnly k c none e l = inl refl
  marked-FlagsOnly k c (some s) e l =
      let law = table.row-update_flag k c.candles s e l in
      subst (OnlyFlagged (table.row c.candles l)) (sym law) (elim (Bool-cases (k == l)) [
        | inl t ↦ rw t (flagged_lem (table.row c.candles l))
        | inr f ↦ rw f (inl refl)
      ])

  compare_close-FlagsOnly :
      (k : String × Time) (ref : Decimal) (c : Check) (r : Result (Option Decimal))
      → FlagsOnly c (compare_close db dlq table fetch k ref c r)
  compare_close-FlagsOnly k ref c (raised e) = λ l. inl refl
  compare_close-FlagsOnly k ref c (ok none) = λ l. inl refl
  compare_close-FlagsOnly k ref c (ok (some ws)) = elim (Bool-cases (diverges ws ref)) [
    | inl t ↦ rw t (marked-FlagsOnly k c (table.update_flag k c.candles) refl)
    | inr f ↦ rw f (λ l. inl refl)
  ]

  compare_candle-FlagsOnly :
      (sym : String) (c : Check) (o : Option Candle)
      → FlagsOnly c (compare_candle db dlq table fetch sym c o)
  compare_candle-FlagsOnly sym c none = λ l. inl refl
  compare_candle-FlagsOnly sym c (some ref) = compare_close-FlagsOnly _ ref.close c _

  after_fetch-FlagsOnly :
      (sym : String) (c : Check) (r : Result (List Candle) × World db dlq)
      → FlagsOnly c (after_fetch db dlq table fetch sym c r)
  after_fetch-FlagsOnly sym c (raised e, w) = λ l. inl refl
  after_fetch-FlagsOnly sym c (ok candles, w) =
      compare_candle-FlagsOnly sym (record c { world = w }) (second_last candles)

  check-FlagsOnly :
      (x : String) (xs : List String) (now : Time) (c : Check)
      → FlagsOnly c (check db dlq table fetch x xs now c)
  check-FlagsOnly x xs now c =
      let sym = symbol_at x xs (c.cursor % length (x ∷ xs)) in
      after_fetch-FlagsOnly sym (record c { cursor = c.cursor + 1 })
        (fetch sym (now - 3 * micros_per_minute) now c.world)

  check_loop-FlagsOnly :
      (x : String) (xs : List String) (rounds : List (Bool × Time)) (c : Check)
      → FlagsOnly c (check_loop db dlq table fetch x xs rounds c)
  unfolding check_loop
  check_loop-FlagsOnly x xs [] c = λ l. inl refl
  check_loop-FlagsOnly x xs ((is_set, now) ∷ rounds) c = elim (Bool-cases is_set) [
    | inl t ↦ rw t (λ l. inl refl)
    | inr f ↦ rw f (λ l.
        OnlyFlagged-trans _ _ _ (check-FlagsOnly x xs now c l)
          (check_loop-FlagsOnly x xs rounds (check db dlq table fetch x xs now c) l))
  ]

  -- However many rounds the check goes through, and whatever raises in them, it returns, and every row
  -- of the table is as it was, or was flagged "ok" and is flagged "ws_rest_divergence".
  pub check_touches_ok :
      (tier1_symbols : List String) (rounds : List (Bool × Time)) (c : Check)
      → FlagsOnly c (cross_rest_divergence_check db dlq table fetch tier1_symbols rounds c)
  check_touches_ok [] rounds c = λ l. inl refl
  check_touches_ok (x ∷ xs) rounds c = check_loop-FlagsOnly x xs rounds c

  -- The two closes are more than 0.5 per cent apart.
  abbrev pub IsApart : (ws ref : Decimal) → Type 0
  IsApart ws ref = (n : ℕ) × ((ref ≡ pos n) × ((0 < n) × (5 * n < 1000 * distance ws (pos n))))

  test :
      (ws : Decimal) (n : ℕ)
      → 0 < n
      → 5 * n < 1000 * distance ws (pos n)
      → diverges ws (pos n) ≡ true
  test ws n above far = ground arith

  diverges_iff : (ws ref : Decimal) → (diverges ws ref ≡ true) ↔ IsApart ws ref
  diverges_iff ws (pos n) = (
    λ h. (n, (refl, ground arith)),
    λ (m, (e, (above, far))).
        let same : m ≡ n = sym (ap pos_part e) in
        test ws n (subst (λ k. 0 < k) same above)
          (subst (λ k. 5 * k < 1000 * distance ws (pos k)) same far),
  )
  diverges_iff ws (negsuc n) = (λ h. cc, λ (m, (e, rest)). cc)

  compare_close-exact :
      (k : String × Time) (ref : Decimal) (c : Check) (r : CandleRow) (s : table.State)
      (o : Option Decimal)
      → table.row c.candles k ≡ some r
      → r.quality_flag ≡ "ok"
      → table.select_close k c.candles ≡ ok o
      → table.update_flag k c.candles ≡ some s
      → table.row
          (compare_close db dlq table fetch k ref c (table.select_close k c.candles)).candles
          k
        ≡ (if diverges r.close ref then some (divergent r) else some r)
  compare_close-exact k ref c r s o there flag asked updated =
      let read : table.select_close k c.candles ≡ ok (some r.close) =
        asked ∙ ap ok (table.select_close-row k c.candles o asked ∙ ap close_of there) in
      rw read (elim (Bool-cases (diverges r.close ref)) [
        | inr f ↦ rw f there
        | inl t ↦
            rw (t, updated)
              (table.row-update_flag k c.candles s updated k
                ∙ (let own = (eq_pair.eq_test_iff k k).1 refl in rw own refl)
                ∙ ap flagged there
                ∙ (let is_ok = (eq_string.eq_test_iff r.quality_flag "ok").1 flag in rw is_ok refl))
      ])

  -- Where the client gives at least two candles and the table has the row of the last but one, flagged
  -- "ok", and its statements go through: the row gets the flag exactly if its close is more than 0.5
  -- per cent away from a positive close of the candle, and else is as it was.
  pub check_exact :
      (x : String) (xs : List String) (now : Time) (c : Check) (candles : List Candle)
      (w : World db dlq) (ref : Candle) (r : CandleRow) (o : Option Decimal) (s : table.State)
      → let sym = symbol_at x xs (c.cursor % length (x ∷ xs)) in
        let k : String × Time = (sym, minute_floor ref.ts.micros) in
        fetch sym (now - 3 * micros_per_minute) now c.world ≡ (ok candles, w)
        → second_last candles ≡ some ref
        → table.row c.candles k ≡ some r
        → r.quality_flag ≡ "ok"
        → table.select_close k c.candles ≡ ok o
        → table.update_flag k c.candles ≡ some s
        → let after = table.row (check db dlq table fetch x xs now c).candles k in
          (IsApart r.close ref.close → after ≡ some (divergent r))
          × (¬ IsApart r.close ref.close → after ≡ some r)
  check_exact x xs now c candles w ref r o s fetched last there flag asked updated =
      let sym = symbol_at x xs (c.cursor % length (x ∷ xs)) in
      let k : String × Time = (sym, minute_floor ref.ts.micros) in
      let row_of =
        compare_close-exact k ref.close (record c { world = w; cursor = c.cursor + 1 }) r s o there
          flag asked updated in
      let apart = diverges_iff r.close ref.close in
      rw (fetched, last)
        (elim (Bool-cases (diverges r.close ref.close)) [
          | inl t ↦ (λ far. rw t at row_of, λ near. absurd (near (apart.0 t)))
          | inr f ↦ (λ far. absurd (let t = apart.1 far in cc), λ near. rw f at row_of)
        ])
