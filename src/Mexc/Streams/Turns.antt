-- ===== src/Mexc/Streams/Turns.antt =====
-- The order in which the check against the REST candles goes through the symbols.
use shortfire.Prelude.{
  ℕ, zero, suc, ◌+◌, ◌-◌, ◌*◌, ◌%◌, ◌<◌, String, Bool, false, Option, none, some, List, [], ◌∷◌,
  ◌++◌, length, ◌≡◌, refl, sym, ap, ◌∙◌, inl, inr, Result, ok, raised, arith, Bool-cases, ltb,
  Holds, All,
}
use shortfire.Prelude.Decimals.{Decimal}
use shortfire.Prelude.Times.{Time, micros_per_minute}
use shortfire.Storage.{Database}
use shortfire.DeadLetter.{letter_key}
use shortfire.Domain.Market.{Candle}
use shortfire.Effects.{World, M}
use shortfire.Mexc.Streams.Divergence.{
  Candles1m, second_last, diverges, symbol_at, Checker, marked, compare_close, compare_candle,
  after_fetch, check, check_loop,
}
use native.Mathlib.Nat.{mod-lt, mod-eq_of_lt, mod-add-mod, add-mod_right}

symbol_at-onto :
    (x : String) (xs : List String) (sym : String)
    → Holds sym (x ∷ xs)
    → (i : ℕ) × ((i < length (x ∷ xs)) × (symbol_at x xs i ≡ sym))
symbol_at-onto x xs sym (inl e) = (0, (omega arith, e))
symbol_at-onto x (y ∷ xs) sym (inr m) =
    let (i, (lt, e)) = symbol_at-onto y xs sym m in (suc i, (omega (arith, lt), e))
symbol_at-onto x [] sym (inr m) = absurd m

-- From any cursor every index comes within `n` steps.
mod-onto : (c n i : ℕ) → i < n → (j : ℕ) × ((j < n) × ((c + j) % n ≡ i))
mod-onto c n i lt =
    let r = c % n in
    let small : r < n = mod-lt c (omega (arith, lt)) in
    elim (Bool-cases (ltb i r)) [
      | inr f ↦
          let here : r + (i - r) ≡ i = ground arith in
          (
            i - r,
            (
              omega (arith, lt),
              sym (mod-add-mod c n (i - r)) ∙ ap (λ k. k % n) here ∙ mod-eq_of_lt lt,
            ),
          )
      | inl t ↦
          let around : r + (n + i - r) ≡ i + n = ground arith in
          (
            n + i - r,
            (
              ground arith,
              sym (mod-add-mod c n (n + i - r))
                  ∙ ap (λ k. k % n) around
                  ∙ add-mod_right i n
                  ∙ mod-eq_of_lt lt,
            ),
          )
    ]

split_at :
    {A : Type 0} {P : A → Type 0} (xs : List A) (j : ℕ)
    → j < length xs
    → All P xs
    → (before : List A) × ((x : A) × ((after : List A) × ((xs ≡ before ++ x ∷ after)
            × ((length before ≡ j) × All P before))))
split_at [] j lt all = absurd (omega (arith, lt))
split_at (x ∷ xs) zero lt all = ([], (x, (xs, (refl, (refl, tt)))))
split_at (x ∷ xs) (suc j) lt (p, all) =
    let (before, (y, (after, (e, (len, ps))))) = split_at xs j (omega (arith, lt)) all in
    (x ∷ before, (y, (after, (ap (λ l. x ∷ l) e, (ap suc len, (p, ps))))))

module _ {Row Key : Type 0} {key : Row → Key} (db : Database key) (dlq : Database letter_key)
    (table : Candles1m) (fetch : String → (since until : Time) → M db dlq (List Candle)) where
  abbrev Check : Type 0
  Check = Checker db dlq table fetch

  marked-cursor :
      (c : Check) (o : Option table.State) → (marked db dlq table fetch c o).cursor ≡ c.cursor
  marked-cursor c none = refl
  marked-cursor c (some s) = refl

  compare_close-cursor :
      (k : String × Time) (ref : Decimal) (c : Check) (r : Result (Option Decimal))
      → (compare_close db dlq table fetch k ref c r).cursor ≡ c.cursor
  compare_close-cursor k ref c (raised e) = refl
  compare_close-cursor k ref c (ok none) = refl
  compare_close-cursor k ref c (ok (some ws)) = elim (Bool-cases (diverges ws ref)) [
    | inl t ↦ rw t (marked-cursor c (table.update_flag k c.candles))
    | inr f ↦ rw f refl
  ]

  compare_candle-cursor :
      (sym : String) (c : Check) (o : Option Candle)
      → (compare_candle db dlq table fetch sym c o).cursor ≡ c.cursor
  compare_candle-cursor sym c none = refl
  compare_candle-cursor sym c (some ref) = compare_close-cursor _ ref.close c _

  after_fetch-cursor :
      (sym : String) (c : Check) (r : Result (List Candle) × World db dlq)
      → (after_fetch db dlq table fetch sym c r).cursor ≡ c.cursor
  after_fetch-cursor sym c (raised e, w) = refl
  after_fetch-cursor sym c (ok candles, w) =
      compare_candle-cursor sym (record c { world = w }) (second_last candles)

  check-cursor :
      (x : String) (xs : List String) (now : Time) (c : Check)
      → (check db dlq table fetch x xs now c).cursor ≡ c.cursor + 1
  check-cursor x xs now c =
      let sym = symbol_at x xs (c.cursor % length (x ∷ xs)) in
      after_fetch-cursor sym (record c { cursor = c.cursor + 1 })
        (fetch sym (now - 3 * micros_per_minute) now c.world)

  abbrev pub IsOn : Bool × Time → Type 0
  IsOn round = round.0 ≡ false

  check_loop-cursor :
      (x : String) (xs : List String) (rounds : List (Bool × Time)) (c : Check)
      → All IsOn rounds
      → (check_loop db dlq table fetch x xs rounds c).cursor ≡ c.cursor + length rounds
  unfolding check_loop
  check_loop-cursor x xs [] c on = omega arith
  check_loop-cursor x xs ((is_set, now) ∷ rounds) c (on, rest) =
      let here = check-cursor x xs now c in
      let ih = check_loop-cursor x xs rounds (check db dlq table fetch x xs now c) rest in
      rw on (omega (arith, here, ih))

  -- Of as many rounds before the shutdown as there are symbols, one checks the given symbol, whatever
  -- raised in the rounds before it.
  pub each_in_turn :
      (x : String) (xs : List String) (rounds : List (Bool × Time)) (c : Check) (sym : String)
      → All IsOn rounds
      → length rounds ≡ length (x ∷ xs)
      → Holds sym (x ∷ xs)
      → (before : List (Bool × Time)) × ((round : Bool × Time) × ((after : List (Bool × Time))
            × ((rounds ≡ before ++ round ∷ after)
                × (symbol_at x xs
                      ((check_loop db dlq table fetch x xs before c).cursor % length (x ∷ xs))
                    ≡ sym))))
  each_in_turn x xs rounds c sym on len m =
      let (i, (lt, at)) = symbol_at-onto x xs sym m in
      let (j, (within, turn)) = mod-onto c.cursor (length (x ∷ xs)) i lt in
      let (before, (round, (after, (e, (size, ons))))) =
        split_at rounds j (omega (arith, within, len)) on in
      let reached = check_loop-cursor x xs before c ons ∙ ap (λ k. c.cursor + k) size in
      (
        before,
        (
          round,
          (
            after,
            (
              e,
              ap (λ k. symbol_at x xs (k % length (x ∷ xs))) reached
                  ∙ ap (symbol_at x xs) turn
                  ∙ at,
            ),
          ),
        ),
      )
