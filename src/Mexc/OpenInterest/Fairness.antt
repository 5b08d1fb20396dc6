-- ===== src/Mexc/OpenInterest/Fairness.antt =====
-- Every symbol gets its turn, as long as the steps return.
use shortfire.Prelude.{
  ℕ, zero, suc, ◌+◌, ◌-◌, ◌*◌, ◌%◌, ◌≤◌, ◌<◌, ◌≡◌, sym, inl, inr, max, Option, some, ltb, arith,
  Bool-cases,
}
use shortfire.Prelude.{String, List, [], ◌∷◌, Holds, length, take, drop, ok, refl, ap, ◌∙◌}
use shortfire.Prelude.Dicts.{lookup, insert, lookup-insert}
use shortfire.Prelude.Keys.{eq_string}
use shortfire.Storage.{Database}
use shortfire.DeadLetter.{letter_key}
use shortfire.Effects.{World, M, Ambient, bind_result, bind_result-ok, return, return-ok, ◌>>◌}
use shortfire.KvState.{State}
use shortfire.Mexc.OpenInterest.{
  cursor_or_zero, start, end, advance, symbol_slice, polled_slice, OpenInterest, oi_key,
  poll_symbols, store_records, step_from,
}
use mathlib.Core.Path.{subst}
use native.Mathlib.Nat.{mod-lt, mod-eq_of_lt}

-- Where the step number `k` from now starts.
unfoldable pub starts : (n batch_size : ℕ) → Option ℕ → ℕ → ℕ
starts n batch_size last zero = start last n
starts n batch_size last (suc k) = starts n batch_size (some (advance n batch_size last)) k

module _ (n batch_size : ℕ) where
  -- The step number `k` from now polls the symbol number `i`.
  abbrev pub Polls : Option ℕ → ℕ → ℕ → Type 0
  Polls last i k =
      (starts n batch_size last k ≤ i) × (i < end batch_size (starts n batch_size last k) n)

  start-in_range : (last : Option ℕ) → 0 < n → start last n < n
  unfolding start
  start-in_range last h =
      let same : max n 1 ≡ n = omega arith in
      subst (λ m. cursor_or_zero last % m < n) (sym same) (mod-lt (cursor_or_zero last) h)

  start-some : (c : ℕ) → c < n → start (some c) n ≡ c
  unfolding start
  start-some c h =
      let same : max n 1 ≡ n = omega arith in subst (λ m. c % m ≡ c) (sym same) (mod-eq_of_lt h)

  Polls-later :
      (last : Option ℕ) (c i k : ℕ)
      → advance n batch_size last ≡ c
      → Polls (some c) i k
      → Polls last i (suc k)
  unfolding starts
  Polls-later last c i k e polls = subst (λ x. Polls (some x) i k) (sym e) polls

  advance-on : (c : ℕ) → c < n → c + batch_size < n → advance n batch_size (some c) ≡ c + batch_size
  unfolding advance
  advance-on c h on = rw (start-some c h) (ground arith)

  advance-wraps : (c : ℕ) → c < n → n ≤ c + batch_size → advance n batch_size (some c) ≡ 0
  unfolding advance
  advance-wraps c h out = rw (start-some c h) (ground arith)

  -- A step that starts at `c` polls `i`, or a later one does.
  ahead :
      (fuel c i : ℕ)
      → 0 < batch_size
      → c < n
      → c ≤ i
      → i < n
      → i - c < fuel
      → (k : ℕ) × (k < fuel) × Polls (some c) i k
  unfolding starts
  ahead zero c i moves h le lt enough = absurd (omega arith)
  ahead (suc fuel) c i moves h le lt enough =
      let here = start-some c h in
      elim (Bool-cases (ltb i (c + batch_size))) [
        | inl e ↦ (0, omega arith, ((rw here le), (rw here (ground arith))))
        | inr e ↦
            let (k, bound, polls) =
              ahead fuel (c + batch_size) i moves (ground arith) (ground arith) lt (ground arith) in
            (
              suc k,
              omega arith,
              Polls-later (some c) (c + batch_size) i k (advance-on c h (ground arith)) polls,
            )
      ]

  -- After the end of the list the steps start at 0 again.
  behind :
      (fuel c i : ℕ)
      → 0 < batch_size
      → c < n
      → i < c
      → n - c ≤ fuel
      → (k : ℕ) × (k < fuel + suc n) × Polls (some c) i k
  behind zero c i moves h lt enough = absurd (omega arith)
  behind (suc fuel) c i moves h lt enough = elim (Bool-cases (ltb (c + batch_size) n)) [
    | inr e ↦
        let (k, bound, polls) =
          ahead n 0 i moves (omega arith) (omega arith) (omega arith) (omega arith) in
        (suc k, omega arith, Polls-later (some c) 0 i k (advance-wraps c h (ground arith)) polls)
    | inl e ↦
        let (k, bound, polls) =
          behind fuel (c + batch_size) i moves (ground arith) (omega arith) (omega arith) in
        (
          suc k,
          omega arith,
          Polls-later (some c) (c + batch_size) i k (advance-on c h (ground arith)) polls,
        )
  ]

  starts-start :
      (last : Option ℕ) (k : ℕ)
      → 0 < n
      → starts n batch_size (some (start last n)) k ≡ starts n batch_size last k
  unfolding starts advance
  starts-start last zero h = start-some (start last n) (start-in_range last h)
  starts-start last (suc k) h = rw (start-some (start last n) (start-in_range last h))

-- Some step starts where the symbol number `i` is in its batch.
index_polled :
    (n batch_size : ℕ) (last : Option ℕ) (i : ℕ)
    → 0 < batch_size
    → i < n
    → (k : ℕ) × (k < 2 * n + 1)
      × ((starts n batch_size last k ≤ i) × (i < end batch_size (starts n batch_size last k) n))
index_polled n batch_size last i moves lt =
    let c = start last n in
    let h : c < n = start-in_range n batch_size last (omega arith) in
    let same = λ (k : ℕ). starts-start n batch_size last k (omega arith) in
    elim (Bool-cases (ltb i c)) [
      | inl e ↦
          let (k, bound, polls) = behind n batch_size n c i moves h (ground arith) (omega arith) in
          (k, omega arith, subst (λ x. (x ≤ i) × (i < end batch_size x n)) (same k) polls)
      | inr e ↦
          let (k, bound, polls) =
            ahead n batch_size n c i moves h (ground arith) lt (omega arith) in
          (k, omega arith, subst (λ x. (x ≤ i) × (i < end batch_size x n)) (same k) polls)
    ]

-- Every element of a list is in the slices that span its index.
index_of :
    (x : String) (xs : List String)
    → Holds x xs
    → (i : ℕ) × (i < length xs)
      × ((from m : ℕ) → from ≤ i → i < from + m → Holds x (take m (drop from xs)))
index_of x [] h = absurd h
index_of x (y ∷ ys) (inl same) = (0, omega arith, here)
  where
    here : (from m : ℕ) → from ≤ 0 → 0 < from + m → Holds x (take m (drop from (y ∷ ys)))
    here zero (suc m) le lt = inl same
    here (suc from) m le lt = absurd (omega arith)
    here zero zero le lt = absurd (omega arith)
index_of x (y ∷ ys) (inr h) = further (index_of x ys h)
  where
    shifted :
        (i : ℕ)
        → ((from m : ℕ) → from ≤ i → i < from + m → Holds x (take m (drop from ys)))
        → (from m : ℕ) → from ≤ suc i
        → suc i < from + m
        → Holds x (take m (drop from (y ∷ ys)))
    shifted i there zero (suc m) le below = inr (there zero m (omega arith) (omega arith))
    shifted i there zero zero le below = absurd (omega arith)
    shifted i there (suc from) m le below = there from m (omega arith) (omega arith)

    further :
        (i : ℕ) × (i < length ys)
          × ((from m : ℕ) → from ≤ i → i < from + m → Holds x (take m (drop from ys)))
        → (i : ℕ) × (i < length (y ∷ ys))
          × ((from m : ℕ) → from ≤ i → i < from + m → Holds x (take m (drop from (y ∷ ys))))
    further (i, lt, there) = (suc i, omega arith, shifted i there)

module _ (db : Database oi_key) (dlq : Database letter_key) (amb : Ambient)
    (client : String → M db dlq (List OpenInterest)) (symbols : List String) (batch_size : ℕ) where
  -- So many steps, each from the state that the one before returned.
  unfoldable pub steps : ℕ → State → M db dlq State
  steps zero kv w = (ok kv, w)
  steps (suc k) kv w = bind_result (step_from db dlq amb client symbols batch_size kv w) (steps k)

  step-advance :
      (kv kv' : State) (w w' : World db dlq)
      → step_from db dlq amb client symbols batch_size kv w ≡ (ok kv', w')
      → lookup "last_symbol_index" kv'
        ≡ some (advance (length symbols) batch_size (lookup "last_symbol_index" kv))
  unfolding step_from
  step-advance kv kv' w w' h =
      let next =
        insert "last_symbol_index"
          (advance (length symbols) batch_size (lookup "last_symbol_index" kv)) kv in
      let (records, w₁, e₁, stored) =
        bind_result-ok (poll_symbols db dlq amb client (polled_slice symbols batch_size kv) [] w)
          (λ x. store_records db dlq amb client x >> return next) kv' w' h in
      let (u, w₂, e₂, done) =
        bind_result-ok (store_records db dlq amb client records w₁) (λ u. return next) kv' w'
          stored in
      ap (lookup "last_symbol_index") (sym (return-ok next kv' w₂ w' done).0)
      ∙ lookup-insert "last_symbol_index" "last_symbol_index" _ kv

  -- The first steps of steps that return, with where the next one starts.
  first_steps :
      (k m : ℕ) (kv kv' : State) (w w' : World db dlq)
      → k ≤ m
      → steps m kv w ≡ (ok kv', w')
      → (kvₖ : State) × ((wₖ : World db dlq) × ((steps k kv w ≡ (ok kvₖ, wₖ))
            × (start (lookup "last_symbol_index" kvₖ) (length symbols)
                ≡ starts (length symbols) batch_size (lookup "last_symbol_index" kv) k)))
  unfolding steps starts
  first_steps zero m kv kv' w w' le h = (kv, (w, (refl, refl)))
  first_steps (suc k) zero kv kv' w w' le h = absurd (omega arith)
  first_steps (suc k) (suc m) kv kv' w w' le h =
      let (kv₁, w₁, e₁, rest) =
        bind_result-ok (step_from db dlq amb client symbols batch_size kv w) (steps m) kv' w' h in
      let (kvₖ, (wₖ, (ran, from))) = first_steps k m kv₁ kv' w₁ w' (omega arith) rest in
      (
        kvₖ,
        (
          wₖ,
          (
            ap (λ r. bind_result r (steps k)) e₁ ∙ ran,
            from ∙ ap (λ c. starts (length symbols) batch_size c k) (step-advance kv kv₁ w w₁ e₁),
          ),
        ),
      )

  -- With a batch size of at least 1: if 2 * n + 1 steps over a list of n symbols return, each from the
  -- state that the one before returned, whichever the first state is, then every symbol of the list is
  -- in the slice that one of these steps polls.
  pub round_robin_fair :
      (symbol : String) (kv kv' : State) (w w' : World db dlq)
      → 0 < batch_size
      → Holds symbol symbols
      → steps (2 * length symbols + 1) kv w ≡ (ok kv', w')
      → (k : ℕ) × ((k < 2 * length symbols + 1)
          × ((kvₖ : State) × ((wₖ : World db dlq) × ((steps k kv w ≡ (ok kvₖ, wₖ))
                  × Holds symbol (polled_slice symbols batch_size kvₖ)))))
  unfolding polled_slice
  round_robin_fair symbol kv kv' w w' some_batch m ran =
      let n = length symbols in
      let (i, lt, slices) = index_of symbol symbols m in
      let (k, bound, polls) =
        index_polled n batch_size (lookup "last_symbol_index" kv) i some_batch lt in
      let (kvₖ, (wₖ, (came, from))) =
        first_steps k (2 * n + 1) kv kv' w w' (omega (arith, bound)) ran in
      let c = starts n batch_size (lookup "last_symbol_index" kv) k in
      (
        k,
        (
          bound,
          (
            kvₖ,
            (
              wₖ,
              (
                came,
                subst (λ x. Holds symbol (symbol_slice symbols x (end batch_size x n))) (sym from)
                    (slices c (end batch_size c n - c) polls.0 (omega (arith, polls.1))),
              ),
            ),
          ),
        ),
      )
