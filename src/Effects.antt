-- ===== src/Effects.antt =====
-- What an ingest step may do to the world: write rows, write dead letters, set gauges, count.
-- `M A` runs against a `World`; an exception ends the step and keeps what was done before.
pub mod Returns
use shortfire.Prelude.{
  ℕ, suc, ◌+◌, String, Option, none, some, List, [], ◌∷◌, Result, Error, ok, raised, ◌≡◌, refl, ap,
}
use shortfire.Prelude.Keys.{eq_string, eq_pair}
use shortfire.Prelude.Dicts.{Dict, lookup, insert}
use shortfire.Prelude.Times.{Time}
use shortfire.Storage.{Database, copy_into_hypertable}
use shortfire.DeadLetter.{letter_key, Stamp, Payload, letter, write_letter}

-- The labels (source, dataset, symbol) of a freshness gauge, and the two labels of a counter.
abbrev pub Gauge : Type 0
Gauge = String × (String × String)

abbrev pub Counter : Type 0
Counter = String × String

module _ {Row Key : Type 0} {key : Row → Key} (db : Database key) (dlq : Database letter_key) where
  pub record World : Type 0 where
    pub conn : db.Conn
    pub dead : dlq.Conn
    pub drawn : ℕ
    pub calls : ℕ
    pub freshness : Dict Gauge Time
    pub rows_total : Dict Counter ℕ
    pub reconnects_total : Dict Counter ℕ

  abbrev pub M {ℓ} : Type ℓ → Type ℓ
  M A = World → Result A × World

-- What the steps read from outside: ids and times of dead letters, the wall clock, and the class
-- name and the text of an exception, `bytes.decode` and `str` of a number.
pub record Ambient : Type 0 where
  pub stamps : ℕ → Stamp
  pub wall : Time
  pub type_name : Error → String
  pub message : Error → String
  pub decode : List ℕ → String
  pub str_int : ℕ → String

abbrev pub or_zero : Option ℕ → ℕ
or_zero none = 0
or_zero (some n) = n

abbrev pub done_writing : Result ℕ → Result (Unit {0})
done_writing (ok n) = ok tt
done_writing (raised e) = raised e

module _ {Row Key : Type 0} {key : Row → Key} {db : Database key} {dlq : Database letter_key} where
  abbrev pub return : {A : Type 0} → A → M db dlq A
  return a w = (ok a, w)

  abbrev pub raise : {A : Type 0} → Error → M db dlq A
  raise e w = (raised e, w)

  -- The outcome of a computation that touches nothing.
  abbrev pub lift : {A : Type 0} → Result A → M db dlq A
  lift r w = (r, w)

  -- try … except Exception
  abbrev pub caught :
      {A : Type 0} → Result A × World db dlq → (Error → M db dlq A) → Result A × World db dlq
  caught (ok a, w) handler = (ok a, w)
  caught (raised e, w) handler = handler e w

  abbrev pub catch : {A : Type 0} → M db dlq A → (Error → M db dlq A) → M db dlq A
  catch m handler w = caught (m w) handler

  infixl 5 ◌>>=◌ ◌>>◌
  abbrev pub bind_result :
      {A B : Type 0} → Result A × World db dlq → (A → M db dlq B) → Result B × World db dlq
  bind_result (ok a, w) f = f a w
  bind_result (raised e, w) f = (raised e, w)

  abbrev pub ◌>>=◌ : {A B : Type 0} → M db dlq A → (A → M db dlq B) → M db dlq B
  ◌>>=◌ m f w = bind_result (m w) f

  abbrev pub ◌>>◌ : {B : Type 0} → M db dlq (Unit {0}) → M db dlq B → M db dlq B
  ◌>>◌ m k = m >>= λ _. k

  -- copy_into_hypertable on the engine of the step.
  unfoldable pub write : String → List Row → M db dlq ℕ
  write table rows w =
      let (r, c) = copy_into_hypertable db table rows w.conn in (r, record w { conn = c })

  -- metrics.source_freshness_seconds.labels(…).set(…)
  abbrev pub set_freshness : Gauge → Time → M db dlq (Unit {0})
  set_freshness g t w = (ok tt, record w { freshness = insert g t w.freshness })

  -- `for sym in {r[0] for r in rows}: … .set(time.time())`
  unfoldable pub mark_fresh : Time → (source dataset : String) → List String → M db dlq (Unit {0})
  mark_fresh t source dataset [] w = (ok tt, w)
  mark_fresh t source dataset (sym ∷ symbols) w =
      mark_fresh t source dataset symbols
        (record w { freshness = insert (source, (dataset, sym)) t w.freshness })

  -- metrics.ingest_rows_total.labels(…).inc(n)
  abbrev pub inc_rows : Counter → ℕ → M db dlq (Unit {0})
  inc_rows c n w =
      (ok tt, record w { rows_total = insert c (or_zero (lookup c w.rows_total) + n) w.rows_total })

  -- metrics.ws_reconnects_total.labels(…).inc()
  abbrev pub inc_reconnects : Counter → M db dlq (Unit {0})
  inc_reconnects c w = (
    ok tt,
    record w {
      reconnects_total = insert c (or_zero (lookup c w.reconnects_total) + 1) w.reconnects_total;
    },
  )

  -- A call of a client outside: `answers n` is the outcome of the call number `n`.
  unfoldable pub request : {A : Type 0} → (ℕ → Result A) → M db dlq A
  request answers w = (answers w.calls, record w { calls = suc w.calls })

  -- write_to_dead_letter
  unfoldable pub dead_letter_as :
      Ambient
      → (source endpoint : String) → Option String
      → Payload
      → (error_type error_msg : String) → M db dlq (Unit {0})
  dead_letter_as amb source endpoint symbol payload error_type error_msg w =
      let l =
        letter amb.decode (amb.stamps w.drawn) source endpoint symbol payload error_type error_msg
          0 in
      let (r, c) = write_letter dlq l w.dead in
      (done_writing r, record w { dead = c; drawn = suc w.drawn })

  -- write_to_dead_letter for an exception that a step catches.
  unfoldable pub dead_letter :
      Ambient → (source endpoint : String) → Option String → Payload → Error → M db dlq (Unit {0})
  dead_letter amb source endpoint symbol payload e =
      dead_letter_as amb source endpoint symbol payload (amb.type_name e) (amb.message e)

  -- A block that returns has come through each of its steps.
  pub bind_result-ok :
      {A B : Type 0} (r : Result A × World db dlq) (f : A → M db dlq B) (b : B) (w : World db dlq)
      → bind_result r f ≡ (ok b, w)
      → (a : A) × (w' : World db dlq) × (r ≡ (ok a, w')) × (f a w' ≡ (ok b, w))
  bind_result-ok (ok a, w') f b w h = (a, w', refl, h)
  bind_result-ok (raised e, w') f b w h = cc

  pub return-ok :
      {A : Type 0} (a b : A) (w w' : World db dlq) → return a w ≡ (ok b, w') → (a ≡ b) × (w ≡ w')
  return-ok {A = A} a b w w' h = (cc, ap (λ (p : Result A × World db dlq). p.1) h)

  -- Dead letters and gauges leave the target tables alone.
  pub dead_letter-conn :
      (amb : Ambient) (source endpoint : String) (symbol : Option String) (payload : Payload)
      (e : Error) (w : World db dlq)
      → (dead_letter amb source endpoint symbol payload e w).1.conn ≡ w.conn
  unfolding dead_letter dead_letter_as
  dead_letter-conn amb source endpoint symbol payload e w = refl

  pub dead_letter-calls :
      (amb : Ambient) (source endpoint : String) (symbol : Option String) (payload : Payload)
      (e : Error) (w : World db dlq)
      → (dead_letter amb source endpoint symbol payload e w).1.calls ≡ w.calls
  unfolding dead_letter dead_letter_as
  dead_letter-calls amb source endpoint symbol payload e w = refl

  pub mark_fresh-conn :
      (t : Time) (source dataset : String) (symbols : List String) (w : World db dlq)
      → (mark_fresh t source dataset symbols w).1.conn ≡ w.conn
  unfolding mark_fresh
  mark_fresh-conn t source dataset [] w = refl
  mark_fresh-conn t source dataset (sym ∷ symbols) w = mark_fresh-conn t source dataset symbols _

  pub write-conn :
      (table : String) (rows : List Row) (w : World db dlq)
      → (write table rows w).1.conn ≡ (copy_into_hypertable db table rows w.conn).1
  unfolding write
  write-conn table rows w = refl

  pub write-result :
      (table : String) (rows : List Row) (w : World db dlq)
      → (write table rows w).0 ≡ (copy_into_hypertable db table rows w.conn).0
  unfolding write
  write-result table rows w = refl
