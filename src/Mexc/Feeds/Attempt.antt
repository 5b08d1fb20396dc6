-- ===== src/Mexc/Feeds/Attempt.antt =====
-- What the shared step of the feeds does, on each of its outcomes.
use shortfire.Prelude.{
  ℕ, ◌+◌, ◌≤◌, String, Option, some, List, [], ◌∷◌, ◌≡◌, true, refl, ap, ◌∙◌, inl, Result, Error,
  ok, raised, arith,
}
use shortfire.Prelude.Keys.{◌==◌, eq_string, eq_pair}
use shortfire.Prelude.Dicts.{lookup, lookup-insert}
use shortfire.Storage.{Database, copy_into_hypertable}
use shortfire.Storage.Laws.{IsUp, copy-stored, first_write_wins, copy_total}
use shortfire.DeadLetter.{letter_key, Payload}
use shortfire.Effects.{
  World, Ambient, Counter, or_zero, bind_result, caught, write, dead_letter, dead_letter_as,
  dead_letter-conn, dead_letter-calls, write-conn,
}
use shortfire.Mexc.Feeds.{Feed, recorded, attempt}

module _ {Row Key : Type 0} {key : Row → Key} (db : Database key) (dlq : Database letter_key)
    (amb : Ambient) (feed : Feed) (symbol_of : Row → String) (symbol : Option String)
    (payload : Payload) where
  stored-conn :
      (r : Row) (p : Result ℕ × World db dlq)
      → (bind_result p (λ n. recorded db dlq amb feed symbol_of r)).1.conn ≡ p.1.conn
  stored-conn r (ok n, w) = refl
  stored-conn r (raised e, w) = refl

  handled-conn :
      (p : Result (Unit {0}) × World db dlq)
      → (caught p (λ e. dead_letter amb "mexc_native" feed.endpoint symbol payload e)).1.conn
        ≡ p.1.conn
  handled-conn (ok u, w) = refl
  handled-conn (raised e, w) = dead_letter-conn amb "mexc_native" feed.endpoint symbol payload e w

  abbrev tried : Result Row → World db dlq → Result (Unit {0}) × World db dlq
  tried r w = attempt db dlq amb feed symbol_of symbol payload r w

  -- The tables after a record that was built, and after one that was not.
  pub attempt-conn :
      (r : Row) (w : World db dlq)
      → (tried (ok r) w).1.conn ≡ (copy_into_hypertable db feed.table (r ∷ []) w.conn).1
  unfolding attempt
  attempt-conn r w =
      handled-conn
        (bind_result (write feed.table (r ∷ []) w) (λ n. recorded db dlq amb feed symbol_of r))
      ∙ stored-conn r (write feed.table (r ∷ []) w)
      ∙ write-conn feed.table (r ∷ []) w

  pub attempt-conn_raised : (e : Error) (w : World db dlq) → (tried (raised e) w).1.conn ≡ w.conn
  unfolding attempt
  attempt-conn_raised e w = handled-conn (raised e, w)

  -- Nothing that is in a table is lost.
  pub attempt-keeps :
      (r : Result Row) (w : World db dlq) (k : Key) (x : Row)
      → db.find w.conn feed.table k ≡ some x
      → db.find (tried r w).1.conn feed.table k ≡ some x
  attempt-keeps (ok r) w k x there =
      ap (λ c. db.find c feed.table k) (attempt-conn r w)
      ∙ first_write_wins db feed.table feed.table (r ∷ []) w.conn k x there
  attempt-keeps (raised e) w k x there =
      ap (λ c. db.find c feed.table k) (attempt-conn_raised e w) ∙ there

  -- A record that was built is in the table.
  pub attempt-stores :
      (up : IsUp db) (r : Row) (w : World db dlq)
      → (x : Row) × (db.find (tried (ok r) w).1.conn feed.table (key r) ≡ some x)
  attempt-stores up r w =
      let (x, e) =
        copy-stored db feed.table (r ∷ []) w.conn 1 r (copy_total db up feed.table (r ∷ []) w.conn)
          (inl refl) in
      (x, ap (λ c. db.find c feed.table (key r)) (attempt-conn r w) ∙ e)

  -- How many records of the feed were counted.
  abbrev pub count : World db dlq → ℕ
  count w = or_zero (lookup ("mexc_native", feed.dataset) w.rows_total)

  recorded-count :
      (r : Row) (w : World db dlq) → count (recorded db dlq amb feed symbol_of r w).1 ≡ count w + 1
  recorded-count r w =
      let c : Counter = ("mexc_native", feed.dataset) in
      let own : (c == c) ≡ true = (eq_pair.eq_test_iff c c).1 refl in
      let found = lookup-insert c c (count w + 1) w.rows_total in ap or_zero (rw own at found)

  stored-count :
      (r : Row) (p : Result ℕ × World db dlq)
      → count (bind_result p (λ n. recorded db dlq amb feed symbol_of r)).1 ≤ count p.1 + 1
  stored-count r (ok n, w) = omega (arith, recorded-count r w)
  stored-count r (raised e, w) = omega arith

  handled-count :
      (p : Result (Unit {0}) × World db dlq)
      → count (caught p (λ e. dead_letter amb "mexc_native" feed.endpoint symbol payload e)).1
        ≡ count p.1
  unfolding dead_letter dead_letter_as
  handled-count (ok u, w) = refl
  handled-count (raised e, w) = refl

  write-count : (rows : List Row) (w : World db dlq) → count (write feed.table rows w).1 ≡ count w
  unfolding write
  write-count rows w = refl

  pub attempt-count : (r : Result Row) (w : World db dlq) → count (tried r w).1 ≤ count w + 1
  unfolding attempt
  attempt-count (raised e) w = omega (arith, handled-count (raised e, w))
  attempt-count (ok r) w =
      let p =
        bind_result (write feed.table (r ∷ []) w) (λ n. recorded db dlq amb feed symbol_of r) in
      omega (
        arith,
        handled-count p,
        stored-count r (write feed.table (r ∷ []) w),
        write-count (r ∷ []) w,
      )

  write-calls : (rows : List Row) (w : World db dlq) → (write feed.table rows w).1.calls ≡ w.calls
  unfolding write
  write-calls rows w = refl

  stored-calls :
      (r : Row) (p : Result ℕ × World db dlq)
      → (bind_result p (λ n. recorded db dlq amb feed symbol_of r)).1.calls ≡ p.1.calls
  stored-calls r (ok n, w) = refl
  stored-calls r (raised e, w) = refl

  handled-calls :
      (p : Result (Unit {0}) × World db dlq)
      → (caught p (λ e. dead_letter amb "mexc_native" feed.endpoint symbol payload e)).1.calls
        ≡ p.1.calls
  handled-calls (ok u, w) = refl
  handled-calls (raised e, w) = dead_letter-calls amb "mexc_native" feed.endpoint symbol payload e w

  pub attempt-calls : (r : Result Row) (w : World db dlq) → (tried r w).1.calls ≡ w.calls
  unfolding attempt
  attempt-calls (raised e) w = handled-calls (raised e, w)
  attempt-calls (ok r) w =
      handled-calls
        (bind_result (write feed.table (r ∷ []) w) (λ n. recorded db dlq amb feed symbol_of r))
      ∙ stored-calls r (write feed.table (r ∷ []) w)
      ∙ write-calls (r ∷ []) w
