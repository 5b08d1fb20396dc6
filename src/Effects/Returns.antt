-- ===== src/Effects/Returns.antt =====
-- Steps that return if the server of the tables answers, and the dead letters, which raise.
use shortfire.Prelude.{
  String, ◌≡◌, ◌∙◌, refl, ap, Option, List, [], ◌∷◌, Result, Error, ok, raised, length, suc, ℕ,
  database_error,
}
use shortfire.Prelude.Times.{Time}
use shortfire.Storage.{Database}
use shortfire.Storage.Laws.{IsUp, copy_total}
use shortfire.DeadLetter.Laws.{write_letter-raises}
use shortfire.DeadLetter.{letter_key, Payload}
use shortfire.Effects.{
  World, M, Ambient, bind_result, caught, write, mark_fresh, dead_letter, dead_letter_as,
  done_writing, write-result,
}

module _ {Row Key : Type 0} {key : Row → Key} {db : Database key} {dlq : Database letter_key} where
  abbrev pub Returns : {A : Type 0} → Result A × World db dlq → Type 0
  Returns {A = A} r = (a : A) × ((w : World db dlq) × (r ≡ (ok a, w)))

  pub bind-Returns :
      {A B : Type 0} (r : Result A × World db dlq) (f : A → M db dlq B)
      → Returns r
      → ((a : A) (w : World db dlq) → Returns (f a w))
      → Returns (bind_result r f)
  bind-Returns (ok a, w) f h k = k a w
  bind-Returns (raised e, w) f h k = cc

  pub catch-Returns :
      {A : Type 0} (r : Result A × World db dlq) (handler : Error → M db dlq A)
      → ((e : Error) (w : World db dlq) → Returns (handler e w))
      → Returns (caught r handler)
  catch-Returns (ok a, w) handler h = (a, (w, refl))
  catch-Returns (raised e, w) handler h = h e w

  pub ok-Returns : {A : Type 0} (r : Result A × World db dlq) (a : A) → r.0 ≡ ok a → Returns r
  ok-Returns (x, w) a h = (a, (w, ap (λ y. (y, w)) h))

  pub write-Returns :
      (up : IsUp db) (table : String) (rows : List Row) (w : World db dlq)
      → Returns (write table rows w)
  write-Returns up table rows w =
      ok-Returns (write table rows w) (length rows)
        (write-result table rows w ∙ copy_total db up table rows w.conn)

  pub mark_fresh-Returns :
      (t : Time) (source dataset : String) (symbols : List String) (w : World db dlq)
      → Returns (mark_fresh t source dataset symbols w)
  unfolding mark_fresh
  mark_fresh-Returns t source dataset [] w = (tt, (w, refl))
  mark_fresh-Returns t source dataset (s ∷ symbols) w =
      mark_fresh-Returns t source dataset symbols _

  -- A dead letter raises, and changes no table.
  pub dead_letter_as-raises :
      (amb : Ambient) (source endpoint : String) (symbol : Option String) (payload : Payload)
      (error_type error_msg : String) (w : World db dlq)
      → dead_letter_as amb source endpoint symbol payload error_type error_msg w
        ≡ (raised database_error, record w { drawn = suc w.drawn })
  unfolding dead_letter_as
  dead_letter_as-raises amb source endpoint symbol payload error_type error_msg w =
      ap
        (λ (p : Result ℕ × dlq.Conn).
          (done_writing p.0, record w { dead = p.1; drawn = suc w.drawn }))
        (write_letter-raises dlq _ w.dead)

  pub dead_letter-raises :
      (amb : Ambient) (source endpoint : String) (symbol : Option String) (payload : Payload)
      (e : Error) (w : World db dlq)
      → dead_letter amb source endpoint symbol payload e w
        ≡ (raised database_error, record w { drawn = suc w.drawn })
  unfolding dead_letter
  dead_letter-raises amb source endpoint symbol payload e w =
      dead_letter_as-raises amb source endpoint symbol payload (amb.type_name e) (amb.message e) w
