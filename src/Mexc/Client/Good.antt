-- ===== src/Mexc/Client/Good.antt =====
-- What comes of a request: all the rows of the answer, or an exception.
use shortfire.Prelude.{
  ℕ, suc, String, ◌≡◌, refl, sym, ◌∙◌, ap, Option, none, some, List, [], ◌∷◌, ◌++◌, Result, ok,
  raised, inl, inr, Result-cases, database_error,
}
use mathlib.Core.List.{append_assoc, append-nil}
use shortfire.Storage.{Database}
use shortfire.DeadLetter.{letter_key, text}
use shortfire.Effects.{World, M, Ambient, bind_result, request}
use shortfire.Effects.Returns.{dead_letter-raises}
use shortfire.Retry.{Tenacity, mexc_retry}
use shortfire.Mexc.Client.{call_exchange, read_row, read_rows, fetch_rows}

abbrev pub joined : {A : Type 0} → Result A → Option (List A) → Option (List A)
joined (ok a) (some rest) = some (a ∷ rest)
joined (ok a) none = none
joined (raised e) rest = none

-- The values of the rows, if each of them can be read.
abbrev pub read_all : {Raw A : Type 0} → (Raw → Result A) → List Raw → Option (List A)
read_all read [] = some []
read_all read (row ∷ rows) = joined (read row) (read_all read rows)

abbrev pub or_lost : {A : Type 0} → List A → Option (List A) → Result (List A)
or_lost values none = raised database_error
or_lost values (some rest) = ok (values ++ rest)

-- The outcome of one request.
abbrev pub outcome : {Raw A : Type 0} → (Raw → Result A) → Result (List Raw) → Result (List A)
outcome read (raised e) = raised database_error
outcome read (ok rows) = or_lost [] (read_all read rows)

or_lost-joined :
    {A : Type 0} (values : List A) (a : A) (rest : Option (List A))
    → or_lost (values ++ a ∷ []) rest ≡ or_lost values (joined (ok a) rest)
or_lost-joined values a none = refl
or_lost-joined values a (some rest) = ap ok (append_assoc values (a ∷ []) rest)

module _ {Row Key Raw A : Type 0} {key : Row → Key} (db : Database key) (dlq : Database letter_key)
    (amb : Ambient) (endpoint symbol : String) (str_row : Raw → String)
    (read : Raw → Result A) where
  read_rows-reads :
      (rows : List Raw) (values : List A) (w : World db dlq)
      → let out = read_rows db dlq amb endpoint symbol str_row read rows values w in
        (out.0 ≡ or_lost values (read_all read rows)) × (out.1.calls ≡ w.calls)
  unfolding read_rows read_row
  read_rows-reads [] values w = (ap ok (sym (append-nil values)), refl)
  read_rows-reads (row ∷ rows) values w = elim (Result-cases (read row)) [
    | inr (x, e) ↦
        let lost =
          dead_letter-raises {db = db} {dlq = dlq} amb "mexc_native" endpoint (some symbol)
            (text (str_row row)) x w in
        rw (e, lost) (refl, refl)
    | inl (a, e) ↦
        let rest = read_rows-reads rows (values ++ a ∷ []) w in
        rw e (rest.0 ∙ or_lost-joined values a (read_all read rows), rest.1)
  ]

  abbrev once : (ℕ → Result (List Raw)) → M db dlq (List A)
  once answers w =
      bind_result (call_exchange db dlq amb endpoint symbol answers w)
        (λ rows. read_rows db dlq amb endpoint symbol str_row read rows [])

  once-outcome :
      (answers : ℕ → Result (List Raw)) (w : World db dlq)
      → ((once answers w).0 ≡ outcome read (answers w.calls))
        × ((once answers w).1.calls ≡ suc w.calls)
  unfolding call_exchange request
  once-outcome answers w = elim (Result-cases (answers w.calls)) [
    | inr (x, e) ↦
        let lost =
          dead_letter-raises {db = db} {dlq = dlq} amb "mexc_native" endpoint (some symbol)
            (text "") x (record w { calls = suc w.calls }) in
        rw (e, lost) (refl, refl)
    | inl (rows, e) ↦ rw e (read_rows-reads rows [] (record w { calls = suc w.calls }))
  ]

  -- It is no exception that the method is repeated for.
  ends :
      (tenacity : Tenacity) (m : M db dlq (List A)) (w : World db dlq) (r : Option (List A))
      → (m w).0 ≡ or_lost [] r
      → tenacity.call mexc_retry m w ≡ (or_lost [] r, (m w).1)
  ends tenacity m w none e =
      tenacity.call-other mexc_retry m w (m w).1 database_error
        (ap (λ (x : Result (List A)). (x, (m w).1)) e) refl
  ends tenacity m w (some l) e =
      tenacity.call-ok mexc_retry m w (m w).1 l (ap (λ (x : Result (List A)). (x, (m w).1)) e)

  outcome-lost : (r : Result (List Raw)) → (o : Option (List A)) × (outcome read r ≡ or_lost [] o)
  outcome-lost (raised e) = (none, refl)
  outcome-lost (ok rows) = (read_all read rows, refl)

  -- A method of the client makes exactly one request, whatever the exchange answers. It gives the
  -- values of all the rows of the answer, in their order; where one of them cannot be read, and where
  -- the request raises, it raises the error of the dead letter, and is not tried again.
  pub fetch_rows-once :
      (tenacity : Tenacity) (answers : ℕ → Result (List Raw)) (w : World db dlq)
      → let done = fetch_rows db dlq amb endpoint symbol str_row read tenacity answers w in
        (done.0 ≡ outcome read (answers w.calls)) × (done.1.calls ≡ suc w.calls)
  unfolding fetch_rows
  fetch_rows-once tenacity answers w =
      let (first, calls) = once-outcome answers w in
      let (o, same) = outcome-lost (answers w.calls) in
      let run = ends tenacity (once answers) w o (first ∙ same) in
      (
        ap (λ (p : Result (List A) × World db dlq). p.0) run ∙ sym same,
        ap (λ (p : Result (List A) × World db dlq). p.1.calls) run ∙ calls,
      )
