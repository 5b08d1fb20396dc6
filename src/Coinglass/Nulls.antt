-- ===== src/Coinglass/Nulls.antt =====
-- A null ratio: the column long_short_ratio of raw_coinglass_lsr is NOT NULL, and a staging table made
-- with LIKE takes its NOT NULL constraints over.
use shortfire.Prelude.{
  ℕ, String, ◌≡◌, ap, ◌∙◌, inl, inr, Option, none, some, List, [], ◌∷◌, map, Holds, Result, ok,
  raised, database_error, Option-cases,
}
use shortfire.Prelude.Decimals.{Decimal}
use shortfire.Prelude.Times.{from_ms}
use shortfire.Storage.{Database, ◌>>=◌, statements, copy_into_hypertable}
use shortfire.DeadLetter.{letter_key}
use shortfire.Effects.{World, Ambient, write-conn, write-result}
use shortfire.Retry.{Tenacity}
use shortfire.Coinglass.Schemas.{
  Point, point, point_key, LongShortAccountRatioRow, LongShortAccountRatioResponse, lsr_records,
}
use shortfire.Coinglass.Client.{Outside, fetch_long_short_account_ratio}
use shortfire.Coinglass.Fetchers.{write_answer, fetch_and_write_lsr}

abbrev pub LsrRow : Type 0
LsrRow = Point (Option Decimal)

-- The database refuses a COPY with a null in the column.
abbrev pub IsNotNull : Database (point_key {V = Option Decimal}) → Type 0
IsNotNull db =
    (rs : List LsrRow) (r : LsrRow) (s : db.Conn)
    → Holds r rs
    → r.value ≡ none
    → db.copy_records "raw_coinglass_lsr" rs s ≡ none

lsr_row : String → LongShortAccountRatioRow → LsrRow
lsr_row symbol row = point symbol (from_ms row.time) row.long_short_ratio

Holds-map :
    (symbol : String) (row : LongShortAccountRatioRow) (rows : List LongShortAccountRatioRow)
    → Holds row rows
    → Holds (lsr_row symbol row) (map (lsr_row symbol) rows)
Holds-map symbol row [] m = absurd m
Holds-map symbol row (x ∷ rows) (inl e) = inl (ap (lsr_row symbol) e)
Holds-map symbol row (x ∷ rows) (inr m) = inr (Holds-map symbol row rows m)

module _ (db : Database (point_key {V = Option Decimal})) where
  statements-rejected :
      (t : String) (rs : List LsrRow) (s : db.Conn)
      → ((s' : db.Conn) → db.copy_records t rs s' ≡ none)
      → statements db t rs s ≡ none
  unfolding statements
  statements-rejected t rs s h = elim (Option-cases (db.create_staging t s)) [
    | inl e ↦ rw e
    | inr (s₁, e) ↦ elim (Option-cases (db.truncate t s₁)) [
      | inl f ↦ rw (e, ◌>>=◌, f)
      | inr (s₂, f) ↦ rw (e, ◌>>=◌, f, ◌>>=◌, h s₂)
    ]
  ]

  copy-rejected :
      (t : String) (rs : List LsrRow) (r : LsrRow) (s : db.Conn)
      → Holds r rs
      → ((s' : db.Conn) → db.copy_records t rs s' ≡ none)
      → copy_into_hypertable db t rs s ≡ (raised database_error, s)
  unfolding copy_into_hypertable
  copy-rejected t [] r s m h = absurd m
  copy-rejected t (x ∷ rs) r s m h = rw (statements-rejected t (x ∷ rs) s h)

module _ {Json : Type 0} (dlq : Database letter_key) (amb : Ambient) (out : Outside Json)
    (tenacity : Tenacity) (db : Database (point_key {V = Option Decimal})) where
  -- Where the database refuses nulls in the column, one row of an answer whose ratio is null makes
  -- the writer raise, and no row of the answer is written.
  pub lsr_null_loses_batch :
      (refuses : IsNotNull db) (symbol_unified coinglass_symbol interval : String)
      (w w' : World db dlq) (resp : LongShortAccountRatioResponse) (row : LongShortAccountRatioRow)
      → fetch_long_short_account_ratio db dlq amb out tenacity coinglass_symbol interval w
        ≡ (ok (some resp), w')
      → Holds row resp.entries
      → row.long_short_ratio ≡ none
      → let done =
          fetch_and_write_lsr dlq amb out tenacity db symbol_unified coinglass_symbol interval w in
        (done.0 ≡ raised database_error) × (done.1.conn ≡ w'.conn)
  unfolding fetch_and_write_lsr write_answer lsr_row
  lsr_null_loses_batch refuses symbol_unified coinglass_symbol interval w w' resp row fetched m
        null =
      let rs = lsr_records symbol_unified resp in
      let here : Holds (lsr_row symbol_unified row) rs =
        Holds-map symbol_unified row resp.entries m in
      let rejected =
        copy-rejected db "raw_coinglass_lsr" rs (lsr_row symbol_unified row) w'.conn here
          (λ s'. refuses rs (lsr_row symbol_unified row) s' here null) in
      rw fetched (
        write-result "raw_coinglass_lsr" rs w' ∙ ap (λ (p : Result ℕ × db.Conn). p.0) rejected,
        write-conn "raw_coinglass_lsr" rs w' ∙ ap (λ (p : Result ℕ × db.Conn). p.1) rejected,
      )
