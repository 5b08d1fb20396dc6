-- ===== src/Coinglass/Records.antt =====
-- Which records the writers make of an answer.
use shortfire.Prelude.{
  ◌*◌, String, ◌≡◌, refl, sym, ap, ◌∙◌, ◌↔◌, ◌⊎◌, inl, inr, Option, none, some, List, [], ◌∷◌, ◌++◌,
  Holds, length, arith, Holds-append_left, Holds-append_right,
}
use shortfire.Prelude.Keys.{eq_string}
use shortfire.Prelude.Decimals.{Decimal}
use shortfire.Prelude.Dicts.{Dict, lookup}
use shortfire.Prelude.Times.{Time, from_ms}
use shortfire.Coinglass.Schemas.{
  Point, point, FundingRateListRow, LiquidationCoinHistoryRow, LiqRow, liq_row, liq_rows,
}
use shortfire.Coinglass.Fetchers.{agg_record, agg_records}
use mathlib.Core.Path.{subst}

module _ (mapping : Dict String String) (now : Time) where
  -- A record of the batch: of a symbol that a row of the answer maps to, with the rate of the row.
  pub record IsAttributed (rows : List FundingRateListRow) (p : Point Decimal) : Type 0 where
    pub row : FundingRateListRow
    pub unified : String
    pub rate : Decimal
    pub answered : Holds row rows
    pub mapped : lookup row.symbol mapping ≡ some unified
    pub rated : row.funding_rate ≡ some rate
    pub is_record : p ≡ point unified now rate

  later :
      (row : FundingRateListRow) (rows : List FundingRateListRow) (p : Point Decimal)
      → IsAttributed rows p
      → IsAttributed (row ∷ rows) p
  later row rows p a = record {
    row = a.row;
    unified = a.unified;
    rate = a.rate;
    answered = inr a.answered;
    mapped = a.mapped;
    rated = a.rated;
    is_record = a.is_record;
  }

  one :
      (o : Option String) (rate : Option Decimal) (p : Point Decimal)
      → Holds p (agg_record now o rate)
      → (unified : String) × ((r : Decimal) × ((o ≡ some unified)
            × (rate ≡ some r)
            × (p ≡ point unified now r)))
  one none rate p m = absurd m
  one (some u) none p m = absurd m
  one (some u) (some r) p (inl e) = (u, (r, (refl, refl, sym e)))
  one (some u) (some r) p (inr m) = absurd m

  made :
      (o : Option String) (rate : Option Decimal) (unified : String) (r : Decimal)
      → o ≡ some unified
      → rate ≡ some r
      → Holds (point unified now r) (agg_record now o rate)
  made o rate unified r e f = rw (e, f) (inl refl)

  split :
      (p : Point Decimal) (xs ys : List (Point Decimal))
      → Holds p (xs ++ ys)
      → Holds p xs ⊎ Holds p ys
  split p [] ys m = inr m
  split p (x ∷ xs) ys (inl e) = inl (inl e)
  split p (x ∷ xs) ys (inr m) = elim (split p xs ys m) [ inl a ↦ inl (inr a) | inr b ↦ inr b ]

  attributed :
      (rows : List FundingRateListRow) (p : Point Decimal)
      → Holds p (agg_records mapping now rows)
      → IsAttributed rows p
  unfolding agg_records
  attributed [] p m = absurd m
  attributed (row ∷ rows) p m =
      elim (split p (agg_record now (lookup row.symbol mapping) row.funding_rate)
        (agg_records mapping now rows) m) [
          | inl here ↦
              let (u, (r, (e, f, g))) = one (lookup row.symbol mapping) row.funding_rate p here in
              record {
                row = row;
                unified = u;
                rate = r;
                answered = inl refl;
                mapped = e;
                rated = f;
                is_record = g;
              }
          | inr there ↦ later row rows p (attributed rows p there)
        ]

  recorded :
      (rows : List FundingRateListRow) (row : FundingRateListRow) (unified : String) (r : Decimal)
      → Holds row rows
      → lookup row.symbol mapping ≡ some unified
      → row.funding_rate ≡ some r
      → Holds (point unified now r) (agg_records mapping now rows)
  unfolding agg_records
  recorded [] row unified r m e f = absurd m
  recorded (x ∷ rows) row unified r (inl same) e f = Holds-append_left (point unified now r) _ _ (
      made (lookup x.symbol mapping) x.funding_rate unified r
        (ap (λ (y : FundingRateListRow). lookup y.symbol mapping) same ∙ e)
        (ap (λ (y : FundingRateListRow). y.funding_rate) same ∙ f))
  recorded (x ∷ rows) row unified r (inr m) e f =
      Holds-append_right (point unified now r)
        (agg_record now (lookup x.symbol mapping) x.funding_rate) _
        (recorded rows row unified r m e f)

  -- The funding batch holds exactly the records of the rows whose symbol is mapped and whose rate
  -- is not null, each under the symbol that the row's own is mapped to.
  pub agg_records_iff :
      (rows : List FundingRateListRow) (p : Point Decimal)
      → Holds p (agg_records mapping now rows) ↔ IsAttributed rows p
  agg_records_iff rows p = (
    attributed rows p,
    λ a.
        subst (λ q. Holds q (agg_records mapping now rows)) (sym a.is_record)
          (recorded rows a.row a.unified a.rate a.answered a.mapped a.rated),
  )

-- One of the two records of a row.
abbrev pub IsSide : String → LiquidationCoinHistoryRow → LiqRow → Type 0
IsSide symbol row r =
    (r ≡ liq_row symbol (from_ms row.time) "long" row.liquidation_long_usd)
    ⊎ (r ≡ liq_row symbol (from_ms row.time) "short" row.liquidation_short_usd)

sides :
    (symbol : String) (rows : List LiquidationCoinHistoryRow) (r : LiqRow)
    → Holds r (liq_rows symbol rows)
    → (row : LiquidationCoinHistoryRow) × (Holds row rows × IsSide symbol row r)
unfolding liq_rows
sides symbol [] r m = absurd m
sides symbol (row ∷ rows) r (inl e) = (row, (inl refl, inl (sym e)))
sides symbol (row ∷ rows) r (inr (inl e)) = (row, (inl refl, inr (sym e)))
sides symbol (row ∷ rows) r (inr (inr m)) =
    let (x, (h, s)) = sides symbol rows r m in (x, (inr h, s))

both :
    (symbol : String) (rows : List LiquidationCoinHistoryRow) (row : LiquidationCoinHistoryRow)
    (r : LiqRow)
    → Holds row rows
    → IsSide symbol row r
    → Holds r (liq_rows symbol rows)
unfolding liq_rows
both symbol [] row r m s = absurd m
both symbol (x ∷ rows) row r (inl e) (inl s) = inl (
    ap
      (λ (y : LiquidationCoinHistoryRow).
        liq_row symbol (from_ms y.time) "long" y.liquidation_long_usd)
      e
    ∙ sym s)
both symbol (x ∷ rows) row r (inl e) (inr s) = inr (
    inl (
      ap
        (λ (y : LiquidationCoinHistoryRow).
          liq_row symbol (from_ms y.time) "short" y.liquidation_short_usd)
        e
      ∙ sym s))
both symbol (x ∷ rows) row r (inr m) s = inr (inr (both symbol rows row r m s))

twice :
    (symbol : String) (rows : List LiquidationCoinHistoryRow)
    → length (liq_rows symbol rows) ≡ 2 * length rows
unfolding liq_rows
twice symbol [] = refl
twice symbol (x ∷ rows) = omega (arith, twice symbol rows)

-- The liquidation records of an answer are exactly the long and the short one of each of its rows,
-- twice as many as there are rows.
pub liq_rows_iff :
    (symbol : String) (rows : List LiquidationCoinHistoryRow)
    → ((r : LiqRow)
        → Holds r (liq_rows symbol rows)
          ↔ ((row : LiquidationCoinHistoryRow) × (Holds row rows × IsSide symbol row r)))
      × (length (liq_rows symbol rows) ≡ 2 * length rows)
liq_rows_iff symbol rows =
    (λ r. (sides symbol rows r, λ (row, (m, s)). both symbol rows row r m s), twice symbol rows)
