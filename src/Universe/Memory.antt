-- ===== src/Universe/Memory.antt =====
-- The tables in memory: instances of the interfaces, on which the tests run.
use shortfire.Prelude.{
  ℕ, String, Bool, true, false, ◌≡◌, ◌≢◌, ◌↔◌, refl, sym, ◌∙◌, ap, inl, inr, Option, none, some,
  List, [], ◌∷◌, Holds, ok, if◌then◌else◌, Bool-cases,
}
use shortfire.Prelude.Keys.{◌==◌, eq_nat, eq_string, eq_pair}
use shortfire.Prelude.Decimals.{Decimal}
use shortfire.Prelude.Times.{Time}
use shortfire.Storage.Memory.{pick}
use shortfire.Storage.Listed.{Lists, listed}
use shortfire.Universe.Symbols.{SymbolRow, upserted, delisted, tiered, SymbolTable}
use shortfire.Universe.Snapshot.{Day, SnapshotRow, snapshot_key, snapshots_table, Snapshots}
use mathlib.Core.Path.{subst}
use mathlib.Core.Option.{some-injective}

abbrev pub Row : Type 0
Row = SnapshotRow Decimal

abbrev pub of_day : Day → Row → Bool
of_day d r = r.snapshot_date == d

unfoldable pub names : Day → List Row → List String
names d [] = []
names d (r ∷ rs) = let rest = names d rs in if of_day d r then r.symbol ∷ rest else rest

abbrev pub row_at : List Row → Day → String → Option Row
row_at rs d name = pick snapshot_key (d, name) rs

abbrev pub qualifies : Option Row → Bool
qualifies none = false
qualifies (some r) = r.is_qualifying

unfoldable pub keep : (String → Bool) → List String → List String
keep test [] = []
keep test (x ∷ xs) = let rest = keep test xs in if test x then x ∷ rest else rest

row_at-cons :
    (r : Row) (rs : List Row) (d : Day) (name : String)
    → row_at (r ∷ rs) d name ≡ (
        if of_day d r
        then (if r.symbol == name then some r else row_at rs d name)
        else row_at rs d name)
row_at-cons r rs d name = elim (Bool-cases (of_day d r)) [ inl t ↦ rw t refl | inr f ↦ rw f refl ]

names-exact :
    (d : Day) (rs : List Row) (name : String) → Holds name (names d rs) ↔ (row_at rs d name ≢ none)
unfolding names
names-exact d [] name = (λ h. absurd h, λ h. absurd (h refl))
names-exact d (r ∷ rs) name = elim (Bool-cases (of_day d r)) [
  | inr f ↦ rw f (names-exact d rs name)
  | inl t ↦ elim (Bool-cases (r.symbol == name)) [
    | inl e ↦ rw (t, e) (λ h n. cc, λ h. inl ((eq_string.eq_test_iff r.symbol name).0 e))
    | inr ne ↦
        let ih = names-exact d rs name in
        rw (t, ne)
          (
            λ h. elim h [
              | inl e ↦ cc (ne, (eq_string.eq_test_iff r.symbol name).1 e)
              | inr m ↦ ih.0 m
            ],
            λ h. inr (ih.1 h),
          )
  ]
]

keep-Holds :
    (test : String → Bool) (xs : List String) (name : String)
    → Holds name (keep test xs) ↔ (Holds name xs × (test name ≡ true))
unfolding keep
keep-Holds test [] name = (λ h. absurd h, λ h. h.0)
keep-Holds test (x ∷ xs) name =
    let ih = keep-Holds test xs name in
    elim (Bool-cases (test x)) [
      | inl t ↦ rw t (
        λ h. elim h [
          | inl e ↦ (inl e, subst (λ y. test y ≡ true) e t)
          | inr m ↦ let (n, u) = ih.0 m in (inr n, u)
        ],
        λ (h, u). elim h [ inl e ↦ inl e | inr m ↦ inr (ih.1 (m, u)) ],
      )
      | inr f ↦ rw f (
        λ h. let (n, u) = ih.0 h in (inr n, u),
        λ (h, u). elim h [
          | inl e ↦ absurd (let g = subst (λ y. test y ≡ false) e f in cc)
          | inr m ↦ ih.1 (m, u)
        ],
      )
    ]

abbrev pub Conn : Type 0
Conn = Lists Row

abbrev pub day_names : Day → Conn → List String
day_names d s = names d (s.tables snapshots_table)

abbrev pub good_names : Day → Conn → List String
good_names d s = keep (λ name. qualifies (row_at (s.tables snapshots_table) d name)) (day_names d s)

pub symbols_on-exact :
    (d : Day) (s : Conn) (l : List String)
    → ok (day_names d s) ≡ ok l
    → (name : String) → Holds name l ↔ (row_at (s.tables snapshots_table) d name ≢ none)
symbols_on-exact d s l h name =
    let same : day_names d s ≡ l = cc in
    subst (λ x. Holds name x ↔ (row_at (s.tables snapshots_table) d name ≢ none)) same
      (names-exact d (s.tables snapshots_table) name)

pub qualifying_on-exact :
    (d : Day) (s : Conn) (l : List String)
    → ok (good_names d s) ≡ ok l
    → (name : String)
    → Holds name l ↔ (
        (r : Row) × ((row_at (s.tables snapshots_table) d name ≡ some r)
          × (r.is_qualifying ≡ true)))
qualifying_on-exact d s l h name =
    let same : good_names d s ≡ l = cc in
    let rs = s.tables snapshots_table in
    let in_both = keep-Holds (λ x. qualifies (row_at rs d x)) (day_names d s) name in
    subst
      (λ x. Holds name x ↔ ((r : Row) × ((row_at rs d name ≡ some r) × (r.is_qualifying ≡ true))))
      same
      (
        λ m. good (row_at rs d name) refl (in_both.0 m).1,
        λ (r, (there, q)). in_both.1 ((names-exact d rs name).1 (λ n. cc), ap qualifies there ∙ q),
      )
  where
    good :
        (o : Option Row)
        → row_at (s.tables snapshots_table) d name ≡ o
        → qualifies o ≡ true
        → (r : Row) × ((row_at (s.tables snapshots_table) d name ≡ some r)
            × (r.is_qualifying ≡ true))
    good none e q = cc
    good (some r) e q = (r, (e, q))

abbrev pub snapshot_lists : Snapshots Decimal
snapshot_lists = record {
  db = listed snapshot_key;
  symbols_on = λ d s. ok (day_names d s);
  qualifying_on = λ d s. ok (good_names d s);
  symbols_on-exact = symbols_on-exact;
  qualifying_on-exact = qualifying_on-exact;
}

abbrev pub Rows : Type 0
Rows = String → Option SymbolRow

abbrev pub upsert : (symbol native : String) → Time → Rows → Option Rows
upsert symbol native now s = some (λ k. if symbol == k then upserted native now (s k) else s k)

abbrev pub soft_delete : String → Time → Rows → Option Rows
soft_delete symbol now s = some (λ k. if symbol == k then delisted now (s k) else s k)

abbrev pub set_tier : ℕ → (String → Bool) → Rows → Option Rows
set_tier new hit s = some (λ k. tiered new (hit k) (s k))

pub row-some : (f s' : Rows) → some f ≡ some s' → (k : String) → s' k ≡ f k
row-some f s' h k = ap (λ g. g k) (sym (some-injective f s' h))

abbrev pub symbol_rows : SymbolTable
symbol_rows = record {
  State = Rows;
  row = λ s k. s k;
  upsert = upsert;
  soft_delete = soft_delete;
  set_tier = set_tier;
  row-upsert = λ symbol native now s s' h. row-some _ s' h;
  row-soft_delete = λ symbol now s s' h. row-some _ s' h;
  row-set_tier = λ new hit s s' h. row-some _ s' h;
}
