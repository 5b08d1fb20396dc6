-- ===== src/Universe/Tickers.antt =====
-- filter_qualifying_tickers of ingest/universe/snapshot.py.
use shortfire.Prelude.{
  ℕ, suc, ◌*◌, String, Bool, true, Option, none, some, List, [], ◌∷◌, ◌≡◌, ◌↔◌, sym, inl, inr,
  Holds, if◌then◌else◌, Bool-cases, ap,
}
use shortfire.Prelude.Decimals.{Decimal, pos, unit, lt_dec, ◌<ℤ◌}
use shortfire.Prelude.Dicts.{Dict}
use shortfire.Prelude.Texts.{has_suffix}
use mathlib.Core.Path.{subst, subst⁻¹}
use native.Mathlib.Omega.{arith}

-- A number of an answer: absent or None, one that `Decimal` does not read, or its value.
pub data Field : Type 0 where
  absent unreadable : Field
  number : Decimal → Field

pub record Ticker : Type 0 where
  pub quote_volume : Field
  pub last : Field

pub record Info : Type 0 where
  pub volume_24h_usd : Decimal
  pub price_usd : Option Decimal
  pub is_qualifying : Bool

-- QUALIFYING_VOLUME_USD
abbrev pub qualifying_volume : Decimal
qualifying_volume = pos (500_000 * unit)

abbrev pub volume_of : Field → Decimal
volume_of absent = pos 0
volume_of unreadable = pos 0
volume_of (number d) = d

abbrev pub price_of : Field → Option Decimal
price_of absent = none
price_of unreadable = none
price_of (number d) = some d

abbrev pub info_of : Ticker → Info
info_of t = record {
  volume_24h_usd = volume_of t.quote_volume;
  price_usd = price_of t.last;
  is_qualifying = lt_dec qualifying_volume (volume_of t.quote_volume);
}

-- The keys of a dict are different, so each round of the loop adds an entry at the end.
unfoldable pub filter_qualifying_tickers : Dict String Ticker → Dict String Info
filter_qualifying_tickers [] = []
filter_qualifying_tickers ((sym, ticker) ∷ tickers) =
    let rest = filter_qualifying_tickers tickers in
    if has_suffix ":USDT" sym then (sym, info_of ticker) ∷ rest else rest

-- qualifying.keys()
abbrev pub symbols_of : {V : Type 0} → Dict String V → List String
symbols_of [] = []
symbols_of (entry ∷ entries) = entry.0 ∷ symbols_of entries

unfoldable pub count_qualifying : Dict String Info → ℕ
count_qualifying [] = 0
count_qualifying (entry ∷ entries) =
    let rest = count_qualifying entries in if entry.1.is_qualifying then suc rest else rest

abbrev pub IsListedAs : Dict String Ticker → String → Info → Type 0
IsListedAs tickers name info =
    (t : Ticker) × (Holds (name, t) tickers
      × ((has_suffix ":USDT" name ≡ true) × (info ≡ info_of t)))

there :
    (tickers : Dict String Ticker) (x name : String) (t : Ticker) (info : Info)
    → IsListedAs tickers name info
    → IsListedAs ((x, t) ∷ tickers) name info
there tickers x name t info (u, (m, rest)) = (u, (inr m, rest))

listed :
    (tickers : Dict String Ticker) (name : String) (info : Info)
    → Holds (name, info) (filter_qualifying_tickers tickers)
    → IsListedAs tickers name info
unfolding filter_qualifying_tickers
listed [] name info h = absurd h
listed ((x, t) ∷ tickers) name info h = elim (Bool-cases (has_suffix ":USDT" x)) [
  | inl u ↦ elim (rw u at h) [
    | inl e ↦
        let same : x ≡ name = ap (λ (y : String × Info). y.0) e in
        let kept : info_of t ≡ info = ap (λ (y : String × Info). y.1) e in
        (t, (inl (λ i. (same i, t)), (subst (λ n. has_suffix ":USDT" n ≡ true) same u, sym kept)))
    | inr m ↦ there tickers x name t info (listed tickers name info m)
  ]
  | inr other ↦ there tickers x name t info (listed tickers name info (rw other at h))
]

keeps :
    (tickers : Dict String Ticker) (name : String) (t : Ticker)
    → Holds (name, t) tickers
    → has_suffix ":USDT" name ≡ true
    → Holds (name, info_of t) (filter_qualifying_tickers tickers)
unfolding filter_qualifying_tickers
keeps [] name t h u = absurd h
keeps ((x, t') ∷ tickers) name t (inl e) u =
    let same : x ≡ name = ap (λ (y : String × Ticker). y.0) e in
    let usdt : has_suffix ":USDT" x ≡ true = subst⁻¹ (λ n. has_suffix ":USDT" n ≡ true) same u in
    rw usdt (inl (ap (λ (y : String × Ticker). (y.0, info_of y.1)) e))
keeps ((x, t') ∷ tickers) name t (inr m) u = elim (Bool-cases (has_suffix ":USDT" x)) [
  | inl usdt ↦ rw usdt (inr (keeps tickers name t m u))
  | inr other ↦ rw other (keeps tickers name t m u)
]

lt_dec_iff : (a b : Decimal) → (lt_dec a b ≡ true) ↔ (a <ℤ b)
lt_dec_iff a b = ground arith

-- The filter gives exactly the tickers of USDT-margined perpetuals, each with its own volume and
-- price, and one qualifies exactly if its volume is above 500 000.
pub filter_iff :
    (tickers : Dict String Ticker) (name : String) (info : Info)
    → (Holds (name, info) (filter_qualifying_tickers tickers) ↔ IsListedAs tickers name info)
      × (IsListedAs tickers name info
          → (info.is_qualifying ≡ true) ↔ (pos (500_000 * unit) <ℤ info.volume_24h_usd))
filter_iff tickers name info = (
  (
    listed tickers name info,
    λ (t, (m, (u, e))).
        subst (λ i. Holds (name, i) (filter_qualifying_tickers tickers)) (sym e)
          (keeps tickers name t m u),
  ),
  λ (t, (m, (u, e))).
      subst⁻¹ (λ (i : Info). (i.is_qualifying ≡ true) ↔ (pos (500_000 * unit) <ℤ i.volume_24h_usd))
        e (lt_dec_iff qualifying_volume (volume_of t.quote_volume)),
)
