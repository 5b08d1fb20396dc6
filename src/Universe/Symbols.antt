-- ===== src/Universe/Symbols.antt =====
-- The table symbols, as ingest/universe/snapshot.py and ingest/universe/tier1.py keep it. The
-- statements of PostgreSQL are parameters, with their documented behaviour as laws. A set of symbols
-- is a list; the order in which a loop goes through a set is that of the list.
use shortfire.Prelude.{
  ℕ, String, Bool, true, false, not, Option, none, some, List, [], ◌∷◌, ◌≡◌, Result, ok, raised,
  database_error, if◌then◌else◌,
}
use shortfire.Prelude.Keys.{◌==◌, eq_string, contains, difference}
use shortfire.Prelude.Times.{Time}
use shortfire.Prelude.Texts.{replace}

-- A row of the table symbols, with the columns that are written or read.
pub record SymbolRow : Type 0 where
  pub mexc_native_symbol : String
  pub first_seen_at : Time
  pub tier : ℕ
  pub delisted_at : Option Time

-- INSERT … ON CONFLICT (symbol) DO UPDATE SET delisted_at = NULL, on the row of the symbol
abbrev pub upserted : String → Time → Option SymbolRow → Option SymbolRow
upserted native now none =
    some (record { mexc_native_symbol = native; first_seen_at = now; tier = 2; delisted_at = none })
upserted native now (some r) = some (record r { delisted_at = none })

abbrev pub delisted_since : Time → Option Time → Option Time
delisted_since now none = some now
delisted_since now (some t) = some t

-- UPDATE symbols SET delisted_at = now() WHERE symbol = :s AND delisted_at IS NULL
abbrev pub delisted : Time → Option SymbolRow → Option SymbolRow
delisted now none = none
delisted now (some r) = some (record r { delisted_at = delisted_since now r.delisted_at })

abbrev pub tier_of : ℕ → Bool → Option Time → ℕ → ℕ
tier_of new true none old = new
tier_of new true (some t) old = old
tier_of new false d old = old

-- UPDATE symbols SET tier = … WHERE … AND delisted_at IS NULL, on a row for which the test is `hit`
abbrev pub tiered : ℕ → Bool → Option SymbolRow → Option SymbolRow
tiered new hit none = none
tiered new hit (some r) = some (record r { tier = tier_of new hit r.delisted_at r.tier })

-- The table symbols, with a statement for each one that the code sends; `none` is one that raises.
-- `now()` is the time of the transaction.
pub record SymbolTable : Type 1 where
  pub State : Type 0
  pub row : State → String → Option SymbolRow
  pub upsert : (symbol native : String) → Time → State → Option State
  pub soft_delete : String → Time → State → Option State
  pub set_tier : ℕ → (String → Bool) → State → Option State
  pub row-upsert :
      (symbol native : String) (now : Time) (s s' : State)
      → upsert symbol native now s ≡ some s'
      → (k : String) → row s' k ≡ (if symbol == k then upserted native now (row s k) else row s k)
  pub row-soft_delete :
      (symbol : String) (now : Time) (s s' : State)
      → soft_delete symbol now s ≡ some s'
      → (k : String) → row s' k ≡ (if symbol == k then delisted now (row s k) else row s k)
  pub row-set_tier :
      (new : ℕ) (hit : String → Bool) (s s' : State)
      → set_tier new hit s ≡ some s'
      → (k : String) → row s' k ≡ tiered new (hit k) (row s k)

-- sym.replace("/USDT:USDT", "_USDT")
abbrev pub native_symbol : String → String
native_symbol sym = replace "/USDT:USDT" "_USDT" sym

infixl 5 ◌>>=◌
abbrev pub ◌>>=◌ : {State Out : Type 0} → Option State → (State → Option Out) → Option Out
none >>= next = none
some state >>= next = next state

module _ (table : SymbolTable) where
  -- `for sym in symbols: await session.execute(…)`
  unfoldable pub execute_all :
      (String → table.State → Option table.State) → List String → table.State → Option table.State
  execute_all statement [] s = some s
  execute_all statement (sym ∷ symbols) s =
      statement sym s >>= λ s'. execute_all statement symbols s'

  -- The session: its statements and the commit, or a rollback and the exception.
  abbrev pub committed : table.State → Option table.State → Result (Unit {0}) × table.State
  committed s none = (raised database_error, s)
  committed s (some s') = (ok tt, s')

  unfoldable pub update_symbols :
      Time → (today yesterday : List String) → table.State → Result (Unit {0}) × table.State
  update_symbols now today yesterday s = committed s (
      execute_all (λ sym. table.upsert sym (native_symbol sym) now) (difference today yesterday) s
      >>= λ s'. execute_all (λ sym. table.soft_delete sym now) (difference yesterday today) s')

  -- The two updates of recompute_tier1, of one transaction.
  unfoldable pub set_tiers : List String → table.State → Result (Unit {0}) × table.State
  set_tiers [] s = (ok tt, s)
  set_tiers (sym ∷ symbols) s = committed s (
      table.set_tier 1 (λ k. contains k (sym ∷ symbols)) s >>= λ s'.
      table.set_tier 2 (λ k. not (contains k (sym ∷ symbols))) s')

  -- `top` is the query on the candles, for its LIMIT.
  unfoldable pub recompute_tier1 :
      (top : ℕ → Result (List String)) (top_n : ℕ) → table.State → Result (Unit {0}) × table.State
  recompute_tier1 top top_n s = after_query (top top_n) s
    where
      after_query : Result (List String) → table.State → Result (Unit {0}) × table.State
      after_query (raised e) s = (raised e, s)
      after_query (ok top_set) s = set_tiers top_set s
