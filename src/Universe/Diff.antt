-- ===== src/Universe/Diff.antt =====
-- What the job does to the table symbols.
use shortfire.Prelude.{
  String, Bool, true, false, not, ◌&&◌, Option, none, some, List, [], ◌∷◌, ◌≡◌, refl, sym, ◌∙◌, ap,
  inl, inr, Result, Error, ok, raised, if◌then◌else◌, Bool-cases,
}
use shortfire.Prelude.Keys.{◌==◌, eq_string, contains, difference, contains-difference}
use shortfire.Prelude.Times.{Time}
use shortfire.Universe.Symbols.{
  SymbolRow, upserted, delisted_since, delisted, SymbolTable, native_symbol, ◌>>=◌, execute_all,
  committed, update_symbols,
}
use mathlib.Core.Path.{subst}

pub >>=-eq-some :
    {State Out : Type 0} (m : Option State) (f : State → Option Out) (b : Out)
    → (m >>= f) ≡ some b
    → (a : State) × (m ≡ some a) × (f a ≡ some b)
>>=-eq-some none f b h = cc
>>=-eq-some (some a) f b h = (a, refl, h)

module _ (table : SymbolTable) (statement : String → table.State → Option table.State)
    (f : String → Option SymbolRow → Option SymbolRow)
    (law : (x : String) (s s' : table.State)
      → statement x s ≡ some s'
      → (k : String) → table.row s' k ≡ (if x == k then f x (table.row s k) else table.row s k))
    (twice : (k : String) (r : Option SymbolRow) → f k (f k r) ≡ f k r) where
  -- A loop of statements that change the row of their symbol changes the rows of its symbols.
  execute_all-row :
      (symbols : List String) (s s' : table.State)
      → execute_all table statement symbols s ≡ some s'
      → (k : String)
      → table.row s' k ≡ (if contains k symbols then f k (table.row s k) else table.row s k)
  unfolding execute_all
  execute_all-row [] s s' h k = let e : s ≡ s' = cc in ap (λ t. table.row t k) (sym e)
  execute_all-row (x ∷ symbols) s s' h k =
      let (s₁, first, rest) =
        >>=-eq-some (statement x s) (λ t. execute_all table statement symbols t) s' h in
      let ih = execute_all-row symbols s₁ s' rest k in
      let here = law x s s₁ first k in
      elim (Bool-cases (x == k)) [
        | inl e ↦
            let same : x ≡ k = (eq_string.eq_test_iff x k).0 e in
            let now : table.row s₁ k ≡ f k (table.row s k) =
              rw e at here ∙ ap (λ y. f y (table.row s k)) same in
            rw e (elim (Bool-cases (contains k symbols)) [
              | inl m ↦ rw m at ih ∙ ap (f k) now ∙ twice k (table.row s k)
              | inr m ↦ rw m at ih ∙ now
            ])
        | inr e ↦
            let kept : table.row s₁ k ≡ table.row s k = rw e at here in
            rw e (subst (λ r. table.row s' k ≡ (if contains k symbols then f k r else r)) kept ih)
      ]

upserted_twice :
    (native : String) (now : Time) (r : Option SymbolRow)
    → upserted native now (upserted native now r) ≡ upserted native now r
upserted_twice native now none = refl
upserted_twice native now (some r) = refl

delisted_twice :
    (now : Time) (r : Option SymbolRow) → delisted now (delisted now r) ≡ delisted now r
delisted_twice now none = refl
delisted_twice now (some r) = ap (λ d. some (record r { delisted_at = d })) (since r.delisted_at)
  where
    since : (d : Option Time) → delisted_since now (delisted_since now d) ≡ delisted_since now d
    since none = refl
    since (some t) = refl

module _ (table : SymbolTable) where
  pub committed-ok :
      (s s' : table.State) (o : Option table.State)
      → committed table s o ≡ (ok tt, s')
      → o ≡ some s'
  committed-ok s s' none h = cc
  committed-ok s s' (some t) h = ap (λ (r : Result (Unit {0}) × table.State). some r.1) h

  -- What an update makes of the row of a symbol that is new, that is gone, or neither.
  abbrev pub changed : Time → String → (is_new is_gone : Bool) → Option SymbolRow → Option SymbolRow
  changed now k true gone r = upserted (native_symbol k) now r
  changed now k false true r = delisted now r
  changed now k false false r = r

  combined :
      (now : Time) (k : String) (t y : Bool) (r r₁ r₂ : Option SymbolRow)
      → r₁ ≡ (if t && not y then upserted (native_symbol k) now r else r)
      → r₂ ≡ (if y && not t then delisted now r₁ else r₁)
      → r₂ ≡ changed now k (t && not y) (y && not t) r
  combined now k true true r r₁ r₂ a b = b ∙ a
  combined now k true false r r₁ r₂ a b = b ∙ a
  combined now k false true r r₁ r₂ a b = b ∙ ap (delisted now) a
  combined now k false false r r₁ r₂ a b = b ∙ a

  pub update_symbols-row :
      (now : Time) (today yesterday : List String) (s s' : table.State)
      → update_symbols table now today yesterday s ≡ (ok tt, s')
      → (k : String)
      → table.row s' k
        ≡ changed now k
            (contains k today && not (contains k yesterday))
            (contains k yesterday && not (contains k today))
            (table.row s k)
  unfolding update_symbols
  update_symbols-row now today yesterday s s' h k =
      let (s₁, added, removed) =
        >>=-eq-some
          (execute_all table (λ sym. table.upsert sym (native_symbol sym) now)
            (difference today yesterday) s)
          (λ t. execute_all table (λ sym. table.soft_delete sym now) (difference yesterday today) t)
          s' (committed-ok s s' _ h) in
      let first =
        execute_all-row table (λ sym. table.upsert sym (native_symbol sym) now)
          (λ x. upserted (native_symbol x) now)
          (λ x t t' e. table.row-upsert x (native_symbol x) now t t' e)
          (λ x. upserted_twice (native_symbol x) now) (difference today yesterday) s s₁ added k in
      let second =
        execute_all-row table (λ sym. table.soft_delete sym now) (λ x. delisted now)
          (λ x t t' e. table.row-soft_delete x now t t' e) (λ x. delisted_twice now)
          (difference yesterday today) s₁ s' removed k in
      let a = contains-difference k today yesterday in
      let b = contains-difference k yesterday today in
      combined now k (contains k today) (contains k yesterday) (table.row s k) (table.row s₁ k) _
        (rw a at first) (rw b at second)

  -- A transaction that raises changes nothing.
  pub update_symbols-raised :
      (now : Time) (today yesterday : List String) (s : table.State) (e : Error)
      → (update_symbols table now today yesterday s).0 ≡ raised e
      → (update_symbols table now today yesterday s).1 ≡ s
  unfolding update_symbols
  update_symbols-raised now today yesterday s e = undone _
    where
      undone :
          (o : Option table.State)
          → (committed table s o).0 ≡ raised e
          → (committed table s o).1 ≡ s
      undone none h = refl
      undone (some t) h = cc
