-- ===== src/Universe/Tiers.antt =====
-- Which symbols are of the first tier after recompute_tier1.
use shortfire.Prelude.{
  ℕ, ◌≤◌, String, Bool, true, false, not, Option, none, some, List, [], ◌∷◌, length, Holds, All,
  All-Holds, IsDistinct, length-le_of_Holds, ◌≡◌, ◌≢◌, refl, sym, ◌∙◌, ap, inl, inr, Result, ok,
  if◌then◌else◌, Option-cases, Option-cases, arith,
}
use shortfire.Prelude.Keys.{eq_string, contains, contains-Holds}
use shortfire.Prelude.Times.{Time}
use shortfire.Universe.Symbols.{SymbolRow, tier_of, tiered, SymbolTable, set_tiers, recompute_tier1}
use mathlib.Core.Option.{some-injective}
use shortfire.Universe.Diff.{>>=-eq-some, committed-ok}

module _ (table : SymbolTable) where
  abbrev pub tier_in : Bool → ℕ
  tier_in top = if top then 1 else 2

  -- The row of a symbol after the choice: a listed one has its tier by the set, a delisted one is as it was.
  abbrev pub ranked : Bool → SymbolRow → Option Time → SymbolRow
  ranked top r none = record r { tier = tier_in top }
  ranked top r (some t) = r

  both_tiers :
      (top : Bool) (r : SymbolRow) (d : Option Time)
      → r.delisted_at ≡ d
      → tiered 2 (not top) (tiered 1 top (some r))
        ≡ some (record r { tier = tier_of 2 (not top) d (tier_of 1 top d r.tier) })
  both_tiers top r d e =
      ap (λ x. some (record r { tier = tier_of 2 (not top) x (tier_of 1 top x r.tier) })) e

  tiered_both :
      (top : Bool) (r : SymbolRow) (d : Option Time)
      → r.delisted_at ≡ d
      → tiered 2 (not top) (tiered 1 top (some r)) ≡ some (ranked top r d)
  tiered_both true r none e = both_tiers true r none e
  tiered_both false r none e = both_tiers false r none e
  tiered_both true r (some t) e = both_tiers true r (some t) e
  tiered_both false r (some t) e = both_tiers false r (some t) e

  set_tiers-row :
      (top : List String) (s s' : table.State)
      → top ≢ []
      → set_tiers table top s ≡ (ok tt, s')
      → (k : String)
      → table.row s' k ≡ tiered 2 (not (contains k top)) (tiered 1 (contains k top) (table.row s k))
  unfolding set_tiers
  set_tiers-row [] s s' ne h k = absurd (ne refl)
  set_tiers-row (x ∷ top) s s' ne h k =
      let (s₁, first, second) =
        >>=-eq-some (table.set_tier 1 (λ k. contains k (x ∷ top)) s)
          (λ t. table.set_tier 2 (λ k. not (contains k (x ∷ top))) t) s'
          (committed-ok table s s' _ h) in
      table.row-set_tier 2 (λ k. not (contains k (x ∷ top))) s₁ s' second k
      ∙ ap (tiered 2 (not (contains k (x ∷ top))))
          (table.row-set_tier 1 (λ k. contains k (x ∷ top)) s s₁ first k)

  pub recompute-row :
      (query : ℕ → Result (List String)) (top_n : ℕ) (top : List String) (s s' : table.State)
      → query top_n ≡ ok top
      → top ≢ []
      → recompute_tier1 table query top_n s ≡ (ok tt, s')
      → (k : String)
      → table.row s' k ≡ tiered 2 (not (contains k top)) (tiered 1 (contains k top) (table.row s k))
  unfolding recompute_tier1
  recompute-row query top_n top s s' e ne h k = set_tiers-row top s s' ne (rw e at h) k

  -- Where the query gives a set that is not empty and the updates go through, a listed symbol is of the
  -- first tier exactly if it is in the set, of the second if not, and a delisted one is as it was.
  pub tier1_exact :
      (query : ℕ → Result (List String)) (top_n : ℕ) (top : List String) (s s' : table.State)
      → query top_n ≡ ok top
      → top ≢ []
      → recompute_tier1 table query top_n s ≡ (ok tt, s')
      → (k : String) (r : SymbolRow) → table.row s k ≡ some r
      → table.row s' k ≡ some (ranked (contains k top) r r.delisted_at)
  tier1_exact query top_n top s s' e ne h k r there =
      recompute-row query top_n top s s' e ne h k
      ∙ ap (λ o. tiered 2 (not (contains k top)) (tiered 1 (contains k top) o)) there
      ∙ tiered_both (contains k top) r r.delisted_at refl

  -- A symbol that is listed and of the first tier.
  abbrev pub IsTier1 : table.State → String → Type 0
  IsTier1 s k =
      (r : SymbolRow) × ((table.row s k ≡ some r) × ((r.delisted_at ≡ none) × (r.tier ≡ 1)))

  first_tier :
      (top : Bool) (r r' : SymbolRow) (d : Option Time)
      → r.delisted_at ≡ d
      → ranked top r d ≡ r'
      → r'.delisted_at ≡ none
      → r'.tier ≡ 1
      → top ≡ true
  first_tier true r r' d a e b c = refl
  first_tier false r r' none a e b c = absurd (omega (arith, ap (λ (x : SymbolRow). x.tier) e, c))
  first_tier false r r' (some t) a e b c =
      let listed : r.delisted_at ≡ none = ap (λ (x : SymbolRow). x.delisted_at) e ∙ b in cc

  IsTier1-Holds :
      (top : List String) (s s' : table.State) (k : String)
      → top ≢ []
      → set_tiers table top s ≡ (ok tt, s')
      → IsTier1 s' k
      → Holds k top
  IsTier1-Holds top s s' k ne h (r', (there, (listed, one))) =
      let ran = sym (set_tiers-row top s s' ne h k) ∙ there in
      elim (Option-cases (table.row s k)) [
        | inl e ↦ let never : none ≡ some r' = rw e at ran in cc
        | inr (r, e) ↦
            let same : some (ranked (contains k top) r r.delisted_at) ≡ some r' =
              sym (tiered_both (contains k top) r r.delisted_at refl) ∙ (rw e at ran) in
            contains-Holds k top (
              first_tier (contains k top) r r' r.delisted_at refl (some-injective _ _ same) listed
                one)
      ]

  -- With a query that respects its LIMIT, after a run that was given a set at most `top_n` symbols are
  -- listed and of the first tier.
  pub tier1_bound :
      (query : ℕ → Result (List String)) (top_n : ℕ) (top : List String) (s s' : table.State)
      → ((n : ℕ) (l : List String) → query n ≡ ok l → length l ≤ n)
      → query top_n ≡ ok top
      → top ≢ []
      → recompute_tier1 table query top_n s ≡ (ok tt, s')
      → (ks : List String) → IsDistinct ks
      → All (IsTier1 s') ks
      → length ks ≤ top_n
  unfolding recompute_tier1
  tier1_bound query top_n top s s' limit e ne h ks distinct all =
      let ran : set_tiers table top s ≡ (ok tt, s') = rw e at h in
      let within =
        length-le_of_Holds ks top distinct
          (λ k m. IsTier1-Holds top s s' k ne ran (All-Holds (IsTier1 s') k ks all m)) in
      omega (arith, limit top_n top e, within)
