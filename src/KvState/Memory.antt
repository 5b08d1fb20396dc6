-- ===== src/KvState/Memory.antt =====
-- A list of rows as the table: an instance of the interface, on which the tests run.
use shortfire.Prelude.{
  ◌≤◌, String, Bool, true, false, ◌&&◌, ◌≡◌, ◌≢◌, refl, sym, inl, inr, Option, none, some, List, [],
  ◌∷◌, Holds, ok, leb, arith, if◌then◌else◌, Bool-cases, ◌↔◌,
}
use shortfire.Prelude.Keys.{◌==◌, eq_string}
use mathlib.Core.Path.{subst}
use mathlib.Core.Option.{some-injective}
use shortfire.KvState.Binds.{has_unbound}
use shortfire.KvState.{Column, Run, IsStateOf, RunTable}

abbrev pub is_some : Option Column → Bool
is_some none = false
is_some (some c) = true

abbrev pub matches : String → Run → Bool
matches j r = r.job_id == j && is_some r.kv_state

some_iff : (o : Option Column) → (is_some o ≡ true) ↔ (o ≢ none)
some_iff none = (λ h. cc, λ h. absurd (h refl))
some_iff (some c) = (λ h e. cc, λ h. refl)

matches_iff : (j : String) (r : Run) → (matches j r ≡ true) ↔ IsStateOf j r
matches_iff j r =
    let same = eq_string.eq_test_iff r.job_id j in
    let present = some_iff r.kv_state in
    (
      λ h. record { of_job = same.0 (ground arith); has_state = present.0 (ground arith) },
      λ s. let a = same.1 s.of_job in let b = present.1 s.has_state in ground arith,
    )

abbrev pub newer : Run → Option Run → Run
newer r none = r
newer r (some x) = if leb x.ts r.ts then r else x

-- The newest of the rows of the job.
unfoldable pub newest_of : String → List Run → Option Run
newest_of j [] = none
newest_of j (r ∷ rs) =
    let rest = newest_of j rs in if matches j r then some (newer r rest) else rest

abbrev Newest : String → List Run → Option Run → Type 0
Newest j rs none = (x : Run) → Holds x rs → ¬ IsStateOf j x
Newest j rs (some r) =
    Holds r rs × (IsStateOf j r × ((x : Run) → Holds x rs → IsStateOf j x → x.ts ≤ r.ts))

skip :
    (j : String) (r : Run) (rs : List Run) (o : Option Run)
    → (¬ IsStateOf j r)
    → Newest j rs o
    → Newest j (r ∷ rs) o
skip j r rs none apart h =
    λ x m s. elim m [ inl e ↦ apart (subst (IsStateOf j) (sym e) s) | inr later ↦ h x later s ]
skip j r rs (some y) apart (there, (is, first)) = (inr there, (is, below))
  where
    below : (x : Run) → Holds x (r ∷ rs) → IsStateOf j x → x.ts ≤ y.ts
    below x (inl e) s = absurd (apart (subst (IsStateOf j) (sym e) s))
    below x (inr m) s = first x m s

take_newer :
    (j : String) (r : Run) (rs : List Run) (o : Option Run)
    → IsStateOf j r
    → Newest j rs o
    → Newest j (r ∷ rs) (some (newer r o))
take_newer j r rs none is h = (inl refl, (is, below))
  where
    below : (x : Run) → Holds x (r ∷ rs) → IsStateOf j x → x.ts ≤ r.ts
    below x (inl e) s = subst (λ (y : Run). y.ts ≤ r.ts) e (omega arith)
    below x (inr m) s = absurd (h x m s)
take_newer j r rs (some y) is (there, (is_y, first)) = elim (Bool-cases (leb y.ts r.ts)) [
  | inl e ↦
      let chosen : newer r (some y) ≡ r = rw e in
      subst (λ z. Newest j (r ∷ rs) (some z)) (sym chosen)
        (inl refl, (is, λ x m s. below r x (omega arith) (ground arith) m s))
  | inr e ↦
      let chosen : newer r (some y) ≡ y = rw e in
      subst (λ z. Newest j (r ∷ rs) (some z)) (sym chosen)
        (inr there, (is_y, λ x m s. below y x (ground arith) (omega arith) m s))
]
  where
    below : (z x : Run) → r.ts ≤ z.ts → y.ts ≤ z.ts → Holds x (r ∷ rs) → IsStateOf j x → x.ts ≤ z.ts
    below z x a b (inl e) s = subst (λ (v : Run). v.ts ≤ z.ts) e a
    below z x a b (inr m) s = let c = first x m s in omega arith

newest_of-Newest : (j : String) (rs : List Run) → Newest j rs (newest_of j rs)
unfolding newest_of
newest_of-Newest j [] = λ x m. absurd m
newest_of-Newest j (r ∷ rs) = elim (Bool-cases (matches j r)) [
  | inl e ↦
      rw e (take_newer j r rs (newest_of j rs) ((matches_iff j r).0 e) (newest_of-Newest j rs))
  | inr e ↦
      rw e
        (skip j r rs (newest_of j rs) (λ s. cc (e, (matches_iff j r).1 s)) (newest_of-Newest j rs))
]

pub newest_of-none :
    (j : String) (s : List Run) (r : Run)
    → ok (newest_of j s) ≡ ok none
    → Holds r s
    → ¬ IsStateOf j r
newest_of-none j s r h =
    let same : newest_of j s ≡ none = cc in subst (Newest j s) same (newest_of-Newest j s) r

pub newest_of-some :
    (j : String) (s : List Run) (r : Run) → ok (newest_of j s) ≡ ok (some r) → Newest j s (some r)
newest_of-some j s r h =
    let same : newest_of j s ≡ some r = cc in subst (Newest j s) same (newest_of-Newest j s)

pub rows-cons :
    (sql : String) (r : Run) (s s' : List Run)
    → (if has_unbound sql then none else some (r ∷ s)) ≡ some s'
    → s' ≡ r ∷ s
rows-cons sql r s s' h = elim (Bool-cases (has_unbound sql)) [
  | inl e ↦ let never = rw e at h in cc
  | inr e ↦ sym (some-injective _ _ (rw e at h))
]

pub insert_none :
    (sql : String) (r : Run) (s : List Run)
    → has_unbound sql ≡ true
    → (if has_unbound sql then none else some (r ∷ s)) ≡ none
insert_none sql r s e = rw e refl

abbrev pub run_list : RunTable
run_list = record {
  Conn = List Run;
  rows = λ s. s;
  newest = λ j s. ok (newest_of j s);
  insert = λ sql r s. if has_unbound sql then none else some (r ∷ s);
  newest-none = newest_of-none;
  newest-some = newest_of-some;
  rows-insert = rows-cons;
  insert-unbound = insert_none;
}
