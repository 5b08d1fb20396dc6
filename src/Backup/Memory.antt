-- ===== src/Backup/Memory.antt =====
-- A bucket in memory, on which the tests run: a list of entries, the last put first.
use shortfire.Prelude.{
  IsDistinct, ℕ, String, true, false, ◌≡◌, ◌≢◌, ◌↔◌, ◌⊎◌, refl, sym, ◌∙◌, ap, inl, inr, Option,
  none, some, List, [], ◌∷◌, Holds, Result, ok, raised, fetch_error, arith, if◌then◌else◌,
  Bool-cases,
}
use shortfire.Prelude.Keys.{◌==◌, eq_string}
use shortfire.Prelude.Dicts.{Dict, lookup}
use shortfire.Prelude.Texts.{has_prefix}
use shortfire.Backup.{Bucket}
use mathlib.Core.Path.{subst, subst⁻¹}

abbrev pub Entries : Type 0
Entries = Dict String ℕ

unfoldable pub without : String → List String → List String
without k [] = []
without k (x ∷ xs) = let rest = without k xs in if x == k then rest else x ∷ rest

-- Each key of the prefix once.
unfoldable pub keys : String → Entries → List String
keys p [] = []
keys p (entry ∷ entries) =
    let rest = keys p entries in
    if has_prefix p entry.0 then entry.0 ∷ without entry.0 rest else rest

unfoldable pub erase : String → Entries → Entries
erase k [] = []
erase k (entry ∷ entries) =
    let rest = erase k entries in if entry.0 == k then rest else entry ∷ rest

abbrev pub copied : String → Option ℕ → Entries → Result (Unit {0}) × Entries
copied t none s = (raised fetch_error, s)
copied t (some c) s = (ok tt, (t, c) ∷ s)

without-cons :
    (k x : String) (xs : List String)
    → ((x ≡ k) × (without k (x ∷ xs) ≡ without k xs))
      ⊎ ((x ≢ k) × (without k (x ∷ xs) ≡ x ∷ without k xs))
unfolding without
without-cons k x xs = elim (Bool-cases (x == k)) [
  | inl t ↦ inl ((eq_string.eq_test_iff x k).0 t, rw t refl)
  | inr f ↦ inr (λ e. cc (f, (eq_string.eq_test_iff x k).1 e), rw f refl)
]

Holds-without : (j k : String) (xs : List String) → Holds j (without k xs) → Holds j xs × (j ≢ k)
unfolding without
Holds-without j k [] h = absurd h
Holds-without j k (x ∷ xs) h = elim (without-cons k x xs) [
  | inl (e, drops) ↦
      let (m, apart) = Holds-without j k xs (subst (Holds j) drops h) in (inr m, apart)
  | inr (ne, stays) ↦ elim (subst (Holds j) stays h) [
    | inl same ↦ (inl same, λ e. ne (same ∙ e))
    | inr later ↦ let (m, apart) = Holds-without j k xs later in (inr m, apart)
  ]
]

without-Holds : (j k : String) (xs : List String) → Holds j xs → j ≢ k → Holds j (without k xs)
without-Holds j k [] m ne = absurd m
without-Holds j k (x ∷ xs) m ne = elim (without-cons k x xs) [
  | inl (e, drops) ↦
      subst (Holds j) (sym drops) (elim m [
        | inl same ↦ absurd (ne (sym same ∙ e))
        | inr later ↦ without-Holds j k xs later ne
      ])
  | inr (apart, stays) ↦
      subst (Holds j) (sym stays)
        (elim m [ inl same ↦ inl same | inr later ↦ inr (without-Holds j k xs later ne) ])
]

without-IsDistinct : (k : String) (xs : List String) → IsDistinct xs → IsDistinct (without k xs)
unfolding without
without-IsDistinct k [] d = tt
without-IsDistinct k (x ∷ xs) d = elim (without-cons k x xs) [
  | inl (e, drops) ↦ subst IsDistinct (sym drops) (without-IsDistinct k xs d.1)
  | inr (ne, stays) ↦
      subst IsDistinct (sym stays)
        (λ m. d.0 (Holds-without x k xs m).0, without-IsDistinct k xs d.1)
]

pub keys-IsDistinct : (p : String) (s : Entries) → IsDistinct (keys p s)
unfolding keys
keys-IsDistinct p [] = tt
keys-IsDistinct p (entry ∷ s) = elim (Bool-cases (has_prefix p entry.0)) [
  | inl t ↦ rw t (
    λ m. (Holds-without entry.0 entry.0 (keys p s) m).1 refl,
    without-IsDistinct entry.0 (keys p s) (keys-IsDistinct p s),
  )
  | inr f ↦ rw f (keys-IsDistinct p s)
]

abbrev pub IsListed : String → Entries → String → Type 0
IsListed p s k = (has_prefix p k ≡ true) × (lookup k s ≢ none)

lookup-cons :
    (k x : String) (c : ℕ) (s : Entries)
    → ((x ≡ k) × (lookup k ((x, c) ∷ s) ≡ some c))
      ⊎ ((x ≢ k) × (lookup k ((x, c) ∷ s) ≡ lookup k s))
unfolding lookup
lookup-cons k x c s = elim (Bool-cases (x == k)) [
  | inl t ↦ inl ((eq_string.eq_test_iff x k).0 t, rw t refl)
  | inr f ↦ inr (λ e. cc (f, (eq_string.eq_test_iff x k).1 e), rw f refl)
]

IsListed-later :
    (p x : String) (c : ℕ) (s : Entries) (k : String) → IsListed p s k → IsListed p ((x, c) ∷ s) k
IsListed-later p x c s k (under, here) = elim (lookup-cons k x c s) [
  | inl (e, l) ↦ (under, λ n. cc)
  | inr (ne, l) ↦ (under, λ n. here (sym l ∙ n))
]

IsListed-below :
    (p x : String) (c : ℕ) (s : Entries) (k : String)
    → IsListed p ((x, c) ∷ s) k
    → (x ≡ k) ⊎ ((x ≢ k) × IsListed p s k)
IsListed-below p x c s k (under, here) = elim (lookup-cons k x c s) [
  | inl (e, l) ↦ inl e
  | inr (ne, l) ↦ inr (ne, (under, λ n. here (l ∙ n)))
]

IsListed-here :
    (p x : String) (c : ℕ) (s : Entries) (k : String)
    → x ≡ k
    → has_prefix p x ≡ true
    → IsListed p ((x, c) ∷ s) k
IsListed-here p x c s k e t = elim (lookup-cons k x c s) [
  | inl (same, l) ↦ (subst (λ j. has_prefix p j ≡ true) e t, λ n. cc)
  | inr (ne, l) ↦ absurd (ne e)
]

module _ (p x : String) (c : ℕ) (s : Entries) (k : String)
    (ih : Holds k (keys p s) ↔ IsListed p s k) where
  keys-under : has_prefix p x ≡ true → Holds k (keys p ((x, c) ∷ s)) ↔ IsListed p ((x, c) ∷ s) k
  unfolding keys
  keys-under t = rw t (to, from)
    where
      to : Holds k (x ∷ without x (keys p s)) → IsListed p ((x, c) ∷ s) k
      to (inl e) = IsListed-here p x c s k e t
      to (inr m) = IsListed-later p x c s k (ih.0 (Holds-without k x (keys p s) m).0)

      from : IsListed p ((x, c) ∷ s) k → Holds k (x ∷ without x (keys p s))
      from l = elim (IsListed-below p x c s k l) [
        | inl e ↦ inl e
        | inr (ne, l') ↦ inr (without-Holds k x (keys p s) (ih.1 l') (λ e. ne (sym e)))
      ]

  keys-outside : has_prefix p x ≡ false → Holds k (keys p ((x, c) ∷ s)) ↔ IsListed p ((x, c) ∷ s) k
  unfolding keys
  keys-outside f = rw f (λ h. IsListed-later p x c s k (ih.0 h), from)
    where
      under : IsListed p ((x, c) ∷ s) k → has_prefix p k ≡ true
      under l = l.0

      from : IsListed p ((x, c) ∷ s) k → Holds k (keys p s)
      from l = elim (IsListed-below p x c s k l) [
        | inl e ↦
            let t : has_prefix p x ≡ true = subst⁻¹ (λ j. has_prefix p j ≡ true) e (under l) in cc
        | inr (ne, l') ↦ ih.1 l'
      ]

pub keys-exact : (p : String) (s : Entries) (k : String) → Holds k (keys p s) ↔ IsListed p s k
unfolding keys lookup
keys-exact p [] k = (λ h. absurd h, λ h. absurd (h.1 refl))
keys-exact p ((x, c) ∷ s) k = elim (Bool-cases (has_prefix p x)) [
  | inl t ↦ keys-under p x c s k (keys-exact p s k) t
  | inr f ↦ keys-outside p x c s k (keys-exact p s k) f
]

pub listed_keys :
    (p : String) (s : Entries) (ks : List String) → ok (keys p s) ≡ ok ks → keys p s ≡ ks
listed_keys p s ks h = cc

pub erase-key : (k : String) (s : Entries) → lookup k (erase k s) ≡ none
unfolding erase lookup
erase-key k [] = refl
erase-key k (entry ∷ s) = ground (arith, erase-key k s)

pub erase-other : (k j : String) (s : Entries) → j ≢ k → lookup j (erase k s) ≡ lookup j s
unfolding erase lookup
erase-other k j [] ne = refl
erase-other k j (entry ∷ s) ne =
    ground (
      arith,
      erase-other k j s ne,
      eq_string.eq_test_iff entry.0 k,
      eq_string.eq_test_iff entry.0 j,
    )

pub put-key : (k : String) (c : ℕ) (s : Entries) → lookup k ((k, c) ∷ s) ≡ some c
put-key k c s = elim (lookup-cons k k c s) [ inl (e, l) ↦ l | inr (ne, l) ↦ absurd (ne refl) ]

pub put-other : (k j : String) (c : ℕ) (s : Entries) → j ≢ k → lookup j ((k, c) ∷ s) ≡ lookup j s
put-other k j c s ne = elim (lookup-cons j k c s) [
  | inl (e, l) ↦ absurd (ne (sym e))
  | inr (apart, l) ↦ l
]

pub copied-target :
    (t : String) (o : Option ℕ) (s s' : Entries) → copied t o s ≡ (ok tt, s') → lookup t s' ≡ o
copied-target t none s s' h = cc
copied-target t (some c) s s' h =
    ap (λ (r : Result (Unit {0}) × Entries). lookup t r.1) (sym h) ∙ put-key t c s

pub copied-other :
    (t j : String) (o : Option ℕ) (s : Entries) → j ≢ t → lookup j (copied t o s).1 ≡ lookup j s
copied-other t j none s ne = refl
copied-other t j (some c) s ne = put-other t j c s ne

pub upload-done :
    (k : String) (c : ℕ) (s s' : Entries) → copied k (some c) s ≡ (ok tt, s') → lookup k s' ≡ some c
upload-done k c s s' h = copied-target k (some c) s s' h

abbrev pub erased : String → Entries → Result (Unit {0}) × Entries
erased k s = (ok tt, erase k s)

pub erase-done : (k : String) (s s' : Entries) → erased k s ≡ (ok tt, s') → lookup k s' ≡ none
erase-done k s s' h = ap (λ (r : Result (Unit {0}) × Entries). lookup k r.1) (sym h) ∙ erase-key k s

abbrev pub entry_list : Bucket
entry_list = record {
  State = Entries;
  Content = ℕ;
  object = λ s k. lookup k s;
  list_objects = λ p s. ok (keys p s);
  upload = λ k c s. copied k (some c) s;
  copy_object = λ t k s. copied t (lookup k s) s;
  delete_object = erased;
  list-exact = λ p s ks h k.
      subst (λ l. Holds k l ↔ ((has_prefix p k ≡ true) × (lookup k s ≢ none)))
        (listed_keys p s ks h) (keys-exact p s k);
  list-IsDistinct = λ p s ks h. subst IsDistinct (listed_keys p s ks h) (keys-IsDistinct p s);
  upload-key = upload-done;
  upload-other = put-other;
  copy-target = λ t k s s' h. copied-target t (lookup k s) s s' h;
  copy-other = λ t k j s ne. copied-other t j (lookup k s) s ne;
  delete-key = erase-done;
  delete-other = erase-other;
}
