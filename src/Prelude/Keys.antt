-- ===== src/Prelude/Keys.antt =====
-- Equality tests: an interface with instances for numbers, texts, pairs and options.
use shortfire.Prelude.Tests.{nat_eq, nat_eq_iff, if◌then◌else◌, Bool-cases}
use text.Mathlib.TextEquality.{eq_iff}
use shortfire.Prelude.Decimals.{Decimal, pos_part, neg_part, eq_of_parts}
use Prim.Native.Nat.{ℕ, ◌+◌}
use text.Mathlib.Text.{◌==◌ as str_eq}
use Prim.Native.String.{String}
use mathlib.Core.Path.{◌≡◌, refl, ap, subst}
use mathlib.Core.Logic.{◌↔◌, ◌⊎◌, ◌≢◌, inl, inr}
use mathlib.Core.Bool.{Bool, true, false, not, ◌&&◌, ◌||◌}
use mathlib.Core.Option.{Option, none, some, some-injective}
use mathlib.Core.List.{List, [], ◌∷◌}
use shortfire.Prelude.Lists.{Holds}
use native.Mathlib.Omega.{arith}

pub record Equality {ℓ} (A : Type ℓ) : Type ℓ where
  pub eq_test : A → A → Bool
  pub eq_test_iff : (a b : A) → (eq_test a b ≡ true) ↔ (a ≡ b)

infix 50 ◌==◌
abbrev pub ◌==◌ {ℓ} : {A : Type ℓ} ⦃e : Equality A⦄ → A → A → Bool
◌==◌ ⦃e⦄ = e.eq_test

instance abbrev pub eq_nat : Equality ℕ
eq_nat = record { eq_test = nat_eq; eq_test_iff = nat_eq_iff }

instance abbrev pub eq_string : Equality String
eq_string = record { eq_test = str_eq; eq_test_iff = eq_iff }

abbrev pub decimal_eq : Decimal → Decimal → Bool
decimal_eq a b = nat_eq (pos_part a + neg_part b) (pos_part b + neg_part a)

pub decimal_eq_iff : (a b : Decimal) → (decimal_eq a b ≡ true) ↔ (a ≡ b)
decimal_eq_iff a b =
    let parts = nat_eq_iff (pos_part a + neg_part b) (pos_part b + neg_part a) in
    (
      λ h. eq_of_parts a b (parts.0 h),
      λ h. parts.1 (subst (λ c. pos_part a + neg_part c ≡ pos_part c + neg_part a) h refl),
    )

instance abbrev pub eq_decimal : Equality Decimal
eq_decimal = record { eq_test = decimal_eq; eq_test_iff = decimal_eq_iff }

abbrev pub pair_eq {α β} :
    {A : Type α} {B : Type β} → Equality A → Equality B → A × B → A × B → Bool
pair_eq e f (a, b) (c, d) = e.eq_test a c && f.eq_test b d

pub pair_eq_iff {α β} :
    {A : Type α} {B : Type β} (e : Equality A) (f : Equality B) (p q : A × B)
    → (pair_eq e f p q ≡ true) ↔ (p ≡ q)
pair_eq_iff e f (a, b) (c, d) = ground (arith, e.eq_test_iff a c, f.eq_test_iff b d)

instance abbrev pub eq_pair {α β} :
    {A : Type α} {B : Type β} ⦃e : Equality A⦄ ⦃f : Equality B⦄ → Equality (A × B)
eq_pair ⦃e⦄ ⦃f⦄ = record { eq_test = pair_eq e f; eq_test_iff = pair_eq_iff e f }

abbrev pub option_eq {α} : {A : Type α} → Equality A → Option A → Option A → Bool
option_eq e none none = true
option_eq e (some a) (some b) = e.eq_test a b
option_eq e none (some b) = false
option_eq e (some a) none = false

pub option_eq_iff {α} :
    {A : Type α} (e : Equality A) (a b : Option A) → (option_eq e a b ≡ true) ↔ (a ≡ b)
option_eq_iff e none none = (λ h. refl, λ h. refl)
option_eq_iff e (some a) (some b) =
    (λ h. ap some ((e.eq_test_iff a b).0 h), λ h. (e.eq_test_iff a b).1 (some-injective a b h))
option_eq_iff e none (some b) = (λ h. cc, λ h. cc)
option_eq_iff e (some a) none = (λ h. cc, λ h. cc)

instance abbrev pub eq_option {α} : {A : Type α} ⦃e : Equality A⦄ → Equality (Option A)
eq_option ⦃e⦄ = record { eq_test = option_eq e; eq_test_iff = option_eq_iff e }

-- `x in s` for a set that is kept as a list, and `s.add(x)`.
module _ {ℓ} {A : Type ℓ} ⦃e : Equality A⦄ where
  abbrev pub contains : A → List A → Bool
  contains a [] = false
  contains a (x ∷ xs) = x == a || contains a xs

  abbrev pub add : A → List A → List A
  add a xs = if contains a xs then xs else a ∷ xs

  -- `s - t`
  abbrev pub difference : List A → List A → List A
  difference [] t = []
  difference (x ∷ xs) t = let rest = difference xs t in if contains x t then rest else x ∷ rest

  contains-own :
      (a b : A) (xs : List A) (t : Bool)
      → (a == b) ≡ t
      → contains a xs ≡ true
      → contains b xs ≡ (t || contains b xs)
  contains-own a b xs false p h = refl
  contains-own a b xs true p h = subst (λ x. contains x xs ≡ true) ((e.eq_test_iff a b).0 p) h

  pub contains-add : (a b : A) (xs : List A) → contains b (add a xs) ≡ (a == b || contains b xs)
  contains-add a b xs = elim (Bool-cases (contains a xs)) [
    | inr out ↦ rw out
    | inl held ↦ rw held (contains-own a b xs (a == b) refl held)
  ]

  pub contains-difference :
      (a : A) (xs t : List A) → contains a (difference xs t) ≡ (contains a xs && not (contains a t))
  contains-difference a [] t = refl
  contains-difference a (x ∷ xs) t = ground (arith, e.eq_test_iff x a, contains-difference a xs t)

module _ {A : Type 0} ⦃e : Equality A⦄ where
  pub same_or_apart : (a b : A) → (a ≡ b) ⊎ (a ≢ b)
  same_or_apart a b = elim (Bool-cases (a == b)) [
    | inl t ↦ inl ((e.eq_test_iff a b).0 t)
    | inr f ↦ inr (λ same. cc (f, (e.eq_test_iff a b).1 same))
  ]

  pub Holds-decided : (a : A) (xs : List A) → Holds a xs ⊎ (¬ Holds a xs)
  Holds-decided a [] = inr (λ m. m)
  Holds-decided a (x ∷ xs) = elim (same_or_apart x a) [
    | inl same ↦ inl (inl same)
    | inr apart ↦ elim (Holds-decided a xs) [
      | inl m ↦ inl (inr m)
      | inr away ↦ inr (λ m. elim m [ inl same ↦ apart same | inr later ↦ away later ])
    ]
  ]

  pub contains-Holds : (a : A) (xs : List A) → contains a xs ≡ true → Holds a xs
  contains-Holds a [] h = cc
  contains-Holds a (x ∷ xs) h = elim (same_or_apart x a) [
    | inl same ↦ inl same
    | inr apart ↦ elim (Bool-cases (x == a)) [
      | inl t ↦ absurd (apart ((e.eq_test_iff x a).0 t))
      | inr f ↦ inr (contains-Holds a xs (rw f at h))
    ]
  ]

  pub contains_iff : (a : A) (xs : List A) → (contains a xs ≡ true) ↔ Holds a xs
  contains_iff a xs = (contains-Holds a xs, held xs)
    where
      held : (ys : List A) → Holds a ys → contains a ys ≡ true
      held [] m = absurd m
      held (y ∷ ys) (inl same) = let t = (e.eq_test_iff y a).1 same in rw t refl
      held (y ∷ ys) (inr m) = elim (Bool-cases (y == a)) [
        | inl t ↦ rw t refl
        | inr f ↦ rw f (held ys m)
      ]
