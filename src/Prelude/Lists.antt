-- ===== src/Prelude/Lists.antt =====
-- Lists measured by native numbers, and membership by recursion.
use Prim.Native.Nat.{ℕ, zero, suc, ◌+◌, ◌-◌, ◌≤◌, min}
use mathlib.Core.Path.{◌≡◌, refl, sym, ◌∙◌, ap, subst}
use mathlib.Core.Logic.{◌⊎◌, inl, inr}
use mathlib.Core.List.{List, [], ◌∷◌, ◌++◌}
use native.Mathlib.Omega.{arith}

module _ {ℓ} {A : Type ℓ} where
  abbrev pub length : List A → ℕ
  length [] = 0
  length (x ∷ xs) = suc (length xs)

  abbrev pub take : ℕ → List A → List A
  take zero xs = []
  take (suc n) [] = []
  take (suc n) (x ∷ xs) = x ∷ take n xs

  abbrev pub drop : ℕ → List A → List A
  drop zero xs = xs
  drop (suc n) [] = []
  drop (suc n) (x ∷ xs) = drop n xs

  abbrev pub All {κ} : (A → Type κ) → List A → Type κ
  All P [] = Unit
  All P (x ∷ xs) = P x × All P xs

  pub length-append : (xs ys : List A) → length (xs ++ ys) ≡ length xs + length ys
  length-append [] ys = omega arith
  length-append (x ∷ xs) ys = omega (arith, length-append xs ys)

  pub take-append-drop : (n : ℕ) (xs : List A) → take n xs ++ drop n xs ≡ xs
  take-append-drop zero xs = refl
  take-append-drop (suc n) [] = refl
  take-append-drop (suc n) (x ∷ xs) = ap (◌∷◌ x) (take-append-drop n xs)

  pub length-drop : (n : ℕ) (xs : List A) → length (drop n xs) ≡ length xs - n
  length-drop zero xs = omega arith
  length-drop (suc n) [] = omega arith
  length-drop (suc n) (x ∷ xs) = omega (arith, length-drop n xs)

  pub length-take : (n : ℕ) (xs : List A) → length (take n xs) ≡ min n (length xs)
  length-take zero xs = omega arith
  length-take (suc n) [] = omega arith
  length-take (suc n) (x ∷ xs) = omega (arith, length-take n xs)

-- A member, at a place that is kept.
module _ {A : Type 0} where
  abbrev pub Holds : A → List A → Type 0
  Holds a [] = ⊥
  Holds a (x ∷ xs) = (x ≡ a) ⊎ Holds a xs

  pub Holds-append_left : (a : A) (xs ys : List A) → Holds a xs → Holds a (xs ++ ys)
  Holds-append_left a [] ys h = absurd h
  Holds-append_left a (x ∷ xs) ys (inl e) = inl e
  Holds-append_left a (x ∷ xs) ys (inr h) = inr (Holds-append_left a xs ys h)

  pub Holds-append_right : (a : A) (xs ys : List A) → Holds a ys → Holds a (xs ++ ys)
  Holds-append_right a [] ys h = h
  Holds-append_right a (x ∷ xs) ys h = inr (Holds-append_right a xs ys h)

  pub Holds-append_cases : (a : A) (xs ys : List A) → Holds a (xs ++ ys) → Holds a xs ⊎ Holds a ys
  Holds-append_cases a [] ys h = inr h
  Holds-append_cases a (x ∷ xs) ys (inl e) = inl (inl e)
  Holds-append_cases a (x ∷ xs) ys (inr h) = elim (Holds-append_cases a xs ys h) [
    | inl l ↦ inl (inr l)
    | inr r ↦ inr r
  ]

  pub All-Holds {κ} : (P : A → Type κ) (a : A) (xs : List A) → All P xs → Holds a xs → P a
  All-Holds P a [] h m = absurd m
  All-Holds P a (x ∷ xs) h (inl e) = subst P e h.0
  All-Holds P a (x ∷ xs) h (inr m) = All-Holds P a xs h.1 m

  pub All-append {κ} : (P : A → Type κ) (xs ys : List A) → All P xs → All P ys → All P (xs ++ ys)
  All-append P [] ys h k = k
  All-append P (x ∷ xs) ys h k = (h.0, All-append P xs ys h.1 k)

  -- No member twice.
  abbrev pub IsDistinct : List A → Type 0
  IsDistinct [] = Unit
  IsDistinct (x ∷ xs) = (¬ Holds x xs) × IsDistinct xs

  -- The list without the member at that place.
  abbrev others : (a : A) (xs : List A) → Holds a xs → List A
  others a [] m = absurd m
  others a (x ∷ xs) (inl e) = xs
  others a (x ∷ xs) (inr m) = x ∷ others a xs m

  length-others : (a : A) (xs : List A) (m : Holds a xs) → length xs ≡ suc (length (others a xs m))
  length-others a [] m = absurd m
  length-others a (x ∷ xs) (inl e) = refl
  length-others a (x ∷ xs) (inr m) = ap suc (length-others a xs m)

  others-Holds :
      (a b : A) (xs : List A) (m : Holds a xs) → Holds b xs → (a ≡ b → ⊥) → Holds b (others a xs m)
  others-Holds a b [] m h ne = absurd m
  others-Holds a b (x ∷ xs) (inl e) (inl e') ne = absurd (ne (sym e ∙ e'))
  others-Holds a b (x ∷ xs) (inl e) (inr h) ne = h
  others-Holds a b (x ∷ xs) (inr m) (inl e') ne = inl e'
  others-Holds a b (x ∷ xs) (inr m) (inr h) ne = inr (others-Holds a b xs m h ne)

  -- A list without repetition is no longer than one that has all its members.
  pub length-le_of_Holds :
      (xs ys : List A) → IsDistinct xs → ((a : A) → Holds a xs → Holds a ys) → length xs ≤ length ys
  length-le_of_Holds [] ys d h = omega arith
  length-le_of_Holds (x ∷ xs) ys d h =
      let m : Holds x ys = h x (inl refl) in
      let rest = length-le_of_Holds xs (others x ys m) d.1 (λ a n.
        others-Holds x a ys m (h a (inr n)) (λ e. d.0 (subst (λ b. Holds b xs) (sym e) n))) in
      omega (arith, length-others x ys m)
