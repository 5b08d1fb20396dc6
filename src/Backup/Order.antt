-- ===== src/Backup/Order.antt =====
-- The order of a listing: `sort_desc`, and which keys lie past the first ones.
use shortfire.Prelude.{
  IsDistinct, ℕ, zero, suc, ◌≤◌, String, true, false, ◌≡◌, ◌↔◌, refl, sym, inl, inr, List, [], ◌∷◌,
  drop, All, Holds, All-Holds, arith, if◌then◌else◌, Bool-cases,
}
use shortfire.Prelude.Texts.{str_lt, str_lt_trans, str_lt_irrefl, str_lt_total}
use shortfire.Backup.{insert_desc, sort_desc}
use mathlib.Core.Path.{subst}

-- How many keys of a listing come after `k`.
abbrev pub newer : String → List String → ℕ
newer k [] = 0
newer k (x ∷ xs) = if str_lt k x then suc (newer k xs) else newer k xs

abbrev Below : String → List String → Type 0
Below x xs = All (λ y. str_lt y x ≡ true) xs

abbrev pub IsDescending : List String → Type 0
IsDescending [] = Unit
IsDescending (x ∷ xs) = Below x xs × IsDescending xs

asym : (s t : String) → str_lt s t ≡ true → str_lt t s ≡ false
asym s t h = elim (Bool-cases (str_lt t s)) [
  | inl back ↦ let same = str_lt_trans s t s h back in let not = str_lt_irrefl s in cc
  | inr apart ↦ apart
]

Below-trans : (x y : String) (xs : List String) → str_lt x y ≡ true → Below x xs → Below y xs
Below-trans x y [] h b = tt
Below-trans x y (z ∷ xs) h b = (str_lt_trans z x y b.0 h, Below-trans x y xs h b.1)

Below-newer : (x : String) (xs : List String) → Below x xs → newer x xs ≡ 0
Below-newer x [] b = refl
Below-newer x (y ∷ xs) b = rw (asym y x b.0) (Below-newer x xs b.1)

insert-newer : (k x : String) (xs : List String) → newer k (insert_desc x xs) ≡ newer k (x ∷ xs)
unfolding insert_desc
insert-newer k x [] = refl
insert-newer k x (y ∷ xs) = ground (arith, insert-newer k x xs)

pub sort-newer : (k : String) (xs : List String) → newer k (sort_desc xs) ≡ newer k xs
unfolding sort_desc
sort-newer k [] = refl
sort-newer k (x ∷ xs) = rw (insert-newer k x (sort_desc xs), sort-newer k xs)

-- A head that moves behind the one after it.
swap :
    (k x y : String) (xs rest : List String)
    → (Holds k rest ↔ Holds k (x ∷ xs))
    → Holds k (y ∷ rest) ↔ Holds k (x ∷ y ∷ xs)
swap k x y xs rest h = (to, from)
  where
    to : Holds k (y ∷ rest) → Holds k (x ∷ y ∷ xs)
    to (inl e) = inr (inl e)
    to (inr m) = elim (h.0 m) [ inl e ↦ inl e | inr later ↦ inr (inr later) ]

    from : Holds k (x ∷ y ∷ xs) → Holds k (y ∷ rest)
    from (inl e) = inr (h.1 (inl e))
    from (inr (inl e)) = inl e
    from (inr (inr m)) = inr (h.1 (inr m))

insert-Holds : (k x : String) (xs : List String) → Holds k (insert_desc x xs) ↔ Holds k (x ∷ xs)
unfolding insert_desc
insert-Holds k x [] = (λ h. h, λ h. h)
insert-Holds k x (y ∷ xs) = elim (Bool-cases (str_lt x y)) [
  | inl lt ↦ let ih = insert-Holds k x xs in rw lt (swap k x y xs _ ih)
  | inr ge ↦ rw ge (λ h. h, λ h. h)
]

pub sort-Holds : (k : String) (xs : List String) → Holds k (sort_desc xs) ↔ Holds k xs
unfolding sort_desc
sort-Holds k [] = (λ h. h, λ h. h)
sort-Holds k (x ∷ xs) =
    let ih = sort-Holds k xs in
    let here = insert-Holds k x (sort_desc xs) in
    (
      λ h. elim (here.0 h) [ inl e ↦ inl e | inr m ↦ inr (ih.0 m) ],
      λ h. here.1 (elim h [ inl e ↦ inl e | inr m ↦ inr (ih.1 m) ]),
    )

insert-Below :
    (x y : String) (xs : List String) → str_lt x y ≡ true → Below y xs → Below y (insert_desc x xs)
unfolding insert_desc
insert-Below x y [] h b = (h, tt)
insert-Below x y (z ∷ xs) h b = elim (Bool-cases (str_lt x z)) [
  | inl lt ↦ rw lt (b.0, insert-Below x y xs h b.1)
  | inr ge ↦ rw ge (h, b)
]

insert-IsDescending :
    (x : String) (xs : List String)
    → IsDescending xs
    → (¬ Holds x xs)
    → IsDescending (insert_desc x xs)
unfolding insert_desc
insert-IsDescending x [] d apart = (tt, tt)
insert-IsDescending x (y ∷ xs) d apart = elim (Bool-cases (str_lt x y)) [
  | inl lt ↦ rw lt (insert-Below x y xs lt d.0, insert-IsDescending x xs d.1 (λ m. apart (inr m)))
  | inr ge ↦
      let above : str_lt y x ≡ true = str_lt_total x y ge (λ e. apart (inl (sym e))) in
      rw ge ((above, Below-trans y x xs above d.0), d)
]

pub sort-IsDescending : (xs : List String) → IsDistinct xs → IsDescending (sort_desc xs)
unfolding sort_desc
sort-IsDescending [] d = tt
sort-IsDescending (x ∷ xs) d =
    insert-IsDescending x (sort_desc xs) (sort-IsDescending xs d.1)
      (λ m. d.0 ((sort-Holds x xs).0 m))

pub Holds-drop : (k : String) (n : ℕ) (xs : List String) → Holds k (drop n xs) → Holds k xs
Holds-drop k zero xs h = h
Holds-drop k (suc n) [] h = h
Holds-drop k (suc n) (x ∷ xs) h = inr (Holds-drop k n xs h)

-- Past the first `n` keys are those with `n` or more keys after them.
pub drop_iff :
    (k : String) (n : ℕ) (xs : List String)
    → IsDescending xs
    → Holds k xs
    → Holds k (drop n xs) ↔ (n ≤ newer k xs)
drop_iff k zero xs d m = (λ h. omega arith, λ h. m)
drop_iff k (suc n) [] d m = absurd m
drop_iff k (suc n) (x ∷ xs) d (inl e) =
    let none_newer : newer k (x ∷ xs) ≡ 0 =
      subst (λ y. newer y (x ∷ xs) ≡ 0) e (rw (str_lt_irrefl x) (Below-newer x xs d.0)) in
    let first : ¬ Holds x xs = λ m.
      let less = All-Holds (λ y. str_lt y x ≡ true) x xs d.0 m in let not = str_lt_irrefl x in cc in
    (
      λ h. absurd (first (subst (λ y. Holds y xs) (sym e) (Holds-drop k n xs h))),
      λ h. absurd (omega (arith, none_newer)),
    )
drop_iff k (suc n) (x ∷ xs) d (inr m) =
    let less : str_lt k x ≡ true = All-Holds (λ y. str_lt y x ≡ true) k xs d.0 m in
    let ih = drop_iff k n xs d.1 m in
    rw less (λ h. let le = ih.0 h in omega arith, λ h. ih.1 (omega arith))
