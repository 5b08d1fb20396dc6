-- ===== src/Timescale/Matching.antt =====
-- What a pattern means, apart from the way `re` looks for a match, and that the search of
-- Timescale/Patterns finds a match exactly where there is one.
use shortfire.Prelude.{
  ℕ, zero, suc, ◌≤◌, ◌≡◌, ◌∙◌, refl, sym, ap, Bool, true, false, ◌&&◌, ◌||◌, ◌⊎◌, inl, inr, [], ◌∷◌,
  ◌++◌, All, length, arith, nat_eq,
}
use mathlib.Core.Path.{subst}
use shortfire.Prelude.Texts.{Text}
use shortfire.Timescale.Patterns.{
  Pattern, one, up_to, some_of, literal, sequence, either, optional, at_end, is_end, match_one,
  match_up_to, match_some, match_literal, match_then,
}

-- The text that the pattern takes, and the rest, which `$` looks at.
unfoldable pub Denotes : Pattern → Text → Text → Type 0
Denotes (one p) w u = (c : ℕ) × (w ≡ c ∷ []) × (p c ≡ true)
Denotes (up_to p n) w u = All (λ c. p c ≡ true) w × (length w ≤ n)
Denotes (some_of p) w u = All (λ c. p c ≡ true) w × (1 ≤ length w)
Denotes (literal l) w u = w ≡ l
Denotes (sequence p q) w u =
    (v : Text) × (v' : Text) × (w ≡ v ++ v') × Denotes p v (v' ++ u) × Denotes q v' u
Denotes (either p q) w u = Denotes p w u ⊎ Denotes q w u
Denotes (optional p) w u = Denotes p w u ⊎ (w ≡ [])
Denotes at_end w u = (w ≡ []) × (is_end u ≡ true)

-- A match of the pattern at the start of a text, with an accepted rest.
abbrev pub Match : Pattern → Text → (Text → Bool) → Type 0
Match p t k = (w : Text) × (u : Text) × (t ≡ w ++ u) × Denotes p w u × (k u ≡ true)

and_parts : (a b : Bool) → (a && b) ≡ true → (a ≡ true) × (b ≡ true)
and_parts true b h = (refl, h)
and_parts false b h = cc

and_of : (a b : Bool) → a ≡ true → b ≡ true → (a && b) ≡ true
and_of true b h k = k
and_of false b h k = cc

or_parts : (a b : Bool) → (a || b) ≡ true → (a ≡ true) ⊎ (b ≡ true)
or_parts true b h = inl h
or_parts false b h = inr h

or_left : (a b : Bool) → a ≡ true → (a || b) ≡ true
or_left true b h = refl
or_left false b h = cc

or_right : (a b : Bool) → b ≡ true → (a || b) ≡ true
or_right true b h = refl
or_right false b h = h

append_assoc : (r s t : Text) → (r ++ s) ++ t ≡ r ++ (s ++ t)
append_assoc [] s t = refl
append_assoc (c ∷ r) s t = ap (◌∷◌ c) (append_assoc r s t)

up_to_sound :
    (p : ℕ → Bool) (n : ℕ) (t : Text) (k : Text → Bool)
    → match_up_to p n t k ≡ true
    → Match (up_to p n) t k
unfolding match_up_to Denotes
up_to_sound p zero t k h = ([], t, refl, (tt, omega arith), h)
up_to_sound p (suc n) [] k h = ([], [], refl, (tt, omega arith), h)
up_to_sound p (suc n) (c ∷ t) k h = elim (or_parts _ _ h) [
  | inl both ↦
      let parts = and_parts _ _ both in
      let (w, u, e, (all, short), rest) = up_to_sound p n t k parts.1 in
      (c ∷ w, u, ap (◌∷◌ c) e, ((parts.0, all), omega (arith, short)), rest)
  | inr rest ↦ ([], c ∷ t, refl, (tt, omega arith), rest)
]

up_to_complete :
    (p : ℕ → Bool) (n : ℕ) (w u : Text) (k : Text → Bool)
    → All (λ c. p c ≡ true) w
    → length w ≤ n
    → k u ≡ true
    → match_up_to p n (w ++ u) k ≡ true
unfolding match_up_to
up_to_complete p zero [] u k all short h = h
up_to_complete p (suc n) [] [] k all short h = h
up_to_complete p (suc n) [] (c ∷ u) k all short h = or_right _ _ h
up_to_complete p zero (c ∷ w) u k all short h = absurd (omega (arith, short))
up_to_complete p (suc n) (c ∷ w) u k all short h =
    or_left _ _ (and_of _ _ all.0 (up_to_complete p n w u k all.1 (omega (arith, short)) h))

some_of_sound :
    (p : ℕ → Bool) (t : Text) (k : Text → Bool) → match_some p t k ≡ true → Match (some_of p) t k
unfolding match_some Denotes
some_of_sound p [] k h = cc
some_of_sound p (c ∷ t) k h =
    let parts = and_parts _ _ h in
    elim (or_parts _ _ parts.1) [
      | inl more ↦
          let (w, u, e, (all, long), rest) = some_of_sound p t k more in
          (c ∷ w, u, ap (◌∷◌ c) e, ((parts.0, all), omega arith), rest)
      | inr rest ↦ (c ∷ [], t, refl, ((parts.0, tt), omega arith), rest)
    ]

some_of_complete :
    (p : ℕ → Bool) (w u : Text) (k : Text → Bool)
    → All (λ c. p c ≡ true) w
    → 1 ≤ length w
    → k u ≡ true
    → match_some p (w ++ u) k ≡ true
unfolding match_some
some_of_complete p [] u k all long h = absurd (omega (arith, long))
some_of_complete p (c ∷ []) u k all long h = and_of _ _ all.0 (or_right _ _ h)
some_of_complete p (c ∷ d ∷ w) u k all long h =
    let rest = some_of_complete p (d ∷ w) u k all.1 (omega arith) h in
    and_of _ _ all.0 (or_left _ _ rest)

literal_sound :
    (l t : Text) (k : Text → Bool)
    → match_literal l t k ≡ true
    → (u : Text) × (t ≡ l ++ u) × (k u ≡ true)
unfolding match_literal
literal_sound [] t k h = (t, refl, h)
literal_sound (d ∷ l) [] k h = cc
literal_sound (d ∷ l) (c ∷ t) k h =
    let parts = and_parts (nat_eq c d) _ h in
    let (u, e, rest) = literal_sound l t k parts.1 in
    let same : c ≡ d = (let found = parts.0 in ground arith) in (u, cc (same, e), rest)

literal_complete : (l u : Text) (k : Text → Bool) → k u ≡ true → match_literal l (l ++ u) k ≡ true
unfolding match_literal
literal_complete [] u k h = h
literal_complete (d ∷ l) u k h =
    let same : nat_eq d d ≡ true = ground arith in and_of _ _ same (literal_complete l u k h)

pub Match-sound : (p : Pattern) (t : Text) (k : Text → Bool) → match_then p t k ≡ true → Match p t k
unfolding match_then match_one Denotes
Match-sound (one p) [] k h = cc
Match-sound (one p) (c ∷ t) k h =
    let parts = and_parts (p c) _ h in (c ∷ [], t, refl, (c, refl, parts.0), parts.1)
Match-sound (up_to p n) t k h = up_to_sound p n t k h
Match-sound (some_of p) t k h = some_of_sound p t k h
Match-sound (literal l) t k h = let (u, e, rest) = literal_sound l t k h in (l, u, e, refl, rest)
Match-sound (sequence p q) t k h =
    let (v, r, e, first, more) = Match-sound p t (λ u. match_then q u k) h in
    let (v', u, e', second, rest) = Match-sound q r k more in
    (
      v ++ v',
      u,
      e ∙ (ap (◌++◌ v) e' ∙ sym (append_assoc v v' u)),
      (v, v', refl, subst (Denotes p v) e' first, second),
      rest,
    )
Match-sound (either p q) t k h = elim (or_parts (match_then p t k) _ h) [
  | inl l ↦ let (w, u, e, d, rest) = Match-sound p t k l in (w, u, e, inl d, rest)
  | inr r ↦ let (w, u, e, d, rest) = Match-sound q t k r in (w, u, e, inr d, rest)
]
Match-sound (optional p) t k h = elim (or_parts (match_then p t k) _ h) [
  | inl l ↦ let (w, u, e, d, rest) = Match-sound p t k l in (w, u, e, inl d, rest)
  | inr r ↦ ([], t, refl, inr refl, r)
]
Match-sound at_end t k h =
    let parts = and_parts (is_end t) _ h in ([], t, refl, (refl, parts.0), parts.1)

pub Match-complete :
    (p : Pattern) (w u : Text) (k : Text → Bool)
    → Denotes p w u
    → k u ≡ true
    → match_then p (w ++ u) k ≡ true
unfolding match_then match_one Denotes
Match-complete (one p) w u k (c, e, fits) h =
    subst (λ w. match_one p (w ++ u) k ≡ true) (sym e) (and_of (p c) _ fits h)
Match-complete (up_to p n) w u k d h = up_to_complete p n w u k d.0 d.1 h
Match-complete (some_of p) w u k d h = some_of_complete p w u k d.0 d.1 h
Match-complete (literal l) w u k e h =
    subst (λ w. match_literal l (w ++ u) k ≡ true) (sym e) (literal_complete l u k h)
Match-complete (sequence p q) w u k (v, v', e, first, second) h =
    let rest = Match-complete q v' u k second h in
    let whole = Match-complete p v (v' ++ u) (λ r. match_then q r k) first rest in
    subst (λ t. match_then p t (λ r. match_then q r k) ≡ true)
      (sym (append_assoc v v' u) ∙ ap (λ x. x ++ u) (sym e)) whole
Match-complete (either p q) w u k (inl d) h = or_left _ _ (Match-complete p w u k d h)
Match-complete (either p q) w u k (inr d) h =
    or_right (match_then p (w ++ u) k) _ (Match-complete q w u k d h)
Match-complete (optional p) w u k (inl d) h = or_left _ _ (Match-complete p w u k d h)
Match-complete (optional p) w u k (inr e) h =
    let here : k (w ++ u) ≡ true = subst (λ w. k (w ++ u) ≡ true) (sym e) h in
    or_right (match_then p (w ++ u) k) _ here
Match-complete at_end w u k (e, ended) h =
    subst (λ w. (is_end (w ++ u) && k (w ++ u)) ≡ true) (sym e) (and_of (is_end u) _ ended h)
