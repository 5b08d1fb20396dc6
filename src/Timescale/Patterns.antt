-- ===== src/Timescale/Patterns.antt =====
-- The part of Python's `re` that src/shortfire/db/timescale.py uses, for texts as lists of code
-- points, and f-strings as their fixed segments with the arguments between them.
use shortfire.Prelude.{
  ℕ, zero, suc, ◌+◌, ◌≤◌, ◌≡◌, refl, Bool, true, false, ◌&&◌, ◌||◌, List, [], ◌∷◌, ◌++◌, All,
  length, String, arith, leb, nat_eq,
}
use shortfire.Prelude.Texts.{Text, codes, count, count-append}

-- [class], [class]{0,n}, [class]+, a literal text, pq, p|q, p? and $
pub data Pattern : Type 0 where
  one : (ℕ → Bool) → Pattern
  up_to : (ℕ → Bool) → ℕ → Pattern
  some_of : (ℕ → Bool) → Pattern
  literal : Text → Pattern
  sequence : Pattern → Pattern → Pattern
  either : Pattern → Pattern → Pattern
  optional : Pattern → Pattern
  at_end : Pattern

-- `$` without MULTILINE: at the end, and before a newline that ends the text.
unfoldable pub is_end : Text → Bool
is_end [] = true
is_end (c ∷ []) = nat_eq c b'\n'
is_end (c ∷ d ∷ t) = false

unfoldable pub match_one : (ℕ → Bool) → Text → (Text → Bool) → Bool
match_one p [] k = false
match_one p (c ∷ t) k = p c && k t

unfoldable pub match_up_to : (ℕ → Bool) → ℕ → Text → (Text → Bool) → Bool
match_up_to p zero t k = k t
match_up_to p (suc n) [] k = k []
match_up_to p (suc n) (c ∷ t) k = (p c && match_up_to p n t k) || k (c ∷ t)

unfoldable pub match_some : (ℕ → Bool) → Text → (Text → Bool) → Bool
match_some p [] k = false
match_some p (c ∷ t) k = p c && (match_some p t k || k t)

unfoldable pub match_literal : Text → Text → (Text → Bool) → Bool
match_literal [] t k = k t
match_literal (d ∷ l) [] k = false
match_literal (d ∷ l) (c ∷ t) k = nat_eq c d && match_literal l t k

-- A match of the pattern at the start of the text, with what follows it accepted by `k`.
unfoldable pub match_then : Pattern → Text → (Text → Bool) → Bool
match_then (one p) t k = match_one p t k
match_then (up_to p n) t k = match_up_to p n t k
match_then (some_of p) t k = match_some p t k
match_then (literal l) t k = match_literal l t k
match_then (sequence p q) t k = match_then p t (λ u. match_then q u k)
match_then (either p q) t k = match_then p t k || match_then q t k
match_then (optional p) t k = match_then p t k || k t
match_then at_end t k = is_end t && k t

-- pattern.match(text), as a truth value; `^` holds at the start, where `match` begins.
abbrev pub matches : Pattern → Text → Bool
matches p t = match_then p t (λ u. true)

abbrev pub in_range : ℕ → ℕ → ℕ → Bool
in_range lo hi c = leb lo c && leb c hi

-- [a-zA-Z] and [0-9]
unfoldable pub is_letter : ℕ → Bool
is_letter c = in_range b'a' b'z' c || in_range b'A' b'Z' c

unfoldable pub is_digit : ℕ → Bool
is_digit c = in_range b'0' b'9' c

-- f"…{a}…{b}…"
unfoldable pub format : List String → List Text → Text
format [] arguments = []
format (s ∷ segments) [] = codes s ++ format segments []
format (s ∷ segments) (a ∷ arguments) = codes s ++ (a ++ format segments arguments)

pub count-format :
    (c : ℕ) (segments : List String) (arguments : List Text)
    → All (λ a. count c a ≡ 0) arguments
    → count c (format segments arguments) ≡ count c (format segments [])
unfolding format
count-format c [] arguments h = refl
count-format c (s ∷ segments) [] h = refl
count-format c (s ∷ segments) (a ∷ arguments) h =
    let rest = count-format c segments arguments h.1 in
    omega (
      arith,
      rest,
      h.0,
      count-append c (codes s) (a ++ format segments arguments),
      count-append c a (format segments arguments),
      count-append c (codes s) (format segments []),
    )

abbrev pub total : ℕ → List Text → ℕ
total c [] = 0
total c (a ∷ arguments) = count c a + total c arguments

pub count-format-total :
    (c : ℕ) (segments : List String) (arguments : List Text)
    → length arguments ≤ length segments
    → count c (format segments arguments) ≡ count c (format segments []) + total c arguments
unfolding format
count-format-total c [] [] h = refl
count-format-total c [] (a ∷ arguments) h = absurd (omega (arith, h))
count-format-total c (s ∷ segments) [] h = omega arith
count-format-total c (s ∷ segments) (a ∷ arguments) h =
    let rest = count-format-total c segments arguments (omega (arith, h)) in
    omega (
      arith,
      rest,
      count-append c (codes s) (a ++ format segments arguments),
      count-append c a (format segments arguments),
      count-append c (codes s) (format segments []),
    )
