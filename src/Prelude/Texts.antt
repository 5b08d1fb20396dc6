-- ===== src/Prelude/Texts.antt =====
-- Python's `str`: comparison by code points, prefixes, and `split` at a character.
use Prim.Native.Char.{Char, code}
use Prim.Native.String.append
use Prim.Native.String.{String, ◌++◌}
use text.Mathlib.TextEquality.{Char-path}
use mathlib.Core.Logic.{◌≢◌}
use Prim.Native.Nat.{ℕ, zero, suc, ◌-◌, ◌+◌}
use text.Mathlib.Text.{◌==◌ as str_eq}
use mathlib.Core.Bool.{Bool, true, false, ◌||◌}
use mathlib.Core.Path.{◌≡◌, refl}
use mathlib.Core.List.{List, [], ◌∷◌, ◌++◌ as ◌+++◌}
use mathlib.Core.Option.{Option, none, some}
use native.Mathlib.Omega.{arith}
use shortfire.Prelude.Tests.{ltb, nat_eq, if◌then◌else◌}

-- s < t
unfoldable pub str_lt : String → String → Bool
str_lt s String.[] = false
str_lt String.[] (String.◌∷◌ d t) = true
str_lt (String.◌∷◌ c s) (String.◌∷◌ d t) =
    let rest = str_lt s t in
    if ltb (code c) (code d) then true else if nat_eq (code c) (code d) then rest else false

-- t.startswith(s)
unfoldable pub has_prefix : String → String → Bool
has_prefix String.[] t = true
has_prefix (String.◌∷◌ c s) String.[] = false
has_prefix (String.◌∷◌ c s) (String.◌∷◌ d t) =
    let rest = has_prefix s t in if nat_eq (code c) (code d) then rest else false

-- t.split(".")[0], for the character with the code n
unfoldable pub before : ℕ → String → String
before n String.[] = String.[]
before n (String.◌∷◌ c t) =
    let rest = before n t in if nat_eq (code c) n then String.[] else String.◌∷◌ c rest

-- What follows the last character with the code n, if there is one.
unfoldable pub after_last : ℕ → String → Option String
after_last n String.[] = none
after_last n (String.◌∷◌ c t) = later (after_last n t) (nat_eq (code c) n) t
  where
    later : Option String → Bool → String → Option String
    later (some rest) here t = some rest
    later none true t = some t
    later none false t = none

pub str_lt_trans : (s t u : String) → str_lt s t ≡ true → str_lt t u ≡ true → str_lt s u ≡ true
unfolding str_lt
str_lt_trans s t String.[] h k = cc
str_lt_trans s String.[] (String.◌∷◌ e u) h k = cc
str_lt_trans String.[] (String.◌∷◌ d t) (String.◌∷◌ e u) h k = refl
str_lt_trans (String.◌∷◌ c s) (String.◌∷◌ d t) (String.◌∷◌ e u) h k =
    ground (arith, str_lt_trans s t u)

pub str_lt_irrefl : (s : String) → str_lt s s ≡ false
unfolding str_lt
str_lt_irrefl String.[] = refl
str_lt_irrefl (String.◌∷◌ c s) = ground (arith, str_lt_irrefl s)

pub str_lt_total : (s t : String) → str_lt s t ≡ false → s ≢ t → str_lt t s ≡ true
unfolding str_lt
str_lt_total String.[] String.[] h apart = absurd (apart refl)
str_lt_total (String.◌∷◌ c s) String.[] h apart = refl
str_lt_total String.[] (String.◌∷◌ d t) h apart = cc
str_lt_total (String.◌∷◌ c s) (String.◌∷◌ d t) h apart =
    let same : code c ≡ code d → s ≢ t =
      λ e e'. apart (λ i. String.◌∷◌ (Char-path c d e i) (e' i)) in
    let rest : code c ≡ code d → str_lt s t ≡ false → str_lt t s ≡ true =
      λ e h'. str_lt_total s t h' (same e) in
    ground arith

pub has_prefix-append : (p t : String) → has_prefix p (p ++ t) ≡ true
unfolding has_prefix
has_prefix-append String.[] t = refl
has_prefix-append (String.◌∷◌ c p) t =
    let rest = has_prefix-append p t in rw (append.cons c p t) (ground arith)

-- Prefixes with different first characters are of different texts.
pub has_prefix-apart :
    (c d : Char) (p q k : String)
    → code c ≢ code d
    → has_prefix (String.◌∷◌ c p) k ≡ true
    → has_prefix (String.◌∷◌ d q) k ≡ false
unfolding has_prefix
has_prefix-apart c d p q String.[] apart h = refl
has_prefix-apart c d p q (String.◌∷◌ e k) apart h = ground arith

pub has_prefix_refl : (t : String) → has_prefix t t ≡ true
unfolding has_prefix
has_prefix_refl String.[] = refl
has_prefix_refl (String.◌∷◌ c t) = ground (arith, has_prefix_refl t)

-- t.endswith(s)
unfoldable pub has_suffix : String → String → Bool
has_suffix s String.[] = str_eq s String.[]
has_suffix s (String.◌∷◌ c t) = str_eq s (String.◌∷◌ c t) || has_suffix s t

abbrev pub size : String → ℕ
size String.[] = 0
size (String.◌∷◌ c t) = suc (size t)

-- t.replace(old, new), for an `old` that is not empty; the first argument is the number of
-- characters that are left of an occurrence.
unfoldable pub replace_from : ℕ → (old new : String) → String → String
replace_from skip old new String.[] = String.[]
replace_from (suc skip) old new (String.◌∷◌ c t) = replace_from skip old new t
replace_from zero old new (String.◌∷◌ c t) =
    let found = new ++ replace_from (size old - 1) old new t in
    let kept = String.◌∷◌ c (replace_from zero old new t) in
    if has_prefix old (String.◌∷◌ c t) then found else kept

abbrev pub replace : (old new : String) → String → String
replace old new t = replace_from zero old new t

-- A text as the list of its code points.
abbrev pub Text : Type 0
Text = List ℕ

abbrev pub codes : String → Text
codes String.[] = []
codes (String.◌∷◌ c s) = code c ∷ codes s

-- How often a character stands in a text.
abbrev pub count : ℕ → Text → ℕ
count c [] = 0
count c (d ∷ t) = let rest = count c t in if nat_eq c d then suc rest else rest

pub count-append : (c : ℕ) (s t : Text) → count c (s +++ t) ≡ count c s + count c t
count-append c [] t = omega arith
count-append c (d ∷ s) t = let rest = count-append c s t in ground arith
