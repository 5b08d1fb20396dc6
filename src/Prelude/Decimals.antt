-- ===== src/Prelude/Decimals.antt =====
-- Python's `Decimal`, as a whole number of units of 10 ^ -18.
use shortfire.Prelude.Tests.{leb, ltb, if◌then◌else◌}
use Prim.Native.Nat.{ℕ, suc, ◌+◌, ◌-◌, ◌≤◌, ◌<◌, ◌^◌}
use mathlib.Core.Path.{◌≡◌}
use mathlib.Core.Logic.{◌↔◌}
use mathlib.Core.Bool.{Bool, true}
use native.Mathlib.Omega.{arith}

-- `negsuc n` is -(n + 1).
pub data ℤ : Type 0 where
  pos : ℕ → ℤ
  negsuc : ℕ → ℤ

abbrev pub Decimal : Type 0
Decimal = ℤ

-- The decimal 1.
abbrev pub unit : ℕ
unit = 10 ^ 18

abbrev pub pos_part : ℤ → ℕ
pos_part (pos n) = n
pos_part (negsuc n) = 0

abbrev pub neg_part : ℤ → ℕ
neg_part (pos n) = 0
neg_part (negsuc n) = suc n

abbrev pub sub_ℕ : ℕ → ℕ → ℤ
sub_ℕ a b = if leb b a then pos (a - b) else negsuc (b - a - 1)

infixl 65 ◌+ℤ◌ ◌-ℤ◌
infix 50 ◌≤ℤ◌ ◌<ℤ◌
unfoldable pub ◌+ℤ◌ : ℤ → ℤ → ℤ
a +ℤ b = sub_ℕ (pos_part a + pos_part b) (neg_part a + neg_part b)

unfoldable pub ◌-ℤ◌ : ℤ → ℤ → ℤ
a -ℤ b = sub_ℕ (pos_part a + neg_part b) (neg_part a + pos_part b)

abbrev pub ◌≤ℤ◌ : ℤ → ℤ → Type 0
a ≤ℤ b = pos_part a + neg_part b ≤ pos_part b + neg_part a

abbrev pub ◌<ℤ◌ : ℤ → ℤ → Type 0
a <ℤ b = pos_part a + neg_part b < pos_part b + neg_part a

-- The comparisons `a <= b` and `a < b` as tests.
abbrev pub le_dec : ℤ → ℤ → Bool
le_dec a b = leb (pos_part a + neg_part b) (pos_part b + neg_part a)

abbrev pub lt_dec : ℤ → ℤ → Bool
lt_dec a b = ltb (pos_part a + neg_part b) (pos_part b + neg_part a)

pub le_dec_iff : (a b : ℤ) → (le_dec a b ≡ true) ↔ (a ≤ℤ b)
le_dec_iff a b = ground arith

pub le_trans : (a b c : ℤ) → a ≤ℤ b → b ≤ℤ c → a ≤ℤ c
le_trans a b c h k = omega arith

pub le_antisymm : (a b : ℤ) → a ≤ℤ b → b ≤ℤ a → a ≡ b
le_antisymm a b h k = ground arith

pub lt_dec_iff : (a b : ℤ) → (lt_dec a b ≡ true) ↔ (a <ℤ b)
lt_dec_iff a b = ground arith

-- The larger and the smaller of two, as `b if b > a else a` and `b if b < a else a`.
abbrev pub max_ℤ : ℤ → ℤ → ℤ
max_ℤ a b = if lt_dec a b then b else a

abbrev pub min_ℤ : ℤ → ℤ → ℤ
min_ℤ a b = if lt_dec b a then b else a

pub +ℤ-ge_zero : (a b : ℤ) → pos 0 ≤ℤ a → pos 0 ≤ℤ b → pos 0 ≤ℤ a +ℤ b
unfolding ◌+ℤ◌
+ℤ-ge_zero a b h k = ground arith

-- One lemma for the sum lets `omega` work with it shut.
pub +ℤ_parts :
    (a b : ℤ)
    → pos_part (a +ℤ b) + neg_part a + neg_part b ≡ neg_part (a +ℤ b) + pos_part a + pos_part b
unfolding ◌+ℤ◌
+ℤ_parts a b = ground arith

pub eq_of_parts : (a b : ℤ) → pos_part a + neg_part b ≡ pos_part b + neg_part a → a ≡ b
eq_of_parts a b h = ground arith

pub +ℤ_assoc : (a b c : ℤ) → a +ℤ b +ℤ c ≡ a +ℤ (b +ℤ c)
+ℤ_assoc a b c =
    eq_of_parts (a +ℤ b +ℤ c) (a +ℤ (b +ℤ c))
      (omega (arith, +ℤ_parts a b, +ℤ_parts (a +ℤ b) c, +ℤ_parts b c, +ℤ_parts a (b +ℤ c)))

pub +ℤ-zero : (a : ℤ) → a +ℤ pos 0 ≡ a
+ℤ-zero a = eq_of_parts (a +ℤ pos 0) a (omega (arith, +ℤ_parts a (pos 0)))
