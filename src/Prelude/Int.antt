-- ===== src/Prelude/Int.antt =====
-- Go's `int` and `int64` as whole numbers, with their wrap-around written out where it can occur.
use dc.Prelude.{ℕ, suc, ◌+◌, ◌-◌, ◌%◌, ◌≤◌, ◌<◌, ◌≡◌, Bool, arith, ltb, leb, if◌then◌else◌}

-- `negsuc n` stands for -(n + 1).
pub data ℤ : Type 0 where
  pos : ℕ → ℤ
  negsuc : ℕ → ℤ

abbrev pub pos_part : ℤ → ℕ
pos_part (pos n) = n
pos_part (negsuc n) = 0

abbrev pub neg_part : ℤ → ℕ
neg_part (pos n) = 0
neg_part (negsuc n) = suc n

-- The difference of two numbers.
abbrev pub sub_ℕ : ℕ → ℕ → ℤ
sub_ℕ a b = if leb b a then pos (a - b) else negsuc (b - a - 1)

infixl 65 ◌+ℤ◌ ◌-ℤ◌
unfoldable pub ◌+ℤ◌ : ℤ → ℤ → ℤ
a +ℤ b = sub_ℕ (pos_part a + pos_part b) (neg_part a + neg_part b)

unfoldable pub ◌-ℤ◌ : ℤ → ℤ → ℤ
a -ℤ b = sub_ℕ (pos_part a + neg_part b) (neg_part a + pos_part b)

infix 50 ◌≤ℤ◌ ◌<ℤ◌
abbrev pub ◌≤ℤ◌ : ℤ → ℤ → Type 0
a ≤ℤ b = pos_part a + neg_part b ≤ pos_part b + neg_part a

abbrev pub ◌<ℤ◌ : ℤ → ℤ → Type 0
a <ℤ b = pos_part a + neg_part b < pos_part b + neg_part a

-- `a < b` and `a <= b` as tests.
abbrev pub ltb_ℤ : ℤ → ℤ → Bool
ltb_ℤ a b = ltb (pos_part a + neg_part b) (pos_part b + neg_part a)

abbrev pub leb_ℤ : ℤ → ℤ → Bool
leb_ℤ a b = leb (pos_part a + neg_part b) (pos_part b + neg_part a)

abbrev pub two63 : ℕ
two63 = 9223372036854775808

abbrev pub two64 : ℕ
two64 = 18446744073709551616

-- The range of a 64-bit signed integer.
pub record IsInt64 (a : ℤ) : Type 0 where
  pub above : neg_part a ≤ two63
  pub below : pos_part a < two63

abbrev signed : ℕ → ℤ
signed m = if ltb m two63 then pos m else negsuc (two64 - 1 - m)

-- The value that a 64-bit signed integer keeps of a sum.
unfoldable pub wrap64 : ℤ → ℤ
wrap64 (pos n) = signed (n % two64)
wrap64 (negsuc n) = signed (two64 - 1 - n % two64)

pub wrap64-IsInt64 : (a : ℤ) → IsInt64 (wrap64 a)
unfolding wrap64
wrap64-IsInt64 (pos n) = ground arith
wrap64-IsInt64 (negsuc n) = ground arith

pub wrap64_id : (a : ℤ) → IsInt64 a → wrap64 a ≡ a
unfolding wrap64
wrap64_id (pos n) h = ground arith
wrap64_id (negsuc n) h = ground arith

-- Wrapping a summand first changes nothing.
pub wrap64-add_left : (a b : ℤ) → wrap64 (wrap64 a +ℤ b) ≡ wrap64 (a +ℤ b)
unfolding wrap64 ◌+ℤ◌
wrap64-add_left (pos n) (pos m) = ground arith
wrap64-add_left (pos n) (negsuc m) = ground arith
wrap64-add_left (negsuc n) (pos m) = ground arith
wrap64-add_left (negsuc n) (negsuc m) = ground arith

pub +ℤ_comm : (a b : ℤ) → a +ℤ b ≡ b +ℤ a
unfolding ◌+ℤ◌
+ℤ_comm a b = ground arith

pub +ℤ_assoc : (a b c : ℤ) → a +ℤ b +ℤ c ≡ a +ℤ (b +ℤ c)
unfolding ◌+ℤ◌
+ℤ_assoc a b c = ground arith

pub wrap64-add_right : (a b : ℤ) → wrap64 (a +ℤ wrap64 b) ≡ wrap64 (a +ℤ b)
wrap64-add_right a b = rw (+ℤ_comm a (wrap64 b)) (rw (wrap64-add_left b a, +ℤ_comm b a))

-- A sum of numbers that is in range is kept.
pub wrap64-add_pos : (a b : ℕ) → a + b < two63 → wrap64 (pos a +ℤ pos b) ≡ pos (a + b)
unfolding wrap64 ◌+ℤ◌
wrap64-add_pos a b h = ground arith
