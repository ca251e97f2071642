-- ===== src/Prelude/Int.antt =====
-- Go's `int` and `int64`: integers whose sums wrap around at 64 bits.
use Prim.Native.Nat.{ℕ, suc, ◌+◌, ◌-◌, ◌%◌, ◌^◌, ◌≤◌, ◌<◌}
use mathlib.Core.Path.{◌≡◌, refl}
use mathlib.Core.Bool.{Bool, true, false}
use native.Mathlib.Omega.{arith}
use linea_core.Prelude.Tests.{Eq, ltb, nat_eq, nat_eq_iff, if◌then◌else◌}
use mathlib.Core.Logic.{◌↔◌}

-- `negsuc n` is -(n + 1).
pub data ℤ : Type 0 where
  pos : ℕ → ℤ
  negsuc : ℕ → ℤ

abbrev pub pos_part : ℤ → ℕ
pos_part (pos n) = n
pos_part (negsuc n) = 0

abbrev pub neg_part : ℤ → ℕ
neg_part (pos n) = 0
neg_part (negsuc n) = suc n

-- a < b
abbrev pub ltb_ℤ : ℤ → ℤ → Bool
ltb_ℤ a b = ltb (pos_part a + neg_part b) (pos_part b + neg_part a)

abbrev pub ◌≤ℤ◌ : ℤ → ℤ → Type 0
◌≤ℤ◌ a b = pos_part a + neg_part b ≤ pos_part b + neg_part a

abbrev int_eq : ℤ → ℤ → Bool
int_eq (pos a) (pos b) = nat_eq a b
int_eq (negsuc a) (negsuc b) = nat_eq a b
int_eq _ _ = false

pub int_eq_iff : (a b : ℤ) → (int_eq a b ≡ true) ↔ (a ≡ b)
int_eq_iff (pos a) (pos b) = ground (arith, nat_eq_iff a b)
int_eq_iff (pos a) (negsuc b) = ground arith
int_eq_iff (negsuc a) (pos b) = ground arith
int_eq_iff (negsuc a) (negsuc b) = ground (arith, nat_eq_iff a b)

instance abbrev pub int_Eq : Eq ℤ
int_Eq = record { test = int_eq; agrees = int_eq_iff }

-- The signed reading of a 64-bit pattern.
abbrev pub of_bits : ℕ → ℤ
of_bits u = if ltb u (2 ^ 63) then pos u else negsuc (2 ^ 64 - 1 - u)

-- The pattern of a - b, for a and b below 2 ^ 64.
unfoldable pub sub_bits : ℕ → ℕ → ℕ
sub_bits a b = (a % 2 ^ 64 + 2 ^ 64 - b % 2 ^ 64) % 2 ^ 64

-- a + b at 64 bits.
unfoldable pub add64 : ℤ → ℤ → ℤ
unfolding sub_bits
add64 a b = of_bits (sub_bits (pos_part a + pos_part b) (neg_part a + neg_part b))

-- A sum of non-negative numbers that fits is exact.
pub add64_pos : (a b : ℕ) → a + b < 2 ^ 63 → add64 (pos a) (pos b) ≡ pos (a + b)
unfolding add64
add64_pos a b h = ground arith

add64_overflows : add64 (pos (2 ^ 63 - 1)) (pos 1) ≡ negsuc (2 ^ 63 - 1)
unfolding add64
add64_overflows = refl

-- a - b at 64 bits.
unfoldable pub sub64 : ℤ → ℤ → ℤ
unfolding sub_bits
sub64 a b = of_bits (sub_bits (pos_part a + neg_part b) (neg_part a + pos_part b))
