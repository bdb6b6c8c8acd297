-- ===== src/Base/Int.antt =====
-- Signed integers over the native numbers: Go's `int64` file numbers and durations.
use Prim.Native.Nat.{ℕ, suc, ◌+◌, ◌-◌, ◌*◌, ◌%◌, ◌^◌, ◌≤◌, ◌<◌}
use mathlib.Core.Path.{◌≡◌}
use mathlib.Core.Bool.{Bool}
use native.Mathlib.Omega.{arith}
use levels.Base.Tests.{ltb, leb, if◌then◌else◌}

-- `negsuc n` is -(n + 1).
pub data ℤ : Type 0 where
  pos : ℕ → ℤ
  negsuc : ℕ → ℤ

abbrev pub pos_part : ℤ → ℕ
pos_part (pos n) = n
pos_part (negsuc n) = 0

abbrev pub neg_part : ℤ → ℕ
neg_part (pos n) = 0
neg_part (negsuc n) = suc n

abbrev pub ltb_ℤ : ℤ → ℤ → Bool
ltb_ℤ a b = ltb (pos_part a + neg_part b) (pos_part b + neg_part a)

abbrev pub leb_ℤ : ℤ → ℤ → Bool
leb_ℤ a b = leb (pos_part a + neg_part b) (pos_part b + neg_part a)

-- The bits of an `int64`, and the `int64` that has given bits.
abbrev pub int64_mod : ℕ
int64_mod = 2 ^ 64

abbrev pub int64_bits : ℤ → ℕ
int64_bits (pos n) = n % int64_mod
int64_bits (negsuc n) = int64_mod - 1 - n % int64_mod

abbrev pub from_int64_bits : ℕ → ℤ
from_int64_bits n = if ltb n (2 ^ 63) then pos n else negsuc (int64_mod - 1 - n)

-- The product of two `int64`, which wraps around.
unfoldable pub mul_int64 : ℤ → ℤ → ℤ
mul_int64 a b = from_int64_bits (int64_bits a * int64_bits b % int64_mod)

-- `1 << k` as an `int64`
unfoldable pub shl_one_int64 : ℕ → ℤ
shl_one_int64 k = from_int64_bits (2 ^ k % int64_mod)

abbrev pub InInt64 : ℤ → Type 0
InInt64 a = (pos_part a < 2 ^ 63) × (neg_part a ≤ 2 ^ 63)

pub mul_int64_bounds : (a b : ℤ) → InInt64 (mul_int64 a b)
unfolding mul_int64
mul_int64_bounds a b = ground arith

-- Without overflow the product is the exact one.
pub mul_int64_exact :
    (m n : ℕ) → m * n < 2 ^ 63 → m < 2 ^ 63 → n < 2 ^ 63 → mul_int64 (pos m) (pos n) ≡ pos (m * n)
unfolding mul_int64
mul_int64_exact m n h hm hn =
    let bits_m : m % int64_mod ≡ m = omega arith in
    let bits_n : n % int64_mod ≡ n = omega arith in
    let bits : m * n % int64_mod ≡ m * n = omega arith in rw (bits_m, bits_n, bits) (ground arith)

pub shl_one_int64_exact : (k : ℕ) → 2 ^ k < 2 ^ 63 → shl_one_int64 k ≡ pos (2 ^ k)
unfolding shl_one_int64
shl_one_int64_exact k h = ground arith

-- The number with a positive part and a negative one.
abbrev pub from_parts : ℕ → ℕ → ℤ
from_parts p n = if leb n p then pos (p - n) else negsuc (n - p - 1)

-- `Time.Sub` on nanoseconds: the difference, or the end of `int64` that it lies beyond.
unfoldable pub sub_saturated : ℤ → ℤ → ℤ
sub_saturated a b =
    let d = from_parts (pos_part a + neg_part b) (neg_part a + pos_part b) in
    if leb (2 ^ 63) (pos_part d)
    then pos (2 ^ 63 - 1)
    else if ltb (2 ^ 63) (neg_part d)
    then negsuc (2 ^ 63 - 1)
    else d
