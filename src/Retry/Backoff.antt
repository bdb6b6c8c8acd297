-- ===== src/Retry/Backoff.antt =====
-- The bounds of `calcBackoff`.
use native.Mathlib.Nat.{pow-suc}
use levels.Base.{ℕ, zero, suc, ◌*◌, ◌^◌, ◌<◌, ◌≡◌, some, arith}
use levels.Base.Int.{
  pos, pos_part, shl_one_int64, mul_int64_bounds, mul_int64_exact, shl_one_int64_exact,
}
use levels.Retry.{Timer, exp_delay, calc_backoff}

-- `rand.Int63n(n)` lies below `n`, for a positive `n`.
pub record IsRandom {S : Type 0} (T : Timer S) : Type 0 where
  pub below : (n : ℕ) (s : S) → 0 < n → (T.int63n n s).0 < n

pub pow_lt_of_mul : (b p m : ℕ) → 0 < b → b * p < m → p < m
pow_lt_of_mul b p m hb h = grind arith

pub mul_pos : (b p : ℕ) → 0 < b → 0 < p → 0 < b * p
mul_pos b p hb hp = grind arith

pub pow_pos : (k : ℕ) → 0 < 2 ^ k
pow_pos zero = omega arith
pow_pos (suc k) = rw pow-suc (omega (arith, pow_pos k))

pub exp_delay_exact :
    (b k : ℕ) → 0 < b → b < 2 ^ 63 → b * 2 ^ k < 2 ^ 63 → exp_delay (pos b) k ≡ pos (b * 2 ^ k)
unfolding exp_delay
exp_delay_exact b k hb hb' h =
    let hp = pow_lt_of_mul b (2 ^ k) (2 ^ 63) hb h in
    rw (shl_one_int64_exact k hp, mul_int64_exact b (2 ^ k) h hb' hp)
      (ground (arith, mul_pos b (2 ^ k) hb (pow_pos k)))

-- Whatever overflows, the bound of the random delay is positive, and an `int64`.
pub exp_delay_pos :
    (b k : ℕ)
    → 0 < b
    → b < 2 ^ 63
    → (0 < pos_part (exp_delay (pos b) k)) × (pos_part (exp_delay (pos b) k) < 2 ^ 63)
unfolding exp_delay
exp_delay_pos b k hb hb' = ground (arith, mul_int64_bounds (pos b) (shl_one_int64 k))

module _ {S : Type 0} (T : Timer S) (random : IsRandom T) where
  -- With a positive base delay and a random source that stays below its bound, calcBackoff never
  -- panics, however the shift and the product overflow, and its delay is an int64.
  pub calc_backoff_total :
      (b k : ℕ) (s : S)
      → 0 < b
      → b < 2 ^ 63
      → (d : ℕ) × ((calc_backoff T (pos b) k s).0 ≡ some d) × (d < 2 ^ 63)
  unfolding calc_backoff
  calc_backoff_total b k s hb hb' = (
    (T.int63n (pos_part (exp_delay (pos b) k)) s).0,
    ground (arith, exp_delay_pos b k hb hb'),
    ground (arith, exp_delay_pos b k hb hb', random.below (pos_part (exp_delay (pos b) k)) s),
  )

  -- With a positive base delay, a random source that stays below its bound and no overflow, the
  -- delay of calcBackoff is below the base delay times 2^attempt.
  calc_backoff_below :
      (b k d : ℕ) (s : S)
      → 0 < b
      → b < 2 ^ 63
      → b * 2 ^ k < 2 ^ 63
      → (calc_backoff T (pos b) k s).0 ≡ some d
      → d < b * 2 ^ k
  unfolding calc_backoff
  calc_backoff_below b k d s hb hb' h e = ground (
    arith,
    exp_delay_exact b k hb hb' h,
    random.below (b * 2 ^ k) s,
    mul_pos b (2 ^ k) hb (pow_pos k),
  )
