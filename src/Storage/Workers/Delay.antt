-- ===== src/Storage/Workers/Delay.antt =====
-- The pause between two attempts of `uploadWithInfiniteRetry`.
use native.Mathlib.Nat.{pow-suc}
use levels.Base.{
  ℕ, zero, suc, ◌%◌, ◌+◌, ◌*◌, ◌^◌, ◌<◌, ◌≤◌, ◌≡◌, ap, ◌∙◌, ◌&&◌, ◌||◌, Bool, refl, inl, inr,
  Bool-cases, arith,
}
use levels.Base.Int.{
  pos, leb_ℤ, ltb_ℤ, shl_one_int64, mul_int64, mul_int64_exact, shl_one_int64_exact,
}
use levels.Config.{second}
use levels.Retry.Backoff.{pow_lt_of_mul, mul_pos, pow_pos}
use levels.Storage.State.{Env, Settings}
use levels.Storage.Workers.{upload_delay}

pow_far : (k : ℕ) → 2 ^ (k + 64) % 2 ^ 64 ≡ 0
pow_far zero = refl
pow_far (suc k) =
    let double : 2 ^ (suc k + 64) ≡ 2 ^ (k + 64) * 2 =
      let next : suc k + 64 ≡ suc (k + 64) = omega arith in
      ap (λ e. 2 ^ e) next ∙ pow-suc 2 (k + 64) in
    rw double (omega (arith, pow_far k))

shl_one_far : (k : ℕ) → shl_one_int64 (k + 64) ≡ pos 0
unfolding shl_one_int64
shl_one_far k = rw (pow_far k) refl

module _ (E : Env) (cfg : Settings) where
  abbrev capped : ℕ → ℕ → Bool
  capped delay attempt =
      (ltb_ℤ (pos 0) cfg.opt.retry_max_attempts && leb_ℤ cfg.opt.retry_max_attempts (pos attempt))
      || ltb_ℤ (pos (30 * second)) (pos delay)

  -- Without overflow the pause of uploadWithInfiniteRetry is positive and 30 seconds at most.
  upload_delay_bounds :
      (b k : ℕ)
      → cfg.opt.retry_base_delay ≡ pos b
      → 0 < b
      → b < 2 ^ 63
      → b * 2 ^ k < 2 ^ 63
      → (d : ℕ) × (upload_delay E cfg k ≡ pos d) × (0 < d) × (d ≤ 30 * second)
  unfolding upload_delay
  upload_delay_bounds b k base hb hb' h =
      let hp = pow_lt_of_mul b (2 ^ k) (2 ^ 63) hb h in
      let exact : mul_int64 (pos b) (shl_one_int64 k) ≡ pos (b * 2 ^ k) =
        rw (shl_one_int64_exact k hp) (mul_int64_exact b (2 ^ k) h hb' hp) in
      let positive = mul_pos b (2 ^ k) hb (pow_pos k) in
      elim (Bool-cases (capped (b * 2 ^ k) k)) [
        | inl cut ↦ (30 * second, rw (base, exact, cut) refl, omega arith, omega arith)
        | inr whole ↦ (b * 2 ^ k, rw (base, exact, whole) refl, positive, ground (arith, whole))
      ]

  -- From the attempt 64 on, while the limit of the attempts is not reached,
  -- uploadWithInfiniteRetry makes no pause at all.
  upload_delay_lost :
      (k m : ℕ)
      → cfg.opt.retry_max_attempts ≡ pos m
      → k + 64 < m
      → upload_delay E cfg (k + 64) ≡ pos 0
  unfolding upload_delay mul_int64
  upload_delay_lost k m limit h = rw (limit, shl_one_far k, upload_delay, mul_int64) (ground arith)
