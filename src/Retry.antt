-- ===== src/Retry.antt =====
-- s3/retry.go. The context, the clock and the random numbers are those of the state that the
-- retried function runs on: `Timer` says how they are read.
pub mod Laws
pub mod Backoff
pub mod Ends
use levels.Base.{ℕ, zero, suc, ◌+◌, Bool, Option, none, some, not, ltb, if◌then◌else◌}
use levels.Base.Int.{ℤ, pos, pos_part, leb_ℤ, mul_int64, shl_one_int64}
use levels.Failure.{
  GoError, retryable, retry_exhausted, plain, is_retryable, Result, ok, err, Outcome, nil,
}

pub record Timer (S : Type 0) : Type 0 where
  -- `ctx.Err()`
  pub ctx_err : S → Option GoError
  -- Waits for `ctx.Done()` or for a time, and says whether the context was first.
  pub wait : ℕ → S → Bool × S
  -- `rand.Int63n`
  pub int63n : ℕ → S → ℕ × S

-- `baseDelay * time.Duration(1<<uint(attempt))`, or the base if that is not positive
unfoldable pub exp_delay : ℤ → ℕ → ℤ
exp_delay base attempt =
    let delay = mul_int64 base (shl_one_int64 attempt) in
    if leb_ℤ delay (pos 0) then base else delay

module _ {S : Type 0} (T : Timer S) where
  -- `none` is the panic of `rand.Int63n` at an argument that is not positive.
  unfoldable pub calc_backoff : ℤ → ℕ → S → Option ℕ × S
  calc_backoff base attempt s =
      let bound = exp_delay base attempt in
      if leb_ℤ bound (pos 0)
      then (none, s)
      else let (d, s') = T.int63n (pos_part bound) s in (some d, s')

  abbrev as_outcome : Option GoError → Outcome
  as_outcome none = nil
  as_outcome (some e) = err e

  unfoldable pub sleep_ctx : ℕ → S → Outcome × S
  sleep_ctx delay s =
      let (done, s') = T.wait delay s in if done then (as_outcome (T.ctx_err s'), s') else (nil, s')

  -- The pause after a failed attempt that is not the last. The panic is given an error of its own.
  unfoldable pub back_off : ℕ → ℤ → ℕ → S → Outcome × S
  unfolding calc_backoff sleep_ctx
  back_off max_attempts base attempt s =
      if ltb (attempt + 1) max_attempts
      then (let (delay, s') = calc_backoff base attempt s in
          elim delay [
            | none ↦ (err (plain "panic: invalid argument to Int63n"), s')
            | some d ↦ sleep_ctx d s'
          ])
      else (nil, s)

module _ {S A : Type 0} (T : Timer S) (max_attempts : ℕ) (base : ℤ) (fn : S → Result A × S) where
  -- The loop, with the attempts that are left.
  unfoldable pub retry_loop : ℕ → ℕ → S → Result A × S
  retry_loop zero attempt s = (err (retryable retry_exhausted), s)
  retry_loop (suc left) attempt s = elim (T.ctx_err s) [
    | some e ↦ (err e, s)
    | none ↦
        let (r, s1) = fn s in
        elim r [
          | ok a ↦ (ok a, s1)
          | err e ↦
              let (slept, s2) = back_off T max_attempts base attempt s1 in
              let rest = retry_loop left (attempt + 1) s2 in
              if not (is_retryable e)
              then (err e, s1)
              else elim slept [ err e' ↦ (err e', s2) | ok _ ↦ rest ]
        ]
  ]

-- `fn` is the closure with the variable that it sets.
unfoldable pub with_retry : {S A : Type 0} → Timer S → ℤ → ℤ → (S → Result A × S) → S → Result A × S
unfolding retry_loop
with_retry T max_attempts base fn =
    retry_loop T (pos_part max_attempts) base fn (pos_part max_attempts) 0
