-- ===== src/Retry/Laws.antt =====
-- How often `WithRetry` calls its function, and which of the results it returns.
use native.Mathlib.Decide.{dec_lt}
use levels.Base.{ℕ, zero, suc, ◌+◌, ◌^◌, ◌≤◌, ◌<◌, ◌≡◌, refl, Bool, true, false, none, arith}
use levels.Base.Int.{ℤ, pos, pos_part}
use levels.Failure.{retryable, retry_exhausted, is_retryable, Result, ok, err, nil}
use levels.Retry.{Timer, exp_delay, back_off, retry_loop, with_retry}
use levels.Retry.Backoff.{exp_delay_pos}

-- The timer does not touch what `f` reads from the state.
pub record Ignores {S B : Type 0} (T : Timer S) (f : S → B) : Type 0 where
  pub at_wait : (d : ℕ) (s : S) → f (T.wait d s).1 ≡ f s
  pub at_int63n : (n : ℕ) (s : S) → f (T.int63n n s).1 ≡ f s

module _ {S B : Type 0} (T : Timer S) (f : S → B) (ignores : Ignores T f) where
  pub back_off-Ignores :
      (max_attempts : ℕ) (base : ℤ) (attempt : ℕ) (s : S)
      → f (back_off T max_attempts base attempt s).1 ≡ f s
  unfolding back_off
  back_off-Ignores max_attempts base attempt s =
      let bound = pos_part (exp_delay base attempt) in
      let (d, s') = T.int63n bound s in
      ground (arith, ignores.at_int63n bound s, ignores.at_wait d s')

-- The context stays open and every wait ends by its time.
pub record IsQuiet {S : Type 0} (T : Timer S) : Type 0 where
  pub open_context : (s : S) → T.ctx_err s ≡ none
  pub waits : (d : ℕ) (s : S) → (T.wait d s).0 ≡ false

module _ {S : Type 0} (T : Timer S) (quiet : IsQuiet T) where
  back_off_quiet :
      (max_attempts b attempt : ℕ) (s : S)
      → 0 < b
      → b < 2 ^ 63
      → (back_off T max_attempts (pos b) attempt s).0 ≡ nil
  unfolding back_off
  back_off_quiet max_attempts b attempt s hb hb' =
      let bound = pos_part (exp_delay (pos b) attempt) in
      let (d, s') = T.int63n bound s in
      ground (arith, exp_delay_pos b attempt hb hb', quiet.waits d s')

-- Whether an attempt with this result is followed by another one.
abbrev pub retries : {A : Type 0} → Result A → Bool
retries (ok a) = false
retries (err e) = is_retryable e

module _ {S A : Type 0} (T : Timer S) (fn : S → Result A × S) (calls : S → ℕ)
    (ignores : Ignores T calls) (counts : (s : S) → calls (fn s).1 ≡ calls s + 1) where
  retry_loop_attempts :
      (max_attempts left attempt : ℕ) (base : ℤ) (s : S)
      → calls (retry_loop T max_attempts base fn left attempt s).1 ≤ calls s + left
  unfolding retry_loop
  retry_loop_attempts max_attempts zero attempt base s = omega arith
  retry_loop_attempts max_attempts (suc left) attempt base s =
      let s1 = (fn s).1 in
      let s2 = (back_off T max_attempts base attempt s1).1 in
      ground (
        arith,
        counts s,
        back_off-Ignores T calls ignores max_attempts base attempt s1,
        retry_loop_attempts max_attempts left (attempt + 1) base s2,
      )

  -- Whatever the context says and the waits return, if they do not call its function themselves,
  -- WithRetry calls its function maxAttempts times at most.
  pub with_retry_attempts :
      (max_attempts base : ℤ) (s : S)
      → calls (with_retry T max_attempts base fn s).1 ≤ calls s + pos_part max_attempts
  unfolding with_retry
  with_retry_attempts max_attempts base s =
      retry_loop_attempts (pos_part max_attempts) (pos_part max_attempts) 0 base s

  module _ (quiet : IsQuiet T) (b : ℕ) (hb : 0 < b) (hb' : b < 2 ^ 63) (script : ℕ → Result A)
      (scripted : (s : S) → (fn s).0 ≡ script (calls s)) where
    -- After a failed attempt that may be retried, with another one left or not.
    abbrev next : ℕ → ℕ → S → S
    next max_attempts attempt s = (back_off T max_attempts (pos b) attempt (fn s).1).1

    retry_loop-next :
        (max_attempts left attempt : ℕ) (s : S)
        → retries (script (calls s)) ≡ true
        → retry_loop T max_attempts (pos b) fn (suc left) attempt s
          ≡ retry_loop T max_attempts (pos b) fn left (attempt + 1) (next max_attempts attempt s)
    unfolding retry_loop
    retry_loop-next max_attempts left attempt s h = ground (
      arith,
      quiet.open_context s,
      scripted s,
      back_off_quiet T quiet max_attempts b attempt (fn s).1 hb hb',
    )

    calls-next :
        (max_attempts attempt : ℕ) (s : S) → calls (next max_attempts attempt s) ≡ suc (calls s)
    calls-next max_attempts attempt s =
        omega
          (arith, counts s, back_off-Ignores T calls ignores max_attempts (pos b) attempt (fn s).1)

    retry_loop_settles :
        (max_attempts left attempt : ℕ) (s : S) (m : ℕ)
        → calls s ≤ m
        → m < calls s + left
        → ((j : ℕ) → calls s ≤ j → j < m → retries (script j) ≡ true)
        → retries (script m) ≡ false
        → ((retry_loop T max_attempts (pos b) fn left attempt s).0 ≡ script m)
          × (calls (retry_loop T max_attempts (pos b) fn left attempt s).1 ≡ m + 1)
    unfolding retry_loop
    retry_loop_settles max_attempts zero attempt s m lo hi fails settles = absurd (omega arith)
    retry_loop_settles max_attempts (suc left) attempt s m lo hi fails settles =
        elim (dec_lt (calls s) m) [
          | yes more ↦
              let called = calls-next max_attempts attempt s in
              rw (retry_loop-next max_attempts left attempt s (fails (calls s) (omega arith) more))
                (retry_loop_settles max_attempts left (attempt + 1) (next max_attempts attempt s) m
                  (omega arith) (omega arith) (λ j p q. fails j (omega arith) q) settles)
          | no last ↦
              let here : calls s ≡ m = omega arith in
              ground (arith, quiet.open_context s, scripted s, counts s)
        ]

    retry_loop_exhausted :
        (max_attempts left attempt : ℕ) (s : S)
        → ((j : ℕ) → calls s ≤ j → j < calls s + left → retries (script j) ≡ true)
        → ((retry_loop T max_attempts (pos b) fn left attempt s).0
            ≡ err (retryable retry_exhausted))
          × (calls (retry_loop T max_attempts (pos b) fn left attempt s).1 ≡ calls s + left)
    unfolding retry_loop
    retry_loop_exhausted max_attempts zero attempt s fails = (refl, omega arith)
    retry_loop_exhausted max_attempts (suc left) attempt s fails =
        let called = calls-next max_attempts attempt s in
        let rest =
          retry_loop_exhausted max_attempts left (attempt + 1) (next max_attempts attempt s)
            (λ j p q. fails j (omega arith) (omega arith)) in
        rw
          (retry_loop-next max_attempts left attempt s
            (fails (calls s) (omega arith) (omega arith)))
          (rest.0, omega arith)

    -- With a positive base delay, a context that stays open and waits that end by their time,
    -- WithRetry returns the first result that is not a retryable error, right after the call that
    -- gave it, if one of the first maxAttempts calls gives it.
    pub with_retry_settles :
        (max_attempts : ℤ) (s : S) (m : ℕ)
        → calls s ≤ m
        → m < calls s + pos_part max_attempts
        → ((j : ℕ) → calls s ≤ j → j < m → retries (script j) ≡ true)
        → retries (script m) ≡ false
        → ((with_retry T max_attempts (pos b) fn s).0 ≡ script m)
          × (calls (with_retry T max_attempts (pos b) fn s).1 ≡ m + 1)
    unfolding with_retry
    with_retry_settles max_attempts s m =
        retry_loop_settles (pos_part max_attempts) (pos_part max_attempts) 0 s m

    -- With a positive base delay, a context that stays open and waits that end by their time, if
    -- the first maxAttempts calls all fail retryably, WithRetry makes exactly these calls and
    -- returns ErrRetryExhausted, marked as retryable.
    pub with_retry_exhausted :
        (max_attempts : ℤ) (s : S)
        → ((j : ℕ) → calls s ≤ j → j < calls s + pos_part max_attempts → retries (script j) ≡ true)
        → ((with_retry T max_attempts (pos b) fn s).0 ≡ err (retryable retry_exhausted))
          × (calls (with_retry T max_attempts (pos b) fn s).1 ≡ calls s + pos_part max_attempts)
    unfolding with_retry
    with_retry_exhausted max_attempts s =
        retry_loop_exhausted (pos_part max_attempts) (pos_part max_attempts) 0 s
