-- ===== src/Retry/Ends.antt =====
-- A rule for what `WithRetry` keeps and gives, from what one call of its function keeps and gives.
use levels.Base.{
  ℕ, zero, suc, ◌+◌, ◌≡◌, refl, false, ◌⊎◌, some, inl, inr, Option-cases, Bool-cases, arith,
}
use levels.Base.Int.{ℤ, pos_part}
use levels.Failure.{GoError, Result, err, Result-cases, is_retryable, is_not_found_error}
use levels.Retry.{Timer, exp_delay, back_off, retry_loop, with_retry}

-- What waiting and drawing numbers keep. The error of a context is never that of a missing object.
pub record Stays {S : Type 0} (T : Timer S) (P : S → Type 0) : Type 0 where
  pub at_wait : (d : ℕ) (s : S) → P s → P (T.wait d s).1
  pub at_int63n : (n : ℕ) (s : S) → P s → P (T.int63n n s).1
  pub ctx_err : (s : S) (e : GoError) → T.ctx_err s ≡ some e → is_not_found_error e ≡ false

module _ {S : Type 0} (T : Timer S) where
  back_off_state :
      (max_attempts : ℕ) (base : ℤ) (attempt : ℕ) (s : S)
      → let s' = (back_off T max_attempts base attempt s).1 in
        let (d, t) = T.int63n (pos_part (exp_delay base attempt)) s in
        (s' ≡ s) ⊎ (s' ≡ t) ⊎ (s' ≡ (T.wait d t).1)
  unfolding back_off
  back_off_state max_attempts base attempt s = ground arith

  back_off-Stays :
      (P : S → Type 0) (max_attempts : ℕ) (base : ℤ) (attempt : ℕ) (s : S)
      → Stays T P
      → P s
      → P (back_off T max_attempts base attempt s).1
  back_off-Stays P max_attempts base attempt s stays p =
      let bound = pos_part (exp_delay base attempt) in
      let q = stays.at_int63n bound s p in
      elim (back_off_state max_attempts base attempt s) [
        | inl e ↦ rw e p
        | inr (inl e) ↦ rw e q
        | inr (inr e) ↦ rw e (stays.at_wait _ _ q)
      ]

  back_off_err :
      (P : S → Type 0) (max_attempts : ℕ) (base : ℤ) (attempt : ℕ) (s : S) (e : GoError)
      → Stays T P
      → (back_off T max_attempts base attempt s).0 ≡ err e
      → is_not_found_error e ≡ false
  unfolding back_off is_not_found_error
  back_off_err P max_attempts base attempt s e stays h =
      let (d, t) = T.int63n (pos_part (exp_delay base attempt)) s in
      ground (arith, stays.ctx_err (T.wait d t).1 e)

module _ {S A : Type 0} (T : Timer S) (fn : S → Result A × S) (P : S → Type 0)
    (R : Result A → S → Type 0) (stays : Stays T P) (keeps : (s : S) → P s → P (fn s).1)
    (gives : (s : S) → P s → R (fn s).0 (fn s).1)
    (fails : (s : S) (e : GoError) → is_not_found_error e ≡ false → P s → R (err e) s) where
  retry_loop-Ends :
      (max_attempts : ℕ) (base : ℤ) (left attempt : ℕ) (s : S)
      → P s
      → let (r, s') = retry_loop T max_attempts base fn left attempt s in P s' × R r s'
  unfolding retry_loop is_not_found_error
  retry_loop-Ends max_attempts base zero attempt s p = (p, fails s _ refl p)
  retry_loop-Ends max_attempts base (suc left) attempt s p = elim (Option-cases (T.ctx_err s)) [
    | inr (x, e) ↦ rw (e, retry_loop) (p, fails s x (stays.ctx_err s x e) p)
    | inl e ↦ elim (Result-cases (fn s).0) [
      | inl (a, r) ↦ rw (e, retry_loop, r) (keeps s p, rw r at (gives s p))
      | inr (x, r) ↦
          let q = keeps s p in
          let q' = back_off-Stays T P max_attempts base attempt (fn s).1 stays q in
          elim (Bool-cases (is_retryable x)) [
            | inr stop ↦ rw (e, retry_loop, r, stop) (q, rw r at (gives s p))
            | inl again ↦ elim (Result-cases (back_off T max_attempts base attempt (fn s).1).0) [
              | inr (y, slept) ↦
                  rw (e, retry_loop, r, again, slept)
                    (
                      q',
                      fails _ y (back_off_err T P max_attempts base attempt (fn s).1 y stays slept)
                          q',
                    )
              | inl (u, slept) ↦
                  rw (e, retry_loop, r, again, slept)
                    (retry_loop-Ends max_attempts base left (attempt + 1) _ q')
            ]
          ]
    ]
  ]

  -- The rule: `P` is kept, and the result is related by `R` to the last state.
  pub with_retry-Ends :
      (max_attempts base : ℤ) (s : S)
      → P s
      → let (r, s') = with_retry T max_attempts base fn s in P s' × R r s'
  unfolding with_retry
  with_retry-Ends max_attempts base s =
      retry_loop-Ends (pos_part max_attempts) base (pos_part max_attempts) 0 s
