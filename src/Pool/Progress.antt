-- ===== src/Pool/Progress.antt =====
-- The workers come to an end: no step raises the work that is left, and while a worker has not
-- ended, some event lowers it.
use levels.Base.{
  ℕ, zero, suc, ◌+◌, ◌-◌, ◌≤◌, ◌<◌, ◌≡◌, ◌≢◌, refl, true, false, List, [], ◌∷◌, ◌++◌, arith,
  Bool-cases, inl, inr, ltb, if◌then◌else◌, length,
}
use levels.Pool.{
  Verdict, uploaded, again, gave_up, Phase, waiting, trying, cleaning, ended, Work, Pool, Event,
  start, advance, running, start_next, act, advance_at, step, run, is_running, all_ended,
}
use levels.Pool.Laws.{run-append}

module _ {S A : Type 0} (W : Work S A) (rounds : A → ℕ) where
  -- The steps that a worker may still need, when no round from the number `rounds job` on is
  -- followed by another.
  abbrev left_of : A → Phase S → ℕ
  left_of job waiting = rounds job + length (W.cleanup job) + 4
  left_of job (trying n) = (rounds job - n) + length (W.cleanup job) + 3
  left_of job (cleaning actions) = length actions + 1
  left_of job (ended r) = 0

  abbrev left : List (A × Phase S) → ℕ
  left [] = 0
  left ((job, phase) ∷ slots) = left_of job phase + left slots

  abbrev Bounded : Type 0
  Bounded = (job : A) (n : ℕ) (s : S) → rounds job ≤ n → (W.attempt job n s).0 ≢ again

  start_next-left :
      (slots : List (A × Phase S))
      → all_ended slots ≡ false
      → running slots ≡ 0
      → left (start_next slots) < left slots
  unfolding start_next
  start_next-left [] h idle = ground arith
  start_next-left ((job, waiting) ∷ slots) h idle = omega arith
  start_next-left ((job, trying n) ∷ slots) h idle = ground arith
  start_next-left ((job, cleaning actions) ∷ slots) h idle = ground arith
  start_next-left ((job, ended r) ∷ slots) h idle = omega (arith, start_next-left slots h idle)

  module _ (B : Bounded) where
    act-left :
        (job : A) (phase : Phase S) (s : S)
        → is_running phase ≡ true
        → left_of job (act W job phase s).0 < left_of job phase
    unfolding act
    act-left job waiting s h = ground arith
    act-left job (trying n) s h = verdict (W.attempt job n s).0 refl
      where
        verdict :
            (v : Verdict)
            → (W.attempt job n s).0 ≡ v
            → left_of job (act W job (trying n) s).0 < left_of job (trying n)
        verdict uploaded e = rw (e, act) (omega arith)
        verdict again e =
            let early : n < rounds job = ground (arith, B job n s) in rw (e, act) (omega arith)
        verdict (gave_up x) e = rw (e, act) (omega arith)
    act-left job (cleaning []) s h = omega arith
    act-left job (cleaning (action ∷ actions)) s h = omega arith
    act-left job (ended r) s h = ground arith

    -- The number of a worker that runs.
    abbrev first_running : List (A × Phase S) → ℕ
    first_running [] = 0
    first_running ((job, phase) ∷ slots) =
        let rest = first_running slots in if is_running phase then 0 else suc rest

    advance_at-left :
        (slots : List (A × Phase S)) (s : S)
        → 0 < running slots
        → left (advance_at W (first_running slots) slots s).0 < left slots
    unfolding advance_at
    advance_at-left [] s h = ground arith
    advance_at-left ((job, phase) ∷ slots) s h = elim (Bool-cases (is_running phase)) [
      | inl e ↦ rw e (omega (arith, act-left job phase s e))
      | inr e ↦ rw e (omega (arith, advance_at-left slots s (ground arith)))
    ]

    -- The next event of a schedule that ends.
    abbrev next_event : ℕ → Pool S A → Event
    next_event limit p = if ltb (running p.slots) 1 then start else advance (first_running p.slots)

    step-left :
        (limit : ℕ) (p : Pool S A)
        → 0 < limit
        → all_ended p.slots ≡ false
        → left (step W limit (next_event limit p) p).slots < left p.slots
    unfolding step
    step-left limit p h more = elim (Bool-cases (ltb (running p.slots) 1)) [
      | inl e ↦
          let idle : running p.slots ≡ 0 = ground arith in
          let free : ltb (running p.slots) limit ≡ true = ground arith in
          rw (e, free) (start_next-left p.slots more idle)
      | inr e ↦ rw e (advance_at-left p.slots p.state (ground arith))
    ]

    drain_aux :
        (fuel limit : ℕ) (p : Pool S A)
        → 0 < limit
        → left p.slots ≤ fuel
        → (events : List Event) × (all_ended (run W limit events p).slots ≡ true)
    unfolding run
    drain_aux zero limit p h few = elim (Bool-cases (all_ended p.slots)) [
      | inl done ↦ ([], done)
      | inr more ↦ absurd (omega (arith, step-left limit p h more))
    ]
    drain_aux (suc fuel) limit p h few = elim (Bool-cases (all_ended p.slots)) [
      | inl done ↦ ([], done)
      | inr more ↦
          let event = next_event limit p in
          let (events, done) =
            drain_aux fuel limit (step W limit event p) h
              (omega (arith, step-left limit p h more)) in
          (event ∷ events, done)
    ]

    -- From every pool a schedule leads to the end of all workers.
    pub drain :
        (limit : ℕ) (p : Pool S A)
        → 0 < limit
        → (events : List Event) × (all_ended (run W limit events p).slots ≡ true)
    drain limit p h = drain_aux (left p.slots) limit p h (omega arith)

    -- Every schedule can be continued to the end of all workers.
    pub drain_after :
        (limit : ℕ) (events : List Event) (p : Pool S A)
        → 0 < limit
        → (more : List Event) × (all_ended (run W limit (events ++ more) p).slots ≡ true)
    drain_after limit events p h =
        let (more, done) = drain limit (run W limit events p) h in
        (more, rw (run-append W limit events more p) done)
