-- ===== src/Pool/Laws.antt =====
-- What holds of the workers under every schedule.
use levels.Base.{ℕ, zero, suc, ◌+◌, ◌≤◌, ◌≡◌, refl, List, [], ◌∷◌, ◌++◌, arith}
use levels.Pool.{
  Phase, waiting, trying, cleaning, ended, Work, Pool, Event, start, advance, running, start_next,
  act, advance_at, step, run, all_waiting,
}

module _ {S A : Type 0} where
  start_next-running : (slots : List (A × Phase S)) → running (start_next slots) ≤ running slots + 1
  unfolding start_next
  start_next-running [] = omega arith
  start_next-running ((job, waiting) ∷ slots) = omega arith
  start_next-running ((job, trying n) ∷ slots) = omega (arith, start_next-running slots)
  start_next-running ((job, cleaning actions) ∷ slots) = omega (arith, start_next-running slots)
  start_next-running ((job, ended r) ∷ slots) = omega (arith, start_next-running slots)

module _ {S A : Type 0} (W : Work S A) where
  advance_at-running :
      (i : ℕ) (slots : List (A × Phase S)) (s : S)
      → running (advance_at W i slots s).0 ≤ running slots
  unfolding advance_at act
  advance_at-running i [] s = omega arith
  advance_at-running zero ((job, waiting) ∷ slots) s = omega arith
  advance_at-running zero ((job, trying n) ∷ slots) s = ground arith
  advance_at-running zero ((job, cleaning []) ∷ slots) s = omega arith
  advance_at-running zero ((job, cleaning (action ∷ actions)) ∷ slots) s = omega arith
  advance_at-running zero ((job, ended r) ∷ slots) s = omega arith
  advance_at-running (suc i) ((job, phase) ∷ slots) s = ground (arith, advance_at-running i slots s)

  pub step-running :
      (limit : ℕ) (event : Event) (p : Pool S A)
      → running p.slots ≤ limit
      → running (step W limit event p).slots ≤ limit
  unfolding step
  step-running limit start p h = ground (arith, start_next-running p.slots)
  step-running limit (advance i) p h = omega (arith, advance_at-running i p.slots p.state)

  pub run-append :
      (limit : ℕ) (before after : List Event) (p : Pool S A)
      → run W limit (before ++ after) p ≡ run W limit after (run W limit before p)
  unfolding run
  run-append limit [] after p = refl
  run-append limit (event ∷ before) after p = run-append limit before after (step W limit event p)

pub all_waiting-running :
    {A : Type 0} (S : Type 0) (jobs : List A) → running (all_waiting {S = S} jobs) ≡ 0
all_waiting-running S [] = refl
all_waiting-running S (job ∷ jobs) = all_waiting-running S jobs
