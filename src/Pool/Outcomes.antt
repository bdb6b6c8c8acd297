-- ===== src/Pool/Outcomes.antt =====
-- What the results of the workers and their ends say of the jobs.
use levels.Base.{
  Pairwise, ℕ, zero, suc, ◌≡◌, refl, ap, ◌∙◌, Bool, true, false, ◌||◌, ◌⊎◌, inl, inr, List, [], ◌∷◌,
  ◌++◌, All, arith, subst,
}
use levels.Failure.{Outcome, ok, err}
use levels.Pool.{
  Phase, waiting, trying, cleaning, ended, Work, Pool, Event, start, advance, start_next, act,
  advance_at, step, run, pool_of, all_waiting, all_ended,
}
use levels.Pool.Keeps.{Rules, AllKept, jobs_of, run-AllKept, run-jobs_of}

abbrev pub has_error : List Outcome → Bool
has_error [] = false
has_error (ok _ ∷ results) = has_error results
has_error (err e ∷ results) = true

has_error-append : (xs ys : List Outcome) → has_error (xs ++ ys) ≡ has_error xs || has_error ys
has_error-append [] ys = refl
has_error-append (ok _ ∷ xs) ys = has_error-append xs ys
has_error-append (err e ∷ xs) ys = refl

abbrev pub is_failed : {S : Type 0} → Phase S → Bool
is_failed (ended (err e)) = true
is_failed _ = false

module _ {S A : Type 0} where
  abbrev pub any_failed : List (A × Phase S) → Bool
  any_failed [] = false
  any_failed ((job, phase) ∷ slots) = is_failed phase || any_failed slots

  start_next-any_failed :
      (slots : List (A × Phase S)) → any_failed (start_next slots) ≡ any_failed slots
  unfolding start_next
  start_next-any_failed [] = refl
  start_next-any_failed ((job, waiting) ∷ slots) = refl
  start_next-any_failed ((job, trying n) ∷ slots) = start_next-any_failed slots
  start_next-any_failed ((job, cleaning actions) ∷ slots) = start_next-any_failed slots
  start_next-any_failed ((job, ended (ok _)) ∷ slots) = start_next-any_failed slots
  start_next-any_failed ((job, ended (err e)) ∷ slots) = refl

  module _ (W : Work S A) where
    act-is_failed :
        (job : A) (phase : Phase S) (s : S)
        → let (phase', sends, t) = act W job phase s in
          is_failed phase' ≡ is_failed phase || has_error sends
    unfolding act
    act-is_failed job waiting s = refl
    act-is_failed job (trying n) s = ground arith
    act-is_failed job (cleaning []) s = refl
    act-is_failed job (cleaning (action ∷ actions)) s = refl
    act-is_failed job (ended (ok _)) s = refl
    act-is_failed job (ended (err e)) s = refl

    advance_at-any_failed :
        (i : ℕ) (slots : List (A × Phase S)) (s : S)
        → let (slots', sends, t) = advance_at W i slots s in
          any_failed slots' ≡ any_failed slots || has_error sends
    unfolding advance_at
    advance_at-any_failed i [] s = refl
    advance_at-any_failed zero ((job, phase) ∷ slots) s = ground (arith, act-is_failed job phase s)
    advance_at-any_failed (suc i) ((job, phase) ∷ slots) s =
        ground (arith, advance_at-any_failed i slots s)

    -- Each error of a worker is among the results, and no other.
    abbrev Reported : Pool S A → Type 0
    Reported p = any_failed p.slots ≡ has_error p.results

    step-Reported :
        (limit : ℕ) (event : Event) (p : Pool S A) → Reported p → Reported (step W limit event p)
    unfolding step
    step-Reported limit start p h = ground (arith, start_next-any_failed p.slots)
    step-Reported limit (advance i) p h =
        let (slots, sends, s) = advance_at W i p.slots p.state in
        ground (arith, advance_at-any_failed i p.slots p.state, has_error-append p.results sends)

    run-Reported :
        (limit : ℕ) (events : List Event) (p : Pool S A)
        → Reported p
        → Reported (run W limit events p)
    unfolding run
    run-Reported limit [] p h = h
    run-Reported limit (event ∷ events) p h =
        run-Reported limit events (step W limit event p) (step-Reported limit event p h)

all_waiting-any_failed :
    {A : Type 0} (S : Type 0) (jobs : List A) → any_failed (all_waiting {S = S} jobs) ≡ false
all_waiting-any_failed S [] = refl
all_waiting-any_failed S (job ∷ jobs) = all_waiting-any_failed S jobs

jobs_of-all_waiting :
    {A : Type 0} (S : Type 0) (jobs : List A) → jobs_of (all_waiting {S = S} jobs) ≡ jobs
jobs_of-all_waiting S [] = refl
jobs_of-all_waiting S (job ∷ jobs) = ap (λ rest. job ∷ rest) (jobs_of-all_waiting S jobs)

module _ {S A : Type 0} {W : Work S A} {Held Sent : A → S → Type 0} {Apart : A → A → Type 0}
    (R : Rules W Held Sent Apart) where
  all_waiting-AllKept :
      (jobs : List A) (s : S)
      → All (λ job. Held job s) jobs
      → AllKept W Held Sent Apart R (all_waiting jobs) s
  all_waiting-AllKept [] s h = tt
  all_waiting-AllKept (job ∷ jobs) s h = (h.0, all_waiting-AllKept jobs s h.1)

  AllKept-cases :
      (slots : List (A × Phase S)) (s : S)
      → AllKept W Held Sent Apart R slots s
      → All (λ job. Held job s ⊎ Sent job s) (jobs_of slots)
  AllKept-cases [] s h = tt
  AllKept-cases ((job, waiting) ∷ slots) s h = (inl h.0, AllKept-cases slots s h.1)
  AllKept-cases ((job, trying n) ∷ slots) s h = (inl h.0, AllKept-cases slots s h.1)
  AllKept-cases ((job, cleaning actions) ∷ slots) s h = (inr h.0.0, AllKept-cases slots s h.1)
  AllKept-cases ((job, ended (ok _)) ∷ slots) s h = (inr h.0, AllKept-cases slots s h.1)
  AllKept-cases ((job, ended (err e)) ∷ slots) s h = (inl h.0, AllKept-cases slots s h.1)

  AllKept-Sent :
      (slots : List (A × Phase S)) (s : S)
      → all_ended slots ≡ true
      → any_failed slots ≡ false
      → AllKept W Held Sent Apart R slots s
      → All (λ job. Sent job s) (jobs_of slots)
  AllKept-Sent [] s e n h = tt
  AllKept-Sent ((job, ended (ok _)) ∷ slots) s e n h = (h.0, AllKept-Sent slots s e n h.1)
  AllKept-Sent ((job, ended (err x)) ∷ slots) s e n h = absurd (ground arith)
  AllKept-Sent ((job, waiting) ∷ slots) s e n h = absurd (ground arith)
  AllKept-Sent ((job, trying m) ∷ slots) s e n h = absurd (ground arith)
  AllKept-Sent ((job, cleaning actions) ∷ slots) s e n h = absurd (ground arith)

  module _ (limit : ℕ) (events : List Event) (jobs : List A) (s : S) (apart : Pairwise Apart jobs)
      (held : All (λ job. Held job s) jobs) where
    abbrev final : Pool S A
    final = run W limit events (pool_of jobs s)

    final-jobs_of : jobs_of final.slots ≡ jobs
    final-jobs_of =
        run-jobs_of W Held Sent Apart R limit events (pool_of jobs s) ∙ jobs_of-all_waiting S jobs

    final-AllKept : AllKept W Held Sent Apart R final.slots final.state
    final-AllKept =
        run-AllKept W Held Sent Apart R limit events (pool_of jobs s)
          (rw (jobs_of-all_waiting S jobs) apart) (all_waiting-AllKept jobs s held)

    -- No job is lost under any schedule, whether or not it has come to its end.
    pub run-kept : All (λ job. Held job final.state ⊎ Sent job final.state) jobs
    run-kept =
        subst (All (λ job. Held job final.state ⊎ Sent job final.state)) final-jobs_of
          (AllKept-cases final.slots final.state final-AllKept)

    -- Without an error among the results of a schedule that has come to its end, all are sent.
    pub run-Sent :
        all_ended final.slots ≡ true
        → has_error final.results ≡ false
        → All (λ job. Sent job final.state) jobs
    run-Sent e clean = subst (All (λ job. Sent job final.state)) final-jobs_of (
        AllKept-Sent final.slots final.state e
          (run-Reported W limit events (pool_of jobs s) (all_waiting-any_failed S jobs) ∙ clean)
          final-AllKept)
