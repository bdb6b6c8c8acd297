-- ===== src/Pool.antt =====
-- The goroutines by which s3/storage.go uploads pending files, in `retryPendingFilesOnce` and
-- `syncPendingToS3`: a loop starts a worker for each file as soon as a slot of a semaphore is free,
-- and the steps of the workers interleave in any way. What the workers do is a parameter.
pub mod Laws
pub mod Keeps
pub mod Progress
pub mod Invariant
pub mod Parts
pub mod Outcomes
use levels.Base.{
  ℕ, zero, suc, ◌+◌, Bool, true, false, ◌&&◌, List, [], ◌∷◌, ◌++◌, ltb, if◌then◌else◌,
}
use levels.Failure.{GoError, Outcome, err, nil}

-- What one round of a worker's upload ends with.
pub data Verdict : Type 0 where
  uploaded : Verdict
  again : Verdict
  gave_up : GoError → Verdict

-- Where the worker of a job stands: not started, at its next round, behind its upload with actions
-- that are left, or done with a result.
pub data Phase (S : Type 0) : Type 0 where
  waiting : Phase S
  trying : ℕ → Phase S
  cleaning : List (S → S) → Phase S
  ended : Outcome → Phase S

-- A round of the upload, by the number of rounds before it, and the actions behind a success.
pub record Work (S A : Type 0) : Type 0 where
  pub attempt : A → ℕ → S → Verdict × S
  pub cleanup : A → List (S → S)

-- The jobs in the order in which they are started, the state that they share, and the results in
-- the order in which they were sent.
pub record Pool (S A : Type 0) : Type 0 where
  pub slots : List (A × Phase S)
  pub state : S
  pub results : List Outcome

pub data Event : Type 0 where
  -- The loop takes a slot of the semaphore and starts the next worker.
  start : Event
  -- The worker of this number does its next step.
  advance : ℕ → Event

module _ {S : Type 0} where
  abbrev pub is_running : Phase S → Bool
  is_running waiting = false
  is_running (trying n) = true
  is_running (cleaning actions) = true
  is_running (ended r) = false

  abbrev pub is_ended : Phase S → Bool
  is_ended (ended r) = true
  is_ended _ = false

module _ {S A : Type 0} where
  abbrev pub running : List (A × Phase S) → ℕ
  running [] = 0
  running ((job, phase) ∷ slots) =
      let rest = running slots in if is_running phase then rest + 1 else rest

  abbrev pub all_ended : List (A × Phase S) → Bool
  all_ended [] = true
  all_ended ((job, phase) ∷ slots) = is_ended phase && all_ended slots

  abbrev pub all_waiting : List A → List (A × Phase S)
  all_waiting [] = []
  all_waiting (job ∷ jobs) = (job, waiting) ∷ all_waiting jobs

  -- The pool at the start.
  abbrev pub pool_of : List A → S → Pool S A
  pool_of jobs s = record { slots = all_waiting jobs; state = s; results = [] }

  -- The first job that waits is started.
  unfoldable pub start_next : List (A × Phase S) → List (A × Phase S)
  start_next [] = []
  start_next ((job, waiting) ∷ slots) = (job, trying 0) ∷ slots
  start_next ((job, trying n) ∷ slots) = (job, trying n) ∷ start_next slots
  start_next ((job, cleaning actions) ∷ slots) = (job, cleaning actions) ∷ start_next slots
  start_next ((job, ended r) ∷ slots) = (job, ended r) ∷ start_next slots

  module _ (W : Work S A) where
    open W use {attempt, cleanup}

    abbrev pub after_attempt : A → ℕ → Verdict → Phase S
    after_attempt job n uploaded = cleaning (cleanup job)
    after_attempt job n again = trying (n + 1)
    after_attempt job n (gave_up e) = ended (err e)

    abbrev sent : Verdict → List Outcome
    sent uploaded = []
    sent again = []
    sent (gave_up e) = err e ∷ []

    -- One step of a worker, with the result that it sends.
    unfoldable pub act : A → Phase S → S → Phase S × List Outcome × S
    act job waiting s = (waiting, [], s)
    act job (trying n) s = let (v, s') = attempt job n s in (after_attempt job n v, sent v, s')
    act job (cleaning []) s = (ended nil, nil ∷ [], s)
    act job (cleaning (action ∷ actions)) s = (cleaning actions, [], action s)
    act job (ended r) s = (ended r, [], s)

    unfoldable pub advance_at : ℕ → List (A × Phase S) → S → List (A × Phase S) × List Outcome × S
    advance_at i [] s = ([], [], s)
    advance_at zero ((job, phase) ∷ slots) s =
        let (phase', sends, s') = act job phase s in ((job, phase') ∷ slots, sends, s')
    advance_at (suc i) (slot ∷ slots) s =
        let (slots', sends, s') = advance_at i slots s in (slot ∷ slots', sends, s')

    -- The semaphore lets `limit` workers run at once.
    unfoldable pub step : ℕ → Event → Pool S A → Pool S A
    step limit start p =
        if ltb (running p.slots) limit then record p { slots = start_next p.slots } else p
    step limit (advance i) p =
        let (slots, sends, s) = advance_at i p.slots p.state in
        record { slots = slots; state = s; results = p.results ++ sends }

    unfoldable pub run : ℕ → List Event → Pool S A → Pool S A
    run limit [] p = p
    run limit (event ∷ events) p = run limit events (step limit event p)
