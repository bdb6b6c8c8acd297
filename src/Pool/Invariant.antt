-- ===== src/Pool/Invariant.antt =====
-- A property of the state that every round and every part of a cleanup keeps is kept under every
-- schedule, for jobs that satisfy a condition.
use levels.Base.{ℕ, zero, suc, List, [], ◌∷◌, All, Bool-cases, inl, inr, ltb}
use levels.Pool.{
  Verdict, uploaded, again, gave_up, Phase, waiting, trying, cleaning, ended, Work, Pool, Event,
  start, advance, running, start_next, act, advance_at, step, run, pool_of, all_waiting,
  after_attempt,
}

module _ {S A : Type 0} (W : Work S A) (I : S → Type 0) (Fit : A → Type 0) where
  abbrev pub AllKeep : List (S → S) → Type 0
  AllKeep actions = All (λ action. (s : S) → I s → I (action s)) actions

  abbrev pub Tries : Type 0
  Tries = (job : A) (n : ℕ) (s : S) → Fit job → I s → I (W.attempt job n s).1

  abbrev pub Cleans : Type 0
  Cleans = (job : A) → Fit job → AllKeep (W.cleanup job)

  abbrev Safe : A × Phase S → Type 0
  Safe (job, cleaning actions) = Fit job × AllKeep actions
  Safe (job, _) = Fit job

  module _ (tries : Tries) (cleans : Cleans) where
    start_next-Safe : (slots : List (A × Phase S)) → All Safe slots → All Safe (start_next slots)
    unfolding start_next
    start_next-Safe [] h = tt
    start_next-Safe ((job, waiting) ∷ slots) h = h
    start_next-Safe ((job, trying n) ∷ slots) h = (h.0, start_next-Safe slots h.1)
    start_next-Safe ((job, cleaning actions) ∷ slots) h = (h.0, start_next-Safe slots h.1)
    start_next-Safe ((job, ended r) ∷ slots) h = (h.0, start_next-Safe slots h.1)

    verdict-Safe : (job : A) (n : ℕ) (v : Verdict) → Fit job → Safe (job, after_attempt W job n v)
    verdict-Safe job n uploaded h = (h, cleans job h)
    verdict-Safe job n again h = h
    verdict-Safe job n (gave_up e) h = h

    act-Safe :
        (job : A) (phase : Phase S) (s : S)
        → Safe (job, phase)
        → I s
        → let (phase', sends, t) = act W job phase s in Safe (job, phase') × I t
    unfolding act
    act-Safe job waiting s h i = (h, i)
    act-Safe job (trying n) s h i = (verdict-Safe job n (W.attempt job n s).0 h, tries job n s h i)
    act-Safe job (cleaning []) s h i = (h.0, i)
    act-Safe job (cleaning (action ∷ actions)) s h i = ((h.0, h.1.1), h.1.0 s i)
    act-Safe job (ended r) s h i = (h, i)

    advance_at-Safe :
        (i : ℕ) (slots : List (A × Phase S)) (s : S)
        → All Safe slots
        → I s
        → let (slots', sends, t) = advance_at W i slots s in All Safe slots' × I t
    unfolding advance_at
    advance_at-Safe i [] s h k = (tt, k)
    advance_at-Safe zero ((job, phase) ∷ slots) s h k =
        let (safe, kept) = act-Safe job phase s h.0 k in ((safe, h.1), kept)
    advance_at-Safe (suc i) (slot ∷ slots) s h k =
        let (safe, kept) = advance_at-Safe i slots s h.1 k in ((h.0, safe), kept)

    abbrev SafePool : Pool S A → Type 0
    SafePool p = All Safe p.slots × I p.state

    step-Safe :
        (limit : ℕ) (event : Event) (p : Pool S A) → SafePool p → SafePool (step W limit event p)
    unfolding step
    step-Safe limit start p h = elim (Bool-cases (ltb (running p.slots) limit)) [
      | inl free ↦ rw free (start_next-Safe p.slots h.0, h.1)
      | inr full ↦ rw full h
    ]
    step-Safe limit (advance i) p h = advance_at-Safe i p.slots p.state h.0 h.1

    run-Safe :
        (limit : ℕ) (events : List Event) (p : Pool S A)
        → SafePool p
        → SafePool (run W limit events p)
    unfolding run
    run-Safe limit [] p h = h
    run-Safe limit (event ∷ events) p h =
        run-Safe limit events (step W limit event p) (step-Safe limit event p h)

    all_waiting-Safe : (jobs : List A) → All Fit jobs → All Safe (all_waiting jobs)
    all_waiting-Safe [] h = tt
    all_waiting-Safe (job ∷ jobs) h = (h.0, all_waiting-Safe jobs h.1)

    -- What every round and every part of a cleanup keeps holds behind every schedule.
    pub run-Invariant :
        (limit : ℕ) (events : List Event) (jobs : List A) (s : S)
        → All Fit jobs
        → I s
        → I (run W limit events (pool_of jobs s)).state
    run-Invariant limit events jobs s fit i =
        (run-Safe limit events (pool_of jobs s) (all_waiting-Safe jobs fit, i)).1
