-- ===== src/Pool/Parts.antt =====
-- The parts of cleanups that goroutines still have to do, when other steps come in between: each
-- is one of a cleanup, and what they and the rounds keep is kept by a step of the pool.
use levels.Base.{ℕ, zero, suc, List, [], ◌∷◌, All, Bool-cases, inl, inr, ltb}
use levels.Pool.{
  Verdict, uploaded, again, gave_up, Phase, waiting, trying, cleaning, ended, Work, Pool, Event,
  start, advance, running, start_next, act, advance_at, step, all_waiting, after_attempt,
}

module _ {S A : Type 0} (Good : (S → S) → Type 0) where
  abbrev pub GoodSlot : A × Phase S → Type 0
  GoodSlot (job, cleaning actions) = All Good actions
  GoodSlot (job, _) = Unit

  abbrev pub GoodSlots : List (A × Phase S) → Type 0
  GoodSlots slots = All GoodSlot slots

  pub all_waiting-Good : (jobs : List A) → GoodSlots (all_waiting jobs)
  all_waiting-Good [] = tt
  all_waiting-Good (job ∷ jobs) = (tt, all_waiting-Good jobs)

  start_next-Good : (slots : List (A × Phase S)) → GoodSlots slots → GoodSlots (start_next slots)
  unfolding start_next
  start_next-Good [] h = tt
  start_next-Good ((job, waiting) ∷ slots) h = (tt, h.1)
  start_next-Good ((job, trying n) ∷ slots) h = (tt, start_next-Good slots h.1)
  start_next-Good ((job, cleaning actions) ∷ slots) h = (h.0, start_next-Good slots h.1)
  start_next-Good ((job, ended r) ∷ slots) h = (tt, start_next-Good slots h.1)

  module _ (W : Work S A) (cleans : (job : A) → All Good (W.cleanup job)) where
    verdict-Good : (job : A) (n : ℕ) (v : Verdict) → GoodSlot (job, after_attempt W job n v)
    verdict-Good job n uploaded = cleans job
    verdict-Good job n again = tt
    verdict-Good job n (gave_up e) = tt

    act-Good :
        (job : A) (phase : Phase S) (s : S)
        → GoodSlot (job, phase)
        → GoodSlot (job, (act W job phase s).0)
    unfolding act
    act-Good job waiting s h = tt
    act-Good job (trying n) s h = verdict-Good job n (W.attempt job n s).0
    act-Good job (cleaning []) s h = tt
    act-Good job (cleaning (action ∷ actions)) s h = h.1
    act-Good job (ended r) s h = tt

    advance_at-Good :
        (i : ℕ) (slots : List (A × Phase S)) (s : S)
        → GoodSlots slots
        → GoodSlots (advance_at W i slots s).0
    unfolding advance_at
    advance_at-Good i [] s h = tt
    advance_at-Good zero ((job, phase) ∷ slots) s h = (act-Good job phase s h.0, h.1)
    advance_at-Good (suc i) (slot ∷ slots) s h = (h.0, advance_at-Good i slots s h.1)

    pub step-Good :
        (limit : ℕ) (event : Event) (p : Pool S A)
        → GoodSlots p.slots
        → GoodSlots (step W limit event p).slots
    unfolding step
    step-Good limit start p h = elim (Bool-cases (ltb (running p.slots) limit)) [
      | inl free ↦ rw free (start_next-Good p.slots h)
      | inr full ↦ rw full h
    ]
    step-Good limit (advance i) p h = advance_at-Good i p.slots p.state h

  module _ (W : Work S A) (I : S → Type 0)
      (tries : (job : A) (n : ℕ) (s : S) → I s → I (W.attempt job n s).1)
      (keeps : (action : S → S) (s : S) → Good action → I s → I (action s)) where
    act-Keeps :
        (job : A) (phase : Phase S) (s : S) → GoodSlot (job, phase) → I s → I (act W job phase s).2
    unfolding act
    act-Keeps job waiting s h i = i
    act-Keeps job (trying n) s h i = tries job n s i
    act-Keeps job (cleaning []) s h i = i
    act-Keeps job (cleaning (action ∷ actions)) s h i = keeps action s h.0 i
    act-Keeps job (ended r) s h i = i

    advance_at-Keeps :
        (i : ℕ) (slots : List (A × Phase S)) (s : S)
        → GoodSlots slots
        → I s
        → I (advance_at W i slots s).2
    unfolding advance_at
    advance_at-Keeps i [] s h k = k
    advance_at-Keeps zero ((job, phase) ∷ slots) s h k = act-Keeps job phase s h.0 k
    advance_at-Keeps (suc i) (slot ∷ slots) s h k = advance_at-Keeps i slots s h.1 k

    pub step-Keeps :
        (limit : ℕ) (event : Event) (p : Pool S A)
        → GoodSlots p.slots
        → I p.state
        → I (step W limit event p).state
    unfolding step
    step-Keeps limit start p h k = elim (Bool-cases (ltb (running p.slots) limit)) [
      | inl free ↦ rw free k
      | inr full ↦ rw full k
    ]
    step-Keeps limit (advance i) p h k = advance_at-Keeps i p.slots p.state h k
