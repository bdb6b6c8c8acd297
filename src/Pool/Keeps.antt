-- ===== src/Pool/Keeps.antt =====
-- The rule by which a property of each job is kept under every schedule: what a job holds until its
-- upload has succeeded, and what is so from then on, neither of which another job may disturb.
use levels.Base.{
  Pairwise, ℕ, zero, suc, ◌≡◌, refl, ap, ◌∙◌, ltb, Bool-cases, inl, inr, List, [], ◌∷◌, All,
}
use levels.Failure.{ok, err}
use levels.Pool.{
  Verdict, uploaded, again, gave_up, Phase, waiting, trying, cleaning, ended, Work, Pool, Event,
  start, advance, running, start_next, act, advance_at, step, run,
}

abbrev pub jobs_of : {S A : Type 0} → List (A × Phase S) → List A
jobs_of [] = []
jobs_of ((job, phase) ∷ slots) = job ∷ jobs_of slots

module _ {S A : Type 0} (W : Work S A) (Held Sent : A → S → Type 0) (Apart : A → A → Type 0) where
  -- What is kept of a job when the state goes from `s` to `t`.
  abbrev pub Keeps : A → S → S → Type 0
  Keeps job s t = (Held job s → Held job t) × (Sent job s → Sent job t)

  abbrev pub Harmless : A → List (S → S) → Type 0
  Harmless job actions = All (λ action. (s : S) → Keeps job s (action s)) actions

  abbrev pub Finishing : A → List (S → S) → Type 0
  Finishing job actions = All (λ action. (s : S) → Sent job s → Sent job (action s)) actions

  pub record Rules : Type 0 where
    pub attempt_holds : (job : A) (n : ℕ) (s : S) → Held job s → Held job (W.attempt job n s).1
    pub attempt_sends :
        (job : A) (n : ℕ) (s : S)
        → Held job s
        → (W.attempt job n s).0 ≡ uploaded
        → Sent job (W.attempt job n s).1
    pub attempt_other :
        (other job : A) (n : ℕ) (s : S) → Apart other job → Keeps other s (W.attempt job n s).1
    pub cleanup_own : (job : A) → Finishing job (W.cleanup job)
    pub cleanup_other : (other job : A) → Apart other job → Harmless other (W.cleanup job)

  module _ (R : Rules) where
    -- What holds of a job in its phase.
    abbrev pub Kept : A → Phase S → S → Type 0
    Kept job waiting s = Held job s
    Kept job (trying n) s = Held job s
    Kept job (cleaning actions) s =
        Sent job s
        × Finishing job actions
        × ((other : A) → Apart other job → Harmless other actions)
    Kept job (ended (ok _)) s = Sent job s
    Kept job (ended (err e)) s = Held job s

    abbrev pub AllKept : List (A × Phase S) → S → Type 0
    AllKept slots s = All (λ slot. Kept slot.0 slot.1 s) slots

    Kept-Keeps :
        (job : A) (phase : Phase S) (s t : S) → Keeps job s t → Kept job phase s → Kept job phase t
    Kept-Keeps job waiting s t k h = k.0 h
    Kept-Keeps job (trying n) s t k h = k.0 h
    Kept-Keeps job (cleaning actions) s t k h = (k.1 h.0, h.1, h.2)
    Kept-Keeps job (ended (ok _)) s t k h = k.1 h
    Kept-Keeps job (ended (err e)) s t k h = k.0 h

    act-Kept :
        (job : A) (phase : Phase S) (s : S)
        → Kept job phase s
        → let (phase', sends, t) = act W job phase s in Kept job phase' t
    unfolding act
    act-Kept job waiting s h = h
    act-Kept job (trying n) s h = verdict (W.attempt job n s).0 refl
      where
        verdict :
            (v : Verdict)
            → (W.attempt job n s).0 ≡ v
            → let (phase', sends, t) = act W job (trying n) s in Kept job phase' t
        verdict uploaded e =
            rw (e, act)
              (
                R.attempt_sends job n s h e,
                R.cleanup_own job,
                λ other apart. R.cleanup_other other job apart,
              )
        verdict again e = rw (e, act) (R.attempt_holds job n s h)
        verdict (gave_up x) e = rw (e, act) (R.attempt_holds job n s h)
    act-Kept job (cleaning []) s h = h.0
    act-Kept job (cleaning (action ∷ actions)) s h =
        (h.1.0 s h.0, h.1.1, λ other apart. (h.2 other apart).1)
    act-Kept job (ended (ok u)) s h = h
    act-Kept job (ended (err e)) s h = h

    act-Keeps :
        (other job : A) (phase : Phase S) (s : S)
        → Apart other job
        → Kept job phase s
        → let (phase', sends, t) = act W job phase s in Keeps other s t
    unfolding act
    act-Keeps other job waiting s apart h = (λ x. x, λ x. x)
    act-Keeps other job (trying n) s apart h = R.attempt_other other job n s apart
    act-Keeps other job (cleaning []) s apart h = (λ x. x, λ x. x)
    act-Keeps other job (cleaning (action ∷ actions)) s apart h = (h.2 other apart).0 s
    act-Keeps other job (ended r) s apart h = (λ x. x, λ x. x)

    -- A step of one of the workers, seen from a job that is apart from all of them.
    advance_at-Keeps :
        (other : A) (i : ℕ) (slots : List (A × Phase S)) (s : S)
        → All (λ job. Apart other job × Apart job other) (jobs_of slots)
        → AllKept slots s
        → let (slots', sends, t) = advance_at W i slots s in Keeps other s t
    unfolding advance_at
    advance_at-Keeps other i [] s apart h = (λ x. x, λ x. x)
    advance_at-Keeps other zero ((job, phase) ∷ slots) s apart h =
        act-Keeps other job phase s apart.0.0 h.0
    advance_at-Keeps other (suc i) ((job, phase) ∷ slots) s apart h =
        advance_at-Keeps other i slots s apart.1 h.1

    -- A step of a worker, seen from the slots of others.
    AllKept-Keeps :
        (slots : List (A × Phase S)) (s t : S)
        → All (λ job. Keeps job s t) (jobs_of slots)
        → AllKept slots s
        → AllKept slots t
    AllKept-Keeps [] s t k h = tt
    AllKept-Keeps ((job, phase) ∷ slots) s t k h =
        (Kept-Keeps job phase s t k.0 h.0, AllKept-Keeps slots s t k.1 h.1)

    others-Keeps :
        (job : A) (phase : Phase S) (others : List A) (s : S)
        → All (λ other. Apart job other × Apart other job) others
        → Kept job phase s
        → let (phase', sends, t) = act W job phase s in All (λ other. Keeps other s t) others
    others-Keeps job phase [] s apart h = tt
    others-Keeps job phase (other ∷ others) s apart h =
        (act-Keeps other job phase s apart.0.1 h, others-Keeps job phase others s apart.1 h)

    advance_at-AllKept :
        (i : ℕ) (slots : List (A × Phase S)) (s : S)
        → Pairwise Apart (jobs_of slots)
        → AllKept slots s
        → let (slots', sends, t) = advance_at W i slots s in AllKept slots' t
    unfolding advance_at
    advance_at-AllKept i [] s apart h = tt
    advance_at-AllKept zero ((job, phase) ∷ slots) s apart h = (
      act-Kept job phase s h.0,
      AllKept-Keeps slots s _ (others-Keeps job phase (jobs_of slots) s apart.0 h.0) h.1,
    )
    advance_at-AllKept (suc i) ((job, phase) ∷ slots) s apart h = (
      Kept-Keeps job phase s _ (advance_at-Keeps job i slots s apart.0 h.1) h.0,
      advance_at-AllKept i slots s apart.1 h.1,
    )

    start_next-AllKept :
        (slots : List (A × Phase S)) (s : S) → AllKept slots s → AllKept (start_next slots) s
    unfolding start_next
    start_next-AllKept [] s h = tt
    start_next-AllKept ((job, waiting) ∷ slots) s h = h
    start_next-AllKept ((job, trying n) ∷ slots) s h = (h.0, start_next-AllKept slots s h.1)
    start_next-AllKept ((job, cleaning actions) ∷ slots) s h = (h.0, start_next-AllKept slots s h.1)
    start_next-AllKept ((job, ended r) ∷ slots) s h = (h.0, start_next-AllKept slots s h.1)

    jobs_of-start_next : (slots : List (A × Phase S)) → jobs_of (start_next slots) ≡ jobs_of slots
    unfolding start_next
    jobs_of-start_next [] = refl
    jobs_of-start_next ((job, waiting) ∷ slots) = refl
    jobs_of-start_next ((job, trying n) ∷ slots) =
        ap (λ jobs. job ∷ jobs) (jobs_of-start_next slots)
    jobs_of-start_next ((job, cleaning actions) ∷ slots) =
        ap (λ jobs. job ∷ jobs) (jobs_of-start_next slots)
    jobs_of-start_next ((job, ended r) ∷ slots) = ap (λ jobs. job ∷ jobs) (jobs_of-start_next slots)

    jobs_of-advance_at :
        (i : ℕ) (slots : List (A × Phase S)) (s : S)
        → jobs_of (advance_at W i slots s).0 ≡ jobs_of slots
    unfolding advance_at
    jobs_of-advance_at i [] s = refl
    jobs_of-advance_at zero ((job, phase) ∷ slots) s = refl
    jobs_of-advance_at (suc i) ((job, phase) ∷ slots) s =
        ap (λ jobs. job ∷ jobs) (jobs_of-advance_at i slots s)

    step-jobs_of :
        (limit : ℕ) (event : Event) (p : Pool S A)
        → jobs_of (step W limit event p).slots ≡ jobs_of p.slots
    unfolding step
    step-jobs_of limit start p = elim (Bool-cases (ltb (running p.slots) limit)) [
      | inl e ↦ rw e (jobs_of-start_next p.slots)
      | inr e ↦ rw e refl
    ]
    step-jobs_of limit (advance i) p = jobs_of-advance_at i p.slots p.state

    step-AllKept :
        (limit : ℕ) (event : Event) (p : Pool S A)
        → Pairwise Apart (jobs_of p.slots)
        → AllKept p.slots p.state
        → AllKept (step W limit event p).slots (step W limit event p).state
    unfolding step
    step-AllKept limit start p apart h = elim (Bool-cases (ltb (running p.slots) limit)) [
      | inl e ↦ rw e (start_next-AllKept p.slots p.state h)
      | inr e ↦ rw e h
    ]
    step-AllKept limit (advance i) p apart h = advance_at-AllKept i p.slots p.state apart h

    pub run-AllKept :
        (limit : ℕ) (events : List Event) (p : Pool S A)
        → Pairwise Apart (jobs_of p.slots)
        → AllKept p.slots p.state
        → AllKept (run W limit events p).slots (run W limit events p).state
    unfolding run
    run-AllKept limit [] p apart h = h
    run-AllKept limit (event ∷ events) p apart h =
        run-AllKept limit events (step W limit event p) (rw (step-jobs_of limit event p) apart)
          (step-AllKept limit event p apart h)

    pub run-jobs_of :
        (limit : ℕ) (events : List Event) (p : Pool S A)
        → jobs_of (run W limit events p).slots ≡ jobs_of p.slots
    unfolding run
    run-jobs_of limit [] p = refl
    run-jobs_of limit (event ∷ events) p =
        run-jobs_of limit events (step W limit event p) ∙ step-jobs_of limit event p
