-- ===== src/Storage/Workers/Ends.antt =====
-- The goroutines come to an end, and never more of them run than the options allow.
use levels.Base.{
  ◌≡◌, ◌≢◌, ◌≤◌, ◌<◌, Bool, true, some, List, [], ◌++◌, arith, Bool-cases, ℕ, Option, none, refl,
  ◌∷◌, ◌⊎◌, ◌||◌, not, inl, inr,
}
use levels.Base.Int.{pos, ltb_ℤ, leb_ℤ}
use levels.Config.{positive_or}
use levels.Failure.{Outcome, err, nil, wrapped, Result-cases}
use levels.Pool.{Event, all_waiting, run, all_ended, pool_of, again, running}
use levels.Pool.Progress.{drain_after}
use levels.Pool.Laws.{step-running, all_waiting-running}
use levels.Storage.Workers.Loop.{
  LoopEvent, wake, work, Background, start_round, background_step, background_run,
}
use levels.Storage.State.{Env, Settings, St}
use levels.Storage.Upload.{has_pending_dir}
use levels.Storage.Pending.{PendingFileEntry, read_pending_files}
use levels.Storage.Workers.{
  concurrency, retry_work, sync_work, upload_round, upload_pending, retry_pending_files_once,
  upload_all_pending, sync_pending_to_s3, begin_retry, sync_from_shadow, first_error,
}

module _ (E : Env) (cfg : Settings) where
  concurrency_positive : 0 < concurrency E cfg
  concurrency_positive = unfold positive_or in ground arith

  upload_pending_once :
      (f : PendingFileEntry) (n : ℕ) (s : St E) → (upload_pending E cfg f n s).0 ≢ again
  unfolding upload_pending
  upload_pending_once f n s h = ground arith

  upload_round_overdue :
      (overdue : PendingFileEntry → ℕ → Bool) (f : PendingFileEntry) (n : ℕ) (s : St E)
      → ltb_ℤ (pos 0) cfg.opt.retry_max_duration ≡ true
      → overdue f n ≡ true
      → (upload_round E cfg overdue f n s).0 ≢ again
  unfolding upload_round
  upload_round_overdue overdue f n s limited late h = ground arith

  -- However the goroutines of syncPendingToS3 have gone on so far, a schedule continues them to
  -- their end, at which the call returns.
  pub sync_pending_to_s3_ends :
      (schedule : List Event) (s : St E)
      → (more : List Event) × (r : Outcome) × ((sync_pending_to_s3 E cfg (schedule ++ more) s).0
          ≡ some r)
  unfolding sync_pending_to_s3 upload_all_pending
  sync_pending_to_s3_ends schedule s =
      let s0 = (sync_from_shadow E cfg s).1 in
      let s1 = (read_pending_files E cfg s0).1 in
      let once : (f : PendingFileEntry) (n : ℕ) (t : St E)
          → 0 ≤ n
          → ((sync_work E cfg).attempt f n t).0 ≢ again =
        λ f n t late. upload_pending_once f n t in
      elim (Bool-cases (has_pending_dir E cfg)) [
        | inr unset ↦ ([], nil, ground arith)
        | inl dir ↦ elim (Result-cases (read_pending_files E cfg s0).0) [
          | inr (e, failed) ↦ ([], err (wrapped "failed to read pending dir" e), ground arith)
          | inl (files, found) ↦
              let (more, done) =
                drain_after (sync_work E cfg) (λ f. 0) once (concurrency E cfg) schedule
                  (pool_of files s1) concurrency_positive in
              let p =
                run (sync_work E cfg) (concurrency E cfg) (schedule ++ more) (pool_of files s1) in
              (more, first_error p.results, ground arith)
        ]
      ]

  -- With a limit on the duration of the retries that every file exceeds from some round on, the
  -- goroutines of retryPendingFilesOnce can be continued to their end from wherever they are, at
  -- which the call returns, whether or not any upload succeeds.
  pub retry_pending_files_once_ends :
      (overdue : PendingFileEntry → ℕ → Bool) (rounds : PendingFileEntry → ℕ)
      (schedule : List Event) (s : St E)
      → ltb_ℤ (pos 0) cfg.opt.retry_max_duration ≡ true
      → ((f : PendingFileEntry) (n : ℕ) → rounds f ≤ n → overdue f n ≡ true)
      → (more : List Event) × ((retry_pending_files_once E cfg overdue (schedule ++ more) s).0
          ≡ true)
  unfolding retry_pending_files_once
  retry_pending_files_once_ends overdue rounds schedule s limited late =
      let s1 = (read_pending_files E cfg s).1 in
      let ends : (f : PendingFileEntry) (n : ℕ) (t : St E)
          → rounds f ≤ n
          → ((retry_work E cfg overdue).attempt f n t).0 ≢ again =
        λ f n t h. upload_round_overdue overdue f n t limited (late f n h) in
      elim (Result-cases (read_pending_files E cfg s).0) [
        | inr (e, failed) ↦ ([], ground arith)
        | inl (files, found) ↦
            let (more, done) =
              drain_after (retry_work E cfg overdue) rounds ends (concurrency E cfg) schedule
                (pool_of files s1) concurrency_positive in
            (more, ground arith)
      ]

  waiting-running :
      (found : Option (List PendingFileEntry))
      → running {S = St E} (elim found [ none ↦ [] | some files ↦ all_waiting files ]) ≡ 0
  waiting-running none = refl
  waiting-running (some files) = all_waiting-running (St E) files

  background_step-running :
      (event : LoopEvent) (b : Background E cfg)
      → running b.slots ≤ concurrency E cfg
      → running (background_step E cfg event b).slots ≤ concurrency E cfg
  unfolding background_step start_round
  background_step-running (wake stop_first) b h =
      elim (Bool-cases (b.last_round || not (all_ended b.slots))) [
        | inl busy ↦ rw busy h
        | inr free ↦ rw free (omega (arith, waiting-running (begin_retry E cfg b.storage).0))
      ]
  background_step-running (work overdue event) b h =
      step-running (retry_work E cfg overdue) (concurrency E cfg) event _ h

  background_run-running :
      (events : List LoopEvent) (b : Background E cfg)
      → running b.slots ≤ concurrency E cfg
      → running (background_run E cfg events b).slots ≤ concurrency E cfg
  unfolding background_run
  background_run-running [] b h = h
  background_run-running (event ∷ events) b h =
      background_run-running events (background_step E cfg event b)
        (background_step-running event b h)

  -- From no goroutines, under any sequence of wake-ups and steps of the background retry, never
  -- more goroutines run at once than PendingMaxConcurrency if it is positive, and 4 if it is not.
  pub workers_bounded :
      (events : List LoopEvent) (b : Background E cfg) (most : ℕ)
      → b.slots ≡ []
      → ((0 < most) × (cfg.opt.pending_max_concurrency ≡ pos most))
        ⊎ ((most ≡ 4) × (leb_ℤ cfg.opt.pending_max_concurrency (pos 0) ≡ true))
      → running (background_run E cfg events b).slots ≤ most
  workers_bounded events b most idle limit =
      let bounded = background_run-running events b (rw idle (omega arith)) in
      let same : concurrency E cfg ≡ most = unfold positive_or in ground (arith, limit) in
      rw (← same) bounded
