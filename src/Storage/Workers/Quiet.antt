-- ===== src/Storage/Workers/Quiet.antt =====
-- The background retry once the storage is told to stop or the lock is lost: what the goroutines
-- still do is to clean up behind an upload that has succeeded.
use levels.Base.{
  ℕ, Bool, true, ◌||◌, ◌≡◌, ◌≢◌, refl, ◌∙◌, inl, inr, List, [], ◌∷◌, All, Str, arith, Bool-cases,
  none, some, Bytes, Option, not,
}
use levels.Pool.{Phase, all_waiting, all_ended}
use levels.Pool.Parts.{GoodSlots, all_waiting-Good, step-Good, step-Keeps}
use levels.Storage.State.{Env, Settings, St}
use levels.Storage.Laws.{EnvLaws, remote}
use levels.Storage.Upload.{shadow_key, clean_shadow}
use levels.Storage.Upload.Laws.{clean_shadow-remote}
use levels.Storage.Pending.{PendingFileEntry}
use levels.Storage.Workers.{retry_work, begin_retry, concurrency}
use levels.Storage.Workers.Retrying.{upload_round-stopped, read_pending_files-Same}
use levels.Storage.Workers.Loop.{
  LoopEvent, wake, work, Background, start_round, background_step, background_run,
}

module _ {E : Env} (cfg : Settings) (L : EnvLaws E) where
  -- A key that is that of no shadow.
  abbrev pub Outside : Str → Type 0
  Outside j = (n : Str) → j ≢ shadow_key E cfg n

  -- A part of a cleanup: it leaves the flags and the keys outside of the shadow alone.
  abbrev pub Harmless : (St E → St E) → Type 0
  Harmless action =
      (s : St E)
      → ((action s).stopped ≡ s.stopped)
        × ((action s).lock_lost ≡ s.lock_lost)
        × ((j : Str) → Outside j → remote L (action s) j ≡ remote L s j)

  abbrev pub Sound : List (PendingFileEntry × Phase (St E)) → Type 0
  Sound slots = GoodSlots Harmless slots

  cleanup-Harmless :
      (overdue : PendingFileEntry → ℕ → Bool) (f : PendingFileEntry)
      → All Harmless ((retry_work E cfg overdue).cleanup f)
  unfolding clean_shadow
  cleanup-Harmless overdue f = (
    λ s. (refl, refl, λ j out. refl),
    (
      λ s. (refl, refl, λ j out. refl),
      (
        λ s. (
          ground arith,
          ground arith,
          λ j out. clean_shadow-remote cfg L f.name j s (out f.name),
        ),
        tt,
      ),
    ),
  )

  waiting-Sound :
      (found : Option (List PendingFileEntry))
      → Sound (elim found [ none ↦ [] | some files ↦ all_waiting files ])
  waiting-Sound none = tt
  waiting-Sound (some files) = all_waiting-Good Harmless files

  pub background_step-Sound :
      (event : LoopEvent) (b : Background E cfg)
      → Sound b.slots
      → Sound (background_step E cfg event b).slots
  unfolding background_step start_round
  background_step-Sound (wake stop_first) b h =
      elim (Bool-cases (b.last_round || not (all_ended b.slots))) [
        | inl busy ↦ rw busy h
        | inr free ↦ rw free (waiting-Sound (begin_retry E cfg b.storage).0)
      ]
  background_step-Sound (work overdue event) b h =
      step-Good Harmless (retry_work E cfg overdue) (cleanup-Harmless overdue) (concurrency E cfg)
        event _ h

  -- The flags and the object under a key.
  abbrev pub Over : Bool → Bool → Str → Option Bytes → St E → Type 0
  Over stops lost j object s = (s.stopped ≡ stops) × (s.lock_lost ≡ lost) × (remote L s j ≡ object)

  module _ (stops lost : Bool) (over : (stops || lost) ≡ true) (j : Str) (object : Option Bytes)
      (out : Outside j) where
    pub background_step-Over :
        (event : LoopEvent) (b : Background E cfg)
        → Sound b.slots
        → Over stops lost j object b.storage
        → Over stops lost j object (background_step E cfg event b).storage
    unfolding background_step start_round begin_retry
    background_step-Over (wake stop_first) b h o =
        let same = read_pending_files-Same cfg b.storage in
        elim (Bool-cases (b.last_round || not (all_ended b.slots))) [
          | inl busy ↦ rw busy o
          | inr free ↦
              rw free (ground (arith, same, o), ground (arith, same, o), ground (arith, same, o))
        ]
    background_step-Over (work overdue event) b h o =
        step-Keeps Harmless (retry_work E cfg overdue) (Over stops lost j object)
          (λ f n s o.
            let ends : (s.stopped || s.lock_lost) ≡ true = rw (o.0, o.1) over in
            rw (upload_round-stopped cfg overdue f n s ends) o)
          (λ action s good o.
            let (stop, kept, keeps) = good s in (stop ∙ o.0, kept ∙ o.1, keeps j out ∙ o.2))
          (concurrency E cfg) event _ h o

    pub background_run-Over :
        (events : List LoopEvent) (b : Background E cfg)
        → Sound b.slots
        → Over stops lost j object b.storage
        → Over stops lost j object (background_run E cfg events b).storage
    unfolding background_run
    background_run-Over [] b h o = o
    background_run-Over (event ∷ events) b h o =
        background_run-Over events (background_step E cfg event b) (background_step-Sound event b h)
          (background_step-Over event b h o)
