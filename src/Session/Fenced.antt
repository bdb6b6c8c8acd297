-- ===== src/Session/Fenced.antt =====
-- A lost lease and a stop fence the storage: what changes the object store after them.
use levels.Base.{◌≡◌, ◌≢◌, refl, true, false, ◌||◌, List, [], ◌∷◌, Str, Option, Bytes}
use levels.Lock.{Host}
use levels.Storage.State.{Env, Settings}
use levels.Storage.Laws.{EnvLaws, remote}
use levels.Storage.Upload.{shadow_key}
use levels.Storage.Workers.Loop.{LoopEvent, background_run}
use levels.Storage.Workers.Quiet.{Outside, Sound, background_step-Sound, background_run-Over}
use levels.Session.System.{
  SystemEvent, call, background, renew, watch, lock, unlock_locker, unlock_all, System,
  background_of, system_step, system_run,
}

module _ {E : Env} (cfg : Settings) (L : EnvLaws E) (host : Host) where
  abbrev SoundSystem : System E cfg host → Type 0
  SoundSystem y = Sound cfg L y.slots

  system_step-Sound :
      (event : SystemEvent) (y : System E cfg host)
      → SoundSystem y
      → SoundSystem (system_step E cfg host event y)
  unfolding system_step
  system_step-Sound (call op) y h = h
  system_step-Sound (background event) y h =
      background_step-Sound cfg L event (background_of E cfg host y) h
  system_step-Sound (renew ctx first) y h = h
  system_step-Sound (watch done_first) y h = h
  system_step-Sound (lock schedule) y h = h
  system_step-Sound unlock_locker y h = h
  system_step-Sound unlock_all y h = h

  system_run-Sound :
      (events : List SystemEvent) (y : System E cfg host)
      → SoundSystem y
      → SoundSystem (system_run E cfg host events y)
  unfolding system_run
  system_run-Sound [] y h = h
  system_run-Sound (event ∷ events) y h =
      system_run-Sound events (system_step E cfg host event y) (system_step-Sound event y h)

  -- Without goroutines at the start.
  from_start :
      (events : List SystemEvent) (y : System E cfg host)
      → y.slots ≡ []
      → SoundSystem (system_run E cfg host events y)
  from_start events y none_there = system_run-Sound events y (rw none_there tt)

  -- The lock is lost and nobody renews it.
  abbrev IsLost : System E cfg host → Type 0
  IsLost y = (y.session.storage.lock_lost ≡ true) × (y.session.lock_state.renewing ≡ false)

  abbrev at : System E cfg host → Str → Option Bytes
  at y j = remote L y.session.storage j

  abbrev Unchanged : System E cfg host → System E cfg host → Type 0
  Unchanged y z = (j : Str) → Outside cfg L j → at z j ≡ at y j

  -- From a session without goroutines of the background retry, after any events: once the storage
  -- is told to stop or the lock is lost, neither the goroutines of a round that is under way nor
  -- any further rounds of the background retry, the last one on the stop signal among them, change
  -- what a key of the object store holds that is no shadow key.
  pub stop_fences_background :
      (before : List SystemEvent) (events : List LoopEvent) (y : System E cfg host) (j : Str)
      → y.slots ≡ []
      → let x = system_run E cfg host before y in
        (x.session.storage.stopped || x.session.storage.lock_lost) ≡ true
        → ((n : Str) → j ≢ shadow_key E cfg n)
        → remote L (background_run E cfg events (background_of E cfg host x)).storage j
          ≡ remote L x.session.storage j
  stop_fences_background before events y j idle over out =
      let x = system_run E cfg host before y in
      let s = x.session.storage in
      (background_run-Over cfg L s.stopped s.lock_lost over j (remote L s j) out events
        (background_of E cfg host x) (from_start before y idle) (refl, refl, refl)).2
