-- ===== src/Storage/Workers/Loop.antt =====
-- `backgroundRetryLoop` and the goroutines of the round that it waits for, as a state and events.
-- The goroutines hold no mutex: whatever else happens to the storage may happen between two events.
-- `checkPendingPressure`, before a round, only calls back, with what `check_pending_pressure` says.
use levels.Base.{Bool, not, ◌||◌, ◌&&◌, List, [], ◌∷◌, ℕ, none, some, if◌then◌else◌}
use levels.Pool.{Event, Phase, Pool, all_waiting, all_ended, step}
use levels.Storage.State.{Env, Settings, St}
use levels.Storage.Pending.{PendingFileEntry}
use levels.Storage.Workers.{begin_retry, concurrency, retry_work}

pub data LoopEvent : Type 0 where
  -- The loop wakes up: by the stop signal, if there is one and this says that it takes it first, or
  -- by the ticker.
  wake : Bool → LoopEvent
  -- A step of the goroutines of the round, and at which attempts a file is out of time.
  work : (PendingFileEntry → ℕ → Bool) → Event → LoopEvent

module _ (E : Env) (cfg : Settings) where
  pub record Background : Type 0 where
    pub storage : St E
    -- the goroutines of `retryPendingFilesOnce`
    pub slots : List (PendingFileEntry × Phase (St E))
    -- the loop has taken the stop signal, so that its round is the last one
    pub last_round : Bool

  unfoldable pub start_round : Bool → Background → Background
  start_round is_last b =
      let (found, s1) = begin_retry E cfg b.storage in
      record {
        storage = s1;
        slots = elim found [ none ↦ [] | some files ↦ all_waiting files ];
        last_round = is_last;
      }

  unfoldable pub background_step : LoopEvent → Background → Background
  background_step (wake stop_first) b =
      if b.last_round || not (all_ended b.slots)
      then b
      else start_round (b.storage.stopped && stop_first) b
  background_step (work overdue event) b =
      let p : Pool (St E) PendingFileEntry = record {
        slots = b.slots;
        state = b.storage;
        results = [];
      } in
      let p' = step (retry_work E cfg overdue) (concurrency E cfg) event p in
      record b { storage = p'.state; slots = p'.slots }

  unfoldable pub background_run : List LoopEvent → Background → Background
  background_run [] b = b
  background_run (event ∷ events) b = background_run events (background_step event b)
