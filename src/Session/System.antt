-- ===== src/Session/System.antt =====
-- A session with the goroutines of the background retry, and what happens in it: calls of LevelDB,
-- steps of the goroutines, and the locking and unlocking of the storage, in any order.
use levels.Base.{Bool, true, false, List, [], ◌∷◌}
use levels.Client.{Context}
use levels.Lock.{Host, renewal_tick}
use levels.Pool.{Event, Phase}
use levels.Storage.State.{Env, Settings, St}
use levels.Storage.Pending.{PendingFileEntry}
use levels.Storage.Workers.Loop.{LoopEvent, Background, background_step}
use levels.Storage.Fencing.{Operation, perform}
use levels.Session.{
  lock_env, Session, on_lock, locker_unlock, unlock_storage, lock_storage, watch_lease,
}

pub data SystemEvent : Type 0 where
  call : Operation → SystemEvent
  -- The background retry wakes up, or one of its goroutines takes a step.
  background : LoopEvent → SystemEvent
  renew : Context → Bool → SystemEvent
  watch : Bool → SystemEvent
  -- `S3Storage.Lock`, with the schedule of the uploads in its recovery
  lock : List Event → SystemEvent
  unlock_locker : SystemEvent
  unlock_all : SystemEvent

abbrev pub is_lock : SystemEvent → Bool
is_lock (lock schedule) = true
is_lock _ = false

module _ (E : Env) (cfg : Settings) (host : Host) where
  pub record System : Type 0 where
    pub session : Session E cfg host
    pub slots : List (PendingFileEntry × Phase (St E))
    pub last_round : Bool

  -- The loop sees the state of the storage as it is.
  abbrev pub background_of : System → Background E cfg
  background_of y = record {
    storage = y.session.storage;
    slots = y.slots;
    last_round = y.last_round;
  }

  unfoldable pub system_step : SystemEvent → System → System
  system_step (call op) y =
      let s = y.session in record y { session = record s { storage = perform E cfg op s.storage } }
  system_step (background event) y =
      let b = background_step E cfg event (background_of y) in
      record {
        session = record y.session { storage = b.storage };
        slots = b.slots;
        last_round = b.last_round;
      }
  system_step (renew ctx first) y =
      let s = y.session in
      let renewed =
        on_lock E cfg host (λ l. (tt, renewal_tick (lock_env E cfg host) cfg.opt ctx first l)) s in
      record y { session = renewed.1 }
  system_step (watch done_first) y = record y {
    session = watch_lease E cfg host done_first y.session;
  }
  system_step (lock schedule) y = record y {
    session = (lock_storage E cfg host schedule y.session).1;
  }
  system_step unlock_locker y = record y { session = locker_unlock E cfg host y.session }
  system_step unlock_all y = record y { session = unlock_storage E cfg host y.session }

  unfoldable pub system_run : List SystemEvent → System → System
  system_run [] y = y
  system_run (event ∷ events) y = system_run events (system_step event y)
