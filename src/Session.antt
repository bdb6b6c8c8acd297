-- ===== src/Session.antt =====
-- s3/storage.go, where the storage and its lock meet: `Lock`, `Unlock`, `storageLocker.Unlock` and
-- `startLeaseMonitoring`, over the store and the disk that both share. `Lock` and its recovery are
-- one step, as under the mutex.
pub mod System
pub mod Laws
pub mod Fenced
pub mod Holding
use levels.Base.{ℕ, Bool, true, false, not, ◌&&◌, List, [], ◌∷◌, Option, none, some, if◌then◌else◌}
use levels.Failure.{GoError, storage_closed, wrapped, ok, err, Outcome, nil}
use levels.Client.{Context, background}
use levels.Lock.{Host, LockEnv, LockState, lock, unlock, renewal_tick}
use levels.Pool.{Event}
use levels.Storage.State.{Env, Settings, St, M, own_context}
use levels.Storage.Pending.{PendingFileEntry}
use levels.Storage.Workers.{sync_pending_to_s3, retry_pending_files_once}
use levels.Storage.Recovery.{sync_local_to_s3, cleanup_orphaned}
use levels.Storage.Fencing.{Operation, perform}

module _ (E : Env) (cfg : Settings) (host : Host) where
  abbrev pub lock_env : LockEnv
  lock_env = record { api = E.api; fs = E.fs; host = host }

  -- The storage with its `s3Lock`; the store and the disk are those of the storage.
  pub record Session : Type 0 where
    pub storage : St E
    pub lock_state : LockState lock_env cfg.opt
    -- the goroutine of `startLeaseMonitoring` waits
    pub monitoring : Bool

  abbrev pub on_lock : {A : Type 0} → M (LockState lock_env cfg.opt) A → M Session A
  on_lock m s =
      let (a, l) = m (record s.lock_state { client = s.storage.client; files = s.storage.files }) in
      (
        a,
        record s {
          lock_state = l;
          storage = record s.storage { client = l.client; files = l.files };
        },
      )

  abbrev pub on_storage : {A : Type 0} → M (St E) A → M Session A
  on_storage m s = let (a, t) = m s.storage in (a, record s { storage = t })

  -- The release of the remote lock, which is tried once more with a context of its own.
  unfoldable pub release : Session → Session
  release s =
      let (r, s1) = on_lock (unlock lock_env cfg.opt (own_context E s.storage)) s in
      elim r [
        | ok _ ↦ s1
        | err _ ↦ (on_lock (unlock lock_env cfg.opt (background cfg.opt.request_timeout)) s1).1
      ]

  -- `storageLocker.Unlock`
  unfoldable pub locker_unlock : Session → Session
  locker_unlock s = if s.storage.lock_lost then s else release s

  -- `S3Storage.Unlock`
  unfoldable pub unlock_storage : Session → Session
  unlock_storage s =
      let s0 = record s { storage = record s.storage { lock_held = false } } in
      if s.storage.lock_lost then s0 else release s0

  -- The end of `Lock`, behind `syncPendingToS3`.
  unfoldable pub settle : M Session (Option Outcome)
  settle s =
      let (synced, s1) = on_storage (sync_local_to_s3 E cfg) s in
      elim synced [
        | err e ↦ (
          some (err (wrapped "failed to sync local cache to S3" e)),
          (on_lock (unlock lock_env cfg.opt (own_context E s1.storage)) s1).1,
        )
        | ok _ ↦
            let (_, s2) = on_storage (cleanup_orphaned E cfg) s1 in
            (some nil, record s2 { storage = record s2.storage { lock_held = true } })
      ]

  -- `none` says that a goroutine of `syncPendingToS3` has not ended under the schedule.
  unfoldable pub lock_storage : List Event → M Session (Option Outcome)
  lock_storage schedule s =
      if s.storage.closed
      then (some (err storage_closed), s)
      else let (r, s1) = on_lock (lock lock_env cfg.opt (own_context E s.storage)) s in
        elim r [
          | err e ↦ (some (err (wrapped "failed to acquire lock" e)), s1)
          | ok _ ↦
              let (synced, s2) =
                on_storage (sync_pending_to_s3 E cfg schedule) (record s1 { monitoring = true }) in
              elim synced [ none ↦ (none, s2) | some _ ↦ settle s2 ]
        ]

  -- The goroutine of `startLeaseMonitoring`. If a lost lease and the end of the context are both
  -- there, `done_first` says which it takes.
  unfoldable pub watch_lease : Bool → Session → Session
  watch_lease done_first s =
      if not s.monitoring
      then s
      else if done_first && s.storage.canceled
      then record s { monitoring = false }
      else elim s.lock_state.lease_err [
        | none ↦ s
        | some e ↦ record s {
          monitoring = false;
          storage = record s.storage { lock_lost = true };
          lock_state = record s.lock_state { lease_err = none };
        }
      ]
