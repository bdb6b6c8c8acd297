-- ===== src/Lock/Renewal.antt =====
-- s3/lock.go: `NewS3Lock`, and what becomes of `stopCh`, which is made there and nowhere else.
use levels.Base.{◌≡◌, Bool, true, false, none, [], Str, Bytes, Option, arith}
use levels.Failure.{nil, Result}
use levels.Config.{OpenOption, apply_defaults}
use levels.Client.{Context, IsLawful}
use levels.Files.{IsLawfulFs}
use levels.Lock.{
  LockEnv, LockState, lock_key, acquire_lock, take_lock, contest, replace_stale, lock_as, lock,
  new_lock_id, random_int, unlock, renewal_tick, local_lock_path,
}
use levels.Lock.Laws.{IsTaken, lock-IsTaken}

module _ (E : LockEnv) where
  open E use {api, fs, host}

  -- `NewS3Lock`, in a world where the store, the disk and the process are as given.
  unfoldable pub new_s3_lock :
      (given : OpenOption) → api.State → fs.State → host.State → LockState E (apply_defaults given)
  new_s3_lock given c f h = record {
    client = c;
    files = f;
    host_state = h;
    lock_id = [];
    stopped = false;
    renewing = false;
    lease_err = none;
  }

module _ (E : LockEnv) (opt : OpenOption) where
  acquire_lock-stopped :
      (ctx : Context) (s : LockState E opt) → (acquire_lock E opt ctx s).1.stopped ≡ s.stopped
  unfolding acquire_lock
  acquire_lock-stopped ctx s = ground arith

  take_lock-stopped :
      (ctx : Context) (s : LockState E opt) → (take_lock E opt ctx s).1.stopped ≡ s.stopped
  unfolding take_lock
  take_lock-stopped ctx s = ground (arith, acquire_lock-stopped ctx s)

  contest-stopped :
      (ctx : Context) (local : Result Bytes) (s : LockState E opt)
      → (contest E opt ctx local s).1.stopped ≡ s.stopped
  unfolding contest replace_stale
  contest-stopped ctx local s =
      let u = record s { client = (E.api.get_bytes ctx lock_key s.client).1 } in
      ground (
        arith,
        take_lock-stopped ctx u,
        take_lock-stopped ctx (record u { host_state = (E.host.now u.host_state).1 }),
      )

  new_lock_id-stopped : (s : LockState E opt) → (new_lock_id E opt s).1.stopped ≡ s.stopped
  unfolding new_lock_id random_int
  new_lock_id-stopped s = ground arith

  -- No Lock opens or closes stopCh.
  lock-stopped : (ctx : Context) (s : LockState E opt) → (lock E opt ctx s).1.stopped ≡ s.stopped
  unfolding lock lock_as
  lock-stopped ctx s =
      let s1 = (new_lock_id E opt s).1 in
      let u = record s1 { client = (E.api.exists ctx lock_key s1.client).1 } in
      ground (
        arith,
        new_lock_id-stopped s,
        take_lock-stopped ctx u,
        contest-stopped ctx (E.fs.read_file (local_lock_path E opt) s1.files) u,
      )

  unlock-stopped : (ctx : Context) (s : LockState E opt) → (unlock E opt ctx s).1.stopped ≡ true
  unfolding unlock
  unlock-stopped ctx s = ground arith

module _ {E : LockEnv} (given : OpenOption) {object : E.api.State → Str → Option Bytes}
    (api : IsLawful E.api object) {file : E.fs.State → Str → Option Bytes}
    (fs : IsLawfulFs E.fs file) where
  -- After a first successful Lock of a lock that NewS3Lock has made, a tick of the renewal whose
  -- context is open and whose write succeeds leaves the lock taken and the renewal running.
  pub new_s3_lock-renewal_tick :
      (ctx tick : Context) (first : Bool) (c : E.api.State) (f : E.fs.State) (h : E.host.State)
      → let opt = apply_defaults given in
        let (r, t) = lock E opt ctx (new_s3_lock E given c f h) in
        r ≡ nil
        → tick.canceled ≡ false
        → (E.api.put_bytes tick lock_key t.lock_id t.client).0 ≡ nil
        → IsTaken opt api fs (renewal_tick E opt tick first t)
  unfolding renewal_tick new_s3_lock
  new_s3_lock-renewal_tick ctx tick first c f h locked live written =
      let opt = apply_defaults given in
      let s = new_s3_lock E given c f h in
      let t = (lock E opt ctx s).1 in
      let taken = (lock-IsTaken opt api fs ctx s locked).1 in
      let idle : t.stopped ≡ false = lock-stopped E opt ctx s in
      record {
        remote =
            ground
              (arith, taken.renewing, idle, api.put_ok tick lock_key t.lock_id t.client, written);
        local = ground (arith, taken.renewing, idle, taken.local);
        renewing = ground (arith, taken.renewing, idle);
      }

  -- When Unlock has been called, whether it succeeded or not, and a Lock after it succeeds, then
  -- the lock is taken, but its renewal ends as soon as it looks at stopCh, with nothing written.
  pub lock-unlock :
      (ctx ctx' tick : Context) (s : LockState E given)
      → let (r, t) = lock E given ctx' (unlock E given ctx s).1 in
        r ≡ nil
        → IsTaken given api fs t
          × (renewal_tick E given tick true t ≡ record t { renewing = false })
  unfolding renewal_tick
  lock-unlock ctx ctx' tick s h =
      let u = (unlock E given ctx s).1 in
      let taken = (lock-IsTaken given api fs ctx' u h).1 in
      (
        taken,
        ground (arith, taken.renewing, lock-stopped E given ctx' u, unlock-stopped E given ctx s),
      )
