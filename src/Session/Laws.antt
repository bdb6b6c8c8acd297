-- ===== src/Session/Laws.antt =====
-- What the locker's `Unlock` leaves set.
use levels.Base.{
  ◌≡◌, refl, sym, ap, subst, ◌∙◌, true, false, List, [], ◌∷◌, some, arith, inl, inr, Bool-cases,
  Option-cases,
}
use levels.Failure.{nil, ok, Result-cases}
use levels.Pool.{Event, all_waiting}
use levels.Lock.{Host, lock}
use levels.Storage.State.{Env, Settings, own_context}
use levels.Storage.Upload.{has_pending_dir}
use levels.Storage.Pending.{PendingFileEntry, read_pending_files}
use levels.Storage.Workers.{sync_pending_to_s3, begin_retry}
use levels.Storage.Workers.Loop.{wake, background_step, start_round}
use levels.Storage.Recovery.{sync_local_to_s3}
use levels.Session.{
  lock_env, Session, on_lock, on_storage, release, locker_unlock, settle, lock_storage,
}
use levels.Session.System
use levels.Session.System.{System, background, unlock_locker, system_step, system_run}

module _ {E : Env} (cfg : Settings) (host : Host) where
  release-held :
      (s : Session E cfg host) → (release E cfg host s).storage.lock_held ≡ s.storage.lock_held
  unfolding release
  release-held s = ground arith

  locker_unlock-held :
      (s : Session E cfg host)
      → (locker_unlock E cfg host s).storage.lock_held ≡ s.storage.lock_held
  unfolding locker_unlock
  locker_unlock-held s = ground (arith, release-held s)

  settle-held :
      (s : Session E cfg host)
      → (settle E cfg host s).0 ≡ some nil
      → (settle E cfg host s).1.storage.lock_held ≡ true
  unfolding settle
  settle-held s h = elim (Result-cases (sync_local_to_s3 E cfg s.storage).0) [
    | inr (e, failed) ↦ absurd (ground arith)
    | inl (_, done) ↦ ground arith
  ]

  lock_storage-held :
      (schedule : List Event) (s : Session E cfg host)
      → (lock_storage E cfg host schedule s).0 ≡ some nil
      → (lock_storage E cfg host schedule s).1.storage.lock_held ≡ true
  unfolding lock_storage
  lock_storage-held schedule s h = elim (Bool-cases s.storage.closed) [
    | inl shut ↦ absurd (ground arith)
    | inr opened ↦
        let (r, s1) =
          on_lock E cfg host (lock (lock_env E cfg host) cfg.opt (own_context E s.storage)) s in
        elim (Result-cases r) [
          | inr (e, refused) ↦ absurd (ground arith)
          | inl (_, taken) ↦
              let s0 : Session E cfg host = record s1 { monitoring = true } in
              let (synced, s2) = on_storage E cfg host (sync_pending_to_s3 E cfg schedule) s0 in
              elim (Option-cases synced) [
                | inl unended ↦ absurd (ground arith)
                | inr (x, ended) ↦
                    let same : lock_storage E cfg host schedule s ≡ settle E cfg host s2 =
                      ground arith in
                    subst (λ x. x.1.storage.lock_held ≡ true) (sym same)
                      (settle-held s2 (sym (ap (λ x. x.0) same) ∙ h))
              ]
        ]
  ]

  -- When a Lock of the storage has succeeded and the locker that it returned is unlocked, lockHeld
  -- is still set; and if the lock is not lost, there is a pending directory that can be read, and
  -- the background retry is idle, then its next tick starts with all the files that
  -- readPendingFiles returns.
  pub locker_unlock-lock_storage :
      (schedule : List Event) (y : System E cfg host) (files : List PendingFileEntry)
      → (lock_storage E cfg host schedule y.session).0 ≡ some nil
      → y.slots ≡ []
      → y.last_round ≡ false
      → has_pending_dir E cfg ≡ true
      → let x = system_run E cfg host (System.lock schedule ∷ unlock_locker ∷ []) y in
        x.session.storage.lock_lost ≡ false
        → (read_pending_files E cfg x.session.storage).0 ≡ ok files
        → (x.session.storage.lock_held ≡ true)
          × ((system_step E cfg host (background (wake false)) x).slots ≡ all_waiting files)
  unfolding system_run system_step background_step start_round
  locker_unlock-lock_storage schedule y files locked idle more dir kept found =
      let t = (lock_storage E cfg host schedule y.session).1 in
      let held : (locker_unlock E cfg host t).storage.lock_held ≡ true =
        locker_unlock-held t ∙ lock_storage-held schedule y.session locked in
      let x = locker_unlock E cfg host t in
      let begun : (begin_retry E cfg x.storage).0 ≡ some files =
        unfold begin_retry in ground (arith, held, kept, dir, found) in
      (held, rw (idle, more) (rw (begun, start_round) refl))
