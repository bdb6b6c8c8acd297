-- ===== src/Session/Holding.antt =====
-- What a success of `S3Storage.Lock` leaves, the recovery included.
use levels.Base.{
  ◌≡◌, ◌≢◌, refl, sym, ap, ◌∙◌, true, List, some, arith, inl, inr, Bool-cases, Option-cases,
}
use levels.Failure.{nil, Result-cases}
use levels.FileDesc.{FileDesc}
use levels.Pool.{Event}
use levels.Lock.{Host, lock_key, lock}
use levels.Lock.Laws.{lock-IsTaken}
use levels.Storage.State.{Env, Settings, own_context}
use levels.Storage.Laws.{EnvLaws, remote}
use levels.Storage.Owned.{sync_pending_to_s3-Owned, sync_local_to_s3-Owned}
use levels.Storage.Recovery.Owned.{cleanup_orphaned-Owned}
use levels.Storage.Workers.{sync_pending_to_s3}
use levels.Storage.Recovery.{sync_local_to_s3}
use levels.Session.{lock_env, Session, on_lock, on_storage, settle, lock_storage}

module _ {E : Env} (cfg : Settings) (L : EnvLaws E) (host : Host) where
  -- The lock is in the object store under this session's identity, renewed and monitored.
  pub record Holds (s : Session E cfg host) : Type 0 where
    pub own : remote L s.storage lock_key ≡ some s.lock_state.lock_id
    pub renewing : s.lock_state.renewing ≡ true
    pub monitoring : s.monitoring ≡ true

  -- goleveldb gives no file the name LOCK.
  module _ (unlike : (fd : FileDesc) → lock_key ≢ E.name fd) where
    settle-Holds :
        (s : Session E cfg host)
        → Holds s
        → let (r, t) = settle E cfg host s in r ≡ some nil → Holds t × (t.storage.lock_held ≡ true)
    unfolding settle
    settle-Holds s holds h =
        let s1 = (sync_local_to_s3 E cfg s.storage).1 in
        elim (Result-cases (sync_local_to_s3 E cfg s.storage).0) [
          | inr (e, failed) ↦ absurd (ground arith)
          | inl (_, done) ↦
              let kept =
                cleanup_orphaned-Owned cfg L unlike s1 ∙ sync_local_to_s3-Owned cfg L s.storage in
              (
                record {
                  own = ground (arith, kept, holds.own);
                  renewing = ground (arith, holds.renewing);
                  monitoring = ground (arith, holds.monitoring);
                },
                ground arith,
              )
        ]

    -- When Lock of the storage succeeds, whatever the schedule of its uploads, then behind its
    -- recovery the object LOCK still has the identity of this session, the lock is renewed and
    -- monitored, and lockHeld is set, if goleveldb gives no file the name LOCK.
    pub lock_storage-Holds :
        (schedule : List Event) (s : Session E cfg host)
        → let (r, t) = lock_storage E cfg host schedule s in
          r ≡ some nil → Holds t × (t.storage.lock_held ≡ true)
    unfolding lock_storage
    lock_storage-Holds schedule s h = elim (Bool-cases s.storage.closed) [
      | inl shut ↦ absurd (ground arith)
      | inr opened ↦
          let (r, s1) =
            on_lock E cfg host (lock (lock_env E cfg host) cfg.opt (own_context E s.storage)) s in
          elim (Result-cases r) [
            | inr (e, refused) ↦ absurd (ground arith)
            | inl (_, taken) ↦
                let s0 : Session E cfg host = record s1 { monitoring = true } in
                let (synced, s2) = on_storage E cfg host (sync_pending_to_s3 E cfg schedule) s0 in
                let held =
                  (lock-IsTaken cfg.opt L.api L.fs (own_context E s.storage)
                    (record s.lock_state { client = s.storage.client; files = s.storage.files })
                    taken).1 in
                let kept = sync_pending_to_s3-Owned cfg L schedule s0.storage in
                let holds : Holds s2 = record {
                  own = kept ∙ held.remote;
                  renewing = held.renewing;
                  monitoring = refl;
                } in
                elim (Option-cases synced) [
                  | inl unended ↦ absurd (ground arith)
                  | inr (x, ended) ↦
                      let same : lock_storage E cfg host schedule s ≡ settle E cfg host s2 =
                        ground arith in
                      rw same (settle-Holds s2 holds (sym (ap (λ x. x.0) same) ∙ h))
                ]
          ]
    ]
