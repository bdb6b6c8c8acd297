-- ===== src/Storage/Recovery/Owned.antt =====
-- `cleanupOrphaned` leaves the object LOCK alone.
use levels.Base.{
  Option, if◌then◌else◌, ◌≢◌, refl, ◌∙◌, inl, inr, none, List, [], ◌∷◌, Bytes, arith, Bool-cases,
  Option-cases, trim_space, ◌++◌, codes,
}
use levels.Failure.{Result-cases}
use levels.FileDesc.{FileDesc, parse_file_desc}
use levels.Lock.{lock_key}
use levels.Storage.State.{Env, Settings, St, own_context, when, on_cache}
use levels.Storage.Laws.{EnvLaws}
use levels.Storage.Upload.{put, remove_object, has_pending_dir, pending_path}
use levels.Storage.Manifest.{find_latest_local_manifest, find_latest_pending_manifest}
use levels.Storage.Access.{current, list_objects, get}
use levels.Storage.Owned.{Owned, put-Owned, remove_object-Owned}
use levels.Storage.Recovery.{
  remove_objects, remove_all_orphaned, restore_from_pending, restore_manifest, verify_manifest,
  verify_current_manifest, rebuild, recover_from_pending, recover_manifest,
  recover_from_local_cache, cleanup_orphaned, has_local_dir, local_copy, readable, usable,
  empty_local_dir,
}

-- goleveldb gives no file the name LOCK.
module _ {E : Env} (cfg : Settings) (L : EnvLaws E)
    (unlike : (fd : FileDesc) → lock_key ≢ E.name fd) where
  current-ne : lock_key ≢ current
  current-ne e = absurd (ground (arith, e))

  remove_objects-Owned : (fds : List FileDesc) (s : St E) → Owned L s (remove_objects E cfg fds s).1
  unfolding remove_objects
  remove_objects-Owned [] s = refl
  remove_objects-Owned (fd ∷ fds) s =
      remove_objects-Owned fds (remove_object E cfg (E.name fd) s).1
      ∙ remove_object-Owned cfg L (E.name fd) s (unlike fd)

  remove_all_orphaned-Owned : (s : St E) → Owned L s (remove_all_orphaned E cfg s).1
  unfolding remove_all_orphaned
  remove_all_orphaned-Owned s = elim (Bool-cases s.lock_lost) [
    | inl lost ↦ rw (lost, remove_all_orphaned) refl
    | inr held ↦
        let s1 = (on_cache E E.lru.purge s).1 in
        let s2 = (when (has_local_dir E cfg) (empty_local_dir E cfg) s1).1 in
        let s3 = (list_objects E cfg s2).1 in
        let listed = L.api.list_keeps (own_context E s2) s2.client lock_key in
        elim (Result-cases (list_objects E cfg s2).0) [
          | inr (e, failed) ↦ ground (arith, listed)
          | inl (fds, done) ↦ ground (
            arith,
            listed,
            remove_objects-Owned fds s3,
            remove_object-Owned cfg L current (remove_objects E cfg fds s3).1 current-ne,
          )
        ]
  ]

  restore_from_pending-Owned :
      (fd : FileDesc) (s : St E) → Owned L s (restore_from_pending E cfg fd s).1
  unfolding restore_from_pending
  restore_from_pending-Owned fd s =
      let copy : Option Bytes =
        if has_pending_dir E cfg then readable E cfg (pending_path E cfg (E.name fd)) s else none in
      elim (Option-cases copy) [
        | inl missing ↦ rw (missing, restore_from_pending) (remove_all_orphaned-Owned s)
        | inr (body, found) ↦
            let s1 = (put E cfg (E.name fd) body s).1 in
            let kept = put-Owned cfg L (E.name fd) body s (unlike fd) in
            elim (Result-cases (put E cfg (E.name fd) body s).0) [
              | inr (e, refused) ↦
                  rw (found, refused, restore_from_pending) (remove_all_orphaned-Owned s1 ∙ kept)
              | inl (_, done) ↦ rw (found, done, restore_from_pending) kept
            ]
      ]

  restore_manifest-Owned : (fd : FileDesc) (s : St E) → Owned L s (restore_manifest E cfg fd s).1
  unfolding restore_manifest
  restore_manifest-Owned fd s =
      let copy : Option Bytes =
        if has_local_dir E cfg then readable E cfg (local_copy E cfg (E.name fd)) s else none in
      elim (Option-cases copy) [
        | inl missing ↦ rw (missing, restore_manifest) (restore_from_pending-Owned fd s)
        | inr (body, found) ↦
            let s1 = (put E cfg (E.name fd) body s).1 in
            let kept = put-Owned cfg L (E.name fd) body s (unlike fd) in
            elim (Result-cases (put E cfg (E.name fd) body s).0) [
              | inr (e, refused) ↦
                  rw (found, refused, restore_manifest) (restore_from_pending-Owned fd s1 ∙ kept)
              | inl (_, done) ↦ rw (found, done, restore_manifest) kept
            ]
      ]

  verify_manifest-Owned : (fd : FileDesc) (s : St E) → Owned L s (verify_manifest E cfg fd s).1
  unfolding verify_manifest
  verify_manifest-Owned fd s =
      let s1 : St E = record s {
        client = (E.api.exists (own_context E s) (E.name fd) s.client).1;
      } in
      ground (
        arith,
        L.api.exists_keeps (own_context E s) (E.name fd) s.client lock_key,
        restore_manifest-Owned fd s1,
      )

  verify_current_manifest-Owned : (s : St E) → Owned L s (verify_current_manifest E cfg s).1
  unfolding verify_current_manifest
  verify_current_manifest-Owned s =
      let (content, s1) = get E cfg current s in
      let read = L.api.get_keeps (own_context E s) current s.client lock_key in
      elim (Result-cases content) [
        | inr (e, unread) ↦ ground (arith, read)
        | inl (text, done) ↦ elim (Option-cases (parse_file_desc (trim_space text))) [
          | inl bad ↦ ground (arith, read, remove_all_orphaned-Owned s1)
          | inr (fd, parsed) ↦ ground (arith, read, verify_manifest-Owned fd s1)
        ]
      ]

  rebuild-Owned : (fd : FileDesc) (body : Bytes) (s : St E) → Owned L s (rebuild E cfg fd body s).1
  unfolding rebuild
  rebuild-Owned fd body s =
      let s1 = (put E cfg (E.name fd) body s).1 in
      ground (
        arith,
        put-Owned cfg L (E.name fd) body s (unlike fd),
        put-Owned cfg L current (E.name fd ++ codes "\n") s1 current-ne,
      )

  recover_from_pending-Owned :
      (files : List FileDesc) (s : St E) → Owned L s (recover_from_pending E cfg files s).1
  unfolding recover_from_pending
  recover_from_pending-Owned files s =
      let found : Option (FileDesc × Bytes) =
        if has_pending_dir E cfg
        then usable E cfg (find_latest_pending_manifest E cfg s)
        else none in
      elim (Option-cases found) [
        | inl missing ↦ ground (arith, remove_all_orphaned-Owned s)
        | inr ((fd, body), there) ↦
            let s1 = (rebuild E cfg fd body s).1 in
            ground (arith, rebuild-Owned fd body s, remove_all_orphaned-Owned s1)
      ]

  recover_manifest-Owned :
      (files : List FileDesc) (s : St E) → Owned L s (recover_manifest E cfg files s).1
  unfolding recover_manifest
  recover_manifest-Owned files s =
      let found : Option (FileDesc × Bytes) =
        if has_local_dir E cfg then usable E cfg (find_latest_local_manifest E cfg s) else none in
      elim (Option-cases found) [
        | inl missing ↦ ground (arith, recover_from_pending-Owned files s)
        | inr ((fd, body), there) ↦
            let s1 = (rebuild E cfg fd body s).1 in
            ground (arith, rebuild-Owned fd body s, remove_all_orphaned-Owned s1)
      ]

  recover_from_local_cache-Owned : (s : St E) → Owned L s (recover_from_local_cache E cfg s).1
  unfolding recover_from_local_cache
  recover_from_local_cache-Owned s =
      let (listed, s1) = list_objects E cfg s in
      let kept = L.api.list_keeps (own_context E s) s.client lock_key in
      elim (Result-cases listed) [
        | inr (e, failed) ↦ ground (arith, kept)
        | inl ([], done) ↦ ground (arith, kept, recover_manifest-Owned [] s1)
        | inl (fd ∷ fds, done) ↦ ground (arith, kept, recover_manifest-Owned (fd ∷ fds) s1)
      ]

  pub cleanup_orphaned-Owned : (s : St E) → Owned L s (cleanup_orphaned E cfg s).1
  unfolding cleanup_orphaned
  cleanup_orphaned-Owned s =
      let s1 : St E = record s { client = (E.api.exists (own_context E s) current s.client).1 } in
      ground (
        arith,
        L.api.exists_keeps (own_context E s) current s.client lock_key,
        verify_current_manifest-Owned s1,
        recover_from_local_cache-Owned s1,
      )
