-- ===== src/Storage/Upload/Laws.antt =====
-- `uploadFile` puts a file into the object store, or keeps it on the local disk.
use levels.Base.{
  ◌≡◌, ◌≢◌, refl, sym, ap, ◌++◌, length, length-append, some, Str, Bytes, false, true, ◌⊎◌, inl,
  inr, arith,
}
use levels.Failure.{nil, Result-cases}
use levels.FileDesc.{FileDesc}
use levels.Base.Checksum.{checksum}
use levels.Files.{IsTemp, dir_of, atomic_write_file}
use levels.Files.Atomic.{atomic_write_file-IsAtomic}
use levels.Storage.State.{Env, Settings, St, own_context, when}
use levels.Storage.Laws.{EnvLaws, remote, local, in_cache, append-ne_self}
use levels.Storage.Upload.{
  cksum, has_pending_dir, too_large, pending_path, shadow_key, upload_to_shadow, clean_shadow,
  persist_to_local, after_upload, upload_file, put, remove_pending,
}

not_suffixed : (p : Str) → p ≢ p ++ cksum
not_suffixed p e = absurd (omega (arith, length-append {0} p cksum, ap length e))

module _ {E : Env} (cfg : Settings) (L : EnvLaws E) where
  -- Cleaning a shadow touches its key of the object store, and nothing else.
  pub clean_shadow-remote :
      (n j : Str) (s : St E)
      → j ≢ shadow_key E cfg n
      → remote L (clean_shadow E cfg n s).1 j ≡ remote L s j
  unfolding clean_shadow
  clean_shadow-remote n j s ne =
      ground (arith, L.api.remove_other (own_context E s) (shadow_key E cfg n) s.client j ne)

  pub clean_shadow-files : (n : Str) (s : St E) → (clean_shadow E cfg n s).1.files ≡ s.files
  unfolding clean_shadow
  clean_shadow-files n s = ground arith

  pub clean_shadow-cache : (n : Str) (s : St E) → (clean_shadow E cfg n s).1.cache ≡ s.cache
  unfolding clean_shadow
  clean_shadow-cache n s = ground arith

  after_upload-remote :
      (fd : FileDesc) (body : Bytes) (j : Str) (s : St E)
      → j ≢ shadow_key E cfg (E.name fd)
      → remote L (after_upload E cfg fd body s).1 j ≡ remote L s j
  unfolding after_upload
  after_upload-remote fd body j s ne =
      let s1 = (when (has_pending_dir E cfg) (remove_pending E cfg (E.name fd)) s).1 in
      ground (arith, clean_shadow-remote (E.name fd) j s1 ne)

  after_upload-in_cache :
      (fd : FileDesc) (body : Bytes) (s : St E)
      → in_cache L (after_upload E cfg fd body s).1 (E.name fd)
        ≡ some (record { fd = fd; body = body })
  unfolding after_upload
  after_upload-in_cache fd body s = L.lru.add_self (E.name fd) (record { fd = fd; body = body }) _

  after_upload_ok :
      (fd : FileDesc) (body : Bytes) (s : St E) → (after_upload E cfg fd body s).0 ≡ nil
  unfolding after_upload
  after_upload_ok fd body s = refl

  -- When uploadFile succeeds, the object store and the cache have the bytes.
  pub upload_file_ok :
      (fd : FileDesc) (body : Bytes) (s : St E)
      → let (r, t) = upload_file E cfg fd body s in
        r ≡ nil
        → (remote L t (E.name fd) ≡ some body)
          × (in_cache L t (E.name fd) ≡ some (record { fd = fd; body = body }))
  unfolding upload_file
  upload_file_ok fd body s h =
      let n = E.name fd in
      let s1 = (put E cfg n body s).1 in
      ground (
        arith,
        after_upload-remote fd body n s1 (λ e. append-ne_self cfg.shadow_prefix _ n (sym e)),
        after_upload-in_cache fd body s1,
        L.api.put_ok (own_context E s) n body s.client,
      )

  upload_to_shadow-files :
      (n : Str) (body : Bytes) (s : St E) → (upload_to_shadow E cfg n body s).1.files ≡ s.files
  unfolding upload_to_shadow
  upload_to_shadow-files n body s = ground arith

  -- On a path that is no temporary one, a success of persistToLocal leaves the bytes in the
  -- pending directory, and a failure leaves there what was there before.
  pub persist_to_local_lem :
      (fd : FileDesc) (body : Bytes) (s : St E)
      → ¬ IsTemp (pending_path E cfg (E.name fd))
      → let (r, t) = persist_to_local E cfg fd body s in
        let p = pending_path E cfg (E.name fd) in
        (r ≡ nil → local L t p ≡ some body) × (r ≢ nil → local L t p ≡ local L s p)
  unfolding persist_to_local
  persist_to_local_lem fd body s plain =
      let p = pending_path E cfg (E.name fd) in
      let f1 = (E.fs.mkdir_all (dir_of p) s.files).1 in
      let (r, f2) = atomic_write_file E.fs p body f1 in
      let whole = atomic_write_file-IsAtomic E.fs L.file L.fs p plain body f1 in
      let f3 = (E.fs.write_file (p ++ cksum) (checksum body) f2).1 in
      ground (
        arith,
        L.fs.mkdir_keeps (dir_of p) s.files p,
        whole.written,
        whole.unwritten,
        L.fs.write_other (p ++ cksum) (checksum body) f2 p (not_suffixed p),
        upload_to_shadow-files (E.name fd) body (record s { files = f3 }),
      )

  -- With a pending directory, a path in it that is no temporary one, a file within the size limit
  -- and the lock held, if the local copy that is made behind a failed upload succeeds, then after
  -- uploadFile the bytes are in the object store or in the pending directory, whatever the upload
  -- returned.
  pub upload_file_no_loss :
      (fd : FileDesc) (body : Bytes) (s : St E)
      → ¬ IsTemp (pending_path E cfg (E.name fd))
      → has_pending_dir E cfg ≡ true
      → too_large E cfg (E.name fd) body ≡ false
      → s.lock_lost ≡ false
      → (persist_to_local E cfg fd body (put E cfg (E.name fd) body s).1).0 ≡ nil
      → let t = (upload_file E cfg fd body s).1 in
        (remote L t (E.name fd) ≡ some body)
        ⊎ (local L t (pending_path E cfg (E.name fd)) ≡ some body)
  unfolding upload_file
  upload_file_no_loss fd body s plain pending small held saves =
      let n = E.name fd in
      let s1 = (put E cfg n body s).1 in
      elim (Result-cases (put E cfg n body s).0) [
        | inl (_, uploaded) ↦
            let done : (upload_file E cfg fd body s).0 ≡ nil =
              ground (arith, after_upload_ok fd body s1) in
            inl (upload_file_ok fd body s done).0
        | inr (e, refused) ↦
            let state : (upload_file E cfg fd body s).1 ≡ (persist_to_local E cfg fd body s1).1 =
              ground arith in
            inr (rw state ((persist_to_local_lem fd body s1 plain).0 saves))
      ]
