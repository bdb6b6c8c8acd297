-- ===== src/Storage/Writer/Laws.antt =====
-- What becomes of the bytes that are written to a writer.
use levels.Base.{
  ◌≡◌, ◌≢◌, ◌∙◌, sym, ap, subst, refl, true, false, some, List, [], ◌∷◌, ◌++◌, Bytes, inl, inr,
  arith,
}
use mathlib.Core.List.{append-nil, append_assoc}
use levels.Failure.{ok, nil, Result-cases}
use levels.FileDesc.{FileDesc}
use levels.Files.{atomic_write_file}
use levels.Storage.State.{MemFile, Env, Settings, St}
use levels.Storage.Laws.{EnvLaws, remote, in_cache}
use levels.Storage.Upload.{upload_file, after_upload, persist_to_local, upload_to_shadow, put}
use levels.Storage.Upload.Laws.{upload_file_ok}
use levels.Storage.Access.{open_file}
use levels.Storage.Writer.{
  MemWriter, SyncFn, upload_only, copy_and_upload, run_sync, write, close, create, copied_writer,
}

abbrev pub concat : List Bytes → Bytes
concat [] = []
concat (p ∷ ps) = p ++ concat ps

module _ (E : Env) (cfg : Settings) where
  -- Calls of `Write`, one after another.
  unfoldable pub write_all : List Bytes → MemWriter → St E → MemWriter × St E
  write_all [] w s = (w, s)
  write_all (p ∷ ps) w s = let ((r, w'), s') = write E cfg w p s in write_all ps w' s'

  with_buf : (w : MemWriter) {a b : Bytes} → a ≡ b → record w { buf = a } ≡ record w { buf = b }
  with_buf w e = rw e refl

  extended :
      (ps : List Bytes) {v w : MemWriter}
      → v ≡ w
      → record v { buf = v.buf ++ concat ps } ≡ record w { buf = w.buf ++ concat ps }
  extended ps e = rw e refl

  write-writer :
      (w : MemWriter) (p : Bytes) (s : St E)
      → w.closed ≡ false
      → (write E cfg w p s).0.1 ≡ record w { buf = w.buf ++ p }
  unfolding write
  write-writer w p s opened = ground arith

  write_all-writer :
      (ps : List Bytes) (w : MemWriter) (s : St E)
      → w.closed ≡ false
      → (write_all ps w s).0 ≡ record w { buf = w.buf ++ concat ps }
  unfolding write_all
  write_all-writer [] w s opened = with_buf w (sym (append-nil w.buf))
  write_all-writer (p ∷ ps) w s opened =
      let w' = (write E cfg w p s).0.1 in
      let s' = (write E cfg w p s).1 in
      let written = write-writer w p s opened in
      let rest = write_all-writer ps w' s' (ap (λ v. v.closed) written ∙ opened) in
      rest ∙ extended ps written ∙ with_buf w (append_assoc w.buf p (concat ps))

  write-cache :
      (w : MemWriter) (p : Bytes) (s : St E)
      → let t = (write E cfg w p s).1 in (t.cache ≡ s.cache) × (t.closed ≡ s.closed)
  unfolding write
  write-cache w p s = ground arith

  write_all-cache :
      (ps : List Bytes) (w : MemWriter) (s : St E)
      → let t = (write_all ps w s).1 in (t.cache ≡ s.cache) × (t.closed ≡ s.closed)
  unfolding write_all
  write_all-cache [] w s = (refl, refl)
  write_all-cache (p ∷ ps) w s =
      let rest = write_all-cache ps (write E cfg w p s).0.1 (write E cfg w p s).1 in
      let first = write-cache w p s in (rest.0 ∙ first.0, rest.1 ∙ first.1)

  persist_to_local-cache :
      (fd : FileDesc) (body : Bytes) (s : St E)
      → let t = (persist_to_local E cfg fd body s).1 in (t.cache ≡ s.cache) × (t.closed ≡ s.closed)
  unfolding persist_to_local upload_to_shadow
  persist_to_local-cache fd body s = ground arith

  upload_file_failed :
      (fd : FileDesc) (body : Bytes) (s : St E)
      → let (r, t) = upload_file E cfg fd body s in
        r ≢ nil → (t.cache ≡ s.cache) × (t.closed ≡ s.closed)
  unfolding upload_file after_upload
  upload_file_failed fd body s h =
      ground (arith, persist_to_local-cache fd body (put E cfg (E.name fd) body s).1)

  run_sync_failed :
      (w : MemWriter) (f : SyncFn) (s : St E)
      → let (r, t) = run_sync E cfg w f s in r ≢ nil → (t.cache ≡ s.cache) × (t.closed ≡ s.closed)
  unfolding run_sync
  run_sync_failed w upload_only s h = upload_file_failed w.fd w.buf s h
  run_sync_failed w (copy_and_upload path) s h =
      let (r, t) = atomic_write_file E.fs path w.buf s.files in
      ground (arith, upload_file_failed w.fd w.buf (record s { files = t }))

  create_lem :
      (fd : FileDesc) (s : St E) (w : MemWriter)
      → (create E cfg fd s).0 ≡ ok w
      → let t = (create E cfg fd s).1 in
        (w.closed ≡ false)
        × ((w.buf ≡ [])
            × ((w.fd ≡ fd)
                × ((t.closed ≡ false)
                    × (t.cache ≡ E.lru.add (E.name fd) (record { fd = fd; body = [] }) s.cache))))
  unfolding create copied_writer
  create_lem fd s w h = ground arith

module _ {E : Env} (cfg : Settings) (L : EnvLaws E) where
  run_sync_ok :
      (w : MemWriter) (f : SyncFn) (s : St E)
      → let (r, t) = run_sync E cfg w f s in
        r ≡ nil
        → (remote L t (E.name w.fd) ≡ some w.buf)
          × (in_cache L t (E.name w.fd) ≡ some (record { fd = w.fd; body = w.buf }))
  unfolding run_sync
  run_sync_ok w upload_only s h = upload_file_ok cfg L w.fd w.buf s h
  run_sync_ok w (copy_and_upload path) s h =
      let s1 = record s { files = (atomic_write_file E.fs path w.buf s.files).1 } in
      elim (Result-cases (atomic_write_file E.fs path w.buf s.files).0) [
        | inr (e, r) ↦ absurd (ground arith)
        | inl (_, r) ↦
            let same : run_sync E cfg w (copy_and_upload path) s ≡ upload_file E cfg w.fd w.buf s1 =
              ground arith in
            rw same (upload_file_ok cfg L w.fd w.buf s1 (sym (ap (λ x. x.0) same) ∙ h))
      ]

  close-run_sync :
      (w : MemWriter) (s : St E)
      → w.closed ≡ false
      → let (r, t) = run_sync E cfg w w.sync_fn s in
        close E cfg w s ≡ ((r, record w { closed = true }), t)
  unfolding close
  close-run_sync w s opened = rw opened refl

  close_ok :
      (fd : FileDesc) (body : Bytes) (w : MemWriter) (s : St E)
      → w.closed ≡ false
      → w.fd ≡ fd
      → w.buf ≡ body
      → let ((r, w2), t) = close E cfg w s in
        r ≡ nil
        → (remote L t (E.name fd) ≡ some body)
          × (in_cache L t (E.name fd) ≡ some (record { fd = fd; body = body }))
  close_ok fd body w s opened of_fd of_body h =
      let ran = close-run_sync w s opened in
      let done = run_sync_ok w w.sync_fn s (sym (ap (λ x. x.0.0) ran) ∙ h) in
      rw (ran, ← of_fd, ← of_body) done

  close_failed :
      (w : MemWriter) (s : St E)
      → w.closed ≡ false
      → let ((r, w2), t) = close E cfg w s in r ≢ nil → (t.cache ≡ s.cache) × (t.closed ≡ s.closed)
  close_failed w s opened h =
      let ran = close-run_sync w s opened in
      rw ran (run_sync_failed E cfg w w.sync_fn s (λ e. h (ap (λ x. x.0.0) ran ∙ e)))

  -- The writer of `Create` after some writes.
  written_writer :
      (fd : FileDesc) (s : St E) (w : MemWriter) (ps : List Bytes)
      → (create E cfg fd s).0 ≡ ok w
      → let w1 = (write_all E cfg ps w (create E cfg fd s).1).0 in
        (w1.closed ≡ false) × ((w1.fd ≡ fd) × (w1.buf ≡ concat ps))
  written_writer fd s w ps made =
      let made_lem = create_lem E cfg fd s w made in
      let e = write_all-writer E cfg ps w (create E cfg fd s).1 made_lem.0 in
      (
        ap (λ v. v.closed) e ∙ made_lem.0,
        (
          ap (λ v. v.fd) e ∙ made_lem.1.1.0,
          ap (λ v. v.buf) e ∙ ap (λ b. b ++ concat ps) made_lem.1.0,
        ),
      )

  -- When Create gives a writer and closing it after any writes succeeds, the object store and the
  -- cache hold all the bytes written, in their order.
  pub close-write_all :
      (fd : FileDesc) (s : St E) (w : MemWriter) (ps : List Bytes)
      → (create E cfg fd s).0 ≡ ok w
      → let (w1, s1) = write_all E cfg ps w (create E cfg fd s).1 in
        let ((r, w2), t) = close E cfg w1 s1 in
        r ≡ nil
        → (remote L t (E.name fd) ≡ some (concat ps))
          × (in_cache L t (E.name fd) ≡ some (record { fd = fd; body = concat ps }))
  close-write_all fd s w ps made h =
      let (opened, (of_fd, of_body)) = written_writer fd s w ps made in
      let (w1, s1) = write_all E cfg ps w (create E cfg fd s).1 in
      close_ok fd (concat ps) w1 s1 opened of_fd of_body h

  opens_cached :
      (fd : FileDesc) (t : St E)
      → t.closed ≡ false
      → in_cache L t (E.name fd) ≡ some (record { fd = fd; body = [] })
      → (open_file E cfg fd t).0 ≡ ok (record { body = []; closed = false })
  unfolding open_file
  opens_cached fd t opened cached = ground (arith, L.lru.get_found (E.name fd) t.cache)

  -- When Create gives a writer and closing it after any writes fails, opening the file gives no
  -- bytes at all, whatever was written and whatever the object store and the disk hold.
  pub failed_close_reads_empty :
      (fd : FileDesc) (s : St E) (w : MemWriter) (ps : List Bytes)
      → (create E cfg fd s).0 ≡ ok w
      → let (w1, s1) = write_all E cfg ps w (create E cfg fd s).1 in
        let ((r, w2), t) = close E cfg w1 s1 in
        r ≢ nil → (open_file E cfg fd t).0 ≡ ok (record { body = []; closed = false })
  failed_close_reads_empty fd s w ps made h =
      let (w1, s1) = write_all E cfg ps w (create E cfg fd s).1 in
      let t = (close E cfg w1 s1).1 in
      let empty : MemFile = record { fd = fd; body = [] } in
      let made_lem = create_lem E cfg fd s w made in
      let kept = close_failed w1 s1 (written_writer fd s w ps made).0 h in
      let wrote = write_all-cache E cfg ps w (create E cfg fd s).1 in
      opens_cached fd t (kept.1 ∙ wrote.1 ∙ made_lem.1.1.1.0) (
        subst (λ l. L.cached l (E.name fd) ≡ some empty) (sym (kept.0 ∙ wrote.0 ∙ made_lem.1.1.1.1))
          (L.lru.add_self (E.name fd) empty s.cache))
