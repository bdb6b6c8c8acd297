-- ===== src/Storage/Fencing/Laws.antt =====
-- What the calls of LevelDB leave in the object store once the lock is lost.
use levels.Base.{
  ◌≡◌, ◌∙◌, refl, true, List, [], ◌∷◌, Str, Bytes, Bool, false, Bool-cases, Option-cases, inl, inr,
  arith, trim_space,
}
use levels.Failure.{Result-cases}
use levels.FileDesc.{FileDesc, parse_file_desc, FileType}
use levels.Storage.State.{Env, Settings, St, own_context}
use levels.Storage.Laws.{EnvLaws, remote}
use levels.Storage.Upload.{upload_file}
use levels.Storage.Writer
use levels.Storage.Writer.{MemWriter, SyncFn, upload_only, copy_and_upload, run_sync}
use levels.Storage.Access
use levels.Storage.Access.{current, check_meta, read_meta}
use levels.Storage.Rename
use levels.Storage.Fencing.{
  Operation, set_meta, get_meta, list, open_file, create, remove, rename, write, sync, close_writer,
  close_storage, perform, perform_all,
}

module _ {E : Env} (cfg : Settings) (L : EnvLaws E) where
  -- The lock is still lost, and every key holds what it held.
  pub record IsFenced (s t : St E) : Type 0 where
    pub lost : t.lock_lost ≡ true
    pub same : (j : Str) → remote L t j ≡ remote L s j

  same_state : (s t : St E) → s.lock_lost ≡ true → t ≡ s → IsFenced s t
  same_state s t lost e = rw e (record { lost = lost; same = λ j. refl })

  IsFenced-trans : {s t u : St E} → IsFenced s t → IsFenced t u → IsFenced s u
  IsFenced-trans p q = record { lost = q.lost; same = λ j. q.same j ∙ p.same j }

  check_meta-IsFenced :
      (fd : FileDesc) (s : St E) → s.lock_lost ≡ true → IsFenced s (check_meta E cfg fd s).1
  unfolding check_meta
  check_meta-IsFenced fd s lost = record {
    lost = ground arith;
    same = λ j. ground (arith, L.api.exists_keeps (own_context E s) (E.name fd) s.client j);
  }

  read_meta-IsFenced : (s : St E) → s.lock_lost ≡ true → IsFenced s (read_meta E cfg s).1
  unfolding read_meta
  read_meta-IsFenced s lost =
      elim (Result-cases (E.api.get_bytes (own_context E s) current s.client).0) [
        | inr (e, r) ↦ record {
          lost = ground arith;
          same = λ j. ground (arith, L.api.get_keeps (own_context E s) current s.client j);
        }
        | inl (text, r) ↦ elim (Option-cases (parse_file_desc (trim_space text))) [
          | inl none_there ↦ record {
            lost = ground arith;
            same = λ j. ground (arith, L.api.get_keeps (own_context E s) current s.client j);
          }
          | inr (fd, parsed) ↦
              let u = record s {
                client = (E.api.get_bytes (own_context E s) current s.client).1;
              } in
              let there : (read_meta E cfg s).1 ≡ (check_meta E cfg fd u).1 = ground arith in
              rw there (
                IsFenced-trans
                  (record {
                    lost = lost;
                    same = L.api.get_keeps (own_context E s) current s.client;
                  })
                  (check_meta-IsFenced fd u lost))
        ]
      ]

  get_meta-IsFenced : (s : St E) → s.lock_lost ≡ true → IsFenced s (Access.get_meta E cfg s).1
  unfolding Access.get_meta
  get_meta-IsFenced s lost =
      let u = record s { client = (E.api.exists (own_context E s) current s.client).1 } in
      let checked : IsFenced s u = record {
        lost = lost;
        same = L.api.exists_keeps (own_context E s) current s.client;
      } in
      elim (Bool-cases s.closed) [
        | inl shut ↦ same_state s _ lost (ground arith)
        | inr opened ↦ elim (Result-cases (E.api.exists (own_context E s) current s.client).0) [
          | inr (e, r) ↦
              let there : (Access.get_meta E cfg s).1 ≡ u = ground arith in rw there checked
          | inl (false, r) ↦
              let there : (Access.get_meta E cfg s).1 ≡ u = ground arith in rw there checked
          | inl (true, r) ↦
              let there : (Access.get_meta E cfg s).1 ≡ (read_meta E cfg u).1 = ground arith in
              rw there (IsFenced-trans checked (read_meta-IsFenced u lost))
        ]
      ]

  list-IsFenced :
      (ft : FileType → Bool) (s : St E) → s.lock_lost ≡ true → IsFenced s (Access.list E cfg ft s).1
  unfolding Access.list Access.add_pending Access.pending_files
  list-IsFenced ft s lost =
      let u = record s { client = (E.api.list (own_context E s) s.client).1 } in
      let listed : IsFenced s u = record {
        lost = lost;
        same = L.api.list_keeps (own_context E s) s.client;
      } in
      elim (Bool-cases s.closed) [
        | inl shut ↦ same_state s _ lost (rw shut refl)
        | inr opened ↦ elim (Result-cases (E.api.list (own_context E s) s.client).0) [
          | inr (e, r) ↦
              let there : (Access.list E cfg ft s).1 ≡ u = ground arith in rw there listed
          | inl (files, r) ↦
              let there : (Access.list E cfg ft s).1 ≡ u = ground arith in rw there listed
        ]
      ]

  open_file-IsFenced :
      (fd : FileDesc) (s : St E) → s.lock_lost ≡ true → IsFenced s (Access.open_file E cfg fd s).1
  unfolding Access.open_file
  open_file-IsFenced fd s lost = record {
    lost = ground arith;
    same = λ j. ground (arith, L.api.get_keeps (own_context E s) (E.name fd) s.client j);
  }

  run_sync-IsFenced :
      (w : MemWriter) (f : SyncFn) (s : St E)
      → s.lock_lost ≡ true
      → IsFenced s (run_sync E cfg w f s).1
  unfolding run_sync upload_file
  run_sync-IsFenced w upload_only s lost = record { lost = ground arith; same = λ j. ground arith }
  run_sync-IsFenced w (copy_and_upload p) s lost = record {
    lost = ground arith;
    same = λ j. ground arith;
  }

  set_meta-IsFenced :
      (fd : FileDesc) (s : St E) → s.lock_lost ≡ true → IsFenced s (Access.set_meta E cfg fd s).1
  unfolding Access.set_meta
  set_meta-IsFenced fd s lost = same_state s _ lost (ground arith)

  remove-IsFenced :
      (fd : FileDesc) (s : St E) → s.lock_lost ≡ true → IsFenced s (Access.remove E cfg fd s).1
  unfolding Access.remove
  remove-IsFenced fd s lost = same_state s _ lost (ground arith)

  rename-IsFenced :
      (oldfd newfd : FileDesc) (s : St E)
      → s.lock_lost ≡ true
      → IsFenced s (Rename.rename E cfg oldfd newfd s).1
  unfolding Rename.rename
  rename-IsFenced oldfd newfd s lost = same_state s _ lost (ground arith)

  create-IsFenced :
      (fd : FileDesc) (s : St E) → s.lock_lost ≡ true → IsFenced s (Writer.create E cfg fd s).1
  unfolding Writer.create
  create-IsFenced fd s lost = same_state s _ lost (ground arith)

  write-IsFenced :
      (w : MemWriter) (p : Bytes) (s : St E)
      → s.lock_lost ≡ true
      → IsFenced s (Writer.write E cfg w p s).1
  unfolding Writer.write
  write-IsFenced w p s lost = record { lost = ground arith; same = λ j. ground arith }

  sync-IsFenced :
      (w : MemWriter) (s : St E) → s.lock_lost ≡ true → IsFenced s (Writer.sync E cfg w s).1
  unfolding Writer.sync
  sync-IsFenced w s lost = elim (Bool-cases w.closed) [
    | inl shut ↦ same_state s _ lost (rw shut refl)
    | inr opened ↦
        let there : (Writer.sync E cfg w s).1 ≡ (run_sync E cfg w w.sync_fn s).1 = rw opened refl in
        rw there (run_sync-IsFenced w w.sync_fn s lost)
  ]

  close-IsFenced :
      (w : MemWriter) (s : St E) → s.lock_lost ≡ true → IsFenced s (Writer.close E cfg w s).1
  unfolding Writer.close
  close-IsFenced w s lost = elim (Bool-cases w.closed) [
    | inl shut ↦ same_state s _ lost (rw shut refl)
    | inr opened ↦
        let there : (Writer.close E cfg w s).1 ≡ (run_sync E cfg w w.sync_fn s).1 =
          rw opened refl in
        rw there (run_sync-IsFenced w w.sync_fn s lost)
  ]

  close_storage-IsFenced :
      (s : St E) → s.lock_lost ≡ true → IsFenced s (Access.close_storage E cfg s).1
  unfolding Access.close_storage
  close_storage-IsFenced s lost = record { lost = ground arith; same = λ j. ground arith }

  pub perform-IsFenced :
      (op : Operation) (s : St E) → s.lock_lost ≡ true → IsFenced s (perform E cfg op s)
  unfolding perform
  perform-IsFenced (set_meta fd) s lost = set_meta-IsFenced fd s lost
  perform-IsFenced get_meta s lost = get_meta-IsFenced s lost
  perform-IsFenced (list ft) s lost = list-IsFenced ft s lost
  perform-IsFenced (open_file fd) s lost = open_file-IsFenced fd s lost
  perform-IsFenced (create fd) s lost = create-IsFenced fd s lost
  perform-IsFenced (remove fd) s lost = remove-IsFenced fd s lost
  perform-IsFenced (rename oldfd newfd) s lost = rename-IsFenced oldfd newfd s lost
  perform-IsFenced (write w p) s lost = write-IsFenced w p s lost
  perform-IsFenced (sync w) s lost = sync-IsFenced w s lost
  perform-IsFenced (close_writer w) s lost = close-IsFenced w s lost
  perform-IsFenced close_storage s lost = close_storage-IsFenced s lost

  -- Once the lock is lost, it stays lost, and no sequence of SetMeta, GetMeta, List, Open, Create,
  -- Remove, Rename and Close of the storage and of Write, Sync and Close of its writers changes
  -- what any key of the object store holds.
  pub perform_all-IsFenced :
      (ops : List Operation) (s : St E) → s.lock_lost ≡ true → IsFenced s (perform_all E cfg ops s)
  unfolding perform_all
  perform_all-IsFenced [] s lost = same_state s s lost refl
  perform_all-IsFenced (op ∷ ops) s lost =
      let first = perform-IsFenced op s lost in
      IsFenced-trans first (perform_all-IsFenced ops _ first.lost)
