-- ===== src/Storage/Recovery/Orphans.antt =====
-- What `removeAllOrphaned` leaves of the local files.
use levels.Base.{◌≡◌, refl, ap, ◌∙◌, true, false, none, List, [], ◌∷◌, Str, arith, inl, inr}
use levels.Failure.{nil, Result-cases}
use levels.FileDesc.{FileDesc}
use levels.Files.{IsWithin}
use levels.Storage.State.{Env, Settings, St}
use levels.Storage.Laws.{EnvLaws, local}
use levels.Storage.Upload.{remove_object}
use levels.Storage.Access.{list_objects}
use levels.Storage.Recovery.{has_local_dir, remove_all_orphaned, remove_objects}

module _ {E : Env} (cfg : Settings) (L : EnvLaws E) where
  remove_objects-files :
      (fds : List FileDesc) (s : St E) → (remove_objects E cfg fds s).1.files ≡ s.files
  unfolding remove_objects
  remove_objects-files [] s = refl
  remove_objects-files (fd ∷ fds) s = remove_objects-files fds (remove_object E cfg (E.name fd) s).1

  -- With the lock held, when os.RemoveAll succeeds on the local cache directory, removeAllOrphaned
  -- leaves no file in it, whatever else fails; the pending files are among them when their
  -- directory lies in it.
  pub remove_all_orphaned_within :
      (path : Str) (s : St E)
      → s.lock_lost ≡ false
      → has_local_dir E cfg ≡ true
      → (E.fs.remove_all cfg.local_dir s.files).0 ≡ nil
      → IsWithin cfg.local_dir path
      → local L (remove_all_orphaned E cfg s).1 path ≡ none
  unfolding remove_all_orphaned
  remove_all_orphaned_within path s held dir done inside =
      let f1 = (E.fs.remove_all cfg.local_dir s.files).1 in
      let f2 = (E.fs.mkdir_all cfg.local_dir f1).1 in
      let s1 : St E = record s { cache = E.lru.purge s.cache; files = f2 } in
      let s2 = (list_objects E cfg s1).1 in
      let files : (remove_all_orphaned E cfg s).1.files ≡ f2 =
        elim (Result-cases (list_objects E cfg s1).0) [
          | inr (e, unknown) ↦ ground arith
          | inl (fds, listed) ↦ ground (arith, remove_objects-files fds s2)
        ] in
      ap (λ f. L.file f path) files
      ∙ L.fs.mkdir_keeps cfg.local_dir f1 path
      ∙ L.fs.remove_all_ok cfg.local_dir s.files path done inside
