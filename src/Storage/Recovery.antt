-- ===== src/Storage/Recovery.antt =====
-- The recovery that `Lock` runs: `syncLocalToS3`, and `cleanupOrphaned` with
-- `verifyCurrentManifest`, `recoverFromLocalCache` and `removeAllOrphaned`.
pub mod Verify
pub mod Laws
pub mod Orphans
pub mod Local
pub mod Owned
use levels.Base.{
  Bool, not, ◌&&◌, ◌||◌, ◌++◌, List, [], ◌∷◌, Option, none, some, true, false, Str, Bytes, codes,
  is_empty, str_eq, trim_space, if◌then◌else◌,
}
use levels.Failure.{GoError, lock_lost, wrapped, is_not_exist, Result, ok, err, Outcome, nil}
use levels.Config.{join}
use levels.FileDesc.{FileDesc, parse_file_desc}
use levels.Files.{DirEntry}
use levels.Lock.{lock_key}
use levels.Storage.State.{Env, Settings, St, M, return, ◌>>=◌, ◌>>◌, when, on_files, on_cache}
use levels.Storage.Upload.{has_pending_dir, pending_path, put, remove_object, remove_pending}
use levels.Storage.Access.{current, get, exists, list_objects}
use levels.Storage.Manifest.{find_latest_local_manifest, find_latest_pending_manifest}

-- Directories, LOCK and CURRENT are passed over.
abbrev pub unsynced : DirEntry → Bool
unsynced entry = entry.is_dir || str_eq entry.name lock_key || str_eq entry.name current

module _ (E : Env) (cfg : Settings) where
  open E use {fs, lru, name}

  abbrev pub has_local_dir : Bool
  has_local_dir = not (is_empty cfg.local_dir)

  abbrev pub local_copy : Str → Str
  local_copy n = join cfg.local_dir n

  -- One round of the loop of `syncLocalToS3`. A file that cannot be read is only logged.
  unfoldable pub sync_entry : DirEntry → M (St E) Outcome
  sync_entry entry s =
      if unsynced entry then (nil, s) else elim (fs.read_file (local_copy entry.name) s.files) [
        | err _ ↦ (nil, s)
        | ok body ↦ put E cfg entry.name body s
      ]

  unfoldable pub sync_entries : List DirEntry → M (St E) Outcome
  sync_entries [] s = (nil, s)
  sync_entries (entry ∷ entries) s =
      let (r, s1) = sync_entry entry s in
      let rest = sync_entries entries s1 in
      elim r [ err e ↦ (err (wrapped "failed to sync to S3" e), s1) | ok _ ↦ rest ]

  unfoldable pub sync_local_to_s3 : M (St E) Outcome
  sync_local_to_s3 s =
      if not has_local_dir then (nil, s) else elim (fs.read_dir cfg.local_dir s.files) [
        | err e ↦
            if is_not_exist e
            then (nil, s)
            else (err (wrapped "failed to read local cache dir" e), s)
        | ok entries ↦ sync_entries entries s
      ]

  unfoldable pub remove_objects : List FileDesc → M (St E) Unit
  remove_objects [] s = (tt, s)
  remove_objects (fd ∷ fds) s = remove_objects fds (remove_object E cfg (name fd) s).1

  abbrev empty_local_dir : M (St E) Unit
  empty_local_dir = do
    on_files E (fs.remove_all cfg.local_dir)
    on_files E (fs.mkdir_all cfg.local_dir)
    return tt

  abbrev remove_listed : Result (List FileDesc) → M (St E) Outcome
  remove_listed (err e) = return (err (wrapped "failed to list files during cleanup" e))
  remove_listed (ok files) = do remove_objects files; remove_object E cfg current; return nil

  unfoldable pub remove_all_orphaned : M (St E) Outcome
  remove_all_orphaned s =
      if s.lock_lost
      then (err lock_lost, s)
      else (do
        on_cache E lru.purge
        when has_local_dir empty_local_dir
        files ← list_objects E cfg
        remove_listed files)
          s

  -- The bytes of a file that is there and not empty.
  abbrev pub readable : Str → St E → Option Bytes
  readable path s = elim (fs.read_file path s.files) [
    | err _ ↦ none
    | ok [] ↦ none
    | ok (c ∷ body) ↦ some (c ∷ body)
  ]

  -- The last part of `verifyCurrentManifest`: the copy in the pending directory.
  unfoldable pub restore_from_pending : FileDesc → M (St E) Outcome
  restore_from_pending fd s =
      let copy =
        if has_pending_dir E cfg then readable (pending_path E cfg (name fd)) s else none in
      elim copy [
        | none ↦ remove_all_orphaned s
        | some body ↦
            let (r, s1) = put E cfg (name fd) body s in
            elim r [
              | err _ ↦ remove_all_orphaned s1
              | ok _ ↦ (nil, (remove_pending E cfg (name fd) s1).1)
            ]
      ]

  -- The manifest that CURRENT names is missing.
  unfoldable pub restore_manifest : FileDesc → M (St E) Outcome
  restore_manifest fd s =
      let copy = if has_local_dir then readable (local_copy (name fd)) s else none in
      elim copy [
        | none ↦ restore_from_pending fd s
        | some body ↦
            let (r, s1) = put E cfg (name fd) body s in
            elim r [ err _ ↦ restore_from_pending fd s1 | ok _ ↦ (nil, s1) ]
      ]

  unfoldable pub verify_manifest : FileDesc → M (St E) Outcome
  verify_manifest fd s =
      let (found, s1) = exists E cfg (name fd) s in
      elim found [
        | err e ↦ (err (wrapped "failed to check manifest" e), s1)
        | ok true ↦ (nil, s1)
        | ok false ↦ restore_manifest fd s1
      ]

  unfoldable pub verify_current_manifest : M (St E) Outcome
  verify_current_manifest s =
      let (content, s1) = get E cfg current s in
      elim content [
        | err e ↦ (err (wrapped "failed to read CURRENT" e), s1)
        | ok text ↦ elim (parse_file_desc (trim_space text)) [
          | none ↦ remove_all_orphaned s1
          | some fd ↦ verify_manifest fd s1
        ]
      ]

  -- What was found, unless it is empty.
  abbrev pub usable : Result (FileDesc × Bytes) → Option (FileDesc × Bytes)
  usable (ok (fd, c ∷ body)) = some (fd, c ∷ body)
  usable _ = none

  -- The manifest and a CURRENT that names it are uploaded.
  unfoldable pub rebuild : FileDesc → Bytes → M (St E) Outcome
  rebuild fd body s =
      let (r, s1) = put E cfg (name fd) body s in
      elim r [ err e ↦ (err e, s1) | ok _ ↦ put E cfg current (name fd ++ codes "\n") s1 ]

  -- The last part of `recoverFromLocalCache`
  unfoldable pub recover_from_pending : List FileDesc → M (St E) Outcome
  recover_from_pending files s =
      let found =
        if has_pending_dir E cfg then usable (find_latest_pending_manifest E cfg s) else none in
      elim found [
        | none ↦ elim files [ [] ↦ (nil, s) | ◌∷◌ _ _ ↦ remove_all_orphaned s ]
        | some (fd, body) ↦
            let (r, s1) = rebuild fd body s in
            elim r [
              | err _ ↦ remove_all_orphaned s1
              | ok _ ↦ (nil, (remove_pending E cfg (name fd) s1).1)
            ]
      ]

  unfoldable pub recover_manifest : List FileDesc → M (St E) Outcome
  recover_manifest files s =
      let found = if has_local_dir then usable (find_latest_local_manifest E cfg s) else none in
      elim found [
        | none ↦ recover_from_pending files s
        | some (fd, body) ↦
            let (r, s1) = rebuild fd body s in
            elim r [ err _ ↦ remove_all_orphaned s1 | ok _ ↦ (nil, s1) ]
      ]

  unfoldable pub recover_from_local_cache : M (St E) Outcome
  recover_from_local_cache s =
      let (listed, s1) = list_objects E cfg s in
      elim listed [
        | err e ↦ (err (wrapped "failed to list files" e), s1)
        | ok files ↦ elim files [
          | [] ↦ if not has_local_dir then (nil, s1) else recover_manifest [] s1
          | ◌∷◌ f others ↦ recover_manifest (f ∷ others) s1
        ]
      ]

  unfoldable pub cleanup_orphaned : M (St E) Outcome
  cleanup_orphaned s =
      let (found, s1) = exists E cfg current s in
      elim found [
        | err e ↦ (err (wrapped "failed to check CURRENT" e), s1)
        | ok true ↦ verify_current_manifest s1
        | ok false ↦ recover_from_local_cache s1
      ]
