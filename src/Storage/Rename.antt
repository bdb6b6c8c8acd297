-- ===== src/Storage/Rename.antt =====
-- `S3Storage.Rename`: a copy and a removal in the object store, with the cache, the pending
-- directory, the shadow and the local copy carried along.
pub mod Laws
use levels.Base.{◌++◌, Str, if◌then◌else◌}
use levels.Base.Checksum.{checksum}
use levels.Failure.{lock_lost, storage_closed, wrapped, ok, err, Outcome, nil}
use levels.Config.{join}
use levels.FileDesc.{FileDesc}
use levels.Client.{background}
use levels.Storage.State.{
  Env, Settings, St, M, return, gets, ◌>>=◌, ◌>>◌, when, on_client, on_files, on_cache, own_context,
}
use levels.Storage.Upload.{
  cksum, has_pending_dir, pending_path, remove_object, clean_shadow, upload_to_shadow,
}
use levels.Storage.Writer.{should_cache_locally}
use levels.Storage.Access.{get}

module _ (E : Env) (cfg : Settings) where
  open E use {api, fs, lru, name}

  abbrev copy : Str → Str → M (St E) Outcome
  copy old new s = on_client E (api.copy (own_context E s) old new) s

  -- The cache, from what the old file holds.
  unfoldable pub move_cached : FileDesc → FileDesc → M (St E) Unit
  move_cached oldfd newfd = do
    fetched ← get E cfg (name oldfd)
    elim fetched [
      | err _ ↦ return tt
      | ok body ↦ do
        on_cache E (lru.remove (name oldfd))
        on_cache E (lru.add (name newfd) (record { fd = newfd; body = body }))
    ]

  -- The pending file was renamed: its checksum and its shadow follow.
  unfoldable pub follow_renamed : Str → Str → M (St E) Unit
  follow_renamed old new = do
    on_files E (fs.rename (pending_path E cfg old ++ cksum) (pending_path E cfg new ++ cksum))
    clean_shadow E cfg old
    moved ← gets (λ s. fs.read_file (pending_path E cfg new) s.files)
    elim moved [ err _ ↦ return tt | ok body ↦ upload_to_shadow E cfg new body ]

  -- The pending file could not be renamed: it is written anew.
  unfoldable pub rewrite_pending : Str → Str → M (St E) Unit
  rewrite_pending old new = do
    read ← gets (λ s. fs.read_file (pending_path E cfg old) s.files)
    elim read [
      | err _ ↦ return tt
      | ok body ↦ do
        written ← on_files E (fs.write_file (pending_path E cfg new) body)
        elim written [
          | err _ ↦ return tt
          | ok _ ↦ do
            on_files E (fs.remove (pending_path E cfg old))
            on_files E (fs.remove (pending_path E cfg old ++ cksum))
            on_files E (fs.write_file (pending_path E cfg new ++ cksum) (checksum body))
            clean_shadow E cfg old
            upload_to_shadow E cfg new body
        ]
    ]

  unfoldable pub move_pending : Str → Str → M (St E) Unit
  move_pending old new = do
    found ← gets (λ s. fs.stat (pending_path E cfg old) s.files)
    elim found [
      | err _ ↦ return tt
      | ok _ ↦ do
        renamed ← on_files E (fs.rename (pending_path E cfg old) (pending_path E cfg new))
        elim renamed [ ok _ ↦ follow_renamed old new | err _ ↦ rewrite_pending old new ]
    ]

  unfoldable pub move_local : FileDesc → FileDesc → M (St E) Unit
  move_local oldfd newfd = do
    let old = join cfg.local_dir (name oldfd)
    read ← gets (λ s. fs.read_file old s.files)
    elim read [
      | err _ ↦ return tt
      | ok body ↦ do
        on_files E (fs.write_file (join cfg.local_dir (name newfd)) body)
        on_files E (fs.remove old)
        return tt
    ]

  -- The removal of the source, which is tried once more with a context of its own.
  unfoldable pub remove_source : Str → M (St E) Outcome
  remove_source old = do
    first ← remove_object E cfg old
    elim first [
      | ok _ ↦ return nil
      | err _ ↦ do
        again ← on_client E (api.remove (background cfg.opt.request_timeout) old)
        elim again [
          | ok _ ↦ return nil
          | err e ↦ return (err (wrapped "failed to delete source after copy" e))
        ]
    ]

  -- `Rename` behind a copy that succeeded.
  unfoldable pub after_copy : FileDesc → FileDesc → M (St E) Outcome
  after_copy oldfd newfd = do
    move_cached oldfd newfd
    when (has_pending_dir E cfg) (move_pending (name oldfd) (name newfd))
    removed ← remove_source (name oldfd)
    elim removed [
      | err e ↦ return (err e)
      | ok _ ↦ do when (should_cache_locally cfg oldfd) (move_local oldfd newfd); return nil
    ]

  unfoldable pub rename : FileDesc → FileDesc → M (St E) Outcome
  rename oldfd newfd s =
      if s.closed
      then (err storage_closed, s)
      else if s.lock_lost
      then (err lock_lost, s)
      else (do
        copied ← copy (name oldfd) (name newfd)
        elim copied [
          | err e ↦ return (err (wrapped "failed to copy" e))
          | ok _ ↦ after_copy oldfd newfd
        ])
          s
