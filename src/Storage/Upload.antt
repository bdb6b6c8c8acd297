-- ===== src/Storage/Upload.antt =====
-- `uploadFile`, `persistToLocal`, `uploadToShadow` and `cleanShadow`: what becomes of a file that
-- LevelDB has written, whether or not the object store takes it.
pub mod Laws
use levels.Base.{
  Bool, true, false, not, ◌&&◌, ◌++◌, ◌∷◌, Str, Bytes, codes, is_empty, length, if◌then◌else◌,
}
use levels.Base.Int.{pos, ltb_ℤ}
use levels.Base.Checksum.{checksum}
use levels.Failure.{file_too_large, lock_lost, plain, wrapped, Result, ok, err, Outcome, nil}
use levels.Config.{join}
use levels.FileDesc.{FileDesc, is_metadata_key}
use levels.Client.{Context}
use levels.Files.{dir_of, atomic_write_file}
use levels.Storage.State.{
  MemFile, Env, Settings, St, M, return, gets, ◌>>=◌, ◌>>◌, when, on_client, on_files, on_cache,
  own_context,
}

abbrev pub cksum : Str
cksum = codes ".cksum"

module _ (E : Env) (cfg : Settings) where
  open E use {api, fs, lru, name}

  abbrev pub has_pending_dir : Bool
  has_pending_dir = not (is_empty cfg.pending_dir)

  abbrev pub has_shadow : Bool
  has_shadow = not (is_empty cfg.shadow_prefix)

  -- filepath.Join(s.pendingDir, name)
  abbrev pub pending_path : Str → Str
  pending_path n = join cfg.pending_dir n

  abbrev pub shadow_key : Str → Str
  shadow_key n = cfg.shadow_prefix ++ (b'/' ∷ n)

  abbrev pub put : Str → Bytes → M (St E) Outcome
  put key body s = on_client E (api.put_bytes (own_context E s) key body) s

  abbrev pub remove_object : Str → M (St E) Outcome
  remove_object key s = on_client E (api.remove (own_context E s) key) s

  unfoldable pub upload_to_shadow : Str → Bytes → M (St E) Unit
  upload_to_shadow n body = when has_shadow (put (shadow_key n) body)

  unfoldable pub clean_shadow : Str → M (St E) Unit
  clean_shadow n = when has_shadow (remove_object (shadow_key n))

  -- Removes a pending file and its checksum, whatever becomes of it.
  abbrev pub remove_pending : Str → M (St E) Unit
  remove_pending n = do
    on_files E (fs.remove (pending_path n))
    on_files E (fs.remove (pending_path n ++ cksum))
    return tt

  unfoldable pub persist_to_local : FileDesc → Bytes → M (St E) Outcome
  persist_to_local fd body =
      if not has_pending_dir then return (err (plain "pending directory not configured")) else do
        let path = pending_path (name fd)
        made ← on_files E (fs.mkdir_all (dir_of path))
        elim made [
          | err e ↦ return (err (wrapped "failed to create local directory" e))
          | ok _ ↦ do
            written ← on_files E (atomic_write_file fs path body)
            elim written [
              | err e ↦ return (err (wrapped "failed to write local file" e))
              | ok _ ↦ do
                on_files E (fs.write_file (path ++ cksum) (checksum body))
                upload_to_shadow (name fd) body
                return nil
            ]
        ]

  abbrev pub too_large : Str → Bytes → Bool
  too_large key body = not (is_metadata_key key) && ltb_ℤ cfg.opt.max_file_size (pos (length body))

  -- The end of `uploadFile`, behind the upload.
  unfoldable pub after_upload : FileDesc → Bytes → M (St E) Outcome
  after_upload fd body = do
    when has_pending_dir (remove_pending (name fd))
    clean_shadow (name fd)
    on_cache E (lru.add (name fd) (record { fd = fd; body = body }))
    return nil

  unfoldable pub upload_file : FileDesc → Bytes → M (St E) Outcome
  upload_file fd body s =
      if too_large (name fd) body
      then (err file_too_large, s)
      else if s.lock_lost
      then (err lock_lost, s)
      else (do
        uploaded ← put (name fd) body
        elim uploaded [
          | err e ↦ do
            when has_pending_dir (persist_to_local fd body)
            return (err (wrapped "failed to upload file" e))
          | ok _ ↦ after_upload fd body
        ])
          s
