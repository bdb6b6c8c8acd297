-- ===== src/Storage/Writer.antt =====
-- `memReader`, `memWriter` and `S3Storage.Create`. The closure `syncFn` of a writer is one of the two
-- that `Create` builds.
pub mod Laws
use levels.Base.{ℕ, Bool, true, false, not, ◌++◌, Str, Bytes, [], is_empty, length, if◌then◌else◌}
use levels.Failure.{lock_lost, storage_closed, wrapped, Result, ok, err, Outcome, nil}
use levels.Config.{join}
use levels.FileDesc.{FileType, type_manifest, type_journal, type_table, type_temp, FileDesc}
use levels.Files.{dir_of, atomic_write_file}
use levels.Storage.State.{Env, Settings, St, M, return, ◌>>=◌, ◌>>◌, when, on_files, on_cache}
use levels.Storage.Upload.{upload_file}

-- A reader over bytes. `Read` and `Seek` are those of `bytes.Reader`.
pub record MemReader : Type 0 where
  pub body : Bytes
  pub closed : Bool

unfoldable pub reader_close : MemReader → Outcome × MemReader
reader_close r = if r.closed then (err storage_closed, r) else (nil, record r { closed = true })

pub data SyncFn : Type 0 where
  -- `return s.uploadFile(fd, buf.Bytes())`
  upload_only : SyncFn
  -- the same behind a write of the local copy at this path
  copy_and_upload : Str → SyncFn

pub record MemWriter : Type 0 where
  pub fd : FileDesc
  pub buf : Bytes
  pub closed : Bool
  pub sync_fn : SyncFn
  pub local_path : Str

abbrev is_cached_type : FileType → Bool
is_cached_type type_journal = true
is_cached_type type_manifest = true
is_cached_type type_table = false
is_cached_type type_temp = false

unfoldable pub should_cache_locally : Settings → FileDesc → Bool
should_cache_locally cfg fd = if is_empty cfg.local_dir then false else is_cached_type fd.file_type

module _ (E : Env) (cfg : Settings) where
  open E use {fs, lru, name}

  unfoldable pub run_sync : MemWriter → SyncFn → M (St E) Outcome
  run_sync w upload_only = upload_file E cfg w.fd w.buf
  run_sync w (copy_and_upload path) = do
    copied ← on_files E (atomic_write_file fs path w.buf)
    elim copied [
      | err e ↦ return (err (wrapped "failed to write local cache" e))
      | ok _ ↦ upload_file E cfg w.fd w.buf
    ]

  -- A failed local copy is only logged.
  unfoldable pub write : MemWriter → Bytes → M (St E) (Result ℕ × MemWriter)
  write w p s =
      if w.closed
      then ((err storage_closed, w), s)
      else let w' = record w { buf = w.buf ++ p } in
        (do
          when (not (is_empty w.local_path))
              (on_files E (atomic_write_file fs w.local_path (w.buf ++ p)))
          return (ok (length p), w'))
          s

  unfoldable pub sync : MemWriter → M (St E) (Outcome × MemWriter)
  sync w s =
      if w.closed
      then ((err storage_closed, w), s)
      else (do r ← run_sync w w.sync_fn; return (r, w)) s

  unfoldable pub close : MemWriter → M (St E) (Outcome × MemWriter)
  close w s =
      if w.closed
      then ((err storage_closed, w), s)
      else (do r ← run_sync w w.sync_fn; return (r, record w { closed = true })) s

  abbrev pub new_writer : FileDesc → MemWriter
  new_writer fd = record {
    fd = fd;
    buf = [];
    closed = false;
    sync_fn = upload_only;
    local_path = [];
  }

  -- The writer of a file that has a local copy.
  unfoldable pub copied_writer : FileDesc → M (St E) (Result MemWriter)
  copied_writer fd = do
    let path = join cfg.local_dir (name fd)
    made ← on_files E (fs.mkdir_all (dir_of path))
    elim made [
      | err e ↦ return (err (wrapped "failed to create local dir" e))
      | ok _ ↦
          return (ok (record (new_writer fd) { local_path = path; sync_fn = copy_and_upload path }))
    ]

  unfoldable pub create : FileDesc → M (St E) (Result MemWriter)
  create fd s =
      if s.closed
      then (err storage_closed, s)
      else if s.lock_lost
      then (err lock_lost, s)
      else (do
        on_cache E (lru.add (name fd) (record { fd = fd; body = [] }))
        if should_cache_locally cfg fd then copied_writer fd else return (ok (new_writer fd)))
          s
