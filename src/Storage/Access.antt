-- ===== src/Storage/Access.antt =====
-- The other methods of goleveldb's `storage.Storage` but for `Lock` and `Rename`, and `Close`.
pub mod Laws
pub mod Listing
use levels.Base.{
  ℕ, Bool, true, false, not, ◌&&◌, ◌||◌, ◌++◌, ◌∷◌, [], List, map, Option, none, some, Str, Bytes,
  codes, is_empty, length, str_eq, has_suffix, trim_space, if◌then◌else◌,
}
use levels.Base.Int.{pos, leb_ℤ}
use levels.Failure.{
  GoError, lock_lost, storage_closed, not_exist, plain, wrapped, is_not_exist, is_not_found_error,
  Result, ok, err, Outcome, nil,
}
use levels.Config.{join}
use levels.FileDesc.{FileType, FileDesc, parse_file_desc}
use levels.Files.{DirEntry}
use levels.Storage.State.{
  MemFile, Env, Settings, St, M, return, gets, ◌>>=◌, ◌>>◌, when, on_client, on_files, on_cache,
  own_context,
}
use levels.Storage.Upload.{
  cksum, has_pending_dir, pending_path, put, remove_object, remove_pending, clean_shadow,
}
use levels.Storage.Writer.{MemReader, should_cache_locally}

abbrev pub current : Str
current = codes "CURRENT"

module _ (E : Env) (cfg : Settings) where
  open E use {api, fs, lru, name}

  abbrev pub get : Str → M (St E) (Result Bytes)
  get key s = on_client E (api.get_bytes (own_context E s) key) s

  abbrev pub exists : Str → M (St E) (Result Bool)
  exists key s = on_client E (api.exists (own_context E s) key) s

  unfoldable pub set_meta : FileDesc → M (St E) Outcome
  set_meta fd s =
      if s.closed
      then (err storage_closed, s)
      else if s.lock_lost
      then (err lock_lost, s)
      else (do
        r ← put E cfg current (name fd ++ codes "\n")
        elim r [ err e ↦ return (err (wrapped "failed to set meta" e)) | ok _ ↦ return nil ])
          s

  -- The end of `GetMeta`: the file that CURRENT names must exist.
  unfoldable pub check_meta : FileDesc → M (St E) (Result FileDesc)
  check_meta fd = do
    found ← exists (name fd)
    elim found [
      | err e ↦ return (err (wrapped "failed to check meta file existence" e))
      | ok true ↦ return (ok fd)
      | ok false ↦ return (err not_exist)
    ]

  unfoldable pub read_meta : M (St E) (Result FileDesc)
  read_meta = do
    content ← get current
    elim content [
      | err e ↦ return (err (wrapped "failed to get meta" e))
      | ok text ↦ elim (parse_file_desc (trim_space text)) [
        | none ↦ return (err (plain "invalid CURRENT file content"))
        | some fd ↦ check_meta fd
      ]
    ]

  unfoldable pub get_meta : M (St E) (Result FileDesc)
  get_meta s =
      if s.closed
      then (err storage_closed, s)
      else (do
        found ← exists current
        elim found [
          | err e ↦ return (err (wrapped "failed to check CURRENT existence" e))
          | ok false ↦ return (err not_exist)
          | ok true ↦ read_meta
        ])
          s

  -- The descriptors in the pending directory, without the checksum files.
  unfoldable pub pending_descs : List DirEntry → List FileDesc
  pending_descs [] = []
  pending_descs (entry ∷ entries) =
      let rest = pending_descs entries in
      if not entry.is_dir && not (has_suffix entry.name cksum)
      then elim (parse_file_desc entry.name) [ none ↦ rest | some fd ↦ fd ∷ rest ]
      else rest

  abbrev pub seen : Str → List FileDesc → Bool
  seen key [] = false
  seen key (fd ∷ fds) = str_eq (name fd) key || seen key fds

  -- `ft` says of a type whether `fd.Type & ft != 0`.
  unfoldable pub of_type : (FileType → Bool) → List FileDesc → List FileDesc
  of_type ft [] = []
  of_type ft (fd ∷ fds) = let rest = of_type ft fds in if ft fd.file_type then fd ∷ rest else rest

  unfoldable pub unseen_of_type : (FileType → Bool) → List FileDesc → List FileDesc → List FileDesc
  unseen_of_type ft pending [] = []
  unseen_of_type ft pending (fd ∷ fds) =
      let rest = unseen_of_type ft pending fds in
      if not (seen (name fd) pending) && ft fd.file_type then fd ∷ rest else rest

  unfoldable pub pending_files : M (St E) (List FileDesc)
  unfolding pending_descs
  pending_files s = (
    if has_pending_dir E cfg
        then elim (fs.read_dir cfg.pending_dir s.files) [
          | ok entries ↦ pending_descs entries
          | err _ ↦ []
        ]
        else [],
    s,
  )

  abbrev pub list_objects : M (St E) (Result (List FileDesc))
  list_objects s = on_client E (api.list (own_context E s)) s

  -- The pending files, and the files of the object store that are not among them.
  unfoldable pub add_pending : (FileType → Bool) → List FileDesc → M (St E) (Result (List FileDesc))
  unfolding of_type unseen_of_type
  add_pending ft files = do
    pending ← pending_files
    return (ok (of_type ft pending ++ unseen_of_type ft pending files))

  unfoldable pub list : (FileType → Bool) → M (St E) (Result (List FileDesc))
  list ft s =
      if s.closed
      then (err storage_closed, s)
      else (do
        all ← list_objects
        elim all [
          | err e ↦ return (err (wrapped "failed to list files" e))
          | ok files ↦ add_pending ft files
        ])
          s

  abbrev pub reader : Bytes → MemReader
  reader body = record { body = body; closed = false }

  -- `errors.Is(err, os.ErrNotExist) || isNotFoundError(err)`
  abbrev pub open_error : GoError → Result MemReader
  open_error e =
      if is_not_exist e || is_not_found_error e
      then err not_exist
      else err (wrapped "failed to open file" e)

  -- The file is not in the object store.
  unfoldable pub open_pending : FileDesc → GoError → M (St E) (Result MemReader)
  open_pending fd e s = (
    if has_pending_dir E cfg
        then elim (fs.read_file (pending_path E cfg (name fd)) s.files) [
          | ok body ↦ ok (reader body)
          | err _ ↦ open_error e
        ]
        else open_error e,
    s,
  )

  unfoldable pub open_object : FileDesc → M (St E) (Result MemReader)
  unfolding open_pending
  open_object fd = do
    fetched ← get (name fd)
    elim fetched [
      | err e ↦ open_pending fd e
      | ok body ↦ do
        when (leb_ℤ (pos (length body)) cfg.opt.max_file_size)
            (on_cache E (lru.add (name fd) (record { fd = fd; body = body })))
        return (ok (reader body))
    ]

  unfoldable pub open_file : FileDesc → M (St E) (Result MemReader)
  unfolding open_object
  open_file fd s =
      if s.closed
      then (err storage_closed, s)
      else let (hit, l) = lru.get (name fd) s.cache in
        let s1 = record s { cache = l } in
        elim hit [ some file ↦ (ok (reader file.body), s1) | none ↦ open_object fd s1 ]

  unfoldable pub remove : FileDesc → M (St E) Outcome
  remove fd s =
      if s.closed
      then (err storage_closed, s)
      else if s.lock_lost
      then (err lock_lost, s)
      else (do
        on_cache E (lru.remove (name fd))
        when (should_cache_locally cfg fd) (on_files E (fs.remove (join cfg.local_dir (name fd))))
        when (has_pending_dir E cfg) (remove_pending E cfg (name fd))
        clean_shadow E cfg (name fd)
        r ← remove_object E cfg (name fd)
        elim r [ err e ↦ return (err (wrapped "failed to remove file" e)) | ok _ ↦ return nil ])
          s

  -- The background goroutine is stopped and waited for; what it does then is not part of this step.
  unfoldable pub close_storage : M (St E) Outcome
  close_storage s = if s.closed then (nil, s) else (
    nil,
    record s { closed = true; cache = lru.purge s.cache; canceled = true; stopped = true },
  )
