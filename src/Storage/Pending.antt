-- ===== src/Storage/Pending.antt =====
-- The pending directory, where files wait that the object store did not take: `readPendingFiles`,
-- `checkPendingPressure`, `RetryPendingUploads` and `HasPendingUploads`.
-- `sort.Slice` may order files of one priority in any way; here they keep their order.
pub mod Laws
pub mod Order
pub mod Unfenced
use levels.Base.{
  ℕ, zero, suc, ◌+◌, Bool, true, false, not, ◌||◌, ◌++◌, ◌∷◌, [], List, Option, none, some, Str,
  Bytes, is_empty, str_eq, has_suffix, trim_space, leb, if◌then◌else◌,
}
use levels.Base.Int.{pos, leb_ℤ, ltb_ℤ}
use levels.Base.Checksum.{checksum}
use levels.Failure.{GoError, is_not_exist, wrapped, Result, ok, err}
use levels.Config.{join}
use levels.FileDesc.{FileDesc, parse_file_desc, pending_file_priority}
use levels.Files.{DirEntry}
use levels.Storage.State.{Env, Settings, St, M, return, ◌>>=◌, ◌>>◌, on_files}
use levels.Storage.Upload.{cksum, has_pending_dir, pending_path, put, remove_pending}

-- `pendingFileEntry`
pub record PendingFileEntry : Type 0 where
  pub name : Str
  pub body : Bytes
  pub fd : FileDesc
  pub local_path : Str

abbrev pub priority : PendingFileEntry → ℕ
priority f = pending_file_priority f.fd.file_type

unfoldable pub insert_by_priority : PendingFileEntry → List PendingFileEntry → List PendingFileEntry
insert_by_priority f [] = f ∷ []
insert_by_priority f (g ∷ files) =
    let rest = insert_by_priority f files in
    if leb (priority f) (priority g) then f ∷ g ∷ files else g ∷ rest

unfoldable pub sort_by_priority : List PendingFileEntry → List PendingFileEntry
unfolding insert_by_priority
sort_by_priority [] = []
sort_by_priority (f ∷ files) = insert_by_priority f (sort_by_priority files)

-- Directories and checksum files are passed over.
abbrev pub skipped : DirEntry → Bool
skipped entry = entry.is_dir || has_suffix entry.name cksum

module _ (E : Env) (cfg : Settings) where
  open E use {fs, name}

  -- Whether the checksum file of a pending file is there and says otherwise.
  unfoldable pub is_corrupted : Str → Bytes → St E → Bool
  is_corrupted path body s = elim (fs.read_file (path ++ cksum) s.files) [
    | err _ ↦ false
    | ok expected ↦ not (str_eq (trim_space expected) (checksum body))
  ]

  -- One round of the loop of `readPendingFiles`.
  unfoldable pub read_pending_file : DirEntry → M (St E) (Option PendingFileEntry)
  read_pending_file entry s =
      let path = pending_path E cfg entry.name in
      if skipped entry then (none, s) else elim (fs.read_file path s.files) [
        | err _ ↦ (none, s)
        | ok body ↦ elim (parse_file_desc entry.name) [
          | none ↦ (none, s)
          | some fd ↦
              if is_corrupted path body s
              then (none, (remove_pending E cfg entry.name s).1)
              else (some (record { name = entry.name; body = body; fd = fd; local_path = path }), s)
        ]
      ]

  unfoldable pub read_entries : List DirEntry → M (St E) (List PendingFileEntry)
  read_entries [] s = ([], s)
  read_entries (entry ∷ entries) s =
      let (found, s1) = read_pending_file entry s in
      let (files, s2) = read_entries entries s1 in
      (elim found [ none ↦ files | some f ↦ f ∷ files ], s2)

  unfoldable pub read_pending_files : M (St E) (Result (List PendingFileEntry))
  read_pending_files s =
      if not (has_pending_dir E cfg)
      then (ok [], s)
      else elim (fs.read_dir cfg.pending_dir s.files) [
        | err e ↦ if is_not_exist e then (ok [], s) else (err e, s)
        | ok entries ↦ let (files, s') = read_entries entries s in (ok (sort_by_priority files), s')
      ]

  -- The number and the total size of the pending files.
  unfoldable pub pending_usage : List DirEntry → ℕ × ℕ
  pending_usage [] = (0, 0)
  pending_usage (entry ∷ entries) =
      let (count, total) = pending_usage entries in
      if skipped entry
      then (count, total)
      else (count + 1, elim entry.info [ ok size ↦ total + size | err _ ↦ total ])

  -- The call of `OnPendingWarning`, if it is made, with its arguments.
  unfoldable pub check_pending_pressure : St E → Option (ℕ × ℕ)
  unfolding pending_usage
  check_pending_pressure s =
      if leb_ℤ cfg.opt.max_pending_size (pos 0)
        || not cfg.opt.has_pending_warning
        || not (has_pending_dir E cfg)
      then none
      else elim (fs.read_dir cfg.pending_dir s.files) [
        | err _ ↦ none
        | ok entries ↦
            let usage = pending_usage entries in
            if ltb_ℤ cfg.opt.max_pending_size (pos usage.1) then some usage else none
      ]

  -- One round of the loop of `RetryPendingUploads`: whether the file was uploaded. A file that
  -- cannot be removed afterwards is only logged.
  unfoldable pub retry_entry : DirEntry → M (St E) Bool
  retry_entry entry s =
      let path = pending_path E cfg entry.name in
      elim (fs.read_file path s.files) [
        | err _ ↦ (false, s)
        | ok body ↦ elim (parse_file_desc entry.name) [
          | none ↦ (false, s)
          | some fd ↦
              let (r, s1) = put E cfg (name fd) body s in
              elim r [ err _ ↦ (false, s1) | ok _ ↦ (true, (on_files E (fs.remove path) s1).1) ]
        ]
      ]

  -- The counts of successes and failures.
  unfoldable pub retry_entries : List DirEntry → ℕ → ℕ → M (St E) (ℕ × ℕ)
  retry_entries [] success fail s = ((success, fail), s)
  retry_entries (entry ∷ entries) success fail s =
      let (uploaded, s1) = retry_entry entry s in
      let skip = retry_entries entries success fail s in
      let rest =
        retry_entries entries (if uploaded then success + 1 else success)
          (if uploaded then fail else fail + 1) s1 in
      if entry.is_dir then skip else rest

  unfoldable pub retry_pending_uploads : M (St E) (Result (ℕ × ℕ))
  retry_pending_uploads s =
      if not (has_pending_dir E cfg) || is_empty cfg.opt.local_cache_dir
      then (ok (0, 0), s)
      else elim (fs.read_dir cfg.pending_dir s.files) [
        | err e ↦
            if is_not_exist e
            then (ok (0, 0), s)
            else (err (wrapped "failed to read pending dir" e), s)
        | ok entries ↦ let (counts, s') = retry_entries entries 0 0 s in (ok counts, s')
      ]

  unfoldable pub any_pending : List DirEntry → Bool
  any_pending [] = false
  any_pending (entry ∷ entries) = not (skipped entry) || any_pending entries

  unfoldable pub has_pending_uploads : St E → Bool
  unfolding any_pending
  has_pending_uploads s =
      if not (has_pending_dir E cfg) then false else elim (fs.read_dir cfg.pending_dir s.files) [
        | err _ ↦ false
        | ok entries ↦ any_pending entries
      ]
