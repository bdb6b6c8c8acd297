-- ===== src/Storage/Pending/Laws.antt =====
-- What `readPendingFiles` returns, and what `RetryPendingUploads` counts and uploads.
use levels.Base.{
  ℕ, ◌+◌, ◌^◌, ◌<◌, ◌≡◌, true, false, some, List, [], ◌∷◌, ◌++◌, Str, Bytes, All, str_dec,
  Bool-cases, Option-cases, inl, inr, is_empty, has_suffix, if◌then◌else◌, arith,
}
use levels.Base.Int.{pos}
use levels.Failure.{ok, Result-cases}
use levels.FileDesc.{FileDesc, type_manifest, parse_file_desc}
use levels.FileDesc.Naming.{parse_file_desc-cksum}
use levels.Files.{DirEntry}
use levels.Storage.State.{Env, Settings, St, own_context}
use levels.Storage.Laws.{EnvLaws, remote, local}
use levels.Storage.Upload.{cksum, has_pending_dir, pending_path}
use levels.Storage.Pending.{
  PendingFileEntry, sort_by_priority, read_pending_file, read_entries, read_pending_files,
  retry_entry, retry_entries, retry_pending_uploads,
}
use levels.Storage.Pending.Order.{IsOrdered, sort-IsOrdered, All-sort}

-- The entries that are no directories.
abbrev pub regular_count : List DirEntry → ℕ
regular_count [] = 0
regular_count (entry ∷ entries) =
    let rest = regular_count entries in if entry.is_dir then rest else rest + 1

module _ (E : Env) (cfg : Settings) where
  retry_entries_counts :
      (entries : List DirEntry) (success fail : ℕ) (s : St E)
      → let counts = (retry_entries E cfg entries success fail s).0 in
        counts.0 + counts.1 ≡ success + fail + regular_count entries
  unfolding retry_entries
  retry_entries_counts [] success fail s = omega arith
  retry_entries_counts (entry ∷ entries) success fail s =
      let s1 = (retry_entry E cfg entry s).1 in
      ground (
        arith,
        retry_entries_counts entries success fail s,
        retry_entries_counts entries (success + 1) fail s1,
        retry_entries_counts entries success (fail + 1) s1,
      )

module _ {E : Env} (cfg : Settings) (L : EnvLaws E) where
  -- An entry that counts as uploaded is in the object store, under the name of its descriptor.
  retry_entry_ok :
      (entry : DirEntry) (fd : FileDesc) (body : Bytes) (s : St E)
      → E.fs.read_file (pending_path E cfg entry.name) s.files ≡ ok body
      → parse_file_desc entry.name ≡ some fd
      → (retry_entry E cfg entry s).0 ≡ true
      → remote L (retry_entry E cfg entry s).1 (E.name fd) ≡ some body
  unfolding retry_entry
  retry_entry_ok entry fd body s read parses done =
      ground (arith, L.api.put_ok (own_context E s) (E.name fd) body s.client)

  -- Where a file and then the checksum file of a manifest are the two entries of the pending
  -- directory and the second is read and uploaded, RetryPendingUploads leaves the text of the
  -- checksum under the name of the manifest in the object store.
  pub retry_overwrites_manifest :
      (n : ℕ) (manifest check : DirEntry) (text : Bytes) (s : St E)
      → let fd : FileDesc = record { file_type = type_manifest; num = pos n } in
        n < 2 ^ 63
        → has_pending_dir E cfg ≡ true
        → is_empty cfg.opt.local_cache_dir ≡ false
        → E.fs.read_dir cfg.pending_dir s.files ≡ ok (manifest ∷ check ∷ [])
        → manifest.is_dir ≡ false
        → check.is_dir ≡ false
        → check.name ≡ E.name fd ++ cksum
        → let s1 = (retry_entry E cfg manifest s).1 in
          E.fs.read_file (pending_path E cfg check.name) s1.files ≡ ok text
          → (retry_entry E cfg check s1).0 ≡ true
          → remote L (retry_pending_uploads E cfg s).1 (E.name fd) ≡ some text
  unfolding retry_pending_uploads retry_entries
  retry_overwrites_manifest n manifest check text s h dir cache found m c named read done =
      let fd : FileDesc = record { file_type = type_manifest; num = pos n } in
      let s1 = (retry_entry E cfg manifest s).1 in
      let parsed : parse_file_desc check.name ≡ some fd =
        rw named (parse_file_desc-cksum L.naming type_manifest n h) in
      ground (arith, retry_entry_ok check fd text s1 read parsed done)

  -- When it reads the pending directory, RetryPendingUploads counts every entry of the pending
  -- directory that is no directory once, as a success or as a failure.
  retry_pending_uploads_counts :
      (s : St E) (entries : List DirEntry) {success fail : ℕ}
      → has_pending_dir E cfg ≡ true
      → is_empty cfg.opt.local_cache_dir ≡ false
      → E.fs.read_dir cfg.pending_dir s.files ≡ ok entries
      → (retry_pending_uploads E cfg s).0 ≡ ok (success, fail)
      → success + fail ≡ regular_count entries
  unfolding retry_pending_uploads
  retry_pending_uploads_counts s entries dir cache found counted =
      ground (arith, retry_entries_counts E cfg entries 0 0 s)

  -- What a removal leaves was there before.
  pub remove_monotone :
      (p j : Str) (d : Bytes) (f : E.fs.State)
      → L.file (E.fs.remove p f).1 j ≡ some d
      → L.file f j ≡ some d
  remove_monotone p j d f h = elim (Result-cases (E.fs.remove p f).0) [
    | inr (e, r) ↦ ground (arith, L.fs.remove_failed p f j)
    | inl (_, r) ↦ elim (str_dec j p) [
      | yes same ↦ ground (arith, L.fs.remove_ok p f)
      | no other ↦ ground (arith, L.fs.remove_other p f j)
    ]
  ]

  read_pending_file_monotone :
      (entry : DirEntry) (j : Str) (d : Bytes) (s : St E)
      → local L (read_pending_file E cfg entry s).1 j ≡ some d
      → local L s j ≡ some d
  unfolding read_pending_file
  read_pending_file_monotone entry j d s h =
      let p = pending_path E cfg entry.name in
      ground (
        arith,
        remove_monotone p j d s.files,
        remove_monotone (p ++ cksum) j d (E.fs.remove p s.files).1,
      )

  -- A file that may be uploaded: what it holds is on the disk under a name that gives its descriptor,
  -- and it is no checksum file.
  abbrev pub IsPending : St E → PendingFileEntry → Type 0
  IsPending s f =
      (local L s f.local_path ≡ some f.body)
      × ((f.local_path ≡ pending_path E cfg f.name)
          × (parse_file_desc f.name ≡ some f.fd)
          × (has_suffix f.name cksum ≡ false))

  pub read_pending_file-IsPending :
      (entry : DirEntry) (s : St E) (f : PendingFileEntry)
      → (read_pending_file E cfg entry s).0 ≡ some f
      → IsPending s f
  unfolding read_pending_file
  read_pending_file-IsPending entry s f h =
      ground (arith, L.fs.read_ok (pending_path E cfg entry.name) s.files f.body)

  earlier-IsPending :
      (entry : DirEntry) (s : St E) (files : List PendingFileEntry)
      → All (IsPending (read_pending_file E cfg entry s).1) files
      → All (IsPending s) files
  earlier-IsPending entry s [] h = tt
  earlier-IsPending entry s (f ∷ files) ((held, facts), rest) = (
    (read_pending_file_monotone entry f.local_path f.body s held, facts),
    earlier-IsPending entry s files rest,
  )

  read_entries-IsPending :
      (entries : List DirEntry) (s : St E) → All (IsPending s) (read_entries E cfg entries s).0
  unfolding read_entries
  read_entries-IsPending [] s = tt
  read_entries-IsPending (entry ∷ entries) s =
      let s1 = (read_pending_file E cfg entry s).1 in
      let rest = earlier-IsPending entry s _ (read_entries-IsPending entries s1) in
      elim (Option-cases (read_pending_file E cfg entry s).0) [
        | inl nothing ↦
            let same : (read_entries E cfg (entry ∷ entries) s).0
                ≡ (read_entries E cfg entries s1).0 =
              ground arith in
            rw same rest
        | inr (f, found) ↦
            let more : (read_entries E cfg (entry ∷ entries) s).0
                ≡ f ∷ (read_entries E cfg entries s1).0 =
              ground arith in
            rw more (read_pending_file-IsPending entry s f found, rest)
      ]

  -- What readPendingFiles returns is in the order of the priorities, and each file of it has the
  -- bytes, the path and the descriptor that the disk had before the call, and is no checksum file.
  pub read_pending_files_lem :
      (s : St E) (files : List PendingFileEntry)
      → (read_pending_files E cfg s).0 ≡ ok files
      → IsOrdered files × All (IsPending s) files
  unfolding read_pending_files
  read_pending_files_lem s files h =
      let nothing : files ≡ [] → IsOrdered files × All (IsPending s) files = λ e. rw e (tt, tt) in
      elim (Bool-cases (has_pending_dir E cfg)) [
        | inr unset ↦ nothing (ground arith)
        | inl dir ↦ elim (Result-cases (E.fs.read_dir cfg.pending_dir s.files)) [
          | inr (e, unread) ↦ nothing (ground arith)
          | inl (entries, read) ↦
              let sorted : files ≡ sort_by_priority (read_entries E cfg entries s).0 =
                ground arith in
              rw sorted (sort-IsOrdered _, All-sort _ _ (read_entries-IsPending entries s))
        ]
      ]
