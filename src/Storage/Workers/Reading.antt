-- ===== src/Storage/Workers/Reading.antt =====
-- What `readPendingFiles` returns from a directory of different names: the files are still on the
-- disk behind the call, each under a name of its own.
use levels.Base.{
  All-map, Pairwise, ◌≡◌, ◌≢◌, ap, ◌∙◌, true, false, some, List, [], ◌∷◌, ◌++◌, Str, All, inl, inr,
  arith, Option-cases, is_empty,
}
use levels.Files.{DirEntry, contains_slash}
use levels.Failure.{ok}
use levels.Storage.State.{Env, Settings, St}
use levels.Storage.Laws.{EnvLaws, local}
use levels.Storage.Upload.{cksum, pending_path, has_pending_dir}
use levels.Storage.Pending.{
  PendingFileEntry, read_pending_file, read_entries, read_pending_files, sort_by_priority,
}
use levels.Storage.Pending.Order.{All-sort, Pairwise-sort}
use levels.Storage.Pending.Laws.{read_pending_file-IsPending}
use levels.Storage.Workers.Apart.{IsListing, Stands, nonempty_path, not_path, not_checksum}

module _ {E : Env} (cfg : Settings) (L : EnvLaws E) (dir : has_pending_dir E cfg ≡ true) where
  abbrev Plain : DirEntry → Type 0
  Plain e = (contains_slash e.name ≡ false) × (is_empty e.name ≡ false)

  -- A file that is ready for an upload.
  abbrev pub Ready : St E → PendingFileEntry → Type 0
  Ready s f = Stands cfg L f × (local L s f.local_path ≡ some f.body)

  read_pending_file-Ready :
      (entry : DirEntry) (s : St E) (f : PendingFileEntry)
      → Plain entry
      → (read_pending_file E cfg entry s).0 ≡ some f
      → Ready (read_pending_file E cfg entry s).1 f × (f.name ≡ entry.name)
  unfolding read_pending_file
  read_pending_file-Ready entry s f plain h =
      let (held, (path, parses, other)) = read_pending_file-IsPending cfg L entry s f h in
      let named : f.name ≡ entry.name = ground arith in
      let there : pending_path E cfg f.name ≡ cfg.pending_dir ++ (b'/' ∷ f.name) =
        nonempty_path cfg L f.name dir (ap is_empty named ∙ plain.1) in
      let state : (read_pending_file E cfg entry s).1 ≡ s = ground arith in
      (((path ∙ there, (other, ap contains_slash named ∙ plain.0)), rw state held), named)

  -- A file with another name than the entry is left alone.
  read_pending_file-keeps :
      (entry : DirEntry) (s : St E) (f : PendingFileEntry)
      → Plain entry
      → f.name ≢ entry.name
      → Ready s f
      → Ready (read_pending_file E cfg entry s).1 f
  unfolding read_pending_file
  read_pending_file-keeps entry s f plain ne h =
      let there = nonempty_path cfg L entry.name dir plain.1 in
      let p = pending_path E cfg entry.name in
      let apart : f.local_path ≢ p = λ e. not_path cfg L f entry.name h.0 ne (e ∙ there) in
      let apart' : f.local_path ≢ p ++ cksum =
        λ e. not_checksum cfg L f entry.name h.0 (e ∙ ap (λ q. q ++ cksum) there) in
      let first = L.fs.remove_other p s.files f.local_path apart in
      let second = L.fs.remove_other (p ++ cksum) (E.fs.remove p s.files).1 f.local_path apart' in
      ground (arith, first, second, h)

  read_entries-keeps :
      (entries : List DirEntry) (s : St E) (f : PendingFileEntry)
      → All Plain entries
      → All (λ e. f.name ≢ e.name) entries
      → Ready s f
      → Ready (read_entries E cfg entries s).1 f
  unfolding read_entries
  read_entries-keeps [] s f plain ne h = h
  read_entries-keeps (entry ∷ entries) s f plain ne h =
      read_entries-keeps entries (read_pending_file E cfg entry s).1 f plain.1 ne.1
        (read_pending_file-keeps entry s f plain.0 ne.0 h)

  -- The names of the files are among those of the entries.
  read_entries-names :
      (P : Str → Type 0) (entries : List DirEntry) (s : St E)
      → All Plain entries
      → All (λ e. P e.name) entries
      → All (λ f. P f.name) (read_entries E cfg entries s).0
  unfolding read_entries
  read_entries-names P [] s plain h = tt
  read_entries-names P (entry ∷ entries) s plain h =
      let s1 = (read_pending_file E cfg entry s).1 in
      let rest = read_entries-names P entries s1 plain.1 h.1 in
      elim (Option-cases (read_pending_file E cfg entry s).0) [
        | inl nothing ↦ rw (nothing, read_entries) rest
        | inr (f, found) ↦
            rw (found, read_entries)
              (rw (read_pending_file-Ready entry s f plain.0 found).1 h.0, rest)
      ]

  abbrev pub Distinct : List PendingFileEntry → Type 0
  Distinct = Pairwise (λ f g. f.name ≢ g.name)

  read_entries-Ready :
      (entries : List DirEntry) (s : St E)
      → All Plain entries
      → Pairwise (λ d e. d.name ≢ e.name) entries
      → All (Ready (read_entries E cfg entries s).1) (read_entries E cfg entries s).0
        × Distinct (read_entries E cfg entries s).0
  unfolding read_entries
  read_entries-Ready [] s plain distinct = (tt, tt)
  read_entries-Ready (entry ∷ entries) s plain distinct =
      let s1 = (read_pending_file E cfg entry s).1 in
      let rest = read_entries-Ready entries s1 plain.1 distinct.1 in
      elim (Option-cases (read_pending_file E cfg entry s).0) [
        | inl nothing ↦ rw (nothing, read_entries) rest
        | inr (f, found) ↦
            let (ready, named) = read_pending_file-Ready entry s f plain.0 found in
            let others : All (λ e. (f.name ≢ e.name) × (e.name ≢ f.name)) entries =
              rw named distinct.0 in
            let names =
              read_entries-names (λ n. (f.name ≢ n) × (n ≢ f.name)) entries s1 plain.1 others in
            let apart : All (λ e. f.name ≢ e.name) entries =
              All-map _ _ (λ e h. h.0) entries others in
            rw (found, read_entries)
              ((read_entries-keeps entries s1 f plain.1 apart ready, rest.0), (names, rest.1))
      ]

  -- Behind the call.
  pub read_pending_files-Ready :
      (s : St E) (entries : List DirEntry) (files : List PendingFileEntry)
      → E.fs.read_dir cfg.pending_dir s.files ≡ ok entries
      → IsListing entries
      → (read_pending_files E cfg s).0 ≡ ok files
      → All (Ready (read_pending_files E cfg s).1) files × Distinct files
  unfolding read_pending_files
  read_pending_files-Ready s entries files found listing h =
      let sorted : files ≡ sort_by_priority (read_entries E cfg entries s).0 =
        ground (arith, dir) in
      let state : (read_pending_files E cfg s).1 ≡ (read_entries E cfg entries s).1 =
        ground (arith, dir) in
      let (ready, distinct) = read_entries-Ready entries s listing.plain listing.distinct in
      rw (sorted, state) (All-sort _ _ ready, Pairwise-sort _ _ distinct)
