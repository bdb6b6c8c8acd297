-- ===== src/Storage/Recovery/Local.antt =====
-- What a success of `syncLocalToS3` means.
use levels.Base.{
  Pairwise, ◌≡◌, ◌≢◌, refl, sym, ap, subst, ◌∙◌, inl, inr, true, false, some, List, [], ◌∷◌, Str,
  Bytes, All, All-map, arith, Bool-cases,
}
use levels.Failure.{ok, nil, Result-cases}
use levels.Files.{DirEntry}
use levels.Storage.State.{Env, Settings, St, own_context}
use levels.Storage.Laws.{EnvLaws, remote}
use levels.Storage.Upload.{put}
use levels.Storage.Workers.Apart.{IsListing}
use levels.Storage.Recovery.{
  unsynced, has_local_dir, local_copy, sync_entry, sync_entries, sync_local_to_s3,
}

module _ {E : Env} (cfg : Settings) (L : EnvLaws E) where
  -- An entry that counts and that can be read has the same bytes in the object store.
  abbrev pub IsSynced : St E → St E → DirEntry → Type 0
  IsSynced s t entry =
      unsynced entry ≡ false
      → (body : Bytes) → E.fs.read_file (local_copy E cfg entry.name) s.files ≡ ok body
      → remote L t entry.name ≡ some body

  sync_entry-files : (entry : DirEntry) (s : St E) → (sync_entry E cfg entry s).1.files ≡ s.files
  unfolding sync_entry
  sync_entry-files entry s = ground arith

  pub sync_entry-other :
      (entry : DirEntry) (s : St E) (j : Str)
      → j ≢ entry.name
      → remote L (sync_entry E cfg entry s).1 j ≡ remote L s j
  unfolding sync_entry
  sync_entry-other entry s j ne = elim (Bool-cases (unsynced entry)) [
    | inl skip ↦ rw (skip, sync_entry) refl
    | inr counts ↦ elim (Result-cases (E.fs.read_file (local_copy E cfg entry.name) s.files)) [
      | inr (e, unread) ↦ rw (counts, unread, sync_entry) refl
      | inl (body, read) ↦
          rw (counts, read, sync_entry)
            (L.api.put_other (own_context E s) entry.name body s.client j ne)
    ]
  ]

  sync_entry-IsSynced :
      (entry : DirEntry) (s : St E)
      → (sync_entry E cfg entry s).0 ≡ nil
      → IsSynced s (sync_entry E cfg entry s).1 entry
  unfolding sync_entry
  sync_entry-IsSynced entry s h counts body read =
      let there : sync_entry E cfg entry s ≡ put E cfg entry.name body s =
        rw (counts, read, sync_entry) refl in
      rw there
        (L.api.put_ok (own_context E s) entry.name body s.client (sym (ap (λ x. x.0) there) ∙ h))

  sync_entries-other :
      (entries : List DirEntry) (s : St E) (j : Str)
      → All (λ e. j ≢ e.name) entries
      → remote L (sync_entries E cfg entries s).1 j ≡ remote L s j
  unfolding sync_entries
  sync_entries-other [] s j ne = refl
  sync_entries-other (entry ∷ entries) s j ne =
      let s1 = (sync_entry E cfg entry s).1 in
      let first = sync_entry-other entry s j ne.0 in
      elim (Result-cases (sync_entry E cfg entry s).0) [
        | inr (e, failed) ↦ rw (failed, sync_entries) first
        | inl (_, done) ↦ rw (done, sync_entries) (sync_entries-other entries s1 j ne.1 ∙ first)
      ]

  sync_entries-IsSynced :
      (entries : List DirEntry) (s : St E)
      → Pairwise (λ d e. d.name ≢ e.name) entries
      → (sync_entries E cfg entries s).0 ≡ nil
      → All (IsSynced s (sync_entries E cfg entries s).1) entries
  unfolding sync_entries
  sync_entries-IsSynced [] s distinct h = tt
  sync_entries-IsSynced (entry ∷ entries) s distinct h =
      let s1 = (sync_entry E cfg entry s).1 in
      elim (Result-cases (sync_entry E cfg entry s).0) [
        | inr (e, failed) ↦ absurd (ground arith)
        | inl (_, done) ↦
            let whole : (sync_entries E cfg entries s1).0 ≡ nil = ground arith in
            let rest = sync_entries-IsSynced entries s1 distinct.1 whole in
            let others : All (λ e. entry.name ≢ e.name) entries =
              All-map _ _ (λ e h. h.0) entries distinct.0 in
            let same : sync_entries E cfg (entry ∷ entries) s ≡ sync_entries E cfg entries s1 =
              rw (done, sync_entries) refl in
            subst (λ x. All (IsSynced s x.1) (entry ∷ entries)) (sym same)
              (
                λ counts body read.
                    sync_entries-other entries s1 entry.name others
                    ∙ sync_entry-IsSynced entry s done counts body read,
                All-map _ _
                    (λ e synced counts body read. synced counts body (
                      ap (E.fs.read_file (local_copy E cfg e.name)) (sync_entry-files entry s)
                      ∙ read))
                    entries rest,
              )
      ]

  -- When syncLocalToS3 succeeds on a local directory whose listing is one of different names,
  -- every file of the directory that it can read, but for LOCK and CURRENT, has the same bytes in
  -- the object store.
  pub sync_local_to_s3_ok :
      (s : St E) (entries : List DirEntry)
      → has_local_dir E cfg ≡ true
      → E.fs.read_dir cfg.local_dir s.files ≡ ok entries
      → IsListing entries
      → (sync_local_to_s3 E cfg s).0 ≡ nil
      → All (IsSynced s (sync_local_to_s3 E cfg s).1) entries
  unfolding sync_local_to_s3
  sync_local_to_s3_ok s entries dir found listing h =
      let same : sync_local_to_s3 E cfg s ≡ sync_entries E cfg entries s =
        rw (dir, found, sync_local_to_s3) refl in
      rw same (sync_entries-IsSynced entries s listing.distinct (sym (ap (λ x. x.0) same) ∙ h))
