-- ===== src/Storage/Owned.antt =====
-- `syncPendingToS3` and `syncLocalToS3` leave the object LOCK alone.
use levels.Base.{
  ◌≡◌, ◌≢◌, refl, sym, ap, ◌∙◌, inl, inr, none, List, [], ◌∷◌, Str, false, Bytes, All, All-map,
  arith, str_dec,
}
use levels.Failure.{Result-cases}
use levels.FileDesc.{parse_file_desc, scan_number_dot_word, scan_manifest, by_extension}
use levels.FileDesc.Scan.{scan_int, scan_word}
use levels.Files.{DirEntry, contains_slash}
use levels.Lock.{lock_key}
use levels.Pool.{Event}
use levels.Pool.Invariant.{run-Invariant}
use levels.Storage.State.{Env, Settings, St, own_context}
use levels.Storage.Laws.{EnvLaws, remote, contains_slash-append}
use levels.Storage.Upload.{shadow_key, put, remove_object}
use levels.Storage.Upload.Laws.{clean_shadow-remote}
use levels.Storage.Pending.{PendingFileEntry, read_pending_file, read_entries, read_pending_files}
use levels.Storage.Pending.Laws.{read_pending_files_lem, IsPending}
use levels.Storage.Workers.{
  cache_recovered, upload_pending, sync_work, concurrency, upload_all_pending, sync_pending_to_s3,
  restore_shadow, restore_shadows, sync_from_shadow,
}
use levels.Storage.Recovery.Local.{sync_entry-other}
use levels.Storage.Recovery.{sync_entry, sync_entries, sync_local_to_s3}

parse_file_desc-lock_key : parse_file_desc lock_key ≡ none
unfolding parse_file_desc scan_number_dot_word scan_manifest by_extension scan_int scan_word
parse_file_desc-lock_key = refl

module _ {E : Env} (L : EnvLaws E) where
  -- The object LOCK is as it was.
  abbrev pub Owned : St E → St E → Type 0
  Owned s t = remote L t lock_key ≡ remote L s lock_key

module _ {E : Env} (cfg : Settings) (L : EnvLaws E) where
  pub put-Owned :
      (key : Str) (body : Bytes) (s : St E) → lock_key ≢ key → Owned L s (put E cfg key body s).1
  put-Owned key body s ne = L.api.put_other (own_context E s) key body s.client lock_key ne

  pub remove_object-Owned :
      (key : Str) (s : St E) → lock_key ≢ key → Owned L s (remove_object E cfg key s).1
  remove_object-Owned key s ne = L.api.remove_other (own_context E s) key s.client lock_key ne

  -- A key without a slash is that of no shadow.
  pub plain-ne_shadow_key :
      (j : Str) → contains_slash j ≡ false → (n : Str) → j ≢ shadow_key E cfg n
  plain-ne_shadow_key j plain n e =
      let slash = ap contains_slash e ∙ contains_slash-append cfg.shadow_prefix n in
      absurd (ground (arith, plain, slash))

  pub shadow_key-ne : (n : Str) → lock_key ≢ shadow_key E cfg n
  unfolding contains_slash
  shadow_key-ne = plain-ne_shadow_key lock_key (ground arith)

  restore_shadow-Owned : (key : Str) (s : St E) → Owned L s (restore_shadow E cfg key s)
  unfolding restore_shadow
  restore_shadow-Owned key s =
      ground (arith, L.api.get_keeps (own_context E s) key s.client lock_key)

  restore_shadows-Owned : (keys : List Str) (s : St E) → Owned L s (restore_shadows E cfg keys s)
  unfolding restore_shadows
  restore_shadows-Owned [] s = refl
  restore_shadows-Owned (key ∷ keys) s =
      restore_shadows-Owned keys (restore_shadow E cfg key s) ∙ restore_shadow-Owned key s

  sync_from_shadow-Owned : (s : St E) → Owned L s (sync_from_shadow E cfg s).1
  unfolding sync_from_shadow
  sync_from_shadow-Owned s =
      let prefix = shadow_key E cfg [] in
      let (found, c) = E.api.list_names (own_context E s) prefix s.client in
      let s1 : St E = record s { client = c } in
      let listed = L.api.list_names_keeps (own_context E s) prefix s.client lock_key in
      elim (Result-cases found) [
        | inr (e, failed) ↦ ground arith
        | inl (keys, done) ↦ ground (arith, restore_shadows-Owned keys s1)
      ]

  sync_entry-Owned : (entry : DirEntry) (s : St E) → Owned L s (sync_entry E cfg entry s).1
  unfolding sync_entry
  sync_entry-Owned entry s = elim (str_dec entry.name lock_key) [
    | yes same ↦ ground (arith, same)
    | no other ↦ sync_entry-other cfg L entry s lock_key (λ e. other (sym e))
  ]

  sync_entries-Owned :
      (entries : List DirEntry) (s : St E) → Owned L s (sync_entries E cfg entries s).1
  unfolding sync_entries
  sync_entries-Owned [] s = refl
  sync_entries-Owned (entry ∷ entries) s =
      let s1 = (sync_entry E cfg entry s).1 in
      ground (arith, sync_entry-Owned entry s, sync_entries-Owned entries s1)

  pub sync_local_to_s3-Owned : (s : St E) → Owned L s (sync_local_to_s3 E cfg s).1
  unfolding sync_local_to_s3
  sync_local_to_s3-Owned s = elim (Result-cases (E.fs.read_dir cfg.local_dir s.files)) [
    | inr (e, unread) ↦ ground arith
    | inl (entries, read) ↦ ground (arith, sync_entries-Owned entries s)
  ]

  read_pending_file-client :
      (entry : DirEntry) (s : St E) → (read_pending_file E cfg entry s).1.client ≡ s.client
  unfolding read_pending_file
  read_pending_file-client entry s = ground arith

  read_entries-client :
      (entries : List DirEntry) (s : St E) → (read_entries E cfg entries s).1.client ≡ s.client
  unfolding read_entries
  read_entries-client [] s = refl
  read_entries-client (entry ∷ entries) s =
      read_entries-client entries (read_pending_file E cfg entry s).1
      ∙ read_pending_file-client entry s

  read_pending_files-client : (s : St E) → (read_pending_files E cfg s).1.client ≡ s.client
  unfolding read_pending_files
  read_pending_files-client s = elim (Result-cases (E.fs.read_dir cfg.pending_dir s.files)) [
    | inr (e, unread) ↦ ground arith
    | inl (entries, read) ↦ ground (arith, read_entries-client entries s)
  ]

  -- A pending file is not called LOCK, which is no name of a file of LevelDB.
  abbrev Fits : PendingFileEntry → Type 0
  Fits f = f.name ≢ lock_key

  upload_all_pending-Owned :
      (schedule : List Event) (s : St E) → Owned L s (upload_all_pending E cfg schedule s).1
  unfolding upload_all_pending upload_pending cache_recovered
  upload_all_pending-Owned schedule s =
      let s1 = (read_pending_files E cfg s).1 in
      let same = read_pending_files-client s in
      elim (Result-cases (read_pending_files E cfg s).0) [
        | inr (e, unread) ↦ ground (arith, same)
        | inl (files, read) ↦
            let fit : All Fits files =
              All-map (IsPending cfg L s) Fits (λ f h e. cc (h.1.1, parse_file_desc-lock_key, e))
                files (read_pending_files_lem cfg L s files read).1 in
            let kept =
              run-Invariant (sync_work E cfg) (Owned L s) Fits
                (λ f n t fit i. put-Owned f.name f.body t (λ e. fit (sym e)) ∙ i)
                (λ f fit. (
                  λ t i. i,
                  (
                    λ t i. i,
                    (
                      λ t i. clean_shadow-remote cfg L f.name lock_key t (shadow_key-ne f.name) ∙ i,
                      (λ t i. ground (arith, i), tt),
                    ),
                  ),
                ))
                (concurrency E cfg) schedule files s1 fit (ap (λ c. L.object c lock_key) same) in
            ground (arith, kept)
      ]

  pub sync_pending_to_s3-Owned :
      (schedule : List Event) (s : St E) → Owned L s (sync_pending_to_s3 E cfg schedule s).1
  unfolding sync_pending_to_s3
  sync_pending_to_s3-Owned schedule s = ground (
    arith,
    sync_from_shadow-Owned s,
    upload_all_pending-Owned schedule (sync_from_shadow E cfg s).1,
  )
