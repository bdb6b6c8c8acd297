-- ===== src/Storage/Workers/Retrying.antt =====
-- One tick of the background retry: what it may lose; and a round of an upload once the storage is
-- told to stop or the lock is lost.
use levels.Base.{
  All-map, ◌≡◌, refl, inl, inr, Bool, true, not, ◌||◌, List, [], ◌∷◌, Str, All, arith,
  if◌then◌else◌, Bool-cases, ℕ,
}
use levels.Failure.{ok, Result-cases, plain, lock_lost}
use levels.Files.{DirEntry}
use levels.Pool.{Event, run, pool_of, gave_up}
use levels.Storage.State.{Env, Settings, St}
use levels.Storage.Laws.{EnvLaws}
use levels.Storage.Upload.{has_pending_dir}
use levels.Storage.Pending.{PendingFileEntry, read_pending_file, read_entries, read_pending_files}
use levels.Storage.Pending.Laws.{read_pending_files_lem}
use levels.Storage.Workers.{concurrency, retry_work, upload_round, retry_pending_files_once}
use levels.Storage.Workers.Rules.{retry_work-Rules}
use levels.Storage.Workers.Apart.{IsListing}
use levels.Storage.Workers.Reading.{read_pending_files-Ready}
use levels.Storage.Workers.Laws.{Saved, workers_save}

module _ {E : Env} (cfg : Settings) (L : EnvLaws E) where
  -- With a pending directory whose listing is one of different names, and files there that have
  -- the names of their descriptors, whatever the schedule of the goroutines and whenever a file is
  -- out of time, retryPendingFilesOnce leaves every file that readPendingFiles returns in the
  -- object store or on the disk.
  pub retry_pending_files_once_no_loss :
      (overdue : PendingFileEntry → ℕ → Bool) (schedule : List Event) (s : St E)
      (entries : List DirEntry) (files : List PendingFileEntry)
      → has_pending_dir E cfg ≡ true
      → E.fs.read_dir cfg.pending_dir s.files ≡ ok entries
      → IsListing entries
      → (read_pending_files E cfg s).0 ≡ ok files
      → All (λ f. E.name f.fd ≡ f.name) files
      → All
          (Saved cfg L (λ f. E.name f.fd) (retry_pending_files_once E cfg overdue schedule s).1)
          files
  unfolding retry_pending_files_once
  retry_pending_files_once_no_loss overdue schedule s entries files dir found listing h named =
      let key : PendingFileEntry → Str = λ f. E.name f.fd in
      let s1 = (read_pending_files E cfg s).1 in
      let (ready, distinct) = read_pending_files-Ready cfg L dir s entries files found listing h in
      let p = run (retry_work E cfg overdue) (concurrency E cfg) schedule (pool_of files s1) in
      elim (Bool-cases (s.lock_lost || not s.lock_held)) [
        | inl idle ↦
            let state : (retry_pending_files_once E cfg overdue schedule s).1 ≡ s = ground arith in
            rw state (
              All-map _ _ (λ f pending. inr pending.0) files
                (read_pending_files_lem cfg L s files h).1)
        | inr works ↦
            let state : (retry_pending_files_once E cfg overdue schedule s).1 ≡ p.state =
              ground (arith, h) in
            rw state (
              workers_save cfg L key dir (retry_work-Rules cfg L overdue) schedule files s1 ready
                named distinct)
      ]

module _ {E : Env} (cfg : Settings) where
  -- Reading the pending files leaves the object store and the flags as they are.
  abbrev pub Same : St E → St E → Type 0
  Same s t = (t.client ≡ s.client) × (t.stopped ≡ s.stopped) × (t.lock_lost ≡ s.lock_lost)

  read_entries-Same : (entries : List DirEntry) (s : St E) → Same s (read_entries E cfg entries s).1
  unfolding read_entries read_pending_file
  read_entries-Same [] s = (refl, refl, refl)
  read_entries-Same (entry ∷ entries) s =
      ground (arith, read_entries-Same entries (read_pending_file E cfg entry s).1)

  pub read_pending_files-Same : (s : St E) → Same s (read_pending_files E cfg s).1
  unfolding read_pending_files
  read_pending_files-Same s = elim (Result-cases (E.fs.read_dir cfg.pending_dir s.files)) [
    | inl (entries, read) ↦ ground (arith, read_entries-Same entries s)
    | inr (e, unread) ↦ ground arith
  ]

  pub upload_round-stopped :
      (overdue : PendingFileEntry → ℕ → Bool) (f : PendingFileEntry) (n : ℕ) (s : St E)
      → (s.stopped || s.lock_lost) ≡ true
      → upload_round E cfg overdue f n s
        ≡ (gave_up (if s.stopped then plain "stopped" else lock_lost), s)
  unfolding upload_round
  upload_round-stopped overdue f n s stops = elim (Bool-cases s.stopped) [
    | inl yet ↦ ground arith
    | inr not_yet ↦ ground arith
  ]
