-- ===== src/Storage/Workers/Laws.antt =====
-- No schedule of the workers loses a pending file, and a clean end of `syncPendingToS3` has
-- brought all of them into the object store.
use levels.Base.{
  Pairwise, All-map, ◌≡◌, ◌≢◌, refl, ◌⊎◌, inl, inr, true, false, some, List, [], ◌∷◌, Str, All,
  arith,
}
use levels.Failure.{ok, err, nil, Outcome}
use levels.Files.{DirEntry}
use levels.Pool.{Event, Work, pool_of, run, all_ended}
use levels.Pool.Keeps.{Rules}
use levels.Pool.Outcomes.{run-kept, run-Sent, has_error}
use levels.Storage.State.{Env, Settings, St}
use levels.Storage.Laws.{EnvLaws, remote, local}
use levels.Storage.Upload.{has_pending_dir}
use levels.Storage.Pending.{PendingFileEntry, read_pending_files}
use levels.Storage.Workers.{
  concurrency, sync_work, upload_all_pending, sync_pending_to_s3, sync_from_shadow, first_error,
}
use levels.Storage.Workers.Rules.{Held, Sent, Apart, sync_work-Rules}
use levels.Storage.Workers.Apart.{IsListing, Stands-Apart}
use levels.Storage.Workers.Reading.{Ready, Distinct, read_pending_files-Ready}

first_error-has_error :
    (results : List Outcome) → first_error results ≡ nil → has_error results ≡ false
unfolding first_error
first_error-has_error [] h = refl
first_error-has_error (ok _ ∷ results) h = first_error-has_error results h
first_error-has_error (err e ∷ results) h = absurd (ground arith)

All-refl : (files : List PendingFileEntry) → All (λ f. f.name ≡ f.name) files
All-refl [] = tt
All-refl (f ∷ files) = (refl, All-refl files)

module _ {E : Env} (cfg : Settings) (L : EnvLaws E) where
  -- The bytes are in the object store under a key, or still on the disk.
  abbrev pub Saved : (PendingFileEntry → Str) → St E → PendingFileEntry → Type 0
  Saved key s f = (remote L s (key f) ≡ some f.body) ⊎ (local L s f.local_path ≡ some f.body)

  module _ (key : PendingFileEntry → Str) (dir : has_pending_dir E cfg ≡ true) where
    abbrev Named : PendingFileEntry → Type 0
    Named f = key f ≡ f.name

    Ready-Apart_each :
        (s : St E) (f : PendingFileEntry) (files : List PendingFileEntry)
        → Ready cfg L dir s f
        → Named f
        → All (Ready cfg L dir s) files
        → All Named files
        → All (λ g. (f.name ≢ g.name) × (g.name ≢ f.name)) files
        → All (λ g. Apart cfg L key f g × Apart cfg L key g f) files
    Ready-Apart_each s f [] r k rs ks h = tt
    Ready-Apart_each s f (g ∷ files) r k rs ks h = (
      (
        Stands-Apart cfg L key f g r.0 rs.0.0 k ks.0 h.0.0,
        Stands-Apart cfg L key g f rs.0.0 r.0 ks.0 k h.0.1,
      ),
      Ready-Apart_each s f files r k rs.1 ks.1 h.1,
    )

    Ready-Apart :
        (s : St E) (files : List PendingFileEntry)
        → All (Ready cfg L dir s) files
        → All Named files
        → Distinct cfg L dir files
        → Pairwise (Apart cfg L key) files
    Ready-Apart s [] rs ks h = tt
    Ready-Apart s (f ∷ files) rs ks h =
        (Ready-Apart_each s f files rs.0 ks.0 rs.1 ks.1 h.0, Ready-Apart s files rs.1 ks.1 h.1)

    Ready-Held :
        (s : St E) (files : List PendingFileEntry)
        → All (Ready cfg L dir s) files
        → All Named files
        → All (λ f. Held cfg L key f s) files
    Ready-Held s [] rs ks = tt
    Ready-Held s (f ∷ files) rs ks = ((ks.0, rs.0.1), Ready-Held s files rs.1 ks.1)

    -- The workers on files that were just read.
    module _ {W : Work (St E) PendingFileEntry}
        (R : Rules W (Held cfg L key) (Sent cfg L key) (Apart cfg L key)) (schedule : List Event)
        (files : List PendingFileEntry) (s : St E) (ready : All (Ready cfg L dir s) files)
        (named : All Named files) (distinct : Distinct cfg L dir files) where
      pub workers_save :
          All (Saved key (run W (concurrency E cfg) schedule (pool_of files s)).state) files
      workers_save =
          All-map _ _ (λ f. elim [ inl held ↦ inr held.1 | inr sent ↦ inl sent.1 ]) files
            (run-kept R (concurrency E cfg) schedule files s
              (Ready-Apart s files ready named distinct) (Ready-Held s files ready named))

      workers_send :
          let p = run W (concurrency E cfg) schedule (pool_of files s) in
          all_ended p.slots ≡ true
          → first_error p.results ≡ nil
          → All (λ f. remote L p.state (key f) ≡ some f.body) files
      workers_send e clean =
          All-map _ _ (λ f sent. sent.1) files
            (run-Sent R (concurrency E cfg) schedule files s
              (Ready-Apart s files ready named distinct) (Ready-Held s files ready named) e
              (first_error-has_error _ clean))

  -- With a pending directory whose listing is one of different names, whatever the schedule of the
  -- goroutines of syncPendingToS3, every file that it reads is in the object store or still on the
  -- disk; when it returns nil, all of them are in the object store.
  pub sync_pending_to_s3_no_loss :
      (schedule : List Event) (s : St E) (entries : List DirEntry) (files : List PendingFileEntry)
      → has_pending_dir E cfg ≡ true
      → let s0 = (sync_from_shadow E cfg s).1 in
        E.fs.read_dir cfg.pending_dir s0.files ≡ ok entries
        → IsListing entries
        → (read_pending_files E cfg s0).0 ≡ ok files
        → let (r, t) = sync_pending_to_s3 E cfg schedule s in
          All (Saved (λ f. f.name) t) files
          × (r ≡ some nil → All (λ f. remote L t f.name ≡ some f.body) files)
  unfolding sync_pending_to_s3 upload_all_pending
  sync_pending_to_s3_no_loss schedule s entries files dir found listing h =
      let s0 = (sync_from_shadow E cfg s).1 in
      let s1 = (read_pending_files E cfg s0).1 in
      let (ready, distinct) = read_pending_files-Ready cfg L dir s0 entries files found listing h in
      let named : All (λ f. f.name ≡ f.name) files = All-refl files in
      let p = run (sync_work E cfg) (concurrency E cfg) schedule (pool_of files s1) in
      let state : (sync_pending_to_s3 E cfg schedule s).1 ≡ p.state = ground (arith, h) in
      let save =
        workers_save (λ f. f.name) dir (sync_work-Rules cfg L) schedule files s1 ready named
          distinct in
      let send =
        workers_send (λ f. f.name) dir (sync_work-Rules cfg L) schedule files s1 ready named
          distinct in
      rw state (save, λ done. send (ground (arith, h)) (ground (arith, h)))
