-- ===== src/Storage/Workers.antt =====
-- The goroutines that bring pending files into the object store: `retryPendingFilesOnce` with
-- `uploadWithInfiniteRetry`, which the background retry runs, and `syncPendingToS3`, which Lock runs,
-- with `syncFromShadow` before it. The schedule of the goroutines and the rounds at which a file is
-- out of time are arguments. A stop or a lost lock during a pause is seen by the next round.
pub mod Delay
pub mod Rules
pub mod Apart
pub mod Reading
pub mod Laws
pub mod Retrying
pub mod Shadow
pub mod Loop
pub mod Quiet
pub mod Ends
use levels.Base.{
  ℕ, ◌+◌, ◌*◌, Bool, true, false, not, ◌&&◌, ◌||◌, ◌++◌, ◌∷◌, [], List, Option, none, some, Str,
  Bytes, is_empty, length, trim_prefix, if◌then◌else◌,
}
use levels.Base.Int.{ℤ, pos, pos_part, ltb_ℤ, leb_ℤ, mul_int64, shl_one_int64}
use levels.Base.Checksum.{checksum}
use levels.Failure.{GoError, lock_lost, plain, wrapped, Result, ok, err, Outcome, nil}
use levels.Config.{positive_or, default_pending_max_concurrency, second}
use levels.Files.{atomic_write_file}
use levels.Pool.{Verdict, uploaded, again, gave_up, Work, Pool, Event, run, pool_of, all_ended}
use levels.Storage.State.{
  MemFile, Env, Settings, St, M, return, ◌>>=◌, ◌>>◌, on_client, on_files, on_cache, own_context,
}
use levels.Storage.Upload.{
  cksum, has_pending_dir, has_shadow, pending_path, shadow_key, put, clean_shadow,
}
use levels.Storage.Pending.{PendingFileEntry, read_pending_files, check_pending_pressure}

-- The error that `syncPendingToS3` returns: the first that was sent.
unfoldable pub first_error : List Outcome → Outcome
first_error [] = nil
first_error (ok _ ∷ results) = first_error results
first_error (err e ∷ results) = err e

module _ (E : Env) (cfg : Settings) where
  open E use {api, fs, lru, name}

  abbrev pub concurrency : ℕ
  concurrency =
      pos_part (positive_or cfg.opt.pending_max_concurrency default_pending_max_concurrency)

  -- What follows a successful upload, errors being logged or left out.
  abbrev pub remove_local : PendingFileEntry → St E → St E
  remove_local f s = (on_files E (fs.remove f.local_path) s).1

  abbrev pub remove_checksum : PendingFileEntry → St E → St E
  remove_checksum f s = (on_files E (fs.remove (f.local_path ++ cksum)) s).1

  abbrev pub remove_shadow : PendingFileEntry → St E → St E
  remove_shadow f s = (clean_shadow E cfg f.name s).1

  unfoldable pub cache_recovered : PendingFileEntry → St E → St E
  cache_recovered f s =
      if ltb_ℤ cfg.opt.max_file_size (pos (length f.body))
      then s
      else record s { cache = lru.add (name f.fd) (record { fd = f.fd; body = f.body }) s.cache }

  -- The pause behind the attempt of this number, with the wrap-around of `int64`.
  unfoldable pub upload_delay : ℕ → ℤ
  upload_delay attempt =
      let longest = pos (30 * second) in
      let delay = mul_int64 cfg.opt.retry_base_delay (shl_one_int64 attempt) in
      if (ltb_ℤ (pos 0) cfg.opt.retry_max_attempts
          && leb_ℤ cfg.opt.retry_max_attempts (pos attempt))
        || ltb_ℤ longest delay
      then longest
      else delay

  -- One round of the loop of `uploadWithInfiniteRetry`, behind `n` others.
  unfoldable pub upload_round :
      (PendingFileEntry → ℕ → Bool) → PendingFileEntry → ℕ → St E → Verdict × St E
  upload_round overdue f n s =
      if s.stopped
      then (gave_up (plain "stopped"), s)
      else if s.lock_lost
      then (gave_up lock_lost, s)
      else if ltb_ℤ (pos 0) cfg.opt.retry_max_duration && overdue f n
      then (gave_up (plain "retry duration exceeded"), s)
      else let (r, t) = put E cfg (name f.fd) f.body s in
        (elim r [ ok _ ↦ uploaded | err _ ↦ again ], t)

  -- The goroutine of `retryPendingFilesOnce`
  abbrev pub retry_work : (PendingFileEntry → ℕ → Bool) → Work (St E) PendingFileEntry
  retry_work overdue = record {
    attempt = upload_round overdue;
    cleanup = λ f. remove_local f ∷ remove_checksum f ∷ remove_shadow f ∷ [];
  }

  -- The start of `retryPendingFilesOnce`: the files to upload, unless it returns at once.
  unfoldable pub begin_retry : M (St E) (Option (List PendingFileEntry))
  begin_retry s =
      if not (has_pending_dir E cfg) || s.lock_lost || not s.lock_held
      then (none, s)
      else let (found, s1) = read_pending_files E cfg s in
        (elim found [ err _ ↦ none | ok files ↦ some files ], s1)

  -- The whole call, while nothing else runs beside its goroutines: whether all of them have ended
  -- under the schedule, so that it returns.
  unfoldable pub retry_pending_files_once :
      (PendingFileEntry → ℕ → Bool) → List Event → M (St E) Bool
  unfolding begin_retry
  retry_pending_files_once overdue schedule s =
      let (found, s1) = begin_retry s in
      elim found [
        | none ↦ (true, s1)
        | some files ↦
            let p = run (retry_work overdue) concurrency schedule (pool_of files s1) in
            (all_ended p.slots, p.state)
      ]

  -- The single upload of a goroutine of `syncPendingToS3`
  unfoldable pub upload_pending : PendingFileEntry → ℕ → St E → Verdict × St E
  upload_pending f n s =
      let (r, t) = put E cfg f.name f.body s in (elim r [ ok _ ↦ uploaded | err e ↦ gave_up e ], t)

  abbrev pub sync_work : Work (St E) PendingFileEntry
  sync_work = record {
    attempt = upload_pending;
    cleanup = λ f. remove_local f ∷ remove_checksum f ∷ remove_shadow f ∷ cache_recovered f ∷ [];
  }

  -- One round of the loop of `syncFromShadow`.
  unfoldable pub restore_shadow : Str → St E → St E
  restore_shadow key s =
      let n = trim_prefix key (shadow_key E cfg []) in
      let path = pending_path E cfg n in
      if is_empty n then s else elim (fs.stat path s.files) [
        | ok _ ↦ s
        | err _ ↦
            let (found, s1) = on_client E (api.get_bytes (own_context E s) key) s in
            elim found [
              | err _ ↦ s1
              | ok body ↦
                  let (written, s2) = on_files E (atomic_write_file fs path body) s1 in
                  elim written [
                    | err _ ↦ s2
                    | ok _ ↦ (on_files E (fs.write_file (path ++ cksum) (checksum body)) s2).1
                  ]
            ]
      ]

  unfoldable pub restore_shadows : List Str → St E → St E
  restore_shadows [] s = s
  restore_shadows (key ∷ keys) s = restore_shadows keys (restore_shadow key s)

  unfoldable pub sync_from_shadow : M (St E) Outcome
  sync_from_shadow s =
      if not (has_shadow E cfg) || not (has_pending_dir E cfg)
      then (nil, s)
      else let (found, s1) =
          on_client E (api.list_names (own_context E s) (shadow_key E cfg [])) s in
        elim found [
          | err e ↦ (err (wrapped "failed to list shadow prefix" e), s1)
          | ok keys ↦ (nil, restore_shadows keys s1)
        ]

  -- The uploads of `syncPendingToS3`. `none` says that a goroutine has not ended.
  unfoldable pub upload_all_pending : List Event → M (St E) (Option Outcome)
  upload_all_pending schedule s =
      let (found, s1) = read_pending_files E cfg s in
      elim found [
        | err e ↦ (some (err (wrapped "failed to read pending dir" e)), s1)
        | ok files ↦
            let p = run sync_work concurrency schedule (pool_of files s1) in
            (if all_ended p.slots then some (first_error p.results) else none, p.state)
      ]

  unfoldable pub sync_pending_to_s3 : List Event → M (St E) (Option Outcome)
  unfolding sync_from_shadow upload_all_pending
  sync_pending_to_s3 schedule s =
      if not (has_pending_dir E cfg)
      then (some nil, s)
      else upload_all_pending schedule (sync_from_shadow s).1
