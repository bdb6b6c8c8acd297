-- ===== src/Examples/Sessions.antt =====
-- A session in memory: a lease that is lost, and a lock that is taken and released.
use levels.Base.{
  ◌||◌, ◌≡◌, refl, Bool, true, false, some, none, [], ◌∷◌, List, codes, str_dec, has_prefix,
  strip_prefix, ℕ_discrete,
}
use levels.Base.Int.{ℤ, pos}
use levels.Failure.{nil, ok, is_retryable, is_not_found_error}
use levels.FileDesc.{
  is_metadata_key, parse_file_desc, scan_number_dot_word, parse_s3_key, scan_manifest,
}
use levels.FileDesc.Scan.{scan_int}
use levels.Files.{contains_slash}
use levels.Retry.{with_retry, retry_loop}
use levels.Client
use levels.Client.{Context}
use levels.Client.S3Client.{
  put_bytes, put_attempt, path_key, exists, head_attempt, list_names, list_names_attempt,
  read_pages, path_prefix, relative_names, list, list_attempt, descriptors, remove, delete_attempt,
}
use levels.Config.{join, local_path}
use levels.Lock.{lock, lock_as, new_lock_id, random_int, take_lock, acquire_lock, unlock}
use levels.Lock.Text.{lock_text, print_int, digits}
use levels.Pool.{run}
use levels.Storage.Laws.{remote}
use levels.Storage.Fencing
use levels.Storage.Pending.{read_pending_files, read_entries, sort_by_priority}
use levels.Storage.Workers.{
  sync_pending_to_s3, sync_from_shadow, restore_shadows, upload_all_pending, first_error,
}
use levels.Storage.Recovery.{
  sync_local_to_s3, sync_entries, sync_entry, cleanup_orphaned, recover_from_local_cache,
  recover_manifest, recover_from_pending,
}
use levels.Storage.Manifest.{
  find_latest_local_manifest, find_latest_pending_manifest, find_in, best_manifest, better_manifest,
}
use levels.Session.{Session, lock_storage, settle, locker_unlock, release}
use levels.Session.System
use levels.Session.System.{
  System, SystemEvent, call, background, renew, watch, unlock_all, unlock_locker, background_of,
  system_step, system_run,
}
use levels.Session.Fenced.{stop_fences_background}
use levels.Pool.{start, all_waiting}
use levels.Storage.Access.{close_storage}
use levels.Storage.Fencing.{perform}
use levels.Storage.Owned.{plain-ne_shadow_key}
use levels.Storage.Workers.Loop.{LoopEvent, wake, work, background_run}
use levels.Session.Holding.{Holds, lock_storage-Holds}
use levels.Session.Laws.{locker_unlock-lock_storage}
use levels.Examples.World.{env, env_laws, settings, world}
use levels.Examples.Locks.{host}
use levels.Examples.Names.{name_of-ne}

abbrev background_context : ℤ → Context
background_context = Client.background

abbrev session : Bool → Session env settings host
session down = record {
  storage = world down false;
  lock_state = record {
    client = (world down false).client;
    files = (world down false).files;
    host_state = 100;
    lock_id = codes "41-100-5";
    stopped = false;
    renewing = true;
    lease_err = none;
  };
  monitoring = true;
}

-- The session with no goroutine of the background retry at work.
abbrev system : Bool → System env settings host
system down = record { session = session down; slots = []; last_round = false }

abbrev lease_lost : List SystemEvent
lease_lost = renew (background_context (pos 1000)) false ∷ watch false ∷ []

abbrev events : List SystemEvent
events =
    call Fencing.get_meta
    ∷ background (wake false)
    ∷ unlock_locker
    ∷ renew (background_context (pos 1000)) false
    ∷ unlock_all
    ∷ []

-- LevelDB has closed the storage.
abbrev closing : List SystemEvent
closing = call Fencing.close_storage ∷ []

abbrev final_round : List LoopEvent
final_round = wake true ∷ work (λ f n. false) start ∷ []

no_slash : contains_slash (codes "000007.log") ≡ false
unfolding contains_slash
no_slash = refl

closed_stops :
    let x = system_run env settings host closing (system false) in
    (x.session.storage.stopped || x.session.storage.lock_lost) ≡ true
unfolding system_run system_step perform close_storage
closed_stops = refl

stop_fences_background_example :
    let x = system_run env settings host closing (system false) in
    remote env_laws
      (background_run env settings final_round (background_of env settings host x)).storage
      (codes "000007.log")
    ≡ remote env_laws x.session.storage (codes "000007.log")
stop_fences_background_example =
    stop_fences_background settings env_laws host closing final_round (system false)
      (codes "000007.log") refl closed_stops
      (plain-ne_shadow_key settings env_laws (codes "000007.log") no_slash)

locks : (lock_storage env settings host [] (session false)).0 ≡ some nil
unfolding lock_storage settle lock lock_as new_lock_id random_int take_lock acquire_lock exists
    head_attempt with_retry retry_loop is_retryable is_not_found_error put_bytes put_attempt
    path_key is_metadata_key has_prefix strip_prefix join local_path lock_text print_int digits
    str_dec ℕ_discrete sync_pending_to_s3 sync_from_shadow upload_all_pending read_pending_files
    read_entries sort_by_priority list_names list_names_attempt read_pages path_prefix
    relative_names restore_shadows first_error sync_local_to_s3 sync_entries sync_entry
    cleanup_orphaned recover_from_local_cache recover_manifest recover_from_pending list
    list_attempt descriptors find_latest_local_manifest find_latest_pending_manifest find_in
    best_manifest contains_slash run
locks = refl

abbrev unlocked : System env settings host
unlocked = system_run env settings host (System.lock [] ∷ unlock_locker ∷ []) (system false)

still_held : unlocked.session.storage.lock_lost ≡ false
unfolding lock_storage settle lock lock_as new_lock_id random_int take_lock acquire_lock exists
    head_attempt with_retry retry_loop is_retryable is_not_found_error put_bytes put_attempt
    path_key is_metadata_key has_prefix strip_prefix join local_path lock_text print_int digits
    str_dec ℕ_discrete sync_pending_to_s3 sync_from_shadow upload_all_pending read_pending_files
    read_entries sort_by_priority list_names list_names_attempt read_pages path_prefix
    relative_names restore_shadows first_error sync_local_to_s3 sync_entries sync_entry
    cleanup_orphaned recover_from_local_cache recover_manifest recover_from_pending list
    list_attempt descriptors find_latest_local_manifest find_latest_pending_manifest find_in
    best_manifest contains_slash run system_run system_step locker_unlock release unlock remove
    delete_attempt parse_file_desc scan_number_dot_word scan_int parse_s3_key scan_manifest
    better_manifest
still_held = refl

nothing_waits : (read_pending_files env settings unlocked.session.storage).0 ≡ ok []
unfolding lock_storage settle lock lock_as new_lock_id random_int take_lock acquire_lock exists
    head_attempt with_retry retry_loop is_retryable is_not_found_error put_bytes put_attempt
    path_key is_metadata_key has_prefix strip_prefix join local_path lock_text print_int digits
    str_dec ℕ_discrete sync_pending_to_s3 sync_from_shadow upload_all_pending read_pending_files
    read_entries sort_by_priority list_names list_names_attempt read_pages path_prefix
    relative_names restore_shadows first_error sync_local_to_s3 sync_entries sync_entry
    cleanup_orphaned recover_from_local_cache recover_manifest recover_from_pending list
    list_attempt descriptors find_latest_local_manifest find_latest_pending_manifest find_in
    best_manifest contains_slash run system_run system_step locker_unlock release unlock remove
    delete_attempt parse_file_desc scan_number_dot_word scan_int parse_s3_key scan_manifest
    better_manifest
nothing_waits = refl

locker_unlock-lock_storage_example :
    let x = system_run env settings host (System.lock [] ∷ unlock_locker ∷ []) (system false) in
    (x.session.storage.lock_held ≡ true)
    × ((system_step env settings host (background (wake false)) x).slots ≡ all_waiting [])
locker_unlock-lock_storage_example =
    locker_unlock-lock_storage settings host [] (system false) [] locks refl refl refl still_held
      nothing_waits

lock_storage-Holds_example :
    let t = (lock_storage env settings host [] (session false)).1 in
    Holds settings env_laws host t × (t.storage.lock_held ≡ true)
lock_storage-Holds_example =
    lock_storage-Holds settings env_laws host name_of-ne [] (session false) locks
