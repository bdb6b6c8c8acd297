-- ===== src/Examples/Locks.antt =====
-- The lock on the bucket in memory, by a process whose clock shows 100.
use levels.Base.{
  ℕ, ◌≡◌, refl, Bool, true, false, some, none, List, [], ◌∷◌, Bytes, codes, str_dec, ℕ_discrete,
  has_prefix, strip_prefix, arith,
}
use levels.Base.Int.{pos}
use levels.Failure.{nil, ok, err, plain, is_retryable, is_not_found_error}
use levels.FileDesc.{is_metadata_key}
use levels.Client.{Context, background}
use levels.Client.S3Client.{
  put_bytes, put_attempt, path_key, exists, head_attempt, remove, delete_attempt, s3_client,
}
use levels.Config.{join, local_path, apply_defaults, positive_or, nonempty_or}
use levels.Retry.{with_retry, retry_loop}
use levels.Lock.{
  Host, LockEnv, LockState, lock_key, lock, lock_as, new_lock_id, random_int, take_lock,
  acquire_lock, renewal_tick, renew_all, unlock, is_lock_stale,
}
use levels.Lock.Text.{lock_text, read_lock_text, print_int, digits, read_lock_text-lock_text}
use levels.Lock.Renewal.{new_s3_lock, new_s3_lock-renewal_tick, lock-unlock}
use levels.Lock.Laws.{IsTaken, IsFree, remote_lock, lock-IsTaken, renewed_lock-is_lock_stale}
use levels.Examples.Sdk.{memory_sdk}
use levels.Examples.Disk.{memory_disk, memory_disk-IsLawful}
use levels.Examples.World.{options, env_laws}

abbrev pub host : Host
host = record {
  State = ℕ;
  pid = pos 41;
  now = λ h. (pos h, h);
  random = λ h. (ok 5, h);
  find_process = λ pid h. nil;
  signal = λ pid h. err (plain "os: unsupported signal type");
}

abbrev lock_env : LockEnv
lock_env = record { api = s3_client memory_sdk options; fs = memory_disk; host = host }

abbrev ctx : Context
ctx = background (pos 1000)

abbrev unlocked : LockState lock_env options
unlocked = record {
  client = record { objects = []; down = false };
  files = record { entries = []; full = false };
  host_state = 100;
  lock_id = [];
  stopped = false;
  renewing = false;
  lease_err = none;
}

locks : (lock lock_env options ctx unlocked).0 ≡ nil
unfolding lock lock_as new_lock_id random_int take_lock acquire_lock exists head_attempt with_retry
    retry_loop is_retryable is_not_found_error put_bytes put_attempt path_key is_metadata_key
    has_prefix strip_prefix join local_path lock_text print_int digits str_dec ℕ_discrete
locks = refl

lock-IsTaken_example :
    IsFree options env_laws.api memory_disk-IsLawful (new_lock_id lock_env options unlocked).1
    × IsTaken options env_laws.api memory_disk-IsLawful (lock lock_env options ctx unlocked).1
lock-IsTaken_example = lock-IsTaken options env_laws.api memory_disk-IsLawful ctx unlocked locks

-- The state with the lock taken.
abbrev taken : LockState lock_env options
taken = (lock lock_env options ctx unlocked).1

taken_id : taken.lock_id ≡ lock_text (pos 41) (pos 100) (pos 5)
unfolding lock lock_as new_lock_id random_int take_lock acquire_lock exists head_attempt with_retry
    retry_loop is_retryable is_not_found_error put_bytes put_attempt path_key is_metadata_key
    has_prefix strip_prefix join local_path lock_text print_int digits str_dec ℕ_discrete
taken_id = refl

abbrev ticks : List (Context × Bool)
ticks = (ctx, false) ∷ (ctx, false) ∷ []

still_renewing : (renew_all lock_env options ticks taken).renewing ≡ true
unfolding renew_all renewal_tick lock lock_as new_lock_id random_int take_lock acquire_lock exists
    head_attempt with_retry retry_loop is_retryable is_not_found_error put_bytes put_attempt
    path_key is_metadata_key has_prefix strip_prefix join local_path lock_text print_int digits
    str_dec ℕ_discrete
still_renewing = refl

renewed_lock-is_lock_stale_example :
    (text : Bytes) × (remote_lock options env_laws.api memory_disk-IsLawful
        (renew_all lock_env options ticks taken)
      ≡ some text)
    × (is_lock_stale lock_env options text (pos 200) unlocked ≡ true)
renewed_lock-is_lock_stale_example =
    renewed_lock-is_lock_stale options options env_laws.api memory_disk-IsLawful 41 100 5 200 60
      ticks taken unlocked (ground arith) (ground arith) (ground arith) (ground arith) refl
      (ground arith) taken_id
      (lock-IsTaken options env_laws.api memory_disk-IsLawful ctx unlocked locks).1 still_renewing

unlocks : (unlock lock_env options ctx taken).0 ≡ nil
unfolding unlock remove delete_attempt lock lock_as new_lock_id random_int take_lock acquire_lock
    exists head_attempt with_retry retry_loop is_retryable is_not_found_error put_bytes put_attempt
    path_key is_metadata_key has_prefix strip_prefix join local_path lock_text print_int digits
    str_dec ℕ_discrete
unlocks = refl

-- The state of a new lock, once it is taken.
abbrev first_taken : LockState lock_env (apply_defaults options)
first_taken =
    (lock lock_env (apply_defaults options) ctx
      (new_s3_lock lock_env options unlocked.client unlocked.files 100)).1

first_locks :
    (lock lock_env
      (apply_defaults options)
      ctx
      (new_s3_lock lock_env options unlocked.client unlocked.files 100)).0
    ≡ nil
unfolding new_s3_lock lock lock_as new_lock_id random_int take_lock acquire_lock exists head_attempt
    with_retry retry_loop is_retryable is_not_found_error put_bytes put_attempt path_key
    is_metadata_key has_prefix strip_prefix join local_path lock_text print_int digits str_dec
    ℕ_discrete apply_defaults positive_or nonempty_or
first_locks = refl

first_renews : (lock_env.api.put_bytes ctx lock_key first_taken.lock_id first_taken.client).0 ≡ nil
unfolding new_s3_lock lock lock_as new_lock_id random_int take_lock acquire_lock exists head_attempt
    with_retry retry_loop is_retryable is_not_found_error put_bytes put_attempt path_key
    is_metadata_key has_prefix strip_prefix join local_path lock_text print_int digits str_dec
    ℕ_discrete apply_defaults positive_or nonempty_or
first_renews = refl

new_s3_lock-renewal_tick_example :
    IsTaken
      (apply_defaults options)
      env_laws.api
      memory_disk-IsLawful
      (renewal_tick lock_env (apply_defaults options) ctx true first_taken)
new_s3_lock-renewal_tick_example =
    new_s3_lock-renewal_tick options env_laws.api memory_disk-IsLawful ctx ctx true unlocked.client
      unlocked.files 100 first_locks refl first_renews

-- The state after a release, and the lock taken again.
abbrev released : LockState lock_env options
released = (unlock lock_env options ctx taken).1

locks_again : (lock lock_env options ctx released).0 ≡ nil
unfolding unlock remove delete_attempt lock lock_as new_lock_id random_int take_lock acquire_lock
    exists head_attempt with_retry retry_loop is_retryable is_not_found_error put_bytes put_attempt
    path_key is_metadata_key has_prefix strip_prefix join local_path lock_text print_int digits
    str_dec ℕ_discrete
locks_again = refl

lock-unlock_example :
    let t = (lock lock_env options ctx released).1 in
    IsTaken options env_laws.api memory_disk-IsLawful t
    × (renewal_tick lock_env options ctx true t ≡ record t { renewing = false })
lock-unlock_example =
    lock-unlock options env_laws.api memory_disk-IsLawful ctx ctx ctx taken locks_again

read_lock_text-lock_text_example : read_lock_text (codes "41-100-5") ≡ some (pos 41, pos 100, pos 5)
unfolding lock_text print_int digits
read_lock_text-lock_text_example =
    read_lock_text-lock_text 41 100 5 (ground arith) (ground arith) (ground arith)
