-- ===== src/Config.antt =====
-- s3/config.go: the options, their defaults and their validation. A Go `int` or `time.Duration` is
-- a signed number, a duration in nanoseconds. `Logger` is left out: the program only prints to it.
-- Of the callback `OnPendingWarning` the options say whether one is set.
pub mod Laws
use levels.Base.{ℕ, ◌*◌, Bool, true, ◌∷◌, ◌++◌, Str, codes, is_empty, not, if◌then◌else◌}
use levels.Base.Int.{ℤ, pos, leb_ℤ}
use levels.Failure.{Outcome, err, plain, nil}

abbrev pub second : ℕ
second = 1000000000

abbrev pub millisecond : ℕ
millisecond = 1000000

abbrev pub default_max_cache_size : ℤ
default_max_cache_size = pos 500

abbrev pub default_max_file_size : ℤ
default_max_file_size = pos (64 * 1024 * 1024)

abbrev pub default_retry_attempts : ℤ
default_retry_attempts = pos 5

abbrev pub default_retry_base_delay : ℤ
default_retry_base_delay = pos (500 * millisecond)

abbrev pub default_request_timeout : ℤ
default_request_timeout = pos (120 * second)

abbrev pub default_lease_duration : ℤ
default_lease_duration = pos (60 * second)

abbrev pub default_lease_renewal : ℤ
default_lease_renewal = pos (20 * second)

abbrev pub default_retry_max_duration : ℤ
default_retry_max_duration = pos 0

abbrev pub default_retry_flush_interval : ℤ
default_retry_flush_interval = pos (5 * second)

abbrev pub default_pending_shadow_prefix : Str
default_pending_shadow_prefix = codes "pending_shadow"

abbrev pub default_pending_max_concurrency : ℤ
default_pending_max_concurrency = pos 4

pub record OpenOption : Type 0 where
  pub bucket : Str
  pub path : Str
  pub ak : Str
  pub sk : Str
  pub region : Str
  pub endpoint : Str
  pub local_cache_dir : Str
  pub max_cache_size : ℤ
  pub max_file_size : ℤ
  pub retry_max_attempts : ℤ
  pub retry_base_delay : ℤ
  pub request_timeout : ℤ
  pub lease_duration : ℤ
  pub lease_renewal : ℤ
  pub enable_local_persistence : Bool
  pub local_persistence_dir : Str
  pub retry_max_duration : ℤ
  pub retry_flush_interval : ℤ
  pub pending_shadow_prefix : Str
  pub pending_max_concurrency : ℤ
  pub max_pending_size : ℤ
  pub has_pending_warning : Bool

-- `if x <= 0 { x = d }`
unfoldable pub positive_or : ℤ → ℤ → ℤ
positive_or x d = if leb_ℤ x (pos 0) then d else x

-- `if s == "" { s = d }`
unfoldable pub nonempty_or : Str → Str → Str
nonempty_or s d = if is_empty s then d else s

-- `if !b { b = true }`
unfoldable pub true_unless_true : Bool → Bool
true_unless_true b = if not b then true else b

unfoldable pub apply_defaults : OpenOption → OpenOption
apply_defaults opt = record opt {
  max_cache_size = positive_or opt.max_cache_size default_max_cache_size;
  max_file_size = positive_or opt.max_file_size default_max_file_size;
  retry_max_attempts = positive_or opt.retry_max_attempts default_retry_attempts;
  retry_base_delay = positive_or opt.retry_base_delay default_retry_base_delay;
  request_timeout = positive_or opt.request_timeout default_request_timeout;
  lease_duration = positive_or opt.lease_duration default_lease_duration;
  lease_renewal = positive_or opt.lease_renewal default_lease_renewal;
  enable_local_persistence = true_unless_true opt.enable_local_persistence;
  retry_max_duration = positive_or opt.retry_max_duration default_retry_max_duration;
  retry_flush_interval = positive_or opt.retry_flush_interval default_retry_flush_interval;
  pending_shadow_prefix = nonempty_or opt.pending_shadow_prefix default_pending_shadow_prefix;
  pending_max_concurrency = positive_or opt.pending_max_concurrency default_pending_max_concurrency;
}

unfoldable pub validate : OpenOption → Outcome
validate opt =
    if is_empty opt.bucket
    then err (plain "Bucket is required")
    else if is_empty opt.path
    then err (plain "Path is required")
    else if is_empty opt.ak
    then err (plain "Ak is required")
    else if is_empty opt.sk
    then err (plain "Sk is required")
    else if is_empty opt.region
    then err (plain "Region is required")
    else if is_empty opt.local_cache_dir
    then err (plain "LocalCacheDir is required")
    else nil

-- filepath.Join of clean parts: empty parts are left out.
unfoldable pub join : Str → Str → Str
join a b = if is_empty a then b else if is_empty b then a else a ++ (b'/' ∷ b)

unfoldable pub local_path : OpenOption → Str
local_path opt = join opt.local_cache_dir opt.path

unfoldable pub local_persistence_path : OpenOption → Str
local_persistence_path opt =
    if not (is_empty opt.local_persistence_dir)
    then join (join opt.local_persistence_dir opt.path) (codes "pending_uploads")
    else join (join opt.local_cache_dir opt.path) (codes "pending_uploads")
