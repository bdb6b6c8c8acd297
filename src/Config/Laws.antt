-- ===== src/Config/Laws.antt =====
-- What the options of an opened storage satisfy.
use levels.Base.{◌<◌, ◌≡◌, ◌≢◌, ◌↔◌, Bool, true, [], ◌++◌, Str, codes, arith}
use levels.Base.Int.{ℤ, pos_part}
use levels.Failure.{nil}
use levels.Config.{
  OpenOption, join, positive_or, nonempty_or, true_unless_true, apply_defaults, validate,
  local_path, local_persistence_path,
}

-- Every bound that the program waits for or counts to is positive.
pub record IsComplete (opt : OpenOption) : Type 0 where
  pub max_cache_size : 0 < pos_part opt.max_cache_size
  pub max_file_size : 0 < pos_part opt.max_file_size
  pub retry_max_attempts : 0 < pos_part opt.retry_max_attempts
  pub retry_base_delay : 0 < pos_part opt.retry_base_delay
  pub request_timeout : 0 < pos_part opt.request_timeout
  pub lease_duration : 0 < pos_part opt.lease_duration
  pub lease_renewal : 0 < pos_part opt.lease_renewal
  pub retry_flush_interval : 0 < pos_part opt.retry_flush_interval
  pub pending_max_concurrency : 0 < pos_part opt.pending_max_concurrency

-- After ApplyDefaults every size, count and duration that the program divides by, waits for or
-- counts up to is positive.
pub apply_defaults-IsComplete : (opt : OpenOption) → IsComplete (apply_defaults opt)
unfolding apply_defaults positive_or
apply_defaults-IsComplete opt = ground arith

positive_or_idem : (x d : ℤ) → positive_or (positive_or x d) d ≡ positive_or x d
unfolding positive_or
positive_or_idem x d = ground arith

nonempty_or_idem : (s d : Str) → nonempty_or (nonempty_or s d) d ≡ nonempty_or s d
unfolding nonempty_or
nonempty_or_idem s d = ground arith

true_unless_true-eq-true : (b : Bool) → true_unless_true b ≡ true
unfolding true_unless_true
true_unless_true-eq-true b = ground arith

-- Applying the defaults twice, as a storage and its lock do, is applying them once.
apply_defaults_idem : (opt : OpenOption) → apply_defaults (apply_defaults opt) ≡ apply_defaults opt
unfolding apply_defaults
apply_defaults_idem opt = simp (positive_or_idem, nonempty_or_idem, true_unless_true-eq-true)

-- After ApplyDefaults local persistence is on and the shadow prefix is not empty, whatever the
-- options were.
pub apply_defaults_always_on :
    (opt : OpenOption)
    → ((apply_defaults opt).enable_local_persistence ≡ true)
      × ((apply_defaults opt).pending_shadow_prefix ≢ [])
unfolding apply_defaults nonempty_or true_unless_true
apply_defaults_always_on opt = ground arith

-- The six texts that the options must give.
pub record IsGiven (opt : OpenOption) : Type 0 where
  pub bucket : opt.bucket ≢ []
  pub path : opt.path ≢ []
  pub ak : opt.ak ≢ []
  pub sk : opt.sk ≢ []
  pub region : opt.region ≢ []
  pub local_cache_dir : opt.local_cache_dir ≢ []

-- Validate accepts the options exactly when the six required texts are given.
validate_iff : (opt : OpenOption) → (validate opt ≡ nil) ↔ IsGiven opt
unfolding validate
validate_iff opt = ground arith

-- For valid options without a directory for pending files of its own, the pending files lie inside
-- the local cache directory.
pub local_persistence_path-under :
    (opt : OpenOption)
    → opt.local_persistence_dir ≡ []
    → validate opt ≡ nil
    → local_persistence_path opt ≡ local_path opt ++ codes "/pending_uploads"
unfolding local_persistence_path local_path validate join
local_persistence_path-under opt none valid = ground arith
