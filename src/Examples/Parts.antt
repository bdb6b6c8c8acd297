-- ===== src/Examples/Parts.antt =====
-- Options, retries, names and files, run on concrete inputs.
use levels.Base.{
  ℕ, zero, suc, ◌+◌, ◌^◌, ◌<◌, ◌≤◌, ◌≡◌, refl, true, false, some, none, [], ◌∷◌, codes, arith,
}
use levels.Base.Int.{pos, mul_int64, shl_one_int64}
use levels.Failure.{plain, retryable, retry_exhausted, Result, ok, err, nil, is_retryable}
use levels.FileDesc.{type_table, parse_file_desc}
use levels.FileDesc.Naming.{parse_file_desc-name}
use levels.Config.{OpenOption, validate}
use levels.Retry.{Timer, with_retry, calc_backoff, exp_delay}
use levels.Retry.Backoff.{IsRandom, calc_backoff_total}
use levels.Retry.Laws.{
  Ignores, IsQuiet, retries, with_retry_attempts, with_retry_settles, with_retry_exhausted,
}
use levels.Files.{atomic_write_file}
use levels.Files.Atomic.{IsAtomic, atomic_write_file-IsAtomic}
use levels.Examples.Disk.{Disk, memory_disk, memory_disk-IsLawful, on_disk}
use levels.Examples.Names.{name_of-IsNaming}
use levels.Examples.World.{options}
use levels.Examples.Uploads.{body, dashless_path}

-- Nothing but the six texts is given.
abbrev bare : OpenOption
bare = record options {
  max_cache_size = pos 0;
  max_file_size = pos 0;
  retry_max_attempts = pos 0;
  enable_local_persistence = false;
  local_persistence_dir = [];
  pending_shadow_prefix = [];
}

bare_valid : validate bare ≡ nil
unfolding validate
bare_valid = refl

-- Calls are counted; the first one fails and may be tried again.
abbrev clock : Timer ℕ
clock = record { ctx_err = λ s. none; wait = λ d s. (false, s); int63n = λ n s. (0, s) }

abbrev script : ℕ → Result ℕ
script zero = err (retryable (plain "timeout"))
script (suc n) = ok n

abbrev hopeless : ℕ → Result ℕ
hopeless n = err (retryable (plain "timeout"))

abbrev count : ℕ → ℕ
count s = s

clock-Ignores : Ignores clock count
clock-Ignores = record { at_wait = λ d s. refl; at_int63n = λ n s. refl }

clock-IsQuiet : IsQuiet clock
clock-IsQuiet = record { open_context = λ s. refl; waits = λ d s. refl }

clock-IsRandom : IsRandom clock
clock-IsRandom = record { below = λ n s h. h }

abbrev call : (ℕ → Result ℕ) → ℕ → Result ℕ × ℕ
call f s = (f s, s + 1)

with_retry_attempts_example : count (with_retry clock (pos 3) (pos 1) (call script) 0).1 ≤ 3
with_retry_attempts_example =
    with_retry_attempts clock (call script) count clock-Ignores (λ s. refl) (pos 3) (pos 1) 0

first_retries : (j : ℕ) → 0 ≤ j → j < 1 → retries (script j) ≡ true
unfolding is_retryable
first_retries zero h k = refl
first_retries (suc j) h k = absurd (omega arith)

with_retry_settles_example :
    ((with_retry clock (pos 3) (pos 1) (call script) 0).0 ≡ ok 0)
    × (count (with_retry clock (pos 3) (pos 1) (call script) 0).1 ≡ 2)
with_retry_settles_example =
    with_retry_settles clock (call script) count clock-Ignores (λ s. refl) clock-IsQuiet 1
      (ground arith) (ground arith) script (λ s. refl) (pos 3) 0 1 (ground arith) (ground arith)
      first_retries refl

all_retry : (j : ℕ) → 0 ≤ j → j < 3 → retries (hopeless j) ≡ true
unfolding is_retryable
all_retry j h k = refl

with_retry_exhausted_example :
    ((with_retry clock (pos 3) (pos 1) (call hopeless) 0).0 ≡ err (retryable retry_exhausted))
    × (count (with_retry clock (pos 3) (pos 1) (call hopeless) 0).1 ≡ 3)
with_retry_exhausted_example =
    with_retry_exhausted clock (call hopeless) count clock-Ignores (λ s. refl) clock-IsQuiet 1
      (ground arith) (ground arith) hopeless (λ s. refl) (pos 3) 0 all_retry

calc_backoff_total_example :
    (d : ℕ) × ((calc_backoff clock (pos 500) 3 0).0 ≡ some d) × (d < 2 ^ 63)
calc_backoff_total_example =
    calc_backoff_total clock clock-IsRandom 500 3 0 (ground arith) (ground arith)

backoff_zero : (calc_backoff clock (pos 500) 3 0).0 ≡ some 0
unfolding calc_backoff exp_delay mul_int64 shl_one_int64
backoff_zero = refl

parse_file_desc-name_example :
    parse_file_desc (codes "000012.ldb") ≡ some (record { file_type = type_table; num = pos 12 })
parse_file_desc-name_example = parse_file_desc-name name_of-IsNaming type_table 12 (ground arith)

abbrev seven : ℕ
seven = 7

abbrev disk : Disk
disk = record { entries = (codes "/c/a.log", 9 ∷ []) ∷ []; full = false }

atomic_write_file-IsAtomic_example :
    let (r, t) = atomic_write_file memory_disk (codes "/c/a.log") body disk in
    IsAtomic memory_disk on_disk (codes "/c/a.log") body disk r t
atomic_write_file-IsAtomic_example =
    atomic_write_file-IsAtomic memory_disk on_disk memory_disk-IsLawful (codes "/c/a.log")
      (dashless_path (codes "/c/a.log") (ground arith)) body disk
