-- ===== src/Failure.antt =====
-- s3/errors.go, and the errors that the program meets from elsewhere: goleveldb's
-- `storage.ErrClosed`, `os.ErrNotExist`, those of a context and the two of the S3 service that mean
-- a missing object. A `wrapped` error is `fmt.Errorf("<label>: %w", err)`; the values that the
-- program formats into the label are left out.
use Prim.Native.String.{String}
use levels.Base.{◌≡◌, refl, ◌⊎◌, inl, inr, Bool, true, false}

pub data GoError : Type 0 where
  lock_not_found lock_held lock_acquire_failed file_too_large invalid_file : GoError
  s3_closed retry_exhausted lock_lost pending_checksum_match : GoError
  storage_closed not_exist canceled deadline_exceeded : GoError
  no_such_key not_found : GoError
  plain : String → GoError
  retryable : GoError → GoError
  wrapped : String → GoError → GoError

-- `errors.As` into a `*RetryableError`: the chain of `Unwrap` is searched.
unfoldable pub is_retryable : GoError → Bool
is_retryable (retryable e) = true
is_retryable (wrapped label e) = is_retryable e
is_retryable _ = false

-- client.go: `errors.As` into `*types.NoSuchKey` or `*types.NotFound`
unfoldable pub is_not_found_error : GoError → Bool
is_not_found_error no_such_key = true
is_not_found_error not_found = true
is_not_found_error (retryable e) = is_not_found_error e
is_not_found_error (wrapped label e) = is_not_found_error e
is_not_found_error _ = false

-- `errors.Is(err, os.ErrNotExist)`
unfoldable pub is_not_exist : GoError → Bool
is_not_exist not_exist = true
is_not_exist (retryable e) = is_not_exist e
is_not_exist (wrapped label e) = is_not_exist e
is_not_exist _ = false

pub data Result {ℓ} (A : Type ℓ) : Type ℓ where
  ok : A → Result A
  err : GoError → Result A

pub Result-cases {ℓ} :
    {A : Type ℓ} (r : Result A) → ((a : A) × (r ≡ ok a)) ⊎ ((e : GoError) × (r ≡ err e))
Result-cases (ok a) = inl (a, refl)
Result-cases (err e) = inr (e, refl)

-- A bare `error` result: `ok tt` is nil.
abbrev pub Outcome : Type 0
Outcome = Result (Unit {0})

abbrev pub is_ok {ℓ} : {A : Type ℓ} → Result A → Bool
is_ok (ok a) = true
is_ok (err e) = false

-- `if err != nil { return fmt.Errorf(label, err) }`
abbrev pub wrap {ℓ} : {A : Type ℓ} → String → Result A → Result A
wrap label (ok a) = ok a
wrap label (err e) = err (wrapped label e)

abbrev pub nil : Outcome
nil = ok tt

wrapped_is_retryable : is_retryable (wrapped "put" (retryable canceled)) ≡ true
unfolding is_retryable
wrapped_is_retryable = refl
