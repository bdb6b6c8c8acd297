-- ===== src/Client.antt =====
-- s3/interface.go: `S3ClientAPI`, the contract between the storage and the lock on one side and the
-- object store on the other. `IsLawful` is what the storage and the lock rely on, of a client beside which
-- nobody else writes: a success has the effect that the operation is named for, and no operation
-- touches another key than the one that it is given. `IsContract` adds the rest of its comments.
pub mod S3Client
pub mod Lawful
pub mod SdkLaws
pub mod Listing
pub mod Contract
use levels.Base.{
  ◌≡◌, refl, ◌≢◌, ◌++◌, length, Among, Bool, false, true, Option, none, some, List, [], ◌∷◌, Str,
  Bytes,
}
use levels.Base.Int.{ℤ, pos, ltb_ℤ}
use levels.Failure.{
  GoError, Result, ok, Outcome, nil, not_exist, err, file_too_large, is_not_found_error,
}
use levels.FileDesc.{FileDesc, is_metadata_key, parse_file_desc, parse_s3_key}

-- A `context.Context` as a call finds it: whether it has been cancelled, and the timeouts that were
-- laid on it, the last one first.
pub record Context : Type 0 where
  pub canceled : Bool
  pub timeouts : List ℤ

-- `context.WithTimeout(ctx, timeout)`
abbrev pub with_timeout : Context → ℤ → Context
with_timeout ctx timeout = record ctx { timeouts = timeout ∷ ctx.timeouts }

-- `context.WithTimeout(context.Background(), timeout)`
abbrev pub background : ℤ → Context
background timeout = record { canceled = false; timeouts = timeout ∷ [] }

pub record S3ClientApi : Type 1 where
  pub State : Type 0
  pub put_bytes : Context → Str → Bytes → State → Outcome × State
  pub put_bytes_if_not_exists : Context → Str → Bytes → State → Result Bool × State
  pub get_bytes : Context → Str → State → Result Bytes × State
  pub remove : Context → Str → State → Outcome × State
  pub exists : Context → Str → State → Result Bool × State
  pub list : Context → State → Result (List FileDesc) × State
  pub copy : Context → Str → Str → State → Outcome × State
  pub list_names : Context → Str → State → Result (List Str) × State

abbrev pub is_some {ℓ} : {A : Type ℓ} → Option A → Bool
is_some none = false
is_some (some a) = true

pub is_some-ne-none : {A : Type 0} (o : Option A) → is_some o ≡ true → o ≢ none
is_some-ne-none none h = cc
is_some-ne-none (some a) h = λ e. cc

pub is_some-eq-none : {A : Type 0} (o : Option A) → is_some o ≡ false → o ≡ none
is_some-eq-none none h = refl
is_some-eq-none (some a) h = cc

-- `object s k` is what the store holds under the key `k`.
pub record IsLawful (c : S3ClientApi) (object : c.State → Str → Option Bytes) : Type 0 where
  pub put_ok :
      (ctx : Context) (k : Str) (d : Bytes) (s : c.State)
      → (c.put_bytes ctx k d s).0 ≡ nil
      → object (c.put_bytes ctx k d s).1 k ≡ some d
  pub put_other :
      (ctx : Context) (k : Str) (d : Bytes) (s : c.State) (j : Str)
      → j ≢ k
      → object (c.put_bytes ctx k d s).1 j ≡ object s j
  pub put_new_ok :
      (ctx : Context) (k : Str) (d : Bytes) (s : c.State)
      → (c.put_bytes_if_not_exists ctx k d s).0 ≡ ok true
      → (object s k ≡ none) × (object (c.put_bytes_if_not_exists ctx k d s).1 k ≡ some d)
  pub put_new_kept :
      (ctx : Context) (k : Str) (d : Bytes) (s : c.State)
      → (c.put_bytes_if_not_exists ctx k d s).0 ≡ ok false
      → (object s k ≢ none) × (object (c.put_bytes_if_not_exists ctx k d s).1 k ≡ object s k)
  pub put_new_other :
      (ctx : Context) (k : Str) (d : Bytes) (s : c.State) (j : Str)
      → j ≢ k
      → object (c.put_bytes_if_not_exists ctx k d s).1 j ≡ object s j
  pub get_ok :
      (ctx : Context) (k : Str) (s : c.State) (d : Bytes)
      → (c.get_bytes ctx k s).0 ≡ ok d
      → object s k ≡ some d
  pub get_missing :
      (ctx : Context) (k : Str) (s : c.State)
      → (c.get_bytes ctx k s).0 ≡ err not_exist
      → object s k ≡ none
  pub get_keeps :
      (ctx : Context) (k : Str) (s : c.State) (j : Str)
      → object (c.get_bytes ctx k s).1 j ≡ object s j
  pub exists_ok :
      (ctx : Context) (k : Str) (s : c.State) (b : Bool)
      → (c.exists ctx k s).0 ≡ ok b
      → is_some (object s k) ≡ b
  pub exists_keeps :
      (ctx : Context) (k : Str) (s : c.State) (j : Str) → object (c.exists ctx k s).1 j ≡ object s j
  pub remove_ok :
      (ctx : Context) (k : Str) (s : c.State)
      → (c.remove ctx k s).0 ≡ nil
      → object (c.remove ctx k s).1 k ≡ none
  pub remove_other :
      (ctx : Context) (k : Str) (s : c.State) (j : Str)
      → j ≢ k
      → object (c.remove ctx k s).1 j ≡ object s j
  pub copy_ok :
      (ctx : Context) (src dst : Str) (s : c.State)
      → src ≢ dst
      → (c.copy ctx src dst s).0 ≡ nil
      → (object s src ≢ none) × (object (c.copy ctx src dst s).1 dst ≡ object s src)
  pub copy_other :
      (ctx : Context) (src dst : Str) (s : c.State) (j : Str)
      → j ≢ dst
      → object (c.copy ctx src dst s).1 j ≡ object s j
  pub list_keeps : (ctx : Context) (s : c.State) (j : Str) → object (c.list ctx s).1 j ≡ object s j
  pub list_names_keeps :
      (ctx : Context) (prefix : Str) (s : c.State) (j : Str)
      → object (c.list_names ctx prefix s).1 j ≡ object s j

-- What the comments of the interface say of the results, with a limit on the sizes of files: an error
-- for a file beyond it, `os.ErrNotExist` for a key that is found missing, and what the listings
-- consist of.
pub record IsContract (c : S3ClientApi) (object : c.State → Str → Option Bytes) (limit : ℤ)
    : Type 0 where
  pub laws : IsLawful c object
  pub put_limit :
      (ctx : Context) (k : Str) (d : Bytes) (s : c.State)
      → is_metadata_key k ≡ false
      → ltb_ℤ limit (pos (length d)) ≡ true
      → c.put_bytes ctx k d s ≡ (err file_too_large, s)
  pub put_new_limit :
      (ctx : Context) (k : Str) (d : Bytes) (s : c.State)
      → is_metadata_key k ≡ false
      → ltb_ℤ limit (pos (length d)) ≡ true
      → c.put_bytes_if_not_exists ctx k d s ≡ (err file_too_large, s)
  pub get_not_exist :
      (ctx : Context) (k : Str) (s : c.State) (e : GoError)
      → (c.get_bytes ctx k s).0 ≡ err e
      → is_not_found_error e ≡ true
      → (e ≡ not_exist) × (object s k ≡ none)
  -- The descriptors are those that the names of the objects give.
  pub list_sound :
      (ctx : Context) (s : c.State) (fds : List FileDesc) (fd : FileDesc)
      → (c.list ctx s).0 ≡ ok fds
      → Among fd fds
      → (k : Str) × (is_some (object s k) ≡ true) × (parse_file_desc (parse_s3_key k) ≡ some fd)
  pub list_complete :
      (ctx : Context) (s : c.State) (fds : List FileDesc) (fd : FileDesc) (k : Str)
      → (c.list ctx s).0 ≡ ok fds
      → is_some (object s k) ≡ true
      → parse_file_desc (parse_s3_key k) ≡ some fd
      → Among fd fds
  pub list_names_sound :
      (ctx : Context) (prefix : Str) (s : c.State) (names : List Str) (n : Str)
      → (c.list_names ctx prefix s).0 ≡ ok names
      → Among n names
      → (is_some (object s n) ≡ true) × ((rest : Str) × (n ≡ prefix ++ rest))
  pub list_names_complete :
      (ctx : Context) (prefix : Str) (s : c.State) (names : List Str) (rest n : Str)
      → (c.list_names ctx prefix s).0 ≡ ok names
      → n ≡ prefix ++ rest
      → n ≢ []
      → is_some (object s n) ≡ true
      → Among n names
