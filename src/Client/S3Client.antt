-- ===== src/Client/S3Client.antt =====
-- s3/client.go: `S3Client` over the AWS SDK, which is a parameter. Trace messages are left out;
-- `NewS3Client` is in the child module. What the paginator of the SDK would give, page
-- after page, is one list: the loops stop at its first error.
pub mod Opening
use levels.Base.{
  ◌++◌, Bool, true, false, not, ◌&&◌, none, some, List, [], ◌∷◌, Str, Bytes, is_empty, str_eq,
  length, trim_prefix, if◌then◌else◌,
}
use levels.Base.Int.{pos, ltb_ℤ}
use levels.Failure.{
  file_too_large, not_exist, retryable, wrapped, is_not_found_error, Result, ok, err, wrap, Outcome,
  nil,
}
use levels.Config.{OpenOption}
use levels.Retry.{Timer, with_retry}
use levels.FileDesc.{FileDesc, is_metadata_key, parse_file_desc, parse_s3_key}
use levels.Client.{Context, with_timeout, S3ClientApi}

-- What the program calls of the AWS SDK, each on a bucket.
pub record Sdk : Type 1 where
  pub State : Type 0
  pub put_object : Context → Str → Str → Bytes → State → Outcome × State
  -- The answer, and in it what reading its body gives.
  pub get_object : Context → Str → Str → State → Result (Result Bytes) × State
  pub delete_object : Context → Str → Str → State → Outcome × State
  pub head_object : Context → Str → Str → State → Outcome × State
  pub copy_object : Context → Str → Str → Str → State → Outcome × State
  -- The keys of the objects below a prefix, page after page.
  pub list_objects : Context → Str → Str → State → List (Result (List Str)) × State
  pub timer : Context → Timer State

module _ (sdk : Sdk) (opt : OpenOption) where
  unfoldable pub path_key : Str → Str
  path_key key = opt.path ++ (b'/' ∷ key)

  unfoldable pub path_prefix : Str
  path_prefix = opt.path ++ (b'/' ∷ [])

  abbrev pub operation_context : Context → Context
  operation_context ctx = with_timeout ctx opt.request_timeout

  abbrev pub retry :
      {A : Type 0} → Context → (sdk.State → Result A × sdk.State) → sdk.State → Result A × sdk.State
  retry ctx = with_retry (sdk.timer ctx) opt.retry_max_attempts opt.retry_base_delay

  abbrev pub too_large : Str → Bytes → Bool
  too_large key body = not (is_metadata_key key) && ltb_ℤ opt.max_file_size (pos (length body))

  -- One attempt of `PutBytes`, and of `PutBytesIfNotExists`.
  unfoldable pub put_attempt : Context → Str → Bytes → sdk.State → Outcome × sdk.State
  put_attempt ctx key body s =
      let (r, s') = sdk.put_object ctx opt.bucket (path_key key) body s in
      (elim r [ ok _ ↦ nil | err e ↦ err (retryable (wrapped "failed to put object" e)) ], s')

  unfoldable pub put_bytes : Context → Str → Bytes → sdk.State → Outcome × sdk.State
  put_bytes ctx key body s =
      if too_large key body
      then (err file_too_large, s)
      else let ctx' = operation_context ctx in retry ctx' (put_attempt ctx' key body) s

  unfoldable pub head_attempt : Context → Str → sdk.State → Outcome × sdk.State
  head_attempt ctx key s =
      let (r, s') = sdk.head_object ctx opt.bucket (path_key key) s in
      (
        elim r [ ok _ ↦ nil | err e ↦ if is_not_found_error e then err e else err (retryable e) ],
        s',
      )

  unfoldable pub exists : Context → Str → sdk.State → Result Bool × sdk.State
  exists ctx key s =
      let ctx' = operation_context ctx in
      let (r, s') = retry ctx' (head_attempt ctx' key) s in
      (
        elim r [
          | ok _ ↦ ok true
          | err e ↦
              if is_not_found_error e then ok false else err (wrapped "failed to check object" e)
        ],
        s',
      )

  unfoldable pub put_bytes_if_not_exists :
      Context → Str → Bytes → sdk.State → Result Bool × sdk.State
  put_bytes_if_not_exists ctx key body s =
      if too_large key body
      then (err file_too_large, s)
      else let ctx' = operation_context ctx in
        let (found, s1) = exists ctx' key s in
        elim found [
          | err e ↦ (err (wrapped "failed to check existence before put" e), s1)
          | ok true ↦ (ok false, s1)
          | ok false ↦
              let (r, s2) = retry ctx' (put_attempt ctx' key body) s1 in
              (elim r [ ok _ ↦ ok true | err e ↦ err e ], s2)
        ]

  unfoldable pub get_attempt : Context → Str → sdk.State → Result Bytes × sdk.State
  get_attempt ctx key s =
      let (r, s') = sdk.get_object ctx opt.bucket (path_key key) s in
      (
        elim r [
          | ok body ↦ body
          | err e ↦ if is_not_found_error e then err e else err (retryable e)
        ],
        s',
      )

  unfoldable pub get_bytes : Context → Str → sdk.State → Result Bytes × sdk.State
  get_bytes ctx key s =
      let ctx' = operation_context ctx in
      let (r, s') = retry ctx' (get_attempt ctx' key) s in
      (
        elim r [
          | ok body ↦ ok body
          | err e ↦
              if is_not_found_error e then err not_exist else err (wrapped "failed to get object" e)
        ],
        s',
      )

  unfoldable pub delete_attempt : Context → Str → sdk.State → Outcome × sdk.State
  delete_attempt ctx key s =
      let (r, s') = sdk.delete_object ctx opt.bucket (path_key key) s in
      (elim r [ ok _ ↦ nil | err e ↦ err (retryable (wrapped "failed to delete object" e)) ], s')

  unfoldable pub remove : Context → Str → sdk.State → Outcome × sdk.State
  remove ctx key s = let ctx' = operation_context ctx in retry ctx' (delete_attempt ctx' key) s

  unfoldable pub copy_attempt : Context → Str → Str → sdk.State → Outcome × sdk.State
  copy_attempt ctx src dst s =
      let (r, s') =
        sdk.copy_object ctx opt.bucket (opt.bucket ++ (b'/' ∷ path_key src)) (path_key dst) s in
      (elim r [ ok _ ↦ nil | err e ↦ err (retryable (wrapped "failed to copy" e)) ], s')

  unfoldable pub copy : Context → Str → Str → sdk.State → Outcome × sdk.State
  copy ctx src dst s = let ctx' = operation_context ctx in retry ctx' (copy_attempt ctx' src dst) s

  -- The descriptors among the keys of a page.
  unfoldable pub descriptors : List Str → List FileDesc
  descriptors [] = []
  descriptors (key ∷ keys) =
      let rest = descriptors keys in
      elim (parse_file_desc (parse_s3_key key)) [ none ↦ rest | some fd ↦ fd ∷ rest ]

  -- The names behind the path, but for the path itself.
  unfoldable pub relative_names : List Str → List Str
  relative_names [] = []
  relative_names (key ∷ keys) =
      let rest = relative_names keys in
      let name = trim_prefix key path_prefix in
      if not (is_empty name) && not (str_eq key path_prefix) then name ∷ rest else rest

-- The pages, each read by `f`, up to the first error.
unfoldable pub read_pages :
    {A : Type 0} → (List Str → List A) → List (Result (List Str)) → Result (List A)
read_pages f [] = ok []
read_pages f (err e ∷ pages) = err (retryable e)
read_pages f (ok keys ∷ pages) = elim (read_pages f pages) [
  | ok rest ↦ ok (f keys ++ rest)
  | err e ↦ err e
]

module _ (sdk : Sdk) (opt : OpenOption) where
  unfoldable pub list_attempt : Context → sdk.State → Result (List FileDesc) × sdk.State
  unfolding read_pages
  list_attempt ctx s =
      let (pages, s') = sdk.list_objects ctx opt.bucket (path_prefix sdk opt) s in
      (read_pages (descriptors sdk opt) pages, s')

  unfoldable pub list : Context → sdk.State → Result (List FileDesc) × sdk.State
  list ctx s =
      let ctx' = operation_context sdk opt ctx in
      let (r, s') = retry sdk opt ctx' (list_attempt ctx') s in
      (wrap "failed to list objects" r, s')

  unfoldable pub list_names_attempt : Context → Str → sdk.State → Result (List Str) × sdk.State
  unfolding read_pages
  list_names_attempt ctx prefix s =
      let (pages, s') = sdk.list_objects ctx opt.bucket (path_prefix sdk opt ++ prefix) s in
      (read_pages (relative_names sdk opt) pages, s')

  unfoldable pub list_names : Context → Str → sdk.State → Result (List Str) × sdk.State
  list_names ctx prefix s =
      let ctx' = operation_context sdk opt ctx in
      let (r, s') = retry sdk opt ctx' (list_names_attempt ctx' prefix) s in
      (wrap "failed to list names" r, s')

  -- `S3Client` implements `S3ClientAPI`.
  abbrev pub s3_client : S3ClientApi
  s3_client = record {
    State = sdk.State;
    put_bytes = put_bytes sdk opt;
    put_bytes_if_not_exists = put_bytes_if_not_exists sdk opt;
    get_bytes = get_bytes sdk opt;
    remove = remove sdk opt;
    exists = exists sdk opt;
    list = list;
    copy = copy sdk opt;
    list_names = list_names;
  }
