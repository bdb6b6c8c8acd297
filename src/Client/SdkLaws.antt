-- ===== src/Client/SdkLaws.antt =====
-- What the client relies on of the AWS SDK, with nobody else writing to the bucket: a request that
-- succeeds has its effect, one that fails touches its own key at most, and only the two errors that
-- `isNotFoundError` knows say that an object is missing.
use levels.Base.{
  Among, List, [], Bool, false, ℕ, ◌≡◌, refl, ◌≢◌, ◌∙◌, true, false, Option, none, some, ◌∷◌, ◌++◌,
  Str, Bytes, append-injective,
}
use levels.Failure.{GoError, Result, ok, err, nil, is_not_found_error}
use levels.Config.{OpenOption}
use levels.Retry.Ends.{Stays, with_retry-Ends}
use levels.Client.{Context, is_some}
use levels.Client.S3Client.{Sdk, path_key, retry}

-- The keys of the pages of a listing, and whether every page was read.
abbrev pub contents : List (Result (List Str)) → List Str
contents [] = []
contents (ok keys ∷ pages) = keys ++ contents pages
contents (err e ∷ pages) = contents pages

abbrev pub all_read : List (Result (List Str)) → Bool
all_read [] = true
all_read (ok keys ∷ pages) = all_read pages
all_read (err e ∷ pages) = false

-- `stored s b k` is the object under the key `k` of the bucket `b`.
pub record IsLawfulSdk (sdk : Sdk) (stored : sdk.State → Str → Str → Option Bytes) : Type 0 where
  pub put_ok :
      (ctx : Context) (b k : Str) (d : Bytes) (s : sdk.State)
      → (sdk.put_object ctx b k d s).0 ≡ nil
      → stored (sdk.put_object ctx b k d s).1 b k ≡ some d
  pub put_other :
      (ctx : Context) (b k : Str) (d : Bytes) (s : sdk.State) (j : Str)
      → j ≢ k
      → stored (sdk.put_object ctx b k d s).1 b j ≡ stored s b j
  pub get_ok :
      (ctx : Context) (b k : Str) (s : sdk.State) (d : Bytes)
      → (sdk.get_object ctx b k s).0 ≡ ok (ok d)
      → stored s b k ≡ some d
  pub get_missing :
      (ctx : Context) (b k : Str) (s : sdk.State) (e : GoError)
      → (sdk.get_object ctx b k s).0 ≡ err e
      → is_not_found_error e ≡ true
      → stored s b k ≡ none
  -- Reading the body of an answer does not fail for a missing object.
  pub get_body :
      (ctx : Context) (b k : Str) (s : sdk.State) (e : GoError)
      → (sdk.get_object ctx b k s).0 ≡ ok (err e)
      → is_not_found_error e ≡ false
  pub get_keeps :
      (ctx : Context) (b k : Str) (s : sdk.State) (j : Str)
      → stored (sdk.get_object ctx b k s).1 b j ≡ stored s b j
  pub delete_ok :
      (ctx : Context) (b k : Str) (s : sdk.State)
      → (sdk.delete_object ctx b k s).0 ≡ nil
      → stored (sdk.delete_object ctx b k s).1 b k ≡ none
  pub delete_other :
      (ctx : Context) (b k : Str) (s : sdk.State) (j : Str)
      → j ≢ k
      → stored (sdk.delete_object ctx b k s).1 b j ≡ stored s b j
  pub head_ok :
      (ctx : Context) (b k : Str) (s : sdk.State)
      → (sdk.head_object ctx b k s).0 ≡ nil
      → is_some (stored s b k) ≡ true
  pub head_missing :
      (ctx : Context) (b k : Str) (s : sdk.State) (e : GoError)
      → (sdk.head_object ctx b k s).0 ≡ err e
      → is_not_found_error e ≡ true
      → stored s b k ≡ none
  pub head_keeps :
      (ctx : Context) (b k : Str) (s : sdk.State) (j : Str)
      → stored (sdk.head_object ctx b k s).1 b j ≡ stored s b j
  pub copy_ok :
      (ctx : Context) (b src dst : Str) (s : sdk.State)
      → (sdk.copy_object ctx b (b ++ (b'/' ∷ src)) dst s).0 ≡ nil
      → (stored s b src ≢ none)
        × (stored (sdk.copy_object ctx b (b ++ (b'/' ∷ src)) dst s).1 b dst ≡ stored s b src)
  pub copy_other :
      (ctx : Context) (b src dst : Str) (s : sdk.State) (j : Str)
      → j ≢ dst
      → stored (sdk.copy_object ctx b src dst s).1 b j ≡ stored s b j
  pub list_keeps :
      (ctx : Context) (b prefix : Str) (s : sdk.State) (j : Str)
      → stored (sdk.list_objects ctx b prefix s).1 b j ≡ stored s b j
  -- A listing that is read to its end has the keys below the prefix.
  pub list_sound :
      (ctx : Context) (b prefix : Str) (s : sdk.State) (k : Str)
      → let pages = (sdk.list_objects ctx b prefix s).0 in
        all_read pages ≡ true
        → Among k (contents pages)
        → (is_some (stored s b k) ≡ true) × ((rest : Str) × (k ≡ prefix ++ rest))
  pub list_complete :
      (ctx : Context) (b prefix : Str) (s : sdk.State) (rest : Str)
      → let pages = (sdk.list_objects ctx b prefix s).0 in
        all_read pages ≡ true
        → is_some (stored s b (prefix ++ rest)) ≡ true
        → Among (prefix ++ rest) (contents pages)
  pub wait_keeps :
      (ctx : Context) (n : ℕ) (s : sdk.State) (b j : Str)
      → let T = sdk.timer ctx in stored (T.wait n s).1 b j ≡ stored s b j
  pub int63n_keeps :
      (ctx : Context) (n : ℕ) (s : sdk.State) (b j : Str)
      → let T = sdk.timer ctx in stored (T.int63n n s).1 b j ≡ stored s b j
  pub ctx_err :
      (ctx : Context) (s : sdk.State) (e : GoError)
      → let T = sdk.timer ctx in T.ctx_err s ≡ some e → is_not_found_error e ≡ false

module _ (sdk : Sdk) (opt : OpenOption) where
  pub path_key-injective : (j k : Str) → path_key sdk opt j ≡ path_key sdk opt k → j ≡ k
  unfolding path_key
  path_key-injective j k e = let same = append-injective opt.path _ _ e in cc

module _ (sdk : Sdk) (opt : OpenOption) (stored : sdk.State → Str → Str → Option Bytes) where
  -- What the client keeps under a key of its own.
  abbrev pub object : sdk.State → Str → Option Bytes
  object s k = stored s opt.bucket (path_key sdk opt k)

  -- Two states hold the same at the keys of a set.
  abbrev pub Agrees : (Str → Type 0) → sdk.State → sdk.State → Type 0
  Agrees D s s' = (j : Str) → D j → object s' j ≡ object s j

  module _ (lawful : IsLawfulSdk sdk stored) {A : Type 0} (ctx : Context)
      (fn : sdk.State → Result A × sdk.State) (D : Str → Type 0) (s : sdk.State)
      (R : Result A → sdk.State → Type 0) where
    Agrees-Stays : Stays (sdk.timer ctx) (Agrees D s)
    Agrees-Stays = record {
      at_wait = λ n t p j h. lawful.wait_keeps ctx n t _ _ ∙ p j h;
      at_int63n = λ n t p j h. lawful.int63n_keeps ctx n t _ _ ∙ p j h;
      ctx_err = λ t e. lawful.ctx_err ctx t e;
    }

    -- The rule for a retried request, from what one attempt keeps and gives.
    pub retry-Agrees :
        ((t : sdk.State) → Agrees D s t → Agrees D t (fn t).1)
        → ((t : sdk.State) → Agrees D s t → R (fn t).0 (fn t).1)
        → ((t : sdk.State) (e : GoError)
            → is_not_found_error e ≡ false
            → Agrees D s t
            → R (err e) t)
        → let (r, t') = retry sdk opt ctx fn s in Agrees D s t' × R r t'
    retry-Agrees keeps gives fails =
        with_retry-Ends (sdk.timer ctx) fn (Agrees D s) R Agrees-Stays
          (λ t p j h. keeps t p j h ∙ p j h) gives fails opt.retry_max_attempts opt.retry_base_delay
          s (λ j h. refl)
