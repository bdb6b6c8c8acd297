-- ===== src/Client/Lawful.antt =====
-- `S3Client` has the laws that its callers rely on, over a lawful SDK. Each request is retried, and a
-- failed attempt may or may not have had its effect.
use levels.Base.{
  ◌≡◌, ◌≢◌, refl, ◌∙◌, Bool, true, false, Option, none, some, Str, Bytes, Bool-cases, inl, inr,
  arith,
}
use levels.Failure.{GoError, ok, err, nil, not_exist, is_not_found_error, Result-cases}
use levels.Config.{OpenOption}
use levels.Client.{Context, IsLawful, is_some, is_some-ne-none, is_some-eq-none}
use levels.Client.S3Client.{
  Sdk, path_key, operation_context, retry, too_large, put_attempt, put_bytes, head_attempt, exists,
  put_bytes_if_not_exists, get_attempt, get_bytes, delete_attempt, remove, copy_attempt, copy, list,
  list_attempt, list_names, list_names_attempt, s3_client,
}
use levels.Client.SdkLaws.{IsLawfulSdk, object, Agrees, retry-Agrees, path_key-injective}

module _ (sdk : Sdk) (opt : OpenOption) (stored : sdk.State → Str → Str → Option Bytes)
    (lawful : IsLawfulSdk sdk stored) where
  abbrev at : sdk.State → Str → Option Bytes
  at = object sdk opt stored

  abbrev Same : (Str → Type 0) → sdk.State → sdk.State → Type 0
  Same = Agrees sdk opt stored

  abbrev Other : Str → Str → Type 0
  Other k j = j ≢ k

  abbrev Any : Str → Type 0
  Any j = Unit

  other_path : {j k : Str} → j ≢ k → path_key sdk opt j ≢ path_key sdk opt k
  other_path ne e = ne (path_key-injective sdk opt _ _ e)

  put_retried :
      (ctx : Context) (k : Str) (d : Bytes) (s : sdk.State)
      → let (r, t) = retry sdk opt ctx (put_attempt sdk opt ctx k d) s in
        Same (Other k) s t × (r ≡ nil → at t k ≡ some d)
  unfolding put_attempt
  put_retried ctx k d s =
      retry-Agrees sdk opt stored lawful ctx (put_attempt sdk opt ctx k d) (Other k) s
        (λ r t. r ≡ nil → at t k ≡ some d)
        (λ t p j h. lawful.put_other ctx opt.bucket (path_key sdk opt k) d t _ (other_path h))
        (λ t p h. ground (arith, lawful.put_ok ctx opt.bucket (path_key sdk opt k) d t))
        (λ t e ne p h. cc)

  put_bytes_lem :
      (ctx : Context) (k : Str) (d : Bytes) (s : sdk.State)
      → let (r, t) = put_bytes sdk opt ctx k d s in Same (Other k) s t × (r ≡ nil → at t k ≡ some d)
  unfolding put_bytes
  put_bytes_lem ctx k d s = elim (Bool-cases (too_large sdk opt k d)) [
    | inl large ↦ rw (large, put_bytes) (λ j h. refl, λ h. cc)
    | inr fits ↦ rw (fits, put_bytes) (put_retried (operation_context sdk opt ctx) k d s)
  ]

  remove_lem :
      (ctx : Context) (k : Str) (s : sdk.State)
      → let (r, t) = remove sdk opt ctx k s in Same (Other k) s t × (r ≡ nil → at t k ≡ none)
  unfolding remove delete_attempt
  remove_lem ctx k s =
      let ctx' = operation_context sdk opt ctx in
      retry-Agrees sdk opt stored lawful ctx' (delete_attempt sdk opt ctx' k) (Other k) s
        (λ r t. r ≡ nil → at t k ≡ none)
        (λ t p j h. lawful.delete_other ctx' opt.bucket (path_key sdk opt k) t _ (other_path h))
        (λ t p h. ground (arith, lawful.delete_ok ctx' opt.bucket (path_key sdk opt k) t))
        (λ t e ne p h. cc)

  copy_lem :
      (ctx : Context) (src dst : Str) (s : sdk.State)
      → let (r, t) = copy sdk opt ctx src dst s in
        Same (Other dst) s t × (src ≢ dst → r ≡ nil → (at s src ≢ none) × (at t dst ≡ at s src))
  unfolding copy copy_attempt
  copy_lem ctx src dst s =
      let ctx' = operation_context sdk opt ctx in
      retry-Agrees sdk opt stored lawful ctx' (copy_attempt sdk opt ctx' src dst) (Other dst) s
        (λ r t. src ≢ dst → r ≡ nil → (at s src ≢ none) × (at t dst ≡ at s src))
        (λ t p j h. lawful.copy_other ctx' opt.bucket _ (path_key sdk opt dst) t _ (other_path h))
        (λ t p ne h.
          let done =
            lawful.copy_ok ctx' opt.bucket (path_key sdk opt src) (path_key sdk opt dst) t
              (ground arith) in
          (rw (← p src ne) done.0, done.1 ∙ p src ne))
        (λ t e nf p ne h. absurd (cc))

  get_retried :
      (ctx : Context) (k : Str) (s : sdk.State)
      → let (r, t) = retry sdk opt ctx (get_attempt sdk opt ctx k) s in
        Same Any s t
        × (((d : Bytes) → r ≡ ok d → at s k ≡ some d)
            × ((e : GoError) → r ≡ err e → is_not_found_error e ≡ true → at s k ≡ none))
  unfolding get_attempt is_not_found_error
  get_retried ctx k s =
      let key = path_key sdk opt k in
      retry-Agrees sdk opt stored lawful ctx (get_attempt sdk opt ctx k) Any s
        (λ r t.
          ((d : Bytes) → r ≡ ok d → at s k ≡ some d)
          × ((e : GoError) → r ≡ err e → is_not_found_error e ≡ true → at s k ≡ none))
        (λ t p j h. lawful.get_keeps ctx opt.bucket key t _)
        (λ t p. (
          λ d h. rw (← p k tt) (lawful.get_ok ctx opt.bucket key t d (ground arith)),
          λ e h nf. rw (← p k tt) (
              lawful.get_missing ctx opt.bucket key t e
                (ground (arith, lawful.get_body ctx opt.bucket key t e)) nf),
        ))
        (λ t e ne p. (λ d h. cc, λ e' h nf. ground arith))

  get_bytes_lem :
      (ctx : Context) (k : Str) (s : sdk.State)
      → let (r, t) = get_bytes sdk opt ctx k s in
        Same Any s t
        × ((d : Bytes) → r ≡ ok d → at s k ≡ some d)
        × (r ≡ err not_exist → at s k ≡ none)
  unfolding get_bytes
  get_bytes_lem ctx k s =
      let ctx' = operation_context sdk opt ctx in
      let facts = get_retried ctx' k s in
      (
        facts.0,
        λ d h. facts.1.0 d (ground arith),
        λ h. elim (Result-cases (retry sdk opt ctx' (get_attempt sdk opt ctx' k) s).0) [
          | inl (d, r) ↦ ground arith
          | inr (e, r) ↦ ground (arith, facts.1.1 e r)
        ],
      )

  head_retried :
      (ctx : Context) (k : Str) (s : sdk.State)
      → let (r, t) = retry sdk opt ctx (head_attempt sdk opt ctx k) s in
        Same Any s t
        × ((r ≡ nil → is_some (at s k) ≡ true)
            × ((e : GoError) → r ≡ err e → is_not_found_error e ≡ true → is_some (at s k) ≡ false))
  unfolding head_attempt is_not_found_error
  head_retried ctx k s =
      let key = path_key sdk opt k in
      retry-Agrees sdk opt stored lawful ctx (head_attempt sdk opt ctx k) Any s
        (λ r t.
          (r ≡ nil → is_some (at s k) ≡ true)
          × ((e : GoError) → r ≡ err e → is_not_found_error e ≡ true → is_some (at s k) ≡ false))
        (λ t p j h. lawful.head_keeps ctx opt.bucket key t _)
        (λ t p. (
          λ h. rw (← p k tt) (lawful.head_ok ctx opt.bucket key t (ground arith)),
          λ e h nf.
              rw (← p k tt) (rw (lawful.head_missing ctx opt.bucket key t e (ground arith) nf)),
        ))
        (λ t e ne p. (λ h. cc, λ e' h nf. ground arith))

  exists_lem :
      (ctx : Context) (k : Str) (s : sdk.State)
      → let (r, t) = exists sdk opt ctx k s in
        Same Any s t × ((b : Bool) → r ≡ ok b → is_some (at s k) ≡ b)
  unfolding exists
  exists_lem ctx k s =
      let ctx' = operation_context sdk opt ctx in
      let facts = head_retried ctx' k s in
      (
        facts.0,
        λ b h. elim (Result-cases (retry sdk opt ctx' (head_attempt sdk opt ctx' k) s).0) [
          | inl (u, r) ↦ ground (arith, facts.1.0)
          | inr (e, r) ↦ ground (arith, facts.1.1 e r)
        ],
      )

  put_new_lem :
      (ctx : Context) (k : Str) (d : Bytes) (s : sdk.State)
      → let (r, t) = put_bytes_if_not_exists sdk opt ctx k d s in
        Same (Other k) s t
        × (r ≡ ok true → (at s k ≡ none) × (at t k ≡ some d))
        × (r ≡ ok false → (at s k ≢ none) × (at t k ≡ at s k))
  unfolding put_bytes_if_not_exists
  put_new_lem ctx k d s =
      let ctx' = operation_context sdk opt ctx in
      let (found, s1) = exists sdk opt ctx' k s in
      let look = exists_lem ctx' k s in
      let put = put_retried ctx' k d s1 in
      elim (Bool-cases (too_large sdk opt k d)) [
        | inl large ↦
            rw (large, put_bytes_if_not_exists) (λ j h. refl, λ h. absurd (cc), λ h. absurd (cc))
        | inr fits ↦ elim (Result-cases found) [
          | inr (e, r) ↦
              rw (fits, put_bytes_if_not_exists, r)
                (λ j h. look.0 j tt, λ h. absurd (cc), λ h. absurd (cc))
          | inl (true, r) ↦
              rw (fits, put_bytes_if_not_exists, r)
                (
                  λ j h. look.0 j tt,
                  λ h. absurd (cc),
                  λ h. (is_some-ne-none _ (look.1 true r), look.0 k tt),
                )
          | inl (false, r) ↦
              elim (Result-cases (retry sdk opt ctx' (put_attempt sdk opt ctx' k d) s1).0) [
                | inl (u, p) ↦
                    rw (fits, put_bytes_if_not_exists, r, p)
                      (
                        λ j h. put.0 j h ∙ look.0 j tt,
                        λ h. (is_some-eq-none _ (look.1 false r), put.1 p),
                        λ h. absurd (cc),
                      )
                | inr (e, p) ↦
                    rw (fits, put_bytes_if_not_exists, r, p)
                      (λ j h. put.0 j h ∙ look.0 j tt, λ h. absurd (cc), λ h. absurd (cc))
              ]
        ]
      ]

  list_keeps_lem : (ctx : Context) (s : sdk.State) → Same Any s (list sdk opt ctx s).1
  unfolding list list_attempt
  list_keeps_lem ctx s =
      let ctx' = operation_context sdk opt ctx in
      (retry-Agrees sdk opt stored lawful ctx' (list_attempt sdk opt ctx') Any s (λ r t. Unit)
        (λ t p j h. lawful.list_keeps ctx' opt.bucket _ t _) (λ t p. tt) (λ t e ne p. tt)).0

  list_names_keeps_lem :
      (ctx : Context) (prefix : Str) (s : sdk.State)
      → Same Any s (list_names sdk opt ctx prefix s).1
  unfolding list_names list_names_attempt
  list_names_keeps_lem ctx prefix s =
      let ctx' = operation_context sdk opt ctx in
      (retry-Agrees sdk opt stored lawful ctx' (list_names_attempt sdk opt ctx' prefix) Any s
        (λ r t. Unit) (λ t p j h. lawful.list_keeps ctx' opt.bucket _ t _) (λ t p. tt)
        (λ t e ne p. tt)).0

  -- A success has the effect that the operation is named for, a missing object is told from a
  -- failure, and no other key changes.
  pub s3_client-IsLawful : IsLawful (s3_client sdk opt) (object sdk opt stored)
  s3_client-IsLawful = record {
    put_ok = λ ctx k d s. (put_bytes_lem ctx k d s).1;
    put_other = λ ctx k d s. (put_bytes_lem ctx k d s).0;
    put_new_ok = λ ctx k d s. (put_new_lem ctx k d s).1;
    put_new_kept = λ ctx k d s. (put_new_lem ctx k d s).2;
    put_new_other = λ ctx k d s. (put_new_lem ctx k d s).0;
    get_ok = λ ctx k s. (get_bytes_lem ctx k s).1;
    get_missing = λ ctx k s. (get_bytes_lem ctx k s).2;
    get_keeps = λ ctx k s j. (get_bytes_lem ctx k s).0 j tt;
    exists_ok = λ ctx k s. (exists_lem ctx k s).1;
    exists_keeps = λ ctx k s j. (exists_lem ctx k s).0 j tt;
    remove_ok = λ ctx k s. (remove_lem ctx k s).1;
    remove_other = λ ctx k s. (remove_lem ctx k s).0;
    copy_ok = λ ctx src dst s ne. (copy_lem ctx src dst s).1 ne;
    copy_other = λ ctx src dst s. (copy_lem ctx src dst s).0;
    list_keeps = λ ctx s j. list_keeps_lem ctx s j tt;
    list_names_keeps = λ ctx prefix s j. list_names_keeps_lem ctx prefix s j tt;
  }
