-- ===== src/Client/Listing.antt =====
-- What `List` and `ListNames` of `S3Client` return: the descriptors and the names of the objects.
use mathlib.Core.List.{append-nil, append_assoc}
use levels.Base.{
  subst, ◌≡◌, ◌≢◌, refl, sym, ap, ◌∙◌, true, false, Option, some, List, [], ◌∷◌, ◌++◌, Str, Bytes,
  Bool-cases, Option-cases, inl, inr, arith, Among, trim_prefix, strip_prefix-append, is_empty,
  str_eq, ◌&&◌, append-injective, not,
}
use levels.Failure.{Result, ok, err, Result-cases}
use levels.FileDesc.{FileDesc, parse_file_desc, parse_s3_key, has_slash}
use levels.Config.{OpenOption}
use levels.Client.{Context, is_some}
use levels.Client.S3Client.{
  Sdk, path_key, path_prefix, operation_context, retry, descriptors, relative_names, read_pages,
  list_attempt, list, list_names_attempt, list_names,
}
use levels.Client.SdkLaws.{IsLawfulSdk, object, contents, all_read, retry-Agrees}

-- A reader of pages goes through their keys from the first to the last.
read_pages-contents :
    {A : Type 0} (f : List Str → List A) (pages : List (Result (List Str))) (r : List A)
    → f [] ≡ []
    → ((xs ys : List Str) → f (xs ++ ys) ≡ f xs ++ f ys)
    → read_pages f pages ≡ ok r
    → (all_read pages ≡ true) × (r ≡ f (contents pages))
unfolding read_pages
read_pages-contents f [] r start joins h = (refl, ground (arith, h, start))
read_pages-contents f (err e ∷ pages) r start joins h = absurd (ground (arith, h))
read_pages-contents f (ok keys ∷ pages) r start joins h = elim (Result-cases (read_pages f pages)) [
  | inr (e, failed) ↦ absurd (ground (arith, h, failed))
  | inl (rest, done) ↦
      let (whole, same) = read_pages-contents f pages rest start joins done in
      let mine : r ≡ f keys ++ rest = ground (arith, h, done) in
      (whole, mine ∙ ap (λ xs. f keys ++ xs) same ∙ sym (joins keys (contents pages)))
]

-- The name of an object does not depend on the path that stands before it.
has_slash-append : (p k : Str) → has_slash (p ++ (b'/' ∷ k)) ≡ true
unfolding has_slash
has_slash-append [] k = ground arith
has_slash-append (c ∷ p) k = ground (arith, has_slash-append p k)

parse_s3_key-plain : (k : Str) → has_slash k ≡ false → parse_s3_key k ≡ k
unfolding has_slash parse_s3_key
parse_s3_key-plain [] h = refl
parse_s3_key-plain (c ∷ k) h = ground (arith, h)

parse_s3_key-path : (p k : Str) → parse_s3_key (p ++ (b'/' ∷ k)) ≡ parse_s3_key k
unfolding parse_s3_key
parse_s3_key-path [] k = ground (arith, parse_s3_key-plain k)
parse_s3_key-path (c ∷ p) k = ground (arith, has_slash-append p k, parse_s3_key-path p k)

module _ (sdk : Sdk) (opt : OpenOption) where
  descriptors-append :
      (xs ys : List Str)
      → descriptors sdk opt (xs ++ ys) ≡ descriptors sdk opt xs ++ descriptors sdk opt ys
  unfolding descriptors
  descriptors-append [] ys = refl
  descriptors-append (key ∷ xs) ys = ground (arith, descriptors-append xs ys)

  relative_names-append :
      (xs ys : List Str)
      → relative_names sdk opt (xs ++ ys) ≡ relative_names sdk opt xs ++ relative_names sdk opt ys
  unfolding relative_names
  relative_names-append [] ys = refl
  relative_names-append (key ∷ xs) ys = ground (arith, relative_names-append xs ys)

  -- A descriptor, with the key that gives it.
  abbrev Given : FileDesc → List Str → Type 0
  Given fd keys = (key : Str) × Among key keys × (parse_file_desc (parse_s3_key key) ≡ some fd)

  later : (fd : FileDesc) (key : Str) (keys : List Str) → Given fd keys → Given fd (key ∷ keys)
  later fd key keys (k, there, parsed) = (k, inr there, parsed)

  descriptors_sound :
      (fd : FileDesc) (keys : List Str) → Among fd (descriptors sdk opt keys) → Given fd keys
  unfolding descriptors
  descriptors_sound fd [] h = absurd h
  descriptors_sound fd (key ∷ keys) h = elim (Option-cases (parse_file_desc (parse_s3_key key))) [
    | inl other ↦ later fd key keys (descriptors_sound fd keys (rw (other, descriptors) at h))
    | inr (fd', parsed) ↦ elim (rw (parsed, descriptors) at h) as (λ x. Given fd (key ∷ keys)) [
      | inl e ↦ (key, inl refl, parsed ∙ ap some (sym e))
      | inr there ↦ later fd key keys (descriptors_sound fd keys there)
    ]
  ]

  descriptors_complete :
      (fd : FileDesc) (key : Str) (keys : List Str)
      → Among key keys
      → parse_file_desc (parse_s3_key key) ≡ some fd
      → Among fd (descriptors sdk opt keys)
  unfolding descriptors
  descriptors_complete fd key [] h parsed = absurd h
  descriptors_complete fd key (k ∷ keys) (inl e) parsed =
      let mine : parse_file_desc (parse_s3_key k) ≡ some fd = rw (← e) parsed in
      rw (mine, Among) (inl refl)
  descriptors_complete fd key (k ∷ keys) (inr h) parsed =
      let rest = descriptors_complete fd key keys h parsed in
      elim (Option-cases (parse_file_desc (parse_s3_key k))) [
        | inl other ↦ rw (other, descriptors) rest
        | inr (fd', there) ↦ rw (there, Among) (inr rest)
      ]

  path_prefix-append : (k : Str) → path_prefix sdk opt ++ k ≡ path_key sdk opt k
  unfolding path_prefix path_key
  path_prefix-append k = append_assoc opt.path (b'/' ∷ []) k

  trim_prefix-path_key : (k : Str) → trim_prefix (path_key sdk opt k) (path_prefix sdk opt) ≡ k
  unfolding trim_prefix
  trim_prefix-path_key k =
      rw (← path_prefix-append k)
        (rw (strip_prefix-append (path_prefix sdk opt) k, trim_prefix) refl)

  nonempty_key : (k : Str) → k ≢ [] → path_key sdk opt k ≢ path_prefix sdk opt
  unfolding path_key path_prefix
  nonempty_key k more e =
      let same : k ≡ [] =
        append-injective (path_prefix sdk opt) k []
          (path_prefix-append k ∙ e ∙ sym (append-nil _)) in
      more same

  -- The name of a key below the path.
  abbrev Named : Str → List Str → Type 0
  Named n keys = (key : Str) × Among key keys × (n ≡ trim_prefix key (path_prefix sdk opt))

  further : (n key : Str) (keys : List Str) → Named n keys → Named n (key ∷ keys)
  further n key keys (k, there, named) = (k, inr there, named)

  relative_names_sound :
      (n : Str) (keys : List Str) → Among n (relative_names sdk opt keys) → Named n keys
  unfolding relative_names
  relative_names_sound n [] h = absurd h
  relative_names_sound n (key ∷ keys) h =
      let n' = trim_prefix key (path_prefix sdk opt) in
      elim (Bool-cases (not (is_empty n') && not (str_eq key (path_prefix sdk opt)))) [
        | inr unnamed ↦
            further n key keys (relative_names_sound n keys (rw (unnamed, relative_names) at h))
        | inl counts ↦ elim (rw (counts, relative_names) at h) as (λ x. Named n (key ∷ keys)) [
          | inl e ↦ (key, inl refl, e)
          | inr there ↦ further n key keys (relative_names_sound n keys there)
        ]
      ]

  relative_names_complete :
      (n : Str) (keys : List Str)
      → n ≢ []
      → Among (path_key sdk opt n) keys
      → Among n (relative_names sdk opt keys)
  unfolding relative_names
  relative_names_complete n [] more h = absurd h
  relative_names_complete n (key ∷ keys) more (inl e) =
      let named : trim_prefix key (path_prefix sdk opt) ≡ n = rw (← e) (trim_prefix-path_key n) in
      let counts : (not (is_empty n) && not (str_eq key (path_prefix sdk opt))) ≡ true =
        ground
          (arith, more, λ (same : key ≡ path_prefix sdk opt). nonempty_key n more (e ∙ same)) in
      rw (named, counts, Among) (inl refl)
  relative_names_complete n (key ∷ keys) more (inr h) =
      let rest = relative_names_complete n keys more h in
      let n' = trim_prefix key (path_prefix sdk opt) in
      elim (Bool-cases (not (is_empty n') && not (str_eq key (path_prefix sdk opt)))) [
        | inl counts ↦ rw (counts, Among) (inr rest)
        | inr unnamed ↦ rw (unnamed, Among) rest
      ]

module _ (sdk : Sdk) (opt : OpenOption) (stored : sdk.State → Str → Str → Option Bytes)
    (lawful : IsLawfulSdk sdk stored) where
  abbrev at : sdk.State → Str → Option Bytes
  at = object sdk opt stored

  -- The descriptors are those that the names of the objects give.
  abbrev pub Lists : sdk.State → List FileDesc → Type 0
  Lists s fds =
      ((fd : FileDesc)
        → Among fd fds
        → (k : Str) × (is_some (at s k) ≡ true) × (parse_file_desc (parse_s3_key k) ≡ some fd))
      × ((fd : FileDesc) (k : Str)
          → is_some (at s k) ≡ true
          → parse_file_desc (parse_s3_key k) ≡ some fd
          → Among fd fds)

  -- The names are those of the objects below the prefix.
  abbrev pub Names : Str → sdk.State → List Str → Type 0
  Names prefix s names =
      ((n : Str)
        → Among n names
        → (is_some (at s n) ≡ true) × ((rest : Str) × (n ≡ prefix ++ rest)))
      × ((rest n : Str) → n ≡ prefix ++ rest → n ≢ [] → is_some (at s n) ≡ true → Among n names)

  list_attempt-Lists :
      (ctx : Context) (s : sdk.State) (fds : List FileDesc)
      → (list_attempt sdk opt ctx s).0 ≡ ok fds
      → Lists s fds
  unfolding list_attempt descriptors path_key
  list_attempt-Lists ctx s fds h =
      let prefix = path_prefix sdk opt in
      let pages = (sdk.list_objects ctx opt.bucket prefix s).0 in
      let (whole, same) =
        read_pages-contents (descriptors sdk opt) pages fds refl (descriptors-append sdk opt) h in
      (
        λ fd among.
            let (key, there, parsed) =
              descriptors_sound sdk opt fd (contents pages) (subst (Among fd) same among) in
            let (held, (k, e)) = lawful.list_sound ctx opt.bucket prefix s key whole there in
            let path : key ≡ path_key sdk opt k = e ∙ path_prefix-append sdk opt k in
            (
              k,
              subst (λ x. is_some (stored s opt.bucket x) ≡ true) path held,
              sym (parse_file_desc-path key k path) ∙ parsed,
            ),
        λ fd k held parsed.
            let path = path_prefix-append sdk opt k in
            let there =
              lawful.list_complete ctx opt.bucket prefix s k whole
                (subst (λ x. is_some (stored s opt.bucket x) ≡ true) (sym path) held) in
            subst (Among fd) (sym same) (
              descriptors_complete sdk opt fd (prefix ++ k) (contents pages) there
                (parse_file_desc-path (prefix ++ k) k path ∙ parsed)),
      )
    where
      parse_file_desc-path :
          (key k : Str)
          → key ≡ path_key sdk opt k
          → parse_file_desc (parse_s3_key key) ≡ parse_file_desc (parse_s3_key k)
      parse_file_desc-path key k e =
          ap (λ x. parse_file_desc (parse_s3_key x)) e
          ∙ ap parse_file_desc (parse_s3_key-path opt.path k)

  list_names_attempt-Names :
      (ctx : Context) (prefix : Str) (s : sdk.State) (names : List Str)
      → (list_names_attempt sdk opt ctx prefix s).0 ≡ ok names
      → Names prefix s names
  unfolding list_names_attempt relative_names
  list_names_attempt-Names ctx prefix s names h =
      let root = path_prefix sdk opt in
      let pages = (sdk.list_objects ctx opt.bucket (root ++ prefix) s).0 in
      let (whole, same) =
        read_pages-contents (relative_names sdk opt) pages names refl
          (relative_names-append sdk opt) h in
      let path = λ (rest : Str).
        append_assoc root prefix rest ∙ path_prefix-append sdk opt (prefix ++ rest) in
      (
        λ n among.
            let (key, there, named) =
              relative_names_sound sdk opt n (contents pages) (subst (Among n) same among) in
            let (held, (rest, e)) =
              lawful.list_sound ctx opt.bucket (root ++ prefix) s key whole there in
            let below = e ∙ path rest in
            let n_is : n ≡ prefix ++ rest =
              named
              ∙ ap (λ x. trim_prefix x root) below
              ∙ trim_prefix-path_key sdk opt (prefix ++ rest) in
            (
              subst (λ x. is_some (stored s opt.bucket x) ≡ true)
                  (below ∙ ap (path_key sdk opt) (sym n_is)) held,
              (rest, n_is),
            ),
        λ rest n n_is more held.
            let below : (root ++ prefix) ++ rest ≡ path_key sdk opt n =
              path rest ∙ ap (path_key sdk opt) (sym n_is) in
            let there =
              lawful.list_complete ctx opt.bucket (root ++ prefix) s rest whole
                (subst (λ x. is_some (stored s opt.bucket x) ≡ true) (sym below) held) in
            subst (Among n) (sym same) (
              relative_names_complete sdk opt n (contents pages) more
                (subst (λ x. Among x (contents pages)) below there)),
      )

  pub list_lem :
      (ctx : Context) (s : sdk.State) (fds : List FileDesc)
      → (list sdk opt ctx s).0 ≡ ok fds
      → Lists s fds
  unfolding list
  list_lem ctx s fds h =
      let ctx' = operation_context sdk opt ctx in
      let r = (retry sdk opt ctx' (list_attempt sdk opt ctx') s).0 in
      let whole =
        retry-Agrees sdk opt stored lawful ctx' (list_attempt sdk opt ctx') (λ j. Unit) s
          (λ r t. (fds : List FileDesc) → r ≡ ok fds → Lists s fds)
          (λ t p j u. unfold list_attempt in lawful.list_keeps ctx' opt.bucket _ t _)
          (λ t p fds e.
            let here = list_attempt-Lists ctx' t fds e in
            (
              λ fd among.
                  let (k, held, parsed) = here.0 fd among in
                  (k, ap is_some (sym (p k tt)) ∙ held, parsed),
              λ fd k held parsed. here.1 fd k (ap is_some (p k tt) ∙ held) parsed,
            ))
          (λ t e missing p fds f. absurd (ground (arith, f))) in
      elim (Result-cases r) [
        | inl (xs, done) ↦ whole.1 fds (ground (arith, h, done))
        | inr (e, failed) ↦ absurd (ground (arith, h, failed))
      ]

  pub list_names_lem :
      (ctx : Context) (prefix : Str) (s : sdk.State) (names : List Str)
      → (list_names sdk opt ctx prefix s).0 ≡ ok names
      → Names prefix s names
  unfolding list_names
  list_names_lem ctx prefix s names h =
      let ctx' = operation_context sdk opt ctx in
      let r = (retry sdk opt ctx' (list_names_attempt sdk opt ctx' prefix) s).0 in
      let whole =
        retry-Agrees sdk opt stored lawful ctx' (list_names_attempt sdk opt ctx' prefix) (λ j. Unit)
          s (λ r t. (names : List Str) → r ≡ ok names → Names prefix s names)
          (λ t p j u. unfold list_names_attempt in lawful.list_keeps ctx' opt.bucket _ t _)
          (λ t p names e.
            let here = list_names_attempt-Names ctx' prefix t names e in
            (
              λ n among.
                  let (held, below) = here.0 n among in (ap is_some (sym (p n tt)) ∙ held, below),
              λ rest n e more held. here.1 rest n e more (ap is_some (p n tt) ∙ held),
            ))
          (λ t e missing p names f. absurd (ground (arith, f))) in
      elim (Result-cases r) [
        | inl (xs, done) ↦ whole.1 names (ground (arith, h, done))
        | inr (e, failed) ↦ absurd (ground (arith, h, failed))
      ]
