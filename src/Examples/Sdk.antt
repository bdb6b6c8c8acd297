-- ===== src/Examples/Sdk.antt =====
-- A bucket in memory with a switch that lets every request fail.
use levels.Base.{
  subst, ap, ◌∙◌, true, Among, Among-append, append-Among, Bool-cases, str_dec, ◌≡◌, ◌≢◌, refl,
  Bool, false, Option, none, some, List, [], ◌∷◌, ◌++◌, Str, Bytes, strip_prefix, arith,
  Option-cases, inl, inr, if◌then◌else◌, strip_prefix-append,
}
use mathlib.Core.List.{append_assoc}
use levels.Failure.{
  GoError, is_not_found_error, Result, ok, err, nil, plain, no_such_key, not_found, Outcome,
}
use levels.Client.{Context, is_some, background}
use levels.Base.Int.{pos}
use levels.Client.S3Client.{Sdk}
use levels.Client.SdkLaws.{IsLawfulSdk, contents, all_read}
use levels.Examples.Store.{find, insert, erase, find-erase, find-erase_other, find-insert_other}

pub record Bucket : Type 0 where
  pub objects : List (Str × Bytes)
  pub down : Bool

abbrev offline : {A : Type 0} → Result A
offline = err (plain "offline")

abbrev as_result : {A : Type 0} → Option A → GoError → Result A
as_result none e = err e
as_result (some a) e = ok a

abbrev pub put_object : Context → Str → Str → Bytes → Bucket → Outcome × Bucket
put_object ctx b k d s =
    if s.down then (offline, s) else (nil, record s { objects = insert k d s.objects })

abbrev pub get_object : Context → Str → Str → Bucket → Result (Result Bytes) × Bucket
get_object ctx b k s = (
  if s.down
      then offline
      else elim (find s.objects k) [ none ↦ err no_such_key | some d ↦ ok (ok d) ],
  s,
)

abbrev pub delete_object : Context → Str → Str → Bucket → Outcome × Bucket
delete_object ctx b k s =
    if s.down then (offline, s) else (nil, record s { objects = erase k s.objects })

abbrev pub head_object : Context → Str → Str → Bucket → Outcome × Bucket
head_object ctx b k s =
    (if s.down then offline else elim (find s.objects k) [ none ↦ err not_found | some d ↦ nil ], s)

abbrev source_of : Str → Str → Str
source_of b source = elim (strip_prefix source (b ++ (b'/' ∷ []))) [ none ↦ source | some k ↦ k ]

abbrev pub copy_object : Context → Str → Str → Str → Bucket → Outcome × Bucket
copy_object ctx b source dst s =
    if s.down then (offline, s) else elim (find s.objects (source_of b source)) [
      | none ↦ (err no_such_key, s)
      | some d ↦ (nil, record s { objects = insert dst d s.objects })
    ]

abbrev keys_of : Str → List (Str × Bytes) → List Str
keys_of prefix [] = []
keys_of prefix ((k, d) ∷ m) =
    let rest = keys_of prefix m in elim (strip_prefix k prefix) [ none ↦ rest | some _ ↦ k ∷ rest ]

abbrev pub list_objects : Context → Str → Str → Bucket → List (Result (List Str)) × Bucket
list_objects ctx b prefix s = ((if s.down then offline else ok (keys_of prefix s.objects)) ∷ [], s)

abbrev pub memory_sdk : Sdk
memory_sdk = record {
  State = Bucket;
  put_object = put_object;
  get_object = get_object;
  delete_object = delete_object;
  head_object = head_object;
  copy_object = copy_object;
  list_objects = list_objects;
  timer = λ ctx. record { ctx_err = λ s. none; wait = λ d s. (false, s); int63n = λ n s. (0, s) };
}

abbrev pub stored : Bucket → Str → Str → Option Bytes
stored s b k = find s.objects k

source_of-join : (b k : Str) → source_of b (b ++ (b'/' ∷ k)) ≡ k
unfolding strip_prefix
source_of-join b k =
    let e : strip_prefix (b ++ (b'/' ∷ k)) (b ++ (b'/' ∷ [])) ≡ some k =
      rw (← append_assoc b (b'/' ∷ []) k) (strip_prefix-append (b ++ (b'/' ∷ [])) k) in
    rw (e, source_of) refl

copy_object_other :
    (ctx : Context) (b src dst : Str) (s : Bucket) (j : Str)
    → j ≢ dst
    → stored (copy_object ctx b src dst s).1 b j ≡ stored s b j
copy_object_other ctx b src dst s j ne = elim (Option-cases (find s.objects (source_of b src))) [
  | inl missing ↦ ground arith
  | inr (d, found) ↦ ground (arith, find-insert_other dst d s.objects j ne)
]

strip_prefix-some : (k p rest : Str) → strip_prefix k p ≡ some rest → k ≡ p ++ rest
unfolding strip_prefix
strip_prefix-some k [] rest h = ground (arith, h)
strip_prefix-some [] (c ∷ p) rest h = absurd (ground (arith, h))
strip_prefix-some (d ∷ k) (c ∷ p) rest h = ground (arith, strip_prefix-some k p rest, h)

-- A key below the prefix, with its object.
abbrev Below : Str → Str → List (Str × Bytes) → Type 0
Below prefix k m = (is_some (find m k) ≡ true) × ((rest : Str) × (k ≡ prefix ++ rest))

keeps-Below :
    (prefix k j : Str) (d : Bytes) (m : List (Str × Bytes))
    → Below prefix k m
    → Below prefix k ((j, d) ∷ m)
keeps-Below prefix k j d m (there, below) = (ground (arith, there), below)

keys_of-Below :
    (prefix k : Str) (m : List (Str × Bytes)) → Among k (keys_of prefix m) → Below prefix k m
keys_of-Below prefix k [] h = absurd h
keys_of-Below prefix k ((j, d) ∷ m) h = elim (Option-cases (strip_prefix j prefix)) [
  | inl other ↦ keeps-Below prefix k j d m (keys_of-Below prefix k m (rw (other, keys_of) at h))
  | inr (rest, below) ↦ elim (rw (below, Among) at h) as (λ x. Below prefix k ((j, d) ∷ m)) [
    | inl same ↦ (ground (arith, same), (rest, same ∙ strip_prefix-some j prefix rest below))
    | inr there ↦ keeps-Below prefix k j d m (keys_of-Below prefix k m there)
  ]
]

keys_of_complete :
    (prefix rest : Str) (m : List (Str × Bytes))
    → is_some (find m (prefix ++ rest)) ≡ true
    → Among (prefix ++ rest) (keys_of prefix m)
keys_of_complete prefix rest [] h = absurd (ground (arith, h))
keys_of_complete prefix rest ((j, d) ∷ m) h = elim (Option-cases (strip_prefix j prefix)) [
  | inl other ↦ elim (str_dec (prefix ++ rest) j) [
    | yes same ↦ absurd (
        ground
          (arith, ap (λ x. strip_prefix x prefix) same, strip_prefix-append prefix rest, other))
    | no ne ↦ rw (other, Among) (keys_of_complete prefix rest m (ground (arith, h, ne)))
  ]
  | inr (r, below) ↦ elim (str_dec (prefix ++ rest) j) [
    | yes same ↦ rw (below, Among) (inl same)
    | no ne ↦ rw (below, Among) (inr (keys_of_complete prefix rest m (ground (arith, h, ne))))
  ]
]

listing_sound :
    (prefix k : Str) (s : Bucket)
    → let pages = (list_objects (background (pos 0)) [] prefix s).0 in
      all_read pages ≡ true
      → Among k (contents pages)
      → (is_some (find s.objects k) ≡ true) × ((rest : Str) × (k ≡ prefix ++ rest))
listing_sound prefix k s whole h = elim (Bool-cases s.down) [
  | inl down ↦ absurd (ground (arith, whole))
  | inr up ↦
      keys_of-Below prefix k s.objects
        (elim (Among-append k (keys_of prefix s.objects) [] (
          subst
            (λ b. Among k (contents ((if b then offline else ok (keys_of prefix s.objects)) ∷ [])))
            up h)) [ inl there ↦ there | inr nowhere ↦ absurd nowhere ])
]

listing_complete :
    (prefix rest : Str) (s : Bucket)
    → let pages = (list_objects (background (pos 0)) [] prefix s).0 in
      all_read pages ≡ true
      → is_some (find s.objects (prefix ++ rest)) ≡ true
      → Among (prefix ++ rest) (contents pages)
listing_complete prefix rest s whole h = elim (Bool-cases s.down) [
  | inl down ↦ absurd (ground (arith, whole))
  | inr up ↦ rw up (
      append-Among (prefix ++ rest) (keys_of prefix s.objects) []
        (inl (keys_of_complete prefix rest s.objects h)))
]

pub memory_sdk-IsLawful : IsLawfulSdk memory_sdk stored
unfolding is_not_found_error
memory_sdk-IsLawful = record {
  put_ok = λ ctx b k d s h. ground arith;
  put_other = λ ctx b k d s j ne. ground (arith, find-insert_other k d s.objects j ne);
  get_ok = λ ctx b k s d h. ground arith;
  get_missing = λ ctx b k s e h f. ground arith;
  get_body = λ ctx b k s e h. ground arith;
  get_keeps = λ ctx b k s j. refl;
  delete_ok = λ ctx b k s h. ground (arith, find-erase k s.objects);
  delete_other = λ ctx b k s j ne. ground (arith, find-erase_other k s.objects j ne);
  head_ok = λ ctx b k s h. ground arith;
  head_missing = λ ctx b k s e h f. ground arith;
  head_keeps = λ ctx b k s j. refl;
  copy_ok = λ ctx b src dst s h. ground (arith, source_of-join b src);
  copy_other = λ ctx b src dst s j ne. copy_object_other ctx b src dst s j ne;
  list_keeps = λ ctx b prefix s j. refl;
  list_sound = λ ctx b prefix s k whole h. listing_sound prefix k s whole h;
  list_complete = λ ctx b prefix s rest whole h. listing_complete prefix rest s whole h;
  wait_keeps = λ ctx n s b j. refl;
  int63n_keeps = λ ctx n s b j. refl;
  ctx_err = λ ctx s e h. ground arith;
}
