-- ===== src/Examples/Disk.antt =====
-- A disk and a cache in memory. The disk has a switch that lets every write fail.
use levels.Base.{
  ◌≡◌, ◌≢◌, refl, Bool, false, Option, none, some, List, [], ◌∷◌, ◌++◌, Str, Bytes, codes,
  strip_prefix, arith, if◌then◌else◌, length, inl, inr, sym, ap, true, Bool-cases, str_eq, str_dec,
  has_prefix, strip_prefix-append, ◌||◌, ◌∙◌, Option-cases,
}
use mathlib.Core.List.{append_assoc}
use levels.Failure.{Result, ok, err, nil, plain, not_exist, Outcome}
use levels.Files.{DirEntry, FileSystem, IsLawfulFs, IsTemp, IsWithin, contains_slash}
use levels.Storage.State.{MemFile, Lru, IsLawfulLru}
use levels.Examples.Store.{find, insert, erase, find-erase, find-erase_other, find-insert_other}

pub record Disk : Type 0 where
  pub entries : List (Str × Bytes)
  pub full : Bool

abbrev pub on_disk : Disk → Str → Option Bytes
on_disk s p = find s.entries p

abbrev failing : {A : Type 0} → Result A
failing = err (plain "disk full")

abbrev read_file : Str → Disk → Result Bytes
read_file p s = elim (find s.entries p) [ none ↦ err not_exist | some d ↦ ok d ]

abbrev stat : Str → Disk → Outcome
stat p s = elim (find s.entries p) [ none ↦ err not_exist | some d ↦ nil ]

abbrev entries_of : Str → List (Str × Bytes) → List DirEntry
entries_of dir [] = []
entries_of dir ((p, d) ∷ m) =
    let rest = entries_of dir m in
    elim (strip_prefix p (dir ++ codes "/")) [
      | none ↦ rest
      | some name ↦
          if contains_slash name
          then rest
          else record { name = name; is_dir = false; info = ok (length d) } ∷ rest
    ]

abbrev within : Str → Str → Bool
within dir j = str_eq j dir || has_prefix j (dir ++ codes "/")

abbrev erase_within : Str → List (Str × Bytes) → List (Str × Bytes)
erase_within dir [] = []
erase_within dir ((p, d) ∷ m) =
    let rest = erase_within dir m in if within dir p then rest else (p, d) ∷ rest

abbrev remove_all : Str → Disk → Outcome × Disk
remove_all dir s = (nil, record s { entries = erase_within dir s.entries })

find-erase_within :
    (dir : Str) (m : List (Str × Bytes)) (j : Str)
    → within dir j ≡ true
    → find (erase_within dir m) j ≡ none
find-erase_within dir [] j h = refl
find-erase_within dir ((p, d) ∷ m) j h = elim (Bool-cases (within dir p)) [
  | inl gone ↦ rw gone (find-erase_within dir m j h)
  | inr kept ↦ elim (str_dec j p) [
    | yes same ↦ absurd (ground (arith, ap (within dir) same))
    | no other ↦ rw kept (ground (arith, find-erase_within dir m j h))
  ]
]

find-erase_within_other :
    (dir : Str) (m : List (Str × Bytes)) (j : Str)
    → within dir j ≡ false
    → find (erase_within dir m) j ≡ find m j
find-erase_within_other dir [] j h = refl
find-erase_within_other dir ((p, d) ∷ m) j h = elim (str_dec j p) [
  | yes same ↦
      let kept : within dir p ≡ false = sym (ap (within dir) same) ∙ h in
      rw kept (ground (arith, same))
  | no other ↦ elim (Bool-cases (within dir p)) [
    | inl gone ↦ rw gone (ground (arith, find-erase_within_other dir m j h))
    | inr kept ↦ rw kept (ground (arith, find-erase_within_other dir m j h))
  ]
]

strip_prefix-some : (s p r : Str) → strip_prefix s p ≡ some r → s ≡ p ++ r
unfolding strip_prefix
strip_prefix-some s [] r h = ground arith
strip_prefix-some [] (c ∷ p) r h = absurd (ground arith)
strip_prefix-some (d ∷ s) (c ∷ p) r h = ground (arith, strip_prefix-some s p r)

within-IsWithin : (dir j : Str) → IsWithin dir j → within dir j ≡ true
unfolding has_prefix
within-IsWithin dir j (inl same) = ground arith
within-IsWithin dir j (inr (rest, e)) =
    let strips : strip_prefix j (dir ++ codes "/") ≡ some rest =
      ap (λ x. strip_prefix x (dir ++ codes "/")) (e ∙ sym (append_assoc dir (codes "/") rest))
      ∙ strip_prefix-append (dir ++ codes "/") rest in
    ground (arith, strips)

IsWithin-within : (dir j : Str) → within dir j ≡ true → IsWithin dir j
unfolding has_prefix
IsWithin-within dir j h = elim (str_dec j dir) [
  | yes same ↦ inl same
  | no other ↦ elim (Option-cases (strip_prefix j (dir ++ codes "/"))) [
    | inl stays ↦ absurd (ground arith)
    | inr (rest, strips) ↦ inr (
      rest,
      strip_prefix-some j (dir ++ codes "/") rest strips ∙ append_assoc dir (codes "/") rest,
    )
  ]
]

outside : (dir j : Str) → ¬ IsWithin dir j → within dir j ≡ false
outside dir j h = elim (Bool-cases (within dir j)) [
  | inl inside ↦ absurd (h (IsWithin-within dir j inside))
  | inr apart ↦ apart
]

abbrev write_file : Str → Bytes → Disk → Outcome × Disk
write_file p d s =
    if s.full then (failing, s) else (nil, record s { entries = insert p d s.entries })

abbrev remove : Str → Disk → Outcome × Disk
remove p s = elim (find s.entries p) [
  | none ↦ (err not_exist, s)
  | some d ↦ (nil, record s { entries = erase p s.entries })
]

abbrev rename : Str → Str → Disk → Outcome × Disk
rename p q s = elim (find s.entries p) [
  | none ↦ (err not_exist, s)
  | some d ↦ (nil, record s { entries = insert q d (erase p s.entries) })
]

abbrev temp_path : Str → Str
temp_path dir = dir ++ codes "/.tmp-" ++ codes "1"

abbrev create_temp : Str → Disk → Result Str × Disk
create_temp dir s = elim (find s.entries (temp_path dir)) [
  | some d ↦ (failing, s)
  | none ↦ (ok (temp_path dir), record s { entries = insert (temp_path dir) [] s.entries })
]

abbrev pub memory_disk : FileSystem
memory_disk = record {
  State = Disk;
  read_file = read_file;
  stat = stat;
  read_dir = λ dir s. ok (entries_of dir s.entries);
  write_file = write_file;
  remove = remove;
  rename = rename;
  mkdir_all = λ p s. (nil, s);
  remove_all = remove_all;
  create_temp = create_temp;
  write_temp = write_file;
  close_temp = λ p s. (nil, s);
}

rename_lem :
    (p q : Str) (s : Disk)
    → p ≢ q
    → (rename p q s).0 ≡ nil
    → (on_disk (rename p q s).1 q ≡ on_disk s p) × (on_disk (rename p q s).1 p ≡ none)
rename_lem p q s ne h = elim (Option-cases (find s.entries p)) [
  | inl missing ↦ ground arith
  | inr (d, found) ↦
      ground (arith, find-insert_other q d (erase p s.entries) p ne, find-erase p s.entries)
]

rename_other :
    (p q : Str) (s : Disk) (j : Str) → j ≢ p → j ≢ q → on_disk (rename p q s).1 j ≡ on_disk s j
rename_other p q s j np nq = elim (Option-cases (find s.entries p)) [
  | inl missing ↦ ground arith
  | inr (d, found) ↦
      ground
        (arith, find-insert_other q d (erase p s.entries) j nq, find-erase_other p s.entries j np)
]

create_temp-fresh :
    (dir : Str) (s : Disk) (t : Str)
    → (create_temp dir s).0 ≡ ok t
    → (on_disk s t ≡ none) × IsTemp t
create_temp-fresh dir s t h = elim (Option-cases (find s.entries (temp_path dir))) [
  | inr (d, found) ↦ absurd (ground arith)
  | inl missing ↦
      let same : temp_path dir ≡ t = ground arith in (rw⁻¹ same missing, (dir, codes "1", sym same))
]

create_temp-other :
    (dir : Str) (s : Disk) (j : Str)
    → (create_temp dir s).0 ≢ ok j
    → on_disk (create_temp dir s).1 j ≡ on_disk s j
create_temp-other dir s j h = elim (Option-cases (find s.entries (temp_path dir))) [
  | inr (d, found) ↦ ground arith
  | inl missing ↦ ground (arith, find-insert_other (temp_path dir) [] s.entries j)
]

pub memory_disk-IsLawful : IsLawfulFs memory_disk on_disk
memory_disk-IsLawful = record {
  read_ok = λ p s d h. ground arith;
  write_ok = λ p d s h. ground arith;
  write_other = λ p d s j ne. ground (arith, find-insert_other p d s.entries j ne);
  remove_ok = λ p s h. ground (arith, find-erase p s.entries);
  remove_other = λ p s j ne. ground (arith, find-erase_other p s.entries j ne);
  remove_failed = λ p s j h. ground arith;
  rename_ok = rename_lem;
  rename_other = rename_other;
  rename_failed = λ p q s j h. ground arith;
  mkdir_keeps = λ p s j. refl;
  remove_all_ok = λ dir s j done h. find-erase_within dir s.entries j (within-IsWithin dir j h);
  remove_all_other = λ dir s j h. find-erase_within_other dir s.entries j (outside dir j h);
  temp_fresh = create_temp-fresh;
  temp_other = create_temp-other;
  write_temp_ok = λ t d s h. ground arith;
  write_temp_other = λ t d s j ne. ground (arith, find-insert_other t d s.entries j ne);
  close_keeps = λ t s j. refl;
}

-- A cache that never throws an entry out.
abbrev pub memory_lru : Lru
memory_lru = record {
  State = List (Str × MemFile);
  get = λ k l. (find l k, l);
  add = insert;
  remove = erase;
  purge = λ l. [];
}

pub memory_lru-IsLawful : IsLawfulLru memory_lru find
memory_lru-IsLawful = record {
  get_found = λ k l. refl;
  get_keeps = λ k l j. refl;
  add_self = λ k f l. ground arith;
  add_other = λ k f l j ne. inl (find-insert_other k f l j ne);
  remove_self = λ k l. find-erase k l;
  remove_other = λ k l j ne. find-erase_other k l j ne;
  purge_all = λ l j. refl;
}
