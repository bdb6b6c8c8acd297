-- ===== src/Files.antt =====
-- The local file system, as the program uses packages `os` and `path/filepath`, and
-- `atomicWriteFile` of s3/storage.go. A read is a function of the state; any operation may fail.
pub mod Atomic
pub mod Others
use levels.Base.{
  ◌⊎◌, ◌≡◌, ◌≢◌, refl, Bool, false, ◌||◌, ◌==◌, if◌then◌else◌, Option, none, some, List, [], ◌∷◌,
  ◌++◌, ℕ, Str, Bytes, codes,
}
use levels.Failure.{Result, ok, err, Outcome, nil, wrapped}

pub record DirEntry : Type 0 where
  pub name : Str
  pub is_dir : Bool
  -- `entry.Info()`, of which the size is read
  pub info : Result ℕ

pub record FileSystem : Type 1 where
  pub State : Type 0
  pub read_file : Str → State → Result Bytes
  pub stat : Str → State → Outcome
  pub read_dir : Str → State → Result (List DirEntry)
  pub write_file : Str → Bytes → State → Outcome × State
  pub remove : Str → State → Outcome × State
  pub rename : Str → Str → State → Outcome × State
  pub mkdir_all : Str → State → Outcome × State
  pub remove_all : Str → State → Outcome × State
  -- `os.CreateTemp(dir, ".tmp-*")`, and the file that it opens, by its path
  pub create_temp : Str → State → Result Str × State
  pub write_temp : Str → Bytes → State → Outcome × State
  pub close_temp : Str → State → Outcome × State

-- The names that `os.CreateTemp` makes up.
abbrev pub IsTemp : Str → Type 0
IsTemp path = (dir : Str) × (rest : Str) × (path ≡ dir ++ codes "/.tmp-" ++ rest)

-- The path itself, and what lies in it as a directory.
abbrev pub IsWithin : Str → Str → Type 0
IsWithin dir path = (path ≡ dir) ⊎ ((rest : Str) × (path ≡ dir ++ (b'/' ∷ rest)))

-- `file s p` is what the path `p` holds. A failed write may leave anything at its own path; a failed
-- removal or renaming changes nothing.
pub record IsLawfulFs (fs : FileSystem) (file : fs.State → Str → Option Bytes) : Type 0 where
  pub read_ok : (p : Str) (s : fs.State) (d : Bytes) → fs.read_file p s ≡ ok d → file s p ≡ some d
  pub write_ok :
      (p : Str) (d : Bytes) (s : fs.State)
      → (fs.write_file p d s).0 ≡ nil
      → file (fs.write_file p d s).1 p ≡ some d
  pub write_other :
      (p : Str) (d : Bytes) (s : fs.State) (j : Str)
      → j ≢ p
      → file (fs.write_file p d s).1 j ≡ file s j
  pub remove_ok :
      (p : Str) (s : fs.State) → (fs.remove p s).0 ≡ nil → file (fs.remove p s).1 p ≡ none
  pub remove_other :
      (p : Str) (s : fs.State) (j : Str) → j ≢ p → file (fs.remove p s).1 j ≡ file s j
  pub remove_failed :
      (p : Str) (s : fs.State) (j : Str)
      → (fs.remove p s).0 ≢ nil
      → file (fs.remove p s).1 j ≡ file s j
  pub rename_ok :
      (p q : Str) (s : fs.State)
      → p ≢ q
      → (fs.rename p q s).0 ≡ nil
      → (file (fs.rename p q s).1 q ≡ file s p) × (file (fs.rename p q s).1 p ≡ none)
  pub rename_other :
      (p q : Str) (s : fs.State) (j : Str) → j ≢ p → j ≢ q → file (fs.rename p q s).1 j ≡ file s j
  pub rename_failed :
      (p q : Str) (s : fs.State) (j : Str)
      → (fs.rename p q s).0 ≢ nil
      → file (fs.rename p q s).1 j ≡ file s j
  pub mkdir_keeps : (p : Str) (s : fs.State) (j : Str) → file (fs.mkdir_all p s).1 j ≡ file s j
  pub remove_all_ok :
      (dir : Str) (s : fs.State) (j : Str)
      → (fs.remove_all dir s).0 ≡ nil
      → IsWithin dir j
      → file (fs.remove_all dir s).1 j ≡ none
  pub remove_all_other :
      (dir : Str) (s : fs.State) (j : Str)
      → ¬ IsWithin dir j
      → file (fs.remove_all dir s).1 j ≡ file s j
  pub temp_fresh :
      (dir : Str) (s : fs.State) (t : Str)
      → (fs.create_temp dir s).0 ≡ ok t
      → (file s t ≡ none) × IsTemp t
  pub temp_other :
      (dir : Str) (s : fs.State) (j : Str)
      → ((fs.create_temp dir s).0 ≢ ok j)
      → file (fs.create_temp dir s).1 j ≡ file s j
  pub write_temp_ok :
      (t : Str) (d : Bytes) (s : fs.State)
      → (fs.write_temp t d s).0 ≡ nil
      → file (fs.write_temp t d s).1 t ≡ some d
  pub write_temp_other :
      (t : Str) (d : Bytes) (s : fs.State) (j : Str)
      → j ≢ t
      → file (fs.write_temp t d s).1 j ≡ file s j
  pub close_keeps : (t : Str) (s : fs.State) (j : Str) → file (fs.close_temp t s).1 j ≡ file s j

unfoldable pub contains_slash : Str → Bool
contains_slash [] = false
contains_slash (c ∷ s) = c == b'/' || contains_slash s

-- filepath.Dir of a clean path that has a slash: what stands before the last one.
unfoldable pub dir_of : Str → Str
dir_of [] = []
dir_of (c ∷ path) = let rest = dir_of path in if contains_slash path then c ∷ rest else []

dir_of_example : dir_of (codes "/tmp/db/LOCK") ≡ codes "/tmp/db"
unfolding dir_of contains_slash
dir_of_example = refl

module _ (fs : FileSystem) where
  unfoldable pub atomic_write_file : Str → Bytes → fs.State → Outcome × fs.State
  atomic_write_file path body s =
      let (created, s1) = fs.create_temp (dir_of path) s in
      elim created [
        | err e ↦ (err (wrapped "create temp" e), s1)
        | ok tmp ↦
            let (written, s2) = fs.write_temp tmp body s1 in
            elim written [
              | err e ↦
                  let (_, s3) = fs.close_temp tmp s2 in
                  let (_, s4) = fs.remove tmp s3 in (err (wrapped "write temp" e), s4)
              | ok _ ↦
                  let (closed, s3) = fs.close_temp tmp s2 in
                  elim closed [
                    | err e ↦ let (_, s4) = fs.remove tmp s3 in (err (wrapped "close temp" e), s4)
                    | ok _ ↦
                        let (renamed, s4) = fs.rename tmp path s3 in
                        elim renamed [
                          | err e ↦ let (_, s5) = fs.remove tmp s4 in (err (wrapped "rename" e), s5)
                          | ok _ ↦ (nil, s4)
                        ]
                  ]
            ]
      ]
