-- ===== src/FileDesc/Naming.antt =====
-- The documented form of `FileDesc.String()` in goleveldb, as a hypothesis on the function that
-- stands for it, and what `parseFileDesc` makes of the names.
use levels.Base.{
  ℕ, ◌^◌, ◌<◌, ◌≡◌, ◌≢◌, refl, sym, ap, ◌∙◌, true, false, Option, none, some, [], ◌∷◌, ◌++◌, Str,
  codes, All, arith, trim_space, trim_space-word, is_space, strip_prefix, str_dec, ℕ_discrete,
}
use mathlib.Core.List.{append-nil, append_assoc}
use levels.Base.Int.{pos}
use levels.FileDesc.Scan.{is_digit, span_digits, digits_value, scan_int, scan_word}
use levels.FileDesc.{
  FileType, type_manifest, type_journal, type_table, type_temp, FileDesc, scan_number_dot_word,
  scan_manifest, by_extension, parse_file_desc,
}

-- The bytes are decimal digits of the number, padded or not.
pub record Numeral (n : ℕ) (digits : Str) : Type 0 where
  pub nonempty : digits ≢ []
  pub decimal : All (λ c. is_digit c ≡ true) digits
  pub value : digits_value 0 digits ≡ n

-- `%06d` with the extension of the type, and "MANIFEST-%06d"
pub record IsNaming (name : FileDesc → Str) : Type 0 where
  pub numeral : ℕ → Str
  pub is_numeral : (n : ℕ) → Numeral n (numeral n)
  pub manifest :
      (n : ℕ)
      → name (record { file_type = type_manifest; num = pos n }) ≡ codes "MANIFEST-" ++ numeral n
  pub journal :
      (n : ℕ) → name (record { file_type = type_journal; num = pos n }) ≡ numeral n ++ codes ".log"
  pub table :
      (n : ℕ) → name (record { file_type = type_table; num = pos n }) ≡ numeral n ++ codes ".ldb"
  pub temp :
      (n : ℕ) → name (record { file_type = type_temp; num = pos n }) ≡ numeral n ++ codes ".tmp"

abbrev pub Stops : Str → Type 0
Stops [] = Unit
Stops (c ∷ s) = is_digit c ≡ false

span_digits-append :
    (digits rest : Str)
    → All (λ c. is_digit c ≡ true) digits
    → Stops rest
    → span_digits (digits ++ rest) ≡ (digits, rest)
unfolding span_digits
span_digits-append [] [] d h = refl
span_digits-append [] (c ∷ rest) d h = rw h
span_digits-append (c ∷ digits) rest d h = rw (d.0, span_digits-append digits rest d.1 h)

pub scan_int-Numeral :
    (n : ℕ) (digits rest : Str)
    → Numeral n digits
    → n < 2 ^ 63
    → Stops rest
    → scan_int (digits ++ rest) ≡ some (pos n, rest)
unfolding scan_int
scan_int-Numeral n [] rest num h stops = absurd (num.nonempty refl)
scan_int-Numeral n (c ∷ digits) rest num h stops =
    ground (arith, span_digits-append (c ∷ digits) rest num.decimal stops)

parse_numbered :
    (n : ℕ) (digits extension word : Str)
    → Numeral n digits
    → n < 2 ^ 63
    → scan_word extension ≡ some word
    → parse_file_desc (digits ++ (b'.' ∷ extension)) ≡ by_extension (pos n) word
unfolding parse_file_desc
parse_numbered n digits extension word num h reads =
    let scanned : scan_number_dot_word (digits ++ (b'.' ∷ extension)) ≡ some (pos n, word) =
      unfold scan_number_dot_word in
      ground (arith, scan_int-Numeral n digits (b'.' ∷ extension) num h refl) in
    rw (scanned, parse_file_desc)

scan_int-manifest : (rest : Str) → scan_int (codes "MANIFEST-" ++ rest) ≡ none
unfolding scan_int
scan_int-manifest rest = refl

parse_manifest :
    (n : ℕ) (digits rest : Str)
    → Numeral n digits
    → n < 2 ^ 63
    → Stops rest
    → parse_file_desc (codes "MANIFEST-" ++ (digits ++ rest))
      ≡ some (record { file_type = type_manifest; num = pos n })
unfolding parse_file_desc
parse_manifest n digits rest num h stops =
    let other : scan_number_dot_word (codes "MANIFEST-" ++ (digits ++ rest)) ≡ none =
      unfold scan_number_dot_word in ground (arith, scan_int-manifest (digits ++ rest)) in
    let scanned : scan_manifest (codes "MANIFEST-" ++ (digits ++ rest)) ≡ some (pos n) =
      unfold scan_manifest strip_prefix in
      ground (arith, scan_int-Numeral n digits rest num h stops) in
    rw (other, scanned, parse_file_desc)

-- What the name of a checksum file is read as.
abbrev pub read_as : FileType → ℕ → Option FileDesc
read_as type_manifest n = some (record { file_type = type_manifest; num = pos n })
read_as _ n = none

abbrev pub suffix : Str
suffix = codes ".cksum"

module _ {name : FileDesc → Str} (naming : IsNaming name) where
  -- parseFileDesc reads back every name that goleveldb prints for a number below 2^63.
  pub parse_file_desc-name :
      (t : FileType) (n : ℕ)
      → n < 2 ^ 63
      → parse_file_desc (name (record { file_type = t; num = pos n }))
        ≡ some (record { file_type = t; num = pos n })
  unfolding scan_word by_extension str_dec ℕ_discrete
  parse_file_desc-name type_manifest n h =
      rw (naming.manifest, ← append-nil (naming.numeral n))
        (parse_manifest n _ [] (naming.is_numeral n) h tt)
  parse_file_desc-name type_journal n h =
      rw naming.journal (parse_numbered n _ _ (codes "log") (naming.is_numeral n) h refl)
  parse_file_desc-name type_table n h =
      rw naming.table (parse_numbered n _ _ (codes "ldb") (naming.is_numeral n) h refl)
  parse_file_desc-name type_temp n h =
      rw naming.temp (parse_numbered n _ _ (codes "tmp") (naming.is_numeral n) h refl)

  -- For a number below 2^63, parseFileDesc rejects the name of a checksum file, but for that of a
  -- manifest, which it reads as the manifest itself.
  pub parse_file_desc-cksum :
      (t : FileType) (n : ℕ)
      → n < 2 ^ 63
      → parse_file_desc (name (record { file_type = t; num = pos n }) ++ suffix) ≡ read_as t n
  unfolding scan_word by_extension str_dec ℕ_discrete
  parse_file_desc-cksum type_manifest n h =
      rw (naming.manifest, append_assoc) (parse_manifest n _ suffix (naming.is_numeral n) h refl)
  parse_file_desc-cksum type_journal n h =
      rw (naming.journal, append_assoc)
        (parse_numbered n _ _ (codes "log.cksum") (naming.is_numeral n) h refl)
  parse_file_desc-cksum type_table n h =
      rw (naming.table, append_assoc)
        (parse_numbered n _ _ (codes "ldb.cksum") (naming.is_numeral n) h refl)
  parse_file_desc-cksum type_temp n h =
      rw (naming.temp, append_assoc)
        (parse_numbered n _ _ (codes "tmp.cksum") (naming.is_numeral n) h refl)

  -- Files of two types or numbers below 2^63 never share a name, and with it a key, because
  -- parseFileDesc reads the name back.
  name-injective :
      (t u : FileType) (n m : ℕ)
      → n < 2 ^ 63
      → m < 2 ^ 63
      → name (record { file_type = t; num = pos n }) ≡ name (record { file_type = u; num = pos m })
      → (t ≡ u) × (n ≡ m)
  name-injective t u n m hn hm e =
      let same =
        sym (parse_file_desc-name t n hn) ∙ ap parse_file_desc e ∙ parse_file_desc-name u m hm in
      ground arith

abbrev IsWord : Str → Type 0
IsWord = All (λ c. is_space c ≡ false)

append-IsWord : (s t : Str) → IsWord s → IsWord t → IsWord (s ++ t)
append-IsWord [] t p q = q
append-IsWord (c ∷ s) t p q = (p.0, append-IsWord s t p.1 q)

digits-IsWord : (s : Str) → All (λ c. is_digit c ≡ true) s → IsWord s
digits-IsWord [] p = tt
digits-IsWord (c ∷ s) p = (ground (arith, p.0), digits-IsWord s p.1)

module _ {name : FileDesc → Str} (naming : IsNaming name) where
  name-IsWord : (t : FileType) (n : ℕ) → IsWord (name (record { file_type = t; num = pos n }))
  name-IsWord t n =
      let num : IsWord (naming.numeral n) = digits-IsWord _ (naming.is_numeral n).decimal in
      elim t as (λ u. IsWord (name (record { file_type = u; num = pos n }))) [
        | type_manifest ↦
            rw naming.manifest (append-IsWord (codes "MANIFEST-") _ (ground arith) num)
        | type_journal ↦ rw naming.journal (append-IsWord _ (codes ".log") num (ground arith))
        | type_table ↦ rw naming.table (append-IsWord _ (codes ".ldb") num (ground arith))
        | type_temp ↦ rw naming.temp (append-IsWord _ (codes ".tmp") num (ground arith))
      ]

  -- The line in CURRENT gives the name back.
  pub trim_space-name :
      (t : FileType) (n : ℕ)
      → let line = name (record { file_type = t; num = pos n }) in
        trim_space (line ++ codes "\n") ≡ line
  trim_space-name t n = trim_space-word _ (name-IsWord t n)
