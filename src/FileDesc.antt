-- ===== src/FileDesc.antt =====
-- File descriptors: goleveldb's `storage.FileDesc`, `parseFileDesc` and `pendingFilePriority` of
-- s3/storage.go, `isMetadataKey` and `parseS3Key` of s3/client.go. The verbs `%d` and `%s` of
-- `fmt.Sscanf` are modelled over bytes. How goleveldb prints a descriptor is not modelled.
pub mod Naming
pub mod Scan
use levels.Base.{
  ℕ, ◌≡◌, refl, Bool, true, false, ◌||◌, Option, none, some, [], ◌∷◌, ◌==◌, Str, codes, str_eq,
  str_dec, strip_prefix, has_prefix, ℕ_discrete, if◌then◌else◌,
}
use levels.Base.Int.{ℤ, pos}
use Scan.{scan_int, scan_word}

-- The four kinds of file that goleveldb asks for.
pub data FileType : Type 0 where
  type_manifest type_journal type_table type_temp : FileType

pub record FileDesc : Type 0 where
  pub file_type : FileType
  pub num : ℤ

-- `fmt.Sscanf(s, "%d.%s", &fd.Num, &s)`
unfoldable pub scan_number_dot_word : Str → Option (ℤ × Str)
unfolding strip_prefix
scan_number_dot_word s = elim (scan_int s) [
  | none ↦ none
  | some (n, rest) ↦ elim (strip_prefix rest (b'.' ∷ [])) [
    | none ↦ none
    | some rest' ↦ elim (scan_word rest') [ none ↦ none | some word ↦ some (n, word) ]
  ]
]

-- `fmt.Sscanf(s, "MANIFEST-%d", &num)`, which reads one number
unfoldable pub scan_manifest : Str → Option ℤ
scan_manifest s = elim (strip_prefix s (codes "MANIFEST-")) [
  | none ↦ none
  | some rest ↦ elim (scan_int rest) [ none ↦ none | some (n, _) ↦ some n ]
]

-- The `switch` on the extension.
unfoldable pub by_extension : ℤ → Str → Option FileDesc
by_extension n word =
    if str_eq word (codes "log")
    then some (record { file_type = type_journal; num = n })
    else if str_eq word (codes "ldb") || str_eq word (codes "sst")
    then some (record { file_type = type_table; num = n })
    else if str_eq word (codes "tmp")
    then some (record { file_type = type_temp; num = n })
    else none

-- `none` is a result `false`, whose descriptor no caller reads.
unfoldable pub parse_file_desc : Str → Option FileDesc
parse_file_desc s = elim (scan_number_dot_word s) [
  | some (n, word) ↦ by_extension n word
  | none ↦ elim (scan_manifest s) [
    | some n ↦ some (record { file_type = type_manifest; num = n })
    | none ↦ none
  ]
]

unfoldable pub pending_file_priority : FileType → ℕ
pending_file_priority type_table = 0
pending_file_priority type_journal = 1
pending_file_priority type_manifest = 2
pending_file_priority type_temp = 99

unfoldable pub is_metadata_key : Str → Bool
unfolding has_prefix
is_metadata_key key =
    str_eq key (codes "CURRENT") || str_eq key (codes "LOCK") || has_prefix key (codes "MANIFEST-")

unfoldable pub has_slash : Str → Bool
has_slash [] = false
has_slash (c ∷ s) = c == b'/' || has_slash s

-- The name: the text behind the last slash, or the whole text.
unfoldable pub parse_s3_key : Str → Str
unfolding has_slash
parse_s3_key [] = []
parse_s3_key (c ∷ s) =
    let name = parse_s3_key s in if has_slash s then name else if c == b'/' then s else c ∷ s

parse_examples :
    (parse_file_desc (codes "000012.ldb") ≡ some (record { file_type = type_table; num = pos 12 }))
    × (parse_file_desc (codes "MANIFEST-000003")
        ≡ some (record { file_type = type_manifest; num = pos 3 }))
    × (parse_file_desc (codes "000012.ldb.cksum") ≡ none)
    × (parse_file_desc (codes "CURRENT") ≡ none)
    × (parse_s3_key (codes "db/pending_shadow/000001.log") ≡ codes "000001.log")
unfolding parse_file_desc scan_number_dot_word scan_manifest by_extension parse_s3_key scan_int
    scan_word str_dec ℕ_discrete strip_prefix
parse_examples = (refl, refl, refl, refl, refl)
