-- ===== src/Examples/Names.antt =====
-- Names of files as goleveldb prints them: six decimal digits at least, counted up one by one.
use levels.Base.{
  ℕ, zero, suc, ◌+◌, ◌*◌, ◌-◌, ◌≡◌, ◌≢◌, ◌∙◌, refl, true, [], ◌∷◌, ◌++◌, Str, codes, All, ◌==◌,
  if◌then◌else◌, arith,
}
use levels.Base.Int.{ℤ, pos, negsuc}
use levels.FileDesc.{FileType, type_manifest, type_journal, type_table, type_temp, FileDesc}
use levels.FileDesc.Scan.{is_digit, digits_value}
use levels.FileDesc.Naming.{Numeral, IsNaming}

-- Digits with the lowest first.
abbrev pub succ_digits : Str → Str
succ_digits [] = b'1' ∷ []
succ_digits (c ∷ s) = let rest = succ_digits s in if c == b'9' then b'0' ∷ rest else (c + 1) ∷ s

abbrev pub low_digits : ℕ → Str
low_digits zero = codes "000000"
low_digits (suc n) = succ_digits (low_digits n)

abbrev pub reversed : Str → Str
reversed [] = []
reversed (c ∷ s) = reversed s ++ (c ∷ [])

abbrev low_value : Str → ℕ
low_value [] = 0
low_value (c ∷ s) = (c - b'0') + 10 * low_value s

abbrev Digits : Str → Type 0
Digits = All (λ c. is_digit c ≡ true)

succ_digits-Digits : (s : Str) → Digits s → Digits (succ_digits s)
succ_digits-Digits [] h = (refl, tt)
succ_digits-Digits (c ∷ s) h = ground (arith, succ_digits-Digits s h.1)

succ_digits-value : (s : Str) → Digits s → low_value (succ_digits s) ≡ low_value s + 1
succ_digits-value [] h = refl
succ_digits-value (c ∷ s) h = ground (arith, succ_digits-value s h.1)

digits_value-append :
    (acc c : ℕ) (s : Str) → digits_value acc (s ++ (c ∷ [])) ≡ digits_value acc s * 10 + (c - b'0')
unfolding digits_value
digits_value-append acc c [] = refl
digits_value-append acc c (d ∷ s) = digits_value-append (acc * 10 + (d - b'0')) c s

reversed-value : (s : Str) → digits_value 0 (reversed s) ≡ low_value s
unfolding digits_value
reversed-value [] = refl
reversed-value (c ∷ s) = omega (arith, digits_value-append 0 c (reversed s), reversed-value s)

append-Digits : (s : Str) (c : ℕ) → Digits s → is_digit c ≡ true → Digits (s ++ (c ∷ []))
append-Digits [] c h d = (d, tt)
append-Digits (x ∷ s) c h d = (h.0, append-Digits s c h.1 d)

reversed-Digits : (s : Str) → Digits s → Digits (reversed s)
reversed-Digits [] h = tt
reversed-Digits (c ∷ s) h = append-Digits (reversed s) c (reversed-Digits s h.1) h.0

append-nonempty : (s : Str) (c : ℕ) → s ++ (c ∷ []) ≢ []
append-nonempty [] c e = cc
append-nonempty (x ∷ s) c e = cc

succ_digits-nonempty : (s : Str) → reversed (succ_digits s) ≢ []
succ_digits-nonempty [] e = append-nonempty [] _ e
succ_digits-nonempty (c ∷ s) e =
    ground
      (arith, append-nonempty (reversed (succ_digits s)) b'0', append-nonempty (reversed s) (c + 1))

low_digits-nonempty : (n : ℕ) → reversed (low_digits n) ≢ []
low_digits-nonempty zero = λ e. cc
low_digits-nonempty (suc n) = succ_digits-nonempty (low_digits n)

low_digits-Digits : (n : ℕ) → Digits (low_digits n)
low_digits-Digits zero = (refl, (refl, (refl, (refl, (refl, (refl, tt))))))
low_digits-Digits (suc n) = succ_digits-Digits (low_digits n) (low_digits-Digits n)

low_digits-value : (n : ℕ) → low_value (low_digits n) ≡ n
low_digits-value zero = refl
low_digits-value (suc n) =
    omega (arith, succ_digits-value (low_digits n) (low_digits-Digits n), low_digits-value n)

-- `%06d`
abbrev pub numeral : ℕ → Str
numeral n = reversed (low_digits n)

is_numeral : (n : ℕ) → Numeral n (numeral n)
is_numeral n = record {
  nonempty = low_digits-nonempty n;
  decimal = reversed-Digits (low_digits n) (low_digits-Digits n);
  value = reversed-value (low_digits n) ∙ low_digits-value n;
}

-- Numbers below zero do not occur.
abbrev named : FileType → ℤ → Str
named type_manifest (pos n) = codes "MANIFEST-" ++ numeral n
named type_journal (pos n) = numeral n ++ codes ".log"
named type_table (pos n) = numeral n ++ codes ".ldb"
named type_temp (pos n) = numeral n ++ codes ".tmp"
named _ (negsuc n) = []

abbrev pub name_of : FileDesc → Str
name_of fd = named fd.file_type fd.num

pub name_of-IsNaming : IsNaming name_of
name_of-IsNaming = record {
  numeral = numeral;
  is_numeral = is_numeral;
  manifest = λ n. refl;
  journal = λ n. refl;
  table = λ n. refl;
  temp = λ n. refl;
}

decimal-ne : (s rest : Str) → Digits s → s ≢ [] → codes "LOCK" ≢ s ++ rest
decimal-ne [] rest h more e = more refl
decimal-ne (c ∷ s) rest h more e = absurd (ground (arith, h.0, e))

-- No file is called LOCK.
pub name_of-ne : (fd : FileDesc) → codes "LOCK" ≢ name_of fd
name_of-ne fd e = named-ne fd.file_type fd.num e
  where
    numeral-ne : (n : ℕ) (rest : Str) → codes "LOCK" ≢ numeral n ++ rest
    numeral-ne n rest = decimal-ne (numeral n) rest (is_numeral n).decimal (is_numeral n).nonempty

    named-ne : (t : FileType) (n : ℤ) → codes "LOCK" ≢ named t n
    named-ne type_manifest (pos n) e = ground (arith, e)
    named-ne type_journal (pos n) e = numeral-ne n _ e
    named-ne type_table (pos n) e = numeral-ne n _ e
    named-ne type_temp (pos n) e = numeral-ne n _ e
    named-ne type_manifest (negsuc n) e = cc
    named-ne type_journal (negsuc n) e = cc
    named-ne type_table (negsuc n) e = cc
    named-ne type_temp (negsuc n) e = cc
