-- ===== src/FileDesc/Scan.antt =====
-- What `fmt.Sscanf` reads for the verbs `%d` and `%s`.
use levels.Base.{
  ℕ, suc, zero, ◌+◌, ◌-◌, ◌*◌, ◌^◌, Bool, true, false, ◌&&◌, Option, none, some, [], ◌∷◌, ltb, leb,
  ◌==◌, Str, is_space, if◌then◌else◌,
}
use levels.Base.Int.{ℤ, pos, negsuc}

-- Leading spaces go; a newline among them is an error.
unfoldable pub skip_space : Str → Option Str
skip_space [] = some []
skip_space (c ∷ s) =
    let rest = skip_space s in if c == 10 then none else if is_space c then rest else some (c ∷ s)

abbrev pub is_digit : ℕ → Bool
is_digit c = leb b'0' c && leb c b'9'

unfoldable pub span_digits : Str → Str × Str
span_digits [] = ([], [])
span_digits (c ∷ s) =
    let rest = span_digits s in if is_digit c then (c ∷ rest.0, rest.1) else ([], c ∷ s)

unfoldable pub digits_value : ℕ → Str → ℕ
digits_value acc [] = acc
digits_value acc (c ∷ s) = digits_value (acc * 10 + (c - b'0')) s

abbrev negated : ℕ → ℤ
negated zero = pos 0
negated (suc n) = negsuc n

-- strconv.ParseInt of a sign and digits, for 64 bits
unfoldable pub to_int64 : Bool → Str → Option ℤ
unfolding digits_value
to_int64 negative [] = none
to_int64 negative (c ∷ s) =
    let n = digits_value 0 (c ∷ s) in
    if negative
    then (if leb n (2 ^ 63) then some (negated n) else none)
    else if ltb n (2 ^ 63)
    then some (pos n)
    else none

scan_digits : Bool → Str → Option (ℤ × Str)
unfolding span_digits to_int64
scan_digits negative s =
    let (digits, rest) = span_digits s in
    elim (to_int64 negative digits) [ none ↦ none | some n ↦ some (n, rest) ]

scan_sign : Str → Option (ℤ × Str)
unfolding scan_digits
scan_sign [] = none
scan_sign (c ∷ s) =
    if c == b'-'
    then scan_digits true s
    else if c == b'+'
    then scan_digits false s
    else scan_digits false (c ∷ s)

-- `%d`
unfoldable pub scan_int : Str → Option (ℤ × Str)
unfolding skip_space scan_sign
scan_int s = elim (skip_space s) [ none ↦ none | some rest ↦ scan_sign rest ]

unfoldable pub take_word : Str → Str
take_word [] = []
take_word (c ∷ s) = let rest = take_word s in if is_space c then [] else c ∷ rest

-- `%s`; what stands behind the word is not read.
unfoldable pub scan_word : Str → Option Str
unfolding skip_space take_word
scan_word s = elim (skip_space s) [
  | none ↦ none
  | some [] ↦ none
  | some (c ∷ rest) ↦ some (take_word (c ∷ rest))
]
