-- ===== src/Lock/Text.antt =====
-- The text of a lock, "{pid}-{timestamp}-{random}": `fmt.Sprintf` and `fmt.Sscanf` at "%d-%d-%d".
use levels.Base.{
  ℕ, zero, suc, ◌+◌, ◌*◌, ◌/◌, ◌%◌, ◌^◌, ◌<◌, ◌≤◌, ◌≡◌, ◌≢◌, ◌∙◌, ap, sym, subst, refl, Bool, true,
  false, Option, none, some, [], ◌∷◌, ◌++◌, Str, All, ltb, ◌==◌, ◌-◌, strip_prefix, arith,
  Bool-cases, inl, inr,
}
use mathlib.Core.List.{append-nil}
use levels.Base.Int.{ℤ, pos, negsuc}
use levels.FileDesc.Scan.{scan_int, is_digit, digits_value}
use levels.FileDesc.Naming.{Numeral, scan_int-Numeral}

abbrev pub equal_ℤ : ℤ → ℤ → Bool
equal_ℤ (pos a) (pos b) = a == b
equal_ℤ (negsuc a) (negsuc b) = a == b
equal_ℤ _ _ = false

-- The decimal digits of a number with no more digits than the fuel.
unfoldable pub digits : ℕ → ℕ → Str
digits zero n = []
digits (suc fuel) n = elim (ltb n 10) [
  | true ↦ (b'0' + n) ∷ []
  | false ↦ digits fuel (n / 10) ++ ((b'0' + n % 10) ∷ [])
]

-- `%d` of an `int64`, which has nineteen digits at most.
unfoldable pub print_int : ℤ → Str
print_int (pos n) = digits 20 n
print_int (negsuc n) = b'-' ∷ digits 20 (n + 1)

unfoldable pub lock_text : ℤ → ℤ → ℤ → Str
lock_text pid timestamp rnd =
    print_int pid ++ (b'-' ∷ (print_int timestamp ++ (b'-' ∷ print_int rnd)))

-- A number and a dash behind it.
unfoldable pub scan_dashed : Str → Option (ℤ × Str)
unfolding strip_prefix
scan_dashed s = elim (scan_int s) [
  | none ↦ none
  | some (n, rest) ↦ elim (strip_prefix rest (b'-' ∷ [])) [
    | none ↦ none
    | some rest' ↦ some (n, rest')
  ]
]

unfoldable pub read_lock_text : Str → Option (ℤ × ℤ × ℤ)
read_lock_text s = elim (scan_dashed s) [
  | none ↦ none
  | some (pid, s1) ↦ elim (scan_dashed s1) [
    | none ↦ none
    | some (timestamp, s2) ↦ elim (scan_int s2) [
      | none ↦ none
      | some (rnd, _) ↦ some (pid, timestamp, rnd)
    ]
  ]
]

is_digit_of : (d : ℕ) → d < 10 → is_digit (b'0' + d) ≡ true
is_digit_of d h = ground arith

All-append :
    (s : Str) (c : ℕ)
    → All (λ c. is_digit c ≡ true) s
    → is_digit c ≡ true
    → All (λ c. is_digit c ≡ true) (s ++ (c ∷ []))
All-append [] c h d = (d, tt)
All-append (x ∷ s) c h d = (h.0, All-append s c h.1 d)

digits_value-append :
    (acc c : ℕ) (s : Str) → digits_value acc (s ++ (c ∷ [])) ≡ digits_value acc s * 10 + (c - b'0')
unfolding digits_value
digits_value-append acc c [] = refl
digits_value-append acc c (d ∷ s) = digits_value-append (acc * 10 + (d - b'0')) c s

append-nonempty : (s : Str) (c : ℕ) → s ++ (c ∷ []) ≢ []
append-nonempty [] c e = cc
append-nonempty (x ∷ s) c e = cc

digits-small : (fuel n : ℕ) → n < 10 → digits (suc fuel) n ≡ (b'0' + n) ∷ []
unfolding digits
digits-small fuel n h = ground arith

digits-large :
    (fuel n : ℕ) → 10 ≤ n → digits (suc fuel) n ≡ digits fuel (n / 10) ++ ((b'0' + n % 10) ∷ [])
unfolding digits
digits-large fuel n h = ground arith

Numeral-append :
    (q d : ℕ) (s : Str) → d < 10 → Numeral q s → Numeral (q * 10 + d) (s ++ ((b'0' + d) ∷ []))
Numeral-append q d s h num = record {
  nonempty = append-nonempty s (b'0' + d);
  decimal = All-append s (b'0' + d) num.decimal (is_digit_of d h);
  value = omega (arith, digits_value-append 0 (b'0' + d) s, num.value);
}

Numeral-digit : (n : ℕ) → n < 10 → Numeral n ((b'0' + n) ∷ [])
unfolding digits_value
Numeral-digit n h = record {
  nonempty = λ e. cc;
  decimal = (is_digit_of n h, tt);
  value = omega arith;
}

-- With fuel for its length, what is printed has the value.
digits-Numeral : (fuel n : ℕ) → n < 10 ^ suc fuel → Numeral n (digits (suc fuel) n)
digits-Numeral zero n h =
    let small : n < 10 = omega arith in rw (digits-small zero n small) (Numeral-digit n small)
digits-Numeral (suc fuel) n h = elim (Bool-cases (ltb n 10)) [
  | inl small ↦
      let low : n < 10 = ground arith in rw (digits-small (suc fuel) n low) (Numeral-digit n low)
  | inr large ↦
      let high : 10 ≤ n = ground arith in
      let shorter : n / 10 < 10 ^ suc fuel = omega arith in
      let split : n / 10 * 10 + n % 10 ≡ n = omega arith in
      rw (digits-large (suc fuel) n high) (
        subst (λ m. Numeral m (digits (suc fuel) (n / 10) ++ ((b'0' + n % 10) ∷ []))) split
          (Numeral-append (n / 10) (n % 10) _ (omega arith) (digits-Numeral fuel (n / 10) shorter)))
]

print_int-Numeral : (n : ℕ) → n < 2 ^ 63 → Numeral n (print_int (pos n))
unfolding print_int
print_int-Numeral n h = digits-Numeral 19 n (omega arith)

scan_dashed-numeral :
    (n : ℕ) (rest : Str)
    → n < 2 ^ 63
    → scan_dashed (print_int (pos n) ++ (b'-' ∷ rest)) ≡ some (pos n, rest)
unfolding scan_dashed strip_prefix
scan_dashed-numeral n rest h =
    ground
      (arith, scan_int-Numeral n (print_int (pos n)) (b'-' ∷ rest) (print_int-Numeral n h) h refl)

scan_last : (n : ℕ) → n < 2 ^ 63 → scan_int (print_int (pos n)) ≡ some (pos n, [])
scan_last n h =
    ap scan_int (sym (append-nil (print_int (pos n))))
    ∙ scan_int-Numeral n (print_int (pos n)) [] (print_int-Numeral n h) h tt

-- The text of a lock is read back, for numbers of an int64 that are not negative.
pub read_lock_text-lock_text :
    (pid timestamp rnd : ℕ)
    → pid < 2 ^ 63
    → timestamp < 2 ^ 63
    → rnd < 2 ^ 63
    → read_lock_text (lock_text (pos pid) (pos timestamp) (pos rnd))
      ≡ some (pos pid, pos timestamp, pos rnd)
unfolding read_lock_text lock_text
read_lock_text-lock_text pid timestamp rnd hp ht hr = ground (
  arith,
  scan_dashed-numeral pid (print_int (pos timestamp) ++ (b'-' ∷ print_int (pos rnd))) hp,
  scan_dashed-numeral timestamp (print_int (pos rnd)) ht,
  scan_last rnd hr,
)
