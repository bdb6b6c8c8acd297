-- ===== src/Base/Text.antt =====
-- Go strings and byte slices as lists of byte values, with the functions of package `strings` that
-- the program calls. Spaces are those of ASCII.
use Prim.Native.Nat.{ℕ}
use Prim.Native.Char.{code}
use Prim.Native.String.{String}
use mathlib.Core.Path.{◌≡◌, refl}
use mathlib.Core.Bool.{Bool, true, false, ◌&&◌, ◌||◌}
use mathlib.Core.Logic.{ite}
use mathlib.Core.List.{List, [], ◌∷◌, ◌++◌}
use mathlib.Core.Option.{Option, none, some}
use native.Mathlib.Decide.{ℕ_discrete}
use native.Mathlib.Omega.{arith}
use levels.Base.Lists.{All}
use levels.Base.Tests.{leb, ◌==◌, if◌then◌else◌}

abbrev pub Str : Type 0
Str = List ℕ

abbrev pub Bytes : Type 0
Bytes = List ℕ

-- The bytes of an ASCII literal.
abbrev pub codes : String → Str
codes String.[] = []
codes (String.◌∷◌ c s) = code c ∷ codes s

unfoldable pub str_dec : Discrete Str
unfolding ℕ_discrete
str_dec = hlevel ℕ_discrete

-- `==` on strings. A split on it gives the equation or its negation.
abbrev pub str_eq : Str → Str → Bool
str_eq s t = ite (str_dec s t) true false

abbrev pub is_empty : Str → Bool
is_empty [] = true
is_empty (c ∷ s) = false

-- The rest of a string behind a prefix, if it starts so.
unfoldable pub strip_prefix : Str → Str → Option Str
strip_prefix s [] = some s
strip_prefix [] (c ∷ p) = none
strip_prefix (d ∷ s) (c ∷ p) = if d == c then strip_prefix s p else none

-- strings.HasPrefix
unfoldable pub has_prefix : Str → Str → Bool
unfolding strip_prefix
has_prefix s p = elim (strip_prefix s p) [ none ↦ false | some _ ↦ true ]

-- strings.TrimPrefix
unfoldable pub trim_prefix : Str → Str → Str
unfolding strip_prefix
trim_prefix s p = elim (strip_prefix s p) [ none ↦ s | some r ↦ r ]

-- strings.HasSuffix
unfoldable pub has_suffix : Str → Str → Bool
has_suffix [] t = str_eq [] t
has_suffix (c ∷ s) t = str_eq (c ∷ s) t || has_suffix s t

abbrev pub is_space : ℕ → Bool
is_space c = (leb 9 c && leb c 13) || c == 32

trim_left : Str → Str
trim_left [] = []
trim_left (c ∷ s) = let rest = trim_left s in if is_space c then rest else c ∷ s

trim_right : Str → Str
trim_right [] = []
trim_right (c ∷ s) = let rest = trim_right s in if is_space c && is_empty rest then [] else c ∷ rest

-- strings.TrimSpace
unfoldable pub trim_space : Str → Str
unfolding trim_left trim_right
trim_space s = trim_left (trim_right s)

pub strip_prefix-append : (p s : Str) → strip_prefix (p ++ s) p ≡ some s
unfolding strip_prefix
strip_prefix-append [] s = refl
strip_prefix-append (c ∷ p) s = ground (arith, strip_prefix-append p s)

pub has_suffix-append : (s t : Str) → has_suffix (s ++ t) t ≡ true
unfolding has_suffix
has_suffix-append [] [] = ground arith
has_suffix-append [] (c ∷ t) = ground arith
has_suffix-append (c ∷ s) t = ground (arith, has_suffix-append s t)

pub append-injective : (p s t : Str) → p ++ s ≡ p ++ t → s ≡ t
append-injective [] s t e = e
append-injective (c ∷ p) s t e = append-injective p s t (cc)

trim_right-newline : (s : Str) → All (λ c. is_space c ≡ false) s → trim_right (s ++ codes "\n") ≡ s
unfolding trim_right
trim_right-newline [] h = refl
trim_right-newline (c ∷ s) h = rw (trim_right-newline s h.1, h.0)

trim_left-word : (s : Str) → All (λ c. is_space c ≡ false) s → trim_left s ≡ s
unfolding trim_left
trim_left-word [] h = refl
trim_left-word (c ∷ s) h = rw h.0

-- A word on a line of its own is found again.
pub trim_space-word : (s : Str) → All (λ c. is_space c ≡ false) s → trim_space (s ++ codes "\n") ≡ s
unfolding trim_space
trim_space-word s h = rw (trim_right-newline s h) (trim_left-word s h)

trim_space_example : trim_space (codes " MANIFEST-1\n") ≡ codes "MANIFEST-1"
unfolding trim_space
trim_space_example = refl

has_suffix_example : has_suffix (codes "a.cksum") (codes ".cksum") ≡ true
unfolding has_suffix str_dec
has_suffix_example = refl

keys_differ : codes "CURRENT" ≡ codes "LOCK" → ⊥
keys_differ e = ground arith
