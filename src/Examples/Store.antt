-- ===== src/Examples/Store.antt =====
-- Maps from strings, as lists of their entries with each key once at most.
use levels.Base.{
  ◌≡◌, ◌≢◌, refl, Option, none, some, List, [], ◌∷◌, Str, str_eq, if◌then◌else◌, arith,
}

module _ {A : Type 0} where
  abbrev pub find : List (Str × A) → Str → Option A
  find [] k = none
  find ((j, a) ∷ m) k = if str_eq k j then some a else find m k

  abbrev pub erase : Str → List (Str × A) → List (Str × A)
  erase k [] = []
  erase k ((j, a) ∷ m) = let rest = erase k m in if str_eq k j then rest else (j, a) ∷ rest

  abbrev pub insert : Str → A → List (Str × A) → List (Str × A)
  insert k a m = (k, a) ∷ erase k m

  pub find-erase : (k : Str) (m : List (Str × A)) → find (erase k m) k ≡ none
  find-erase k [] = refl
  find-erase k ((j, a) ∷ m) = ground (arith, find-erase k m)

  pub find-erase_other :
      (k : Str) (m : List (Str × A)) (i : Str) → i ≢ k → find (erase k m) i ≡ find m i
  find-erase_other k [] i ne = refl
  find-erase_other k ((j, a) ∷ m) i ne = ground (arith, find-erase_other k m i ne)

  pub find-insert : (k : Str) (a : A) (m : List (Str × A)) → find (insert k a m) k ≡ some a
  find-insert k a m = ground arith

  pub find-insert_other :
      (k : Str) (a : A) (m : List (Str × A)) (i : Str) → i ≢ k → find (insert k a m) i ≡ find m i
  find-insert_other k a m i ne = ground (arith, find-erase_other k m i ne)
