-- ===== src/Base/Lists.antt =====
-- Lists measured by native numbers, and a predicate on every element.
use Prim.Native.Nat.{ℕ, suc, ◌+◌}
use mathlib.Core.Path.{◌≡◌}
use mathlib.Core.Logic.{◌⊎◌, inl, inr}
use mathlib.Core.List.{List, [], ◌∷◌, ◌++◌}
use native.Mathlib.Omega.{arith}

module _ {ℓ} {A : Type ℓ} where
  abbrev pub length : List A → ℕ
  length [] = 0
  length (x ∷ xs) = suc (length xs)

  pub length-append : (xs ys : List A) → length (xs ++ ys) ≡ length xs + length ys
  length-append [] ys = omega arith
  length-append (x ∷ xs) ys = omega (arith, length-append xs ys)

module _ {ℓ κ} {A : Type ℓ} where
  abbrev pub All : (A → Type κ) → List A → Type κ
  All P [] = Unit
  All P (x ∷ xs) = P x × All P xs

  -- Each element is in the relation with each later one, both ways round.
  abbrev pub Pairwise : (A → A → Type κ) → List A → Type κ
  Pairwise R [] = Unit
  Pairwise R (x ∷ xs) = All (λ y. R x y × R y x) xs × Pairwise R xs

module _ {ℓ κ μ} {A : Type ℓ} where
  pub All-map :
      (P : A → Type κ) (Q : A → Type μ)
      → ((x : A) → P x → Q x)
      → (xs : List A) → All P xs
      → All Q xs
  All-map P Q f [] h = tt
  All-map P Q f (x ∷ xs) h = (f x h.0, All-map P Q f xs h.1)

module _ {A : Type 0} where
  -- The element is one of the list.
  abbrev pub Among : A → List A → Type 0
  Among x [] = ⊥
  Among x (y ∷ ys) = (x ≡ y) ⊎ Among x ys

  pub Among-append : (x : A) (ys zs : List A) → Among x (ys ++ zs) → Among x ys ⊎ Among x zs
  Among-append x [] zs h = inr h
  Among-append x (y ∷ ys) zs (inl e) = inl (inl e)
  Among-append x (y ∷ ys) zs (inr h) = elim (Among-append x ys zs h) [
    | inl a ↦ inl (inr a)
    | inr a ↦ inr a
  ]

  pub append-Among : (x : A) (ys zs : List A) → Among x ys ⊎ Among x zs → Among x (ys ++ zs)
  append-Among x [] zs (inl h) = absurd h
  append-Among x [] zs (inr h) = h
  append-Among x (y ∷ ys) zs (inl (inl e)) = inl e
  append-Among x (y ∷ ys) zs (inl (inr h)) = inr (append-Among x ys zs (inl h))
  append-Among x (y ∷ ys) zs (inr h) = inr (append-Among x ys zs (inr h))
