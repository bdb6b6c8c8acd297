-- ===== src/Storage/Pending/Order.antt =====
-- The order in which pending files are uploaded: tables, then journals, then manifests.
use mathlib.Core.List.{Perm}
use mathlib.Core.List.Perm
use levels.Base.{All, Pairwise, ℕ, ◌≤◌, List, [], ◌∷◌, leb, Bool-cases, inl, inr, arith}
use levels.Storage.Pending.{PendingFileEntry, priority, insert_by_priority, sort_by_priority}

-- Every file stands before those of a later priority.
abbrev pub NoneBefore : ℕ → List PendingFileEntry → Type 0
NoneBefore p [] = Unit
NoneBefore p (g ∷ files) = (p ≤ priority g) × NoneBefore p files

abbrev pub IsOrdered : List PendingFileEntry → Type 0
IsOrdered [] = Unit
IsOrdered (f ∷ files) = NoneBefore (priority f) files × IsOrdered files

NoneBefore-insert :
    (p : ℕ) (f : PendingFileEntry) (files : List PendingFileEntry)
    → p ≤ priority f
    → NoneBefore p files
    → NoneBefore p (insert_by_priority f files)
unfolding insert_by_priority
NoneBefore-insert p f [] h before = (h, tt)
NoneBefore-insert p f (g ∷ files) h before = elim (Bool-cases (leb (priority f) (priority g))) [
  | inl low ↦ rw low (h, before)
  | inr high ↦ rw high (before.0, NoneBefore-insert p f files h before.1)
]

NoneBefore-trans :
    (p q : ℕ) (files : List PendingFileEntry) → p ≤ q → NoneBefore q files → NoneBefore p files
NoneBefore-trans p q [] h before = tt
NoneBefore-trans p q (g ∷ files) h before = (omega arith, NoneBefore-trans p q files h before.1)

insert-IsOrdered :
    (f : PendingFileEntry) (files : List PendingFileEntry)
    → IsOrdered files
    → IsOrdered (insert_by_priority f files)
unfolding insert_by_priority
insert-IsOrdered f [] ordered = (tt, tt)
insert-IsOrdered f (g ∷ files) ordered = elim (Bool-cases (leb (priority f) (priority g))) [
  | inl low ↦
      let le : priority f ≤ priority g = ground arith in
      rw low ((le, NoneBefore-trans _ _ files le ordered.0), ordered)
  | inr high ↦
      rw high
        (NoneBefore-insert _ f files (ground arith) ordered.0, insert-IsOrdered f files ordered.1)
]

pub sort-IsOrdered : (files : List PendingFileEntry) → IsOrdered (sort_by_priority files)
unfolding sort_by_priority
sort-IsOrdered [] = tt
sort-IsOrdered (f ∷ files) = insert-IsOrdered f _ (sort-IsOrdered files)

insert-perm :
    (f : PendingFileEntry) (files : List PendingFileEntry)
    → Perm (insert_by_priority f files) (f ∷ files)
unfolding insert_by_priority
insert-perm f [] = Perm.refl _
insert-perm f (g ∷ files) = elim (Bool-cases (leb (priority f) (priority g))) [
  | inl low ↦ rw low (Perm.refl _)
  | inr high ↦ rw high (Perm.trans (Perm.cons g (insert-perm f files)) (Perm.swap f g files))
]

pub sort-perm : (files : List PendingFileEntry) → Perm (sort_by_priority files) files
unfolding sort_by_priority
sort-perm [] = Perm.refl []
sort-perm (f ∷ files) = Perm.trans (insert-perm f _) (Perm.cons f (sort-perm files))

-- What holds of every file still does when they are sorted.
All-insert :
    (P : PendingFileEntry → Type 0) (f : PendingFileEntry) (files : List PendingFileEntry)
    → P f
    → All P files
    → All P (insert_by_priority f files)
unfolding insert_by_priority
All-insert P f [] h rest = (h, tt)
All-insert P f (g ∷ files) h rest = elim (Bool-cases (leb (priority f) (priority g))) [
  | inl low ↦ rw low (h, rest)
  | inr high ↦ rw high (rest.0, All-insert P f files h rest.1)
]

pub All-sort :
    (P : PendingFileEntry → Type 0) (files : List PendingFileEntry)
    → All P files
    → All P (sort_by_priority files)
unfolding sort_by_priority
All-sort P [] h = tt
All-sort P (f ∷ files) h = All-insert P f _ h.0 (All-sort P files h.1)

Pairwise-insert :
    (R : PendingFileEntry → PendingFileEntry → Type 0) (f : PendingFileEntry)
    (files : List PendingFileEntry)
    → All (λ g. R f g × R g f) files
    → Pairwise R files
    → Pairwise R (insert_by_priority f files)
unfolding insert_by_priority
Pairwise-insert R f [] h rest = (tt, tt)
Pairwise-insert R f (g ∷ files) h rest = elim (Bool-cases (leb (priority f) (priority g))) [
  | inl low ↦ rw low (h, rest)
  | inr high ↦ rw high (
    All-insert (λ k. R g k × R k g) f files (h.0.1, h.0.0) rest.0,
    Pairwise-insert R f files h.1 rest.1,
  )
]

pub Pairwise-sort :
    (R : PendingFileEntry → PendingFileEntry → Type 0) (files : List PendingFileEntry)
    → Pairwise R files
    → Pairwise R (sort_by_priority files)
unfolding sort_by_priority
Pairwise-sort R [] h = tt
Pairwise-sort R (f ∷ files) h =
    Pairwise-insert R f _ (All-sort _ files h.0) (Pairwise-sort R files h.1)
