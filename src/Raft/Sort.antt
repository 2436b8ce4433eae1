-- ===== src/Raft/Sort.antt =====
-- `slices.Sort` and `slices.Compact` on identifiers. The sorted arrangement of a list of numbers is
-- unique, so insertion sort stands for Go's.
use rivet_db.Prelude.{
  ℕ, suc, ◌≡◌, refl, ap, ◌∙◌, Bool, true, false, List, [], ◌∷◌, leb, ◌==◌, if◌then◌else◌, arith,
  length, ◌≤◌, ◌||◌, Bool-cases, inl, inr, All,
}

insert : ℕ → List ℕ → List ℕ
insert a [] = a ∷ []
insert a (x ∷ xs) = if leb a x then a ∷ x ∷ xs else x ∷ insert a xs

unfoldable pub sort : List ℕ → List ℕ
unfolding insert
sort [] = []
sort (x ∷ xs) = insert x (sort xs)

-- Runs of equal neighbours shrink to one.
compact_from : ℕ → List ℕ → List ℕ
compact_from last [] = []
compact_from last (x ∷ xs) = let rest = compact_from x xs in if x == last then rest else x ∷ rest

unfoldable pub compact : List ℕ → List ℕ
unfolding compact_from
compact [] = []
compact (x ∷ xs) = x ∷ compact_from x xs

abbrev pub contains : List ℕ → ℕ → Bool
contains [] a = false
contains (x ∷ xs) a = x == a || contains xs a

-- `slices.Equal`
abbrev pub equal_ids : List ℕ → List ℕ → Bool
equal_ids [] [] = true
equal_ids [] (y ∷ ys) = false
equal_ids (x ∷ xs) [] = false
equal_ids (x ∷ xs) (y ∷ ys) = if x == y then equal_ids xs ys else false

pub equal_ids→eq : (xs ys : List ℕ) → equal_ids xs ys ≡ true → xs ≡ ys
equal_ids→eq [] [] h = refl
equal_ids→eq [] (y ∷ ys) h = cc
equal_ids→eq (x ∷ xs) [] h = cc
equal_ids→eq (x ∷ xs) (y ∷ ys) h = ground (arith, equal_ids→eq xs ys)

-- How many members pass a test.
abbrev pub count : (ℕ → Bool) → List ℕ → ℕ
count p [] = 0
count p (x ∷ xs) = if p x then suc (count p xs) else count p xs

count-insert : (p : ℕ → Bool) (a : ℕ) (xs : List ℕ) → count p (insert a xs) ≡ count p (a ∷ xs)
unfolding insert
count-insert p a [] = refl
count-insert p a (x ∷ xs) = ground (arith, count-insert p a xs)

-- Sorting keeps every count, and so the length.
pub count-sort : (p : ℕ → Bool) (xs : List ℕ) → count p (sort xs) ≡ count p xs
unfolding sort
count-sort p [] = refl
count-sort p (x ∷ xs) = ground (arith, count-insert p x (sort xs), count-sort p xs)

length-insert : (a : ℕ) (xs : List ℕ) → length (insert a xs) ≡ suc (length xs)
unfolding insert
length-insert a [] = refl
length-insert a (x ∷ xs) = ground (arith, length-insert a xs)

pub length-sort : (xs : List ℕ) → length (sort xs) ≡ length xs
unfolding sort
length-sort [] = refl
length-sort (x ∷ xs) = ground (arith, length-insert x (sort xs), length-sort xs)

contains-insert : (a b : ℕ) (xs : List ℕ) → contains (insert a xs) b ≡ contains (a ∷ xs) b
unfolding insert
contains-insert a b [] = refl
contains-insert a b (x ∷ xs) = ground (arith, contains-insert a b xs)

pub contains-sort : (b : ℕ) (xs : List ℕ) → contains (sort xs) b ≡ contains xs b
unfolding sort
contains-sort b [] = refl
contains-sort b (x ∷ xs) = ground (arith, contains-insert x b (sort xs), contains-sort b xs)

-- Every member is at least `a`, and each at most the next.
abbrev pub SortedFrom : ℕ → List ℕ → Type 0
SortedFrom a [] = Unit
SortedFrom a (x ∷ xs) = (a ≤ x) × SortedFrom x xs

insert-SortedFrom : (f a : ℕ) (xs : List ℕ) → f ≤ a → SortedFrom f xs → SortedFrom f (insert a xs)
unfolding insert
insert-SortedFrom f a [] h s = (h, tt)
insert-SortedFrom f a (x ∷ xs) h s = ground (arith, insert-SortedFrom x a xs)

pub sort-SortedFrom : (xs : List ℕ) → SortedFrom 0 (sort xs)
unfolding sort
sort-SortedFrom [] = tt
sort-SortedFrom (x ∷ xs) = insert-SortedFrom 0 x (sort xs) (omega arith) (sort-SortedFrom xs)

-- A sorted list is its own sorting.
insert_first : (a : ℕ) (xs : List ℕ) → SortedFrom a xs → insert a xs ≡ a ∷ xs
unfolding insert
insert_first a [] s = refl
insert_first a (x ∷ xs) s = ground arith

pub sort_sorted : (f : ℕ) (xs : List ℕ) → SortedFrom f xs → sort xs ≡ xs
unfolding sort
sort_sorted f [] s = refl
sort_sorted f (x ∷ xs) s = ap (insert x) (sort_sorted x xs s.1) ∙ insert_first x xs s.1

pub sort-sort : (xs : List ℕ) → sort (sort xs) ≡ sort xs
sort-sort xs = sort_sorted 0 (sort xs) (sort-SortedFrom xs)

module _ (P : ℕ → Type 0) where
  insert-All : (a : ℕ) (xs : List ℕ) → P a → All P xs → All P (insert a xs)
  unfolding insert
  insert-All a [] h hs = (h, tt)
  insert-All a (x ∷ xs) h (hx, hxs) = elim (Bool-cases (leb a x)) [
    | inl first ↦ rw first (h, (hx, hxs))
    | inr later ↦ rw later (hx, insert-All a xs h hxs)
  ]

  pub sort-All : (xs : List ℕ) → All P xs → All P (sort xs)
  unfolding sort
  sort-All [] h = tt
  sort-All (x ∷ xs) (h, hs) = insert-All x (sort xs) h (sort-All xs hs)
