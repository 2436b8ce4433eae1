-- ===== src/Storage/Sorting.antt =====
-- `slices.SortFunc` with a comparison whose ties the code makes immaterial or impossible: insertion
-- sort stands for Go's.
use rivet_db.Prelude.{
  ℕ, suc, ◌≡◌, refl, ap, ◌∙◌, Bool, true, false, List, [], ◌∷◌, ◌||◌, if◌then◌else◌, arith, All,
  any, Ordering,
}

-- Go's `order > 0`.
abbrev pub greater : Ordering → Bool
greater Ordering.lt = false
greater Ordering.eq = false
greater Ordering.gt = true

module _ {ℓ} {A : Type ℓ} where
  insert : (A → A → Ordering) → A → List A → List A
  insert cmp a [] = a ∷ []
  insert cmp a (x ∷ xs) = if greater (cmp a x) then x ∷ insert cmp a xs else a ∷ x ∷ xs

  unfoldable pub sort : (A → A → Ordering) → List A → List A
  unfolding insert
  sort cmp [] = []
  sort cmp (x ∷ xs) = insert cmp x (sort cmp xs)

  -- How many members pass a test.
  abbrev pub count : (A → Bool) → List A → ℕ
  count p [] = 0
  count p (x ∷ xs) = if p x then suc (count p xs) else count p xs

  count-insert :
      (cmp : A → A → Ordering) (p : A → Bool) (a : A) (xs : List A)
      → count p (insert cmp a xs) ≡ count p (a ∷ xs)
  unfolding insert
  count-insert cmp p a [] = refl
  count-insert cmp p a (x ∷ xs) = ground (arith, count-insert cmp p a xs)

  pub count-sort :
      (cmp : A → A → Ordering) (p : A → Bool) (xs : List A) → count p (sort cmp xs) ≡ count p xs
  unfolding sort
  count-sort cmp p [] = refl
  count-sort cmp p (x ∷ xs) =
      ground (arith, count-insert cmp p x (sort cmp xs), count-sort cmp p xs)

  any-insert :
      (cmp : A → A → Ordering) (p : A → Bool) (a : A) (xs : List A)
      → any p (insert cmp a xs) ≡ any p (a ∷ xs)
  unfolding insert
  any-insert cmp p a [] = refl
  any-insert cmp p a (x ∷ xs) = ground (arith, any-insert cmp p a xs)

  pub any-sort :
      (cmp : A → A → Ordering) (p : A → Bool) (xs : List A) → any p (sort cmp xs) ≡ any p xs
  unfolding sort
  any-sort cmp p [] = refl
  any-sort cmp p (x ∷ xs) =
      any-insert cmp p x (sort cmp xs) ∙ ap (λ b. p x || b) (any-sort cmp p xs)

  All-insert :
      (P : A → Type 0) (cmp : A → A → Ordering) (a : A) (xs : List A)
      → P a
      → All P xs
      → All P (insert cmp a xs)
  unfolding insert
  All-insert P cmp a [] h hs = (h, tt)
  All-insert P cmp a (x ∷ xs) h (hx, hs) = put (greater (cmp a x)) (All-insert P cmp a xs h hs)
    where
      put :
          (b : Bool)
          → All P (insert cmp a xs)
          → All P (if b then x ∷ insert cmp a xs else a ∷ x ∷ xs)
      put true rest = (hx, rest)
      put false rest = (h, (hx, hs))

  pub All-sort :
      (P : A → Type 0) (cmp : A → A → Ordering) (xs : List A) → All P xs → All P (sort cmp xs)
  unfolding sort
  All-sort P cmp [] h = tt
  All-sort P cmp (x ∷ xs) (h, hs) = All-insert P cmp x (sort cmp xs) h (All-sort P cmp xs hs)

  pub All-map : (P Q : A → Type 0) → ((x : A) → P x → Q x) → (xs : List A) → All P xs → All Q xs
  All-map P Q f [] h = tt
  All-map P Q f (x ∷ xs) (h, hs) = (f x h, All-map P Q f xs hs)

  -- Each member stands in the relation to all that follow it.
  abbrev pub IsSorted : (A → A → Type 0) → List A → Type 0
  IsSorted R [] = Unit {0}
  IsSorted R (x ∷ xs) = All (R x) xs × IsSorted R xs

-- A transitive relation that a comparison decides.
pub record Decides {ℓ} {A : Type ℓ} (R : A → A → Type 0) (cmp : A → A → Ordering) : Type ℓ where
  pub below : (a b : A) → greater (cmp a b) ≡ false → R a b
  pub above : (a b : A) → greater (cmp a b) ≡ true → R b a
  pub trans : (a b c : A) → R a b → R b c → R a c

module _ {ℓ} {A : Type ℓ} (R : A → A → Type 0) (cmp : A → A → Ordering) (d : Decides R cmp) where
  insert-IsSorted : (a : A) (xs : List A) → IsSorted R xs → IsSorted R (insert cmp a xs)
  unfolding insert
  insert-IsSorted a [] h = (tt, tt)
  insert-IsSorted a (x ∷ xs) (h, hs) = put (greater (cmp a x)) refl (insert-IsSorted a xs hs)
    where
      put :
          (b : Bool)
          → greater (cmp a x) ≡ b
          → IsSorted R (insert cmp a xs)
          → IsSorted R (if b then x ∷ insert cmp a xs else a ∷ x ∷ xs)
      put true e rest = (All-insert (R x) cmp a xs (d.above a x e) h, rest)
      put false e rest = (
        (d.below a x e, All-map (R x) (R a) (λ y r. d.trans a x y (d.below a x e) r) xs h),
        (h, hs),
      )

  pub sort-IsSorted : (xs : List A) → IsSorted R (sort cmp xs)
  unfolding sort
  sort-IsSorted [] = tt
  sort-IsSorted (x ∷ xs) = insert-IsSorted x (sort cmp xs) (sort-IsSorted xs)
