-- ===== src/Storage/Manifest/Apply/Levels.antt =====
-- The file counts and the places of tables under deletion, addition and sorting.
use rivet_db.Prelude.{
  ℕ, zero, suc, ◌+◌, ◌≤◌, ◌<◌, ◌≡◌, refl, subst, ap, ◌∙◌, Bool, true, false, List, [], ◌∷◌, ◌++◌,
  ok, arith, length, All, Bool-cases, inl, inr, ok_injective, not-true, >>-ok, guard-ok,
}
use rivet_db.Storage.Sorting.{count}
use rivet_db.Storage.Manifest.Edit.{
  TableMetadata, DeletedFile, validate_table, check_additions, max_levels,
}
use rivet_db.Storage.Manifest.Version.{
  Changes, level_at, set_level, has_number, found, has_file, delete_file, highest_in, highest_file,
  delete_files, add_files,
}

-- How many tables of a version have a file number.
abbrev pub count_file : List (List TableMetadata) → ℕ → ℕ
count_file [] n = 0
count_file (l ∷ ls) n = count (has_number n) l + count_file ls n

-- Every table of the level at index `i` and after says so, and passes validateTable.
abbrev pub Placed : ℕ → List (List TableMetadata) → Type 0
Placed i [] = Unit {0}
Placed i (l ∷ ls) = All (λ t. (t.level ≡ i) × (validate_table t ≡ ok tt)) l × Placed (suc i) ls

module _ {ℓ} {A : Type ℓ} where
  count-append : (p : A → Bool) (xs ys : List A) → count p (xs ++ ys) ≡ count p xs + count p ys
  count-append p [] ys = omega arith
  count-append p (x ∷ xs) ys = ground (arith, count-append p xs ys)

-- Sizes under an update of one level.
length-set_level :
    (i : ℕ) (u : List TableMetadata) (ls : List (List TableMetadata))
    → length (set_level i u ls) ≡ length ls
length-set_level i u [] = refl
length-set_level zero u (l ∷ ls) = refl
length-set_level (suc i) u (l ∷ ls) = ap suc (length-set_level i u ls)

-- The count of a file number after an update, in terms of that level's.
count-set_level :
    (i : ℕ) (u : List TableMetadata) (ls : List (List TableMetadata)) (n : ℕ)
    → i < length ls
    → count_file (set_level i u ls) n + count (has_number n) (level_at i ls)
      ≡ count_file ls n + count (has_number n) u
count-set_level i u [] n h = absurd (omega arith)
count-set_level zero u (l ∷ ls) n h = omega arith
count-set_level (suc i) u (l ∷ ls) n h = omega (arith, count-set_level i u ls n (omega arith))

count-delete_file :
    (ts : List TableMetadata) (m n : ℕ)
    → count (has_number n) (delete_file ts m) ≤ count (has_number n) ts
count-delete_file [] m n = omega arith
count-delete_file (t ∷ ts) m n = ground (arith, count-delete_file ts m n)

count_not_found :
    (ts : List TableMetadata) (n : ℕ) → found ts n ≡ false → count (has_number n) ts ≡ 0
count_not_found [] n h = refl
count_not_found (t ∷ ts) n h = ground (arith, count_not_found ts n)

pub count_not_file :
    (ls : List (List TableMetadata)) (n : ℕ) → has_file ls n ≡ false → count_file ls n ≡ 0
count_not_file [] n h = refl
count_not_file (l ∷ ls) n h = ground (arith, count_not_found l n, count_not_file ls n)

highest_in-bound :
    (ts : List TableMetadata) (n : ℕ) → 0 < count (has_number n) ts → n ≤ highest_in ts
highest_in-bound [] n h = absurd (omega arith)
highest_in-bound (t ∷ ts) n h = ground (arith, highest_in-bound ts n)

pub highest_file-bound :
    (ls : List (List TableMetadata)) (n : ℕ) → 0 < count_file ls n → n ≤ highest_file ls
highest_file-bound [] n h = absurd (omega arith)
highest_file-bound (l ∷ ls) n h = ground (arith, highest_in-bound l n, highest_file-bound ls n)

count_deleted :
    (i m : ℕ) (ls : List (List TableMetadata)) (n : ℕ)
    → count_file (set_level i (delete_file (level_at i ls) m) ls) n ≤ count_file ls n
count_deleted i m [] n = omega arith
count_deleted zero m (l ∷ ls) n = omega (arith, count-delete_file l m n)
count_deleted (suc i) m (l ∷ ls) n = omega (arith, count_deleted i m ls n)

count_added :
    (i : ℕ) (t : TableMetadata) (ls : List (List TableMetadata)) (n : ℕ)
    → count_file (set_level i (level_at i ls ++ t ∷ []) ls) n
      ≤ count_file ls n + count (has_number n) (t ∷ [])
count_added i t [] n = omega arith
count_added zero t (l ∷ ls) n = omega (arith, count-append (has_number n) l (t ∷ []))
count_added (suc i) t (l ∷ ls) n = omega (arith, count_added i t ls n)

abbrev pub At : ℕ → TableMetadata → Type 0
At i t = (t.level ≡ i) × (validate_table t ≡ ok tt)

All-delete_file :
    (i m : ℕ) (ts : List TableMetadata) → All (At i) ts → All (At i) (delete_file ts m)
All-delete_file i m [] h = tt
All-delete_file i m (t ∷ ts) (h, hs) = elim (Bool-cases (has_number m t)) [
  | inl this ↦ rw this hs
  | inr other ↦ rw other (h, All-delete_file i m ts hs)
]

All-snoc :
    (i : ℕ) (t : TableMetadata) (ts : List TableMetadata)
    → All (At i) ts
    → At i t
    → All (At i) (ts ++ t ∷ [])
All-snoc i t [] h ht = (ht, tt)
All-snoc i t (x ∷ ts) (h, hs) ht = (h, All-snoc i t ts hs ht)

pub Placed-level_at :
    (i j : ℕ) (ls : List (List TableMetadata)) → Placed j ls → All (At (i + j)) (level_at i ls)
Placed-level_at i j [] h = tt
Placed-level_at zero j (l ∷ ls) (h, hs) =
    let same : j ≡ 0 + j = omega arith in subst (λ k. All (At k) l) same h
Placed-level_at (suc i) j (l ∷ ls) (h, hs) =
    let same : i + suc j ≡ suc i + j = omega arith in
    subst (λ k. All (At k) (level_at i ls)) same (Placed-level_at i (suc j) ls hs)

Placed-set_level :
    (i j : ℕ) (u : List TableMetadata) (ls : List (List TableMetadata))
    → Placed j ls
    → All (At (i + j)) u
    → Placed j (set_level i u ls)
Placed-set_level i j u [] h a = tt
Placed-set_level zero j u (l ∷ ls) (h, hs) a =
    let same : 0 + j ≡ j = omega arith in (subst (λ k. All (At k) u) same a, hs)
Placed-set_level (suc i) j u (l ∷ ls) (h, hs) a =
    let same : suc i + j ≡ i + suc j = omega arith in
    (h, Placed-set_level i (suc j) u ls hs (subst (λ k. All (At k) u) same a))

-- What deletions and additions keep.
pub record Sound (ls : List (List TableMetadata)) : Type 0 where
  pub levels : length ls ≡ max_levels
  pub unique : (n : ℕ) → count_file ls n ≤ 1
  pub placed : Placed 0 ls

deleted-Sound :
    (i m : ℕ) (ls : List (List TableMetadata))
    → Sound ls
    → Sound (set_level i (delete_file (level_at i ls) m) ls)
deleted-Sound i m ls s = record {
  levels = length-set_level i (delete_file (level_at i ls) m) ls ∙ s.levels;
  unique = λ n. omega (arith, s.unique n, count_deleted i m ls n);
  placed =
      Placed-set_level i 0 (delete_file (level_at i ls) m) ls s.placed
        (All-delete_file (i + 0) m (level_at i ls) (Placed-level_at i 0 ls s.placed));
}

has_number_eq :
    (t : TableMetadata) (n : ℕ) (ls : List (List TableMetadata))
    → has_number n t ≡ true
    → count_file ls t.file_number ≡ count_file ls n
has_number_eq t n ls h = ap (count_file ls) (ground arith)

unique_added :
    (t : TableMetadata) (ls : List (List TableMetadata)) (n : ℕ)
    → has_file ls t.file_number ≡ false
    → count_file ls n ≤ 1
    → count_file (set_level t.level (level_at t.level ls ++ t ∷ []) ls) n ≤ 1
unique_added t ls n fresh u =
    ground (
      arith,
      count_added t.level t ls n,
      count_not_file ls t.file_number fresh,
      has_number_eq t n ls,
    )

added-Sound :
    (t : TableMetadata) (ls : List (List TableMetadata))
    → validate_table t ≡ ok tt
    → has_file ls t.file_number ≡ false
    → Sound ls
    → Sound (set_level t.level (level_at t.level ls ++ t ∷ []) ls)
added-Sound t ls v fresh s = record {
  levels = length-set_level t.level (level_at t.level ls ++ t ∷ []) ls ∙ s.levels;
  unique = λ n. unique_added t ls n fresh (s.unique n);
  placed = Placed-set_level t.level 0 (level_at t.level ls ++ t ∷ []) ls s.placed (
      All-snoc (t.level + 0) t (level_at t.level ls) (Placed-level_at t.level 0 ls s.placed)
        (omega arith, v));
}

pub delete_files-Sound :
    (seen : List ℕ) (ls : List (List TableMetadata)) (ds : List DeletedFile) (r : Changes)
    → delete_files (seen, ls) ds ≡ ok r
    → Sound ls
    → Sound r.1
unfolding delete_files
delete_files-Sound seen ls [] r h s = subst (λ (c : Changes). Sound c.1) (ok_injective h) s
delete_files-Sound seen ls (d ∷ ds) r h s =
    let (_, h1) = >>-ok _ _ h in
    let (_, h2) = >>-ok _ _ h1 in
    delete_files-Sound (d.file_number ∷ seen) _ ds r h2 (deleted-Sound d.level d.file_number ls s)

pub add_files-Sound :
    (file : ℕ) (seen : List ℕ) (ls : List (List TableMetadata)) (ts : List TableMetadata)
    (r : List (List TableMetadata))
    → All (λ t. validate_table t ≡ ok tt) ts
    → add_files file (seen, ls) ts ≡ ok r
    → Sound ls
    → Sound r
unfolding add_files
add_files-Sound file seen ls [] r v h s = subst Sound (ok_injective h) s
add_files-Sound file seen ls (t ∷ ts) r (v, vs) h s =
    let (_, h1) = >>-ok _ _ h in
    let (fresh, h2) = >>-ok _ _ h1 in
    let (_, h3) = >>-ok _ _ h2 in
    add_files-Sound file (t.file_number ∷ seen) _ ts r vs h3
      (added-Sound t ls v (not-true _ (guard-ok _ _ fresh)) s)

pub check_additions-valid :
    (seen : List ℕ) (ts : List TableMetadata)
    → check_additions seen ts ≡ ok tt
    → All (λ t. validate_table t ≡ ok tt) ts
unfolding check_additions
check_additions-valid seen [] h = tt
check_additions-valid seen (t ∷ ts) h =
    let (v, h1) = >>-ok (validate_table t) _ h in
    let (_, h2) = >>-ok _ _ h1 in (v, check_additions-valid (t.file_number ∷ seen) ts h2)
