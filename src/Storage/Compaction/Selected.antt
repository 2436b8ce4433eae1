-- ===== src/Storage/Compaction/Selected.antt =====
-- The tables of a level that a list of file numbers selects, where a number is that of one table.
use rivet_db.Prelude.{
  ℕ, ◌≤◌, ◌≡◌, refl, ap, ◌∙◌, Bool, true, false, List, [], ◌∷◌, ◌++◌, ◌||◌, ◌==◌, ==_refl, arith,
  All, any, all, Bool-cases, inl, inr,
}
use rivet_db.Prelude.Bytes.{equal_bytes_refl}
use rivet_db.Storage.Key
use rivet_db.Storage.Sorting.{count, All-map}
use rivet_db.Storage.Manifest.Edit.{TableMetadata, seen_file}
use rivet_db.Storage.Manifest.Version.{has_number}
use rivet_db.Storage.Compaction.{selects, filter, numbers, table_equal, found_equal, last_of}
use rivet_db.Storage.Compaction.Passes.{SameKeys, Agree}

module _ {ℓ} {A : Type ℓ} where
  pub all-true : (p : A → Bool) (xs : List A) → All (λ x. p x ≡ true) xs → all p xs ≡ true
  all-true p [] h = refl
  all-true p (x ∷ xs) (h, hs) = rw (h, all-true p xs hs) refl

  pub All-append : (P : A → Type 0) (xs ys : List A) → All P xs → All P ys → All P (xs ++ ys)
  All-append P [] ys h k = k
  All-append P (x ∷ xs) ys (h, hs) k = (h, All-append P xs ys hs k)

  pub All-both : (P Q : A → Type 0) (xs : List A) → All P xs → All Q xs → All (λ x. P x × Q x) xs
  All-both P Q [] h k = tt
  All-both P Q (x ∷ xs) (h, hs) (k, ks) = ((h, k), All-both P Q xs hs ks)

pub All-last :
    (P : TableMetadata → Type 0) (t : TableMetadata) (ts : List TableMetadata)
    → All P (t ∷ ts)
    → P (last_of t ts)
All-last P t [] (h, hs) = h
All-last P t (u ∷ ts) (h, hs) = All-last P u ts hs

abbrev pub IsUnique : List TableMetadata → Type 0
IsUnique ts = (n : ℕ) → count (has_number n) ts ≤ 1

IsUnique-tail : (t : TableMetadata) (ts : List TableMetadata) → IsUnique (t ∷ ts) → IsUnique ts
IsUnique-tail t ts u n = ground (arith, u n)

none_same :
    (n : ℕ) (ts : List TableMetadata)
    → count (has_number n) ts ≡ 0
    → All (λ t. (t.file_number == n) ≡ false) ts
none_same n [] h = tt
none_same n (t ∷ ts) h = (ground arith, none_same n ts (ground arith))

others :
    (t : TableMetadata) (ts : List TableMetadata)
    → IsUnique (t ∷ ts)
    → All (λ u. (u.file_number == t.file_number) ≡ false) ts
others t ts u = none_same t.file_number ts (ground (arith, u t.file_number))

pub IsUnique-Agree : (ts : List TableMetadata) → IsUnique ts → Agree ts ts
IsUnique-Agree [] u = tt
IsUnique-Agree (t ∷ ts) u =
    let apart = others t ts u in
    let head = All-map _ (λ u. SameKeys u t) (λ x h k. absurd (ground arith)) ts apart in
    let rest = IsUnique-Agree ts (IsUnique-tail t ts u) in
    (
      ((λ k. (refl, refl)), head),
      All-map _ (λ x. All (λ y. SameKeys y x) (t ∷ ts))
          (λ x (h, k). ((λ e. absurd (ground arith)), k)) ts
          (All-both (λ x. (x.file_number == t.file_number) ≡ false)
            (λ x. All (λ y. SameKeys y x) ts) ts apart rest),
    )

table_equal_refl : (t : TableMetadata) → table_equal t t ≡ true
unfolding table_equal
table_equal_refl t =
    rw
      (
        ==_refl t.level,
        ==_refl t.file_number,
        ==_refl t.flush_generation,
        ==_refl t.file_size,
        ==_refl t.entry_count,
        ==_refl t.deletion_count,
        ==_refl t.raw_key_value_bytes,
        ==_refl t.data_block_count,
        ==_refl t.smallest_sequence,
        ==_refl t.largest_sequence,
        equal_bytes_refl (Key.encode t.smallest_internal),
        equal_bytes_refl (Key.encode t.largest_internal),
        equal_bytes_refl t.smallest_user,
        equal_bytes_refl t.largest_user,
      )
      refl

pub found_self : (ts : List TableMetadata) → IsUnique ts → All (λ t. found_equal ts t ≡ true) ts
found_self [] u = tt
found_self (t ∷ ts) u = (
  rw (==_refl t.file_number) (table_equal_refl t),
  All-map _ (λ x. found_equal (t ∷ ts) x ≡ true) (λ x (h, k). ground arith) ts
      (All-both (λ x. (x.file_number == t.file_number) ≡ false) (λ x. found_equal ts x ≡ true) ts
        (others t ts u) (found_self ts (IsUnique-tail t ts u))),
)

-- The members of a filtered level.
pub All-filter :
    (P : TableMetadata → Type 0) (selected : List ℕ) (ts : List TableMetadata)
    → All P ts
    → All (λ t. P t × (selects selected t ≡ true)) (filter selected ts)
All-filter P selected [] h = tt
All-filter P selected (t ∷ ts) (h, hs) = elim (Bool-cases (selects selected t)) [
  | inl in_it ↦ rw in_it ((h, in_it), All-filter P selected ts hs)
  | inr out ↦ rw out (All-filter P selected ts hs)
]

pub seen-filter :
    (n : ℕ) (selected : List ℕ) (ts : List TableMetadata)
    → seen_file n selected ≡ true
    → any (has_number n) ts ≡ true
    → seen_file n (numbers (filter selected ts)) ≡ true
seen-filter n selected [] h k = cc
seen-filter n selected (t ∷ ts) h k = elim (Bool-cases (t.file_number == n)) [
  | inl this ↦
      (let same : t.file_number ≡ n = ground arith in
        let in_it : selects selected t ≡ true = ap (λ m. seen_file m selected) same ∙ h in
        rw (in_it, this) refl)
  | inr other ↦ ground (arith, seen-filter n selected ts h)
]

pub seen-append :
    (n : ℕ) (xs ys : List TableMetadata)
    → seen_file n (numbers (xs ++ ys)) ≡ (seen_file n (numbers xs) || seen_file n (numbers ys))
seen-append n [] ys = refl
seen-append n (x ∷ xs) ys = ground (arith, seen-append n xs ys)

pub members : (ts : List TableMetadata) → All (λ t. any (has_number t.file_number) ts ≡ true) ts
members [] = tt
members (t ∷ ts) = (
  rw (==_refl t.file_number) refl,
  All-map _ (λ x. any (has_number x.file_number) (t ∷ ts) ≡ true) (λ x h. ground arith) ts
      (members ts),
)
