-- ===== src/Storage/Manifest/Apply/OneTable.antt =====
-- Above the first level, a user key lies in the range of one table at most.
use rivet_db.Prelude.{
  ℕ, zero, suc, ◌≤◌, ◌≡◌, refl, Bool, true, false, List, [], ◌∷◌, ◌&&◌, not, All, arith, Bool-cases,
  inl, inr, ||_false, ok, guard, guard-ok, >>-ok, not-true,
}
use rivet_db.Prelude.Bytes.{compare_bytes-flip, compare_bytes_trans, compare_bytes→eq}
use rivet_db.Storage.Sorting.{count, All-map}
use rivet_db.Storage.Manifest.Edit.{
  TableMetadata, less_bytes, validate_table, bad_numbers, bad_keys, invalid_edit,
  invalid_edit_level,
}
use rivet_db.Storage.Manifest.Version.{Version, level_at, overlaps, overlaps_from}
use rivet_db.Storage.Manifest.Apply.Levels.{Placed}
use rivet_db.Storage.Manifest.Apply.WellFormed.{IsWellFormed, Disjoint}

-- Whether a user key lies between a table's smallest and largest one.
abbrev pub in_range : List ℕ → TableMetadata → Bool
in_range key t = not (less_bytes key t.smallest_user) && not (less_bytes t.largest_user key)

below_start :
    (key last start : List ℕ)
    → less_bytes last key ≡ false
    → less_bytes last start ≡ true
    → less_bytes key start ≡ true
below_start key last start h k = ground (
  arith,
  compare_bytes-flip last key,
  compare_bytes_trans key last start,
  compare_bytes→eq last key,
)

below_end :
    (key start last : List ℕ)
    → less_bytes key start ≡ true
    → less_bytes last start ≡ false
    → less_bytes last key ≡ false
below_end key start last h k = ground (arith, compare_bytes_trans last key start)

abbrev pub IsRange : TableMetadata → Type 0
IsRange t = less_bytes t.largest_user t.smallest_user ≡ false

none_after :
    (key : List ℕ) (last : TableMetadata) (ts : List TableMetadata)
    → overlaps_from last ts ≡ false
    → All IsRange ts
    → less_bytes last.largest_user key ≡ false
    → count (in_range key) ts ≡ 0
none_after key last [] h r k = refl
none_after key last (t ∷ ts) h (r, rs) k =
    let (near, far) =
      ||_false (not (less_bytes last.largest_user t.smallest_user)) (overlaps_from t ts) h in
    let before : less_bytes key t.smallest_user ≡ true =
      below_start key last.largest_user t.smallest_user k (ground arith) in
    rw before (none_after key t ts far rs (below_end key t.smallest_user t.largest_user before r))

overlaps_tail :
    (t : TableMetadata) (ts : List TableMetadata) → overlaps (t ∷ ts) ≡ false → overlaps ts ≡ false
overlaps_tail t [] h = refl
overlaps_tail t (u ∷ ts) h = (||_false _ (overlaps_from u ts) h).1

one_of_level :
    (key : List ℕ) (ts : List TableMetadata)
    → overlaps ts ≡ false
    → All IsRange ts
    → count (in_range key) ts ≤ 1
one_of_level key [] h r = omega arith
one_of_level key (t ∷ ts) h (r, rs) = elim (Bool-cases (in_range key t)) [
  | inl here ↦
      (let none_left = none_after key t ts h rs (ground arith) in
        rw here (omega (arith, none_left)))
  | inr away ↦ rw away (one_of_level key ts (overlaps_tail t ts h) rs)
]

pub validate_table-IsRange : (t : TableMetadata) → validate_table t ≡ ok tt → IsRange t
unfolding validate_table
validate_table-IsRange t h =
    let (_, h1) = >>-ok (guard _ invalid_edit_level) _ h in
    let (_, h2) = >>-ok (guard (not (bad_numbers t)) invalid_edit) _ h1 in
    let bad = not-true (bad_keys t) (guard-ok _ _ h2) in
    (||_false _ (less_bytes t.largest_user t.smallest_user) bad).1

level_ranges :
    (i j : ℕ) (ls : List (List TableMetadata)) → Placed j ls → All IsRange (level_at i ls)
level_ranges i j [] h = tt
level_ranges zero j (l ∷ ls) (h, hs) =
    All-map _ IsRange (λ t (_, v). validate_table-IsRange t v) l h
level_ranges (suc i) j (l ∷ ls) (h, hs) = level_ranges i (suc j) ls hs

upper_apart :
    (i : ℕ) (ls : List (List TableMetadata))
    → All (λ u. overlaps u ≡ false) ls
    → overlaps (level_at i ls) ≡ false
upper_apart i [] h = refl
upper_apart zero (l ∷ ls) (h, hs) = h
upper_apart (suc i) (l ∷ ls) (h, hs) = upper_apart i ls hs

level_apart :
    (i : ℕ) (ls : List (List TableMetadata)) → Disjoint ls → overlaps (level_at (suc i) ls) ≡ false
level_apart i [] h = refl
level_apart i (l ∷ ls) h = upper_apart i ls h

-- In a version with the invariant, each level above the first has at most one table whose range of
-- user keys contains a given key.
pub one_table_per_level :
    (v : Version) (level : ℕ) (key : List ℕ)
    → IsWellFormed v
    → count (in_range key) (level_at (suc level) v.levels) ≤ 1
one_table_per_level v level key w =
    one_of_level key (level_at (suc level) v.levels) (level_apart level v.levels w.disjoint)
      (level_ranges (suc level) 0 v.levels w.placed)
