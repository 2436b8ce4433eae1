-- ===== src/Storage/Compaction/Order.antt =====
-- The order of user keys, and what a span of keys contains.
use rivet_db.Prelude.{ℕ, ◌≡◌, refl, true, false, List, arith}
use rivet_db.Prelude.Bytes.{
  compare_bytes_refl, compare_bytes-flip, compare_bytes_trans, compare_bytes→eq,
}
use rivet_db.Storage.Manifest.Edit.{TableMetadata, less_bytes}
use rivet_db.Storage.Compaction.{KeySpan, at_most, ranges_overlap, expand_range}

pub at_most_refl : (a : List ℕ) → at_most a a ≡ true
at_most_refl a = rw (compare_bytes_refl a) refl

pub at_most_total : (a b : List ℕ) → at_most a b ≡ false → at_most b a ≡ true
at_most_total a b h = ground (arith, compare_bytes-flip a b)

pub at_most_trans : (a b c : List ℕ) → at_most a b ≡ true → at_most b c ≡ true → at_most a c ≡ true
at_most_trans a b c h k =
    ground (arith, compare_bytes_trans a b c, compare_bytes→eq a b, compare_bytes→eq b c)

pub not_less : (a b : List ℕ) → less_bytes b a ≡ false → at_most a b ≡ true
not_less a b h = ground (arith, compare_bytes-flip a b)

-- A table whose keys all lie in the span.
abbrev pub Inside : KeySpan → TableMetadata → Type 0
Inside r t = (at_most r.smallest t.smallest_user ≡ true) × (at_most t.largest_user r.largest ≡ true)

-- One span within another.
abbrev pub Grows : KeySpan → KeySpan → Type 0
Grows r s = (at_most s.smallest r.smallest ≡ true) × (at_most r.largest s.largest ≡ true)

pub Grows-refl : (r : KeySpan) → Grows r r
Grows-refl r = (at_most_refl r.smallest, at_most_refl r.largest)

pub Grows-trans : (r s u : KeySpan) → Grows r s → Grows s u → Grows r u
Grows-trans r s u (a, b) (c, d) = (
  at_most_trans u.smallest s.smallest r.smallest c a,
  at_most_trans r.largest s.largest u.largest b d,
)

pub Inside-mono : (r s : KeySpan) (t : TableMetadata) → Grows r s → Inside r t → Inside s t
Inside-mono r s t (a, b) (c, d) = (
  at_most_trans s.smallest r.smallest t.smallest_user a c,
  at_most_trans t.largest_user r.largest s.largest d b,
)

pub expand_range-Grows : (r : KeySpan) (t : TableMetadata) → Grows r (expand_range r t)
unfolding expand_range
expand_range-Grows r t = ground (
  arith,
  at_most_refl r.smallest,
  at_most_refl r.largest,
  at_most_total r.smallest t.smallest_user,
  at_most_total t.largest_user r.largest,
)

pub expand_range-Inside : (r : KeySpan) (t : TableMetadata) → Inside (expand_range r t) t
unfolding expand_range
expand_range-Inside r t = ground (arith, at_most_refl t.smallest_user, at_most_refl t.largest_user)

-- A table of the span overlaps it.
pub Inside-overlap :
    (r : KeySpan) (t : TableMetadata)
    → at_most t.smallest_user t.largest_user ≡ true
    → Inside r t
    → ranges_overlap r t ≡ true
Inside-overlap r t h (a, b) =
    let left = at_most_trans r.smallest t.smallest_user t.largest_user a h in
    let right = at_most_trans t.smallest_user t.largest_user r.largest h b in rw (left, right) refl
