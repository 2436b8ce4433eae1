-- ===== src/Multiraft/Catalog/Sorted.antt =====
-- What a catalog's construction checked of its ranges: each is an interval, and each ends where the
-- next one starts, or before.
use rivet_db.Prelude.{
  ℕ, ◌≡◌, inl, inr, refl, Bool, true, false, Option, none, some, List, [], ◌∷◌, All, arith,
  Bool-cases, Result, ok, err, guard, ◌>>◌, both_passed, &&_true,
}
use rivet_db.Multiraft.Descriptor.{RangeDescriptor, Error, validate, bounded_interval}
use rivet_db.Multiraft.Catalog.{
  Bootstrap, Catalog, check_range, check_ranges, with_sorted_replicas, starts_before, insert_range,
  sort_ranges, adjoins, chained, new_catalog, catalog_of, covers, within_limits, within_encoding,
}

abbrev pub IsInterval : RangeDescriptor → Type 0
IsInterval d = bounded_interval d ≡ true

-- Intervals, each of which adjoins the one before.
abbrev pub Adjoined : Bool → List RangeDescriptor → Type 0
Adjoined partial [] = Unit
Adjoined partial (d ∷ []) = IsInterval d
Adjoined partial (d ∷ e ∷ es) =
    IsInterval d × (adjoins partial d e ≡ true) × Adjoined partial (e ∷ es)

validate-IsInterval : (d : RangeDescriptor) → validate d ≡ ok tt → IsInterval d
unfolding validate
validate-IsInterval d h = ground arith

check_ranges-All :
    (b : Bootstrap) (ds : List RangeDescriptor) → check_ranges b ds ≡ ok tt → All IsInterval ds
check_ranges-All b [] h = tt
check_ranges-All b (d ∷ ds) h =
    let (one, rest) = both_passed (check_range b d) (check_ranges b ds) h in
    let (valid, _) = both_passed (validate d) _ one in
    (validate-IsInterval d valid, check_ranges-All b ds rest)

insert_range-All :
    (d : RangeDescriptor) (ds : List RangeDescriptor)
    → IsInterval d
    → All IsInterval ds
    → All IsInterval (insert_range d ds)
insert_range-All d [] h hs = (h, tt)
insert_range-All d (x ∷ xs) h (hx, hxs) = elim (Bool-cases (starts_before x d)) [
  | inl lower ↦ rw lower (hx, insert_range-All d xs h hxs)
  | inr not_lower ↦ rw not_lower (h, (hx, hxs))
]

sort_ranges-All : (ds : List RangeDescriptor) → All IsInterval ds → All IsInterval (sort_ranges ds)
sort_ranges-All [] h = tt
sort_ranges-All (d ∷ ds) (h, hs) =
    insert_range-All (with_sorted_replicas d) (sort_ranges ds) h (sort_ranges-All ds hs)

chained-Adjoined :
    (partial : Bool) (seen : List ℕ) (previous : Option RangeDescriptor) (ds : List RangeDescriptor)
    → chained partial seen previous ds ≡ true
    → All IsInterval ds
    → Adjoined partial ds
chained-Adjoined partial seen previous [] h hs = tt
chained-Adjoined partial seen previous (d ∷ []) h (hd, hs) = hd
chained-Adjoined partial seen previous (d ∷ e ∷ es) h (hd, hs) =
    let (_, rest) = &&_true _ _ h in
    let (_, later) = &&_true _ _ rest in
    let (_, next) = &&_true _ _ later in
    let (joins, _) = &&_true _ _ next in
    (hd, joins, chained-Adjoined partial (d.range_id ∷ seen) (some d) (e ∷ es) later hs)

-- Checks in a row that all pass.
all_passed :
    (a b d e : Bool) (m : Result Error (Unit {0})) (r : Result Error Catalog) (x : Error)
    (c : Catalog)
    → (guard a x >> (guard b x >> (m >> (guard d x >> (guard e x >> r))))) ≡ ok c
    → (m ≡ ok tt) × (d ≡ true) × (e ≡ true) × (r ≡ ok c)
all_passed true true true true (ok u) r x c h = (refl, refl, refl, h)
all_passed true true true false (ok u) r x c h = cc
all_passed true true false e (ok u) r x c h = cc
all_passed true true d e (err y) r x c h = cc
all_passed true false d e m r x c h = cc
all_passed false b d e m r x c h = cc

within_encoding_same : (c d : Catalog) → within_encoding c ≡ ok d → d ≡ c
within_encoding_same c d h = ground arith

-- What a successful construction has checked.
pub new_catalog-Adjoined :
    (b : Bootstrap) (c : Catalog)
    → new_catalog b ≡ ok c
    → (c ≡ catalog_of b) × Adjoined b.allow_partial c.ranges × (covers b ≡ true)
unfolding new_catalog
new_catalog-Adjoined b c h =
    let (valid, chain, cover, made) =
      all_passed (within_limits b) _ (chained b.allow_partial [] none (sort_ranges b.ranges))
        (covers b) (check_ranges b b.ranges) (within_encoding (catalog_of b)) _ c h in
    let same = within_encoding_same (catalog_of b) c made in
    (
      same,
      rw same (
          chained-Adjoined b.allow_partial [] none (sort_ranges b.ranges) chain
            (sort_ranges-All b.ranges (check_ranges-All b b.ranges valid))),
      cover,
    )
