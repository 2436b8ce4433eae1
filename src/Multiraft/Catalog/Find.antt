-- ===== src/Multiraft/Catalog/Find.antt =====
-- A lookup returns the one range of the catalog that holds the key.
use rivet_db.Prelude.{
  ℕ, zero, suc, ◌<◌, ◌≡◌, ◌↔◌, inl, inr, refl, sym, ap, subst, ◌∙◌, Bool, true, false, some, List,
  [], ◌∷◌, ◌&&◌, arith, length, get_elem?, if◌then◌else◌, Bool-cases, Ordering, Result, ok, err,
  &&_true,
}
use rivet_db.Prelude.Bytes.{compare_bytes, compare_bytes-flip, compare_bytes→eq}
use rivet_db.Multiraft.Descriptor.{
  RangeDescriptor, Error, range_not_found, before, before_between, before_trans, reached,
  ends_after, contains_key,
}
use rivet_db.Multiraft.Catalog.{
  Bootstrap, Catalog, adjoins, new_catalog, ends_after_at, checked, lookup, first_unbounded,
  last_unbounded,
}
use rivet_db.Multiraft.Catalog.Sorted.{IsInterval, Adjoined, new_catalog-Adjoined}
use rivet_db.Multiraft.Catalog.Lookup.{Monotone, search-IsFirst}

-- The reference: the first range that ends after the key, if it holds the key.
abbrev locate : List ℕ → List RangeDescriptor → Result Error RangeDescriptor
locate key [] = err range_not_found
locate key (d ∷ ds) =
    let rest = locate key ds in if ends_after key d then checked key (some d) else rest

not_before : (p d : List ℕ) → (compare_bytes p d ≡ Ordering.gt) → before d p ≡ true
unfolding before
not_before p d h = ground (arith, compare_bytes-flip p d)

-- The next range starts no earlier than this one ends.
adjoins_order :
    (partial : Bool) (p d : RangeDescriptor)
    → adjoins partial p d ≡ true
    → (p.end_key.unbounded ≡ false)
      × (d.start_key.unbounded ≡ false)
      × (before d.start_key.key p.end_key.key ≡ false)
unfolding before
adjoins_order partial p d h = ground (arith, compare_bytes-flip p.end_key.key d.start_key.key)

-- A key before the end of a range is before the end of the next.
ends_after_next :
    (partial : Bool) (key : List ℕ) (p d : RangeDescriptor)
    → IsInterval d
    → adjoins partial p d ≡ true
    → ends_after key p ≡ true
    → ends_after key d ≡ true
ends_after_next partial key p d interval joins h =
    let (pe, ds, order) = adjoins_order partial p d joins in
    ground (
      arith,
      before_between key d.start_key.key p.end_key.key,
      before_trans key d.start_key.key d.end_key.key,
    )

-- A key from the start of a range on is not before the end of the one before it.
reached_next :
    (partial : Bool) (key : List ℕ) (p d : RangeDescriptor)
    → adjoins partial p d ≡ true
    → reached key d ≡ true
    → ends_after key p ≡ false
reached_next partial key p d joins h =
    let (pe, ds, order) = adjoins_order partial p d joins in
    ground (arith, before_between key d.start_key.key p.end_key.key)

-- A range reached by its end is reached by its start.
past_start :
    (partial : Bool) (key : List ℕ) (p d : RangeDescriptor)
    → IsInterval d
    → adjoins partial p d ≡ true
    → ends_after key d ≡ false
    → ends_after key p ≡ false
past_start partial key p d interval joins h = elim (Bool-cases (ends_after key p)) [
  | inl early ↦ (let late = ends_after_next partial key p d interval joins early in cc)
  | inr past ↦ past
]

head-IsInterval :
    (partial : Bool) (d : RangeDescriptor) (ds : List RangeDescriptor)
    → Adjoined partial (d ∷ ds)
    → IsInterval d
head-IsInterval partial d [] h = h
head-IsInterval partial d (x ∷ xs) h = h.0

-- The test of the search is monotone.
ends_after_at-later :
    (partial : Bool) (key : List ℕ) (d : RangeDescriptor) (ds : List RangeDescriptor) (j : ℕ)
    → Adjoined partial (d ∷ ds)
    → ends_after key d ≡ true
    → ends_after_at key (d ∷ ds) j ≡ true
ends_after_at-later partial key d ds zero h e = e
ends_after_at-later partial key d [] (suc j) h e = refl
ends_after_at-later partial key d (x ∷ xs) (suc j) (interval, joins, rest) e =
    ends_after_at-later partial key x xs j rest
      (ends_after_next partial key d x (head-IsInterval partial x xs rest) joins e)

Adjoined-tail :
    (partial : Bool) (d : RangeDescriptor) (ds : List RangeDescriptor)
    → Adjoined partial (d ∷ ds)
    → Adjoined partial ds
Adjoined-tail partial d [] h = tt
Adjoined-tail partial d (x ∷ xs) (interval, joins, rest) = rest

ends_after_at-Monotone :
    (partial : Bool) (key : List ℕ) (ds : List RangeDescriptor)
    → Adjoined partial ds
    → Monotone (ends_after_at key ds)
ends_after_at-Monotone partial key [] h i j ij e = refl
ends_after_at-Monotone partial key (d ∷ ds) h zero j ij e =
    ends_after_at-later partial key d ds j h e
ends_after_at-Monotone partial key (d ∷ ds) h (suc i) zero ij e = absurd (omega arith)
ends_after_at-Monotone partial key (d ∷ ds) h (suc i) (suc j) ij e =
    ends_after_at-Monotone partial key ds (Adjoined-tail partial d ds h) i j (omega arith) e

-- The range at the first index that ends after the key is the one that the reference checks.
first-locate :
    (key : List ℕ) (ds : List RangeDescriptor) (r : ℕ)
    → ((k : ℕ) → k < r → ends_after_at key ds k ≡ false)
    → (r < length ds → ends_after_at key ds r ≡ true)
    → checked key (get_elem? ds r) ≡ locate key ds
first-locate key [] r below found = refl
first-locate key (d ∷ ds) zero below found = rw (found (omega arith)) refl
first-locate key (d ∷ ds) (suc r) below found =
    rw (below 0 (omega arith))
      (first-locate key ds r (λ k h. below (suc k) (omega arith)) (λ h. found (omega arith)))

-- The binary search and the reference agree.
lookup-locate :
    (partial : Bool) (c : Catalog) (key : List ℕ)
    → Adjoined partial c.ranges
    → lookup c key ≡ locate key c.ranges
unfolding lookup
lookup-locate partial c key h =
    let s =
      search-IsFirst (length c.ranges) 0 (length c.ranges) (ends_after_at key c.ranges)
        (ends_after_at-Monotone partial key c.ranges h) (omega arith) (omega arith) in
    first-locate key c.ranges _ (λ k kr. s.below k (omega arith) kr) s.found

locate_holds :
    (key : List ℕ) (ds : List RangeDescriptor) (d : RangeDescriptor)
    → locate key ds ≡ ok d
    → (contains_key d key ≡ true) × ((i : ℕ) × (get_elem? ds i ≡ some d))
locate_holds key [] d h = cc
locate_holds key (x ∷ xs) d h = elim (Bool-cases (ends_after key x)) [
  | inl ends ↦ elim (Bool-cases (contains_key x key)) [
    | inl holds ↦ (let same : x ≡ d = ground arith in (rw (sym same) holds, (0, ap some same)))
    | inr out ↦ absurd (ground arith)
  ]
  | inr past ↦
      (let tail : locate key xs ≡ ok d = ground arith in
        let (holds, (i, at)) = locate_holds key xs d tail in (holds, (suc i, at)))
]

-- A range before one that the key has reached has ended.
ended :
    (partial : Bool) (key : List ℕ) (p : RangeDescriptor) (ds : List RangeDescriptor) (i : ℕ)
    (d : RangeDescriptor)
    → Adjoined partial (p ∷ ds)
    → get_elem? ds i ≡ some d
    → reached key d ≡ true
    → ends_after key p ≡ false
ended partial key p [] i d h at r = cc
ended partial key p (x ∷ xs) zero d (interval, joins, rest) at r =
    reached_next partial key p x joins (let same : x ≡ d = ground arith in rw same r)
ended partial key p (x ∷ xs) (suc i) d (interval, joins, rest) at r =
    past_start partial key p x (head-IsInterval partial x xs rest) joins
      (ended partial key x xs i d rest at r)

locate_finds :
    (partial : Bool) (key : List ℕ) (ds : List RangeDescriptor) (i : ℕ) (d : RangeDescriptor)
    → Adjoined partial ds
    → get_elem? ds i ≡ some d
    → contains_key d key ≡ true
    → locate key ds ≡ ok d
locate_finds partial key [] i d h at holds = cc
locate_finds partial key (x ∷ xs) zero d h at holds =
    let (starts, ends) = &&_true (reached key d) (ends_after key d) holds in
    let same : x ≡ d = ground arith in rw same (rw (ends, starts) refl)
locate_finds partial key (x ∷ xs) (suc i) d h at holds =
    let (starts, _) = &&_true (reached key d) (ends_after key d) holds in
    rw (ended partial key x xs i d h at starts)
      (locate_finds partial key xs i d (Adjoined-tail partial x xs h) at holds)

-- Without gaps, the next range is reached when this one has ended.
reached_after :
    (key : List ℕ) (p d : RangeDescriptor)
    → adjoins false p d ≡ true
    → ends_after key p ≡ false
    → reached key d ≡ true
unfolding before
reached_after key p d joins h = ground (arith, compare_bytes→eq p.end_key.key d.start_key.key)

locate_total :
    (key : List ℕ) (d : RangeDescriptor) (ds : List RangeDescriptor)
    → Adjoined false (d ∷ ds)
    → reached key d ≡ true
    → last_unbounded (d ∷ ds) ≡ true
    → (e : RangeDescriptor) × (locate key (d ∷ ds) ≡ ok e)
locate_total key d [] h starts final = (d, ground arith)
locate_total key d (x ∷ xs) (interval, joins, rest) starts final =
    elim (Bool-cases (ends_after key d)) [
      | inl ends ↦ (d, ground arith)
      | inr past ↦
          (let (e, at) = locate_total key x xs rest (reached_after key d x joins past) final in
            (e, rw past at))
    ]

-- In a catalog that NewCatalog built, Lookup returns a range exactly when the range is one of the
-- catalog's and holds the key.
pub lookup_exact :
    (b : Bootstrap) (c : Catalog) (key : List ℕ) (d : RangeDescriptor)
    → new_catalog b ≡ ok c
    → (lookup c key ≡ ok d)
      ↔ ((contains_key d key ≡ true) × ((i : ℕ) × (get_elem? c.ranges i ≡ some d)))
lookup_exact b c key d made =
    let (same, sorted, cover) = new_catalog-Adjoined b c made in
    let refine = lookup-locate b.allow_partial c key sorted in
    (
      λ h. locate_holds key c.ranges d (sym refine ∙ h),
      λ (holds, (i, at)). refine ∙ locate_finds b.allow_partial key c.ranges i d sorted at holds,
    )

covers_total :
    (key : List ℕ) (ds : List RangeDescriptor)
    → Adjoined false ds
    → (first_unbounded ds && last_unbounded ds) ≡ true
    → (e : RangeDescriptor) × (locate key ds ≡ ok e)
covers_total key [] h full = cc
covers_total key (d ∷ ds) h full =
    let (first, final) = &&_true d.start_key.unbounded (last_unbounded (d ∷ ds)) full in
    locate_total key d ds h (rw first refl) final

-- In a catalog that NewCatalog built without AllowPartial, Lookup finds a range for every key.
pub lookup_total :
    (b : Bootstrap) (c : Catalog) (key : List ℕ)
    → b.allow_partial ≡ false
    → new_catalog b ≡ ok c
    → (d : RangeDescriptor) × (lookup c key ≡ ok d)
lookup_total b c key full made =
    let (same, sorted, cover) = new_catalog-Adjoined b c made in
    let sorted' = subst (λ p. Adjoined p c.ranges) full sorted in
    let ends : (first_unbounded c.ranges && last_unbounded c.ranges) ≡ true = ground arith in
    let (d, at) = covers_total key c.ranges sorted' ends in
    (d, lookup-locate false c key sorted' ∙ at)

-- No two ranges of a catalog that NewCatalog built hold one key.
pub one_range :
    (b : Bootstrap) (c : Catalog) (key : List ℕ) (i j : ℕ) (d e : RangeDescriptor)
    → new_catalog b ≡ ok c
    → get_elem? c.ranges i ≡ some d
    → get_elem? c.ranges j ≡ some e
    → contains_key d key ≡ true
    → contains_key e key ≡ true
    → d ≡ e
one_range b c key i j d e made di ej hd he =
    let first = (lookup_exact b c key d made).1 (hd, (i, di)) in
    let second = (lookup_exact b c key e made).1 (he, (j, ej)) in cc
