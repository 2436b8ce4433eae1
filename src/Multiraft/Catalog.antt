-- ===== src/Multiraft/Catalog.antt =====
-- internal/multiraft/catalog.go: construction of a catalog and the lookups in it, and the size that
-- encodeCatalog of catalog_codec.go limits. The fingerprint, a SHA-256 of the encoding, is left out,
-- and a negative replication factor, which is rejected as 0 is, is not told apart from 0.
pub mod Sorted
pub mod Lookup
pub mod Find
use rivet_db.Prelude.{
  ℕ, zero, suc, ◌+◌, ◌*◌, ◌-◌, ◌/◌, ◌^◌, Bool, true, false, Option, none, some, not, List, [], ◌∷◌,
  ◌&&◌, ◌||◌, ◌==◌, leb, ltb, if◌then◌else◌, Ordering, length, get_elem?, all, Result, ok, err,
  guard, ◌>>=◌, ◌>>◌,
}
use rivet_db.Prelude.Bytes.{compare_bytes}
use rivet_db.Raft.Sort.{sort, contains}
use rivet_db.Multiraft.Descriptor.{
  RangeDescriptor, ReplicaDescriptor, Error, invalid_catalog, range_not_found, resource_limit,
  validate, before, contains_key, ends_after, replica_on,
}

abbrev pub max_catalog_ranges : ℕ
max_catalog_ranges = 4096

abbrev pub max_catalog_nodes : ℕ
max_catalog_nodes = 1024

abbrev pub max_range_replicas : ℕ
max_range_replicas = 31

abbrev pub max_catalog_bytes : ℕ
max_catalog_bytes = 32 * 2 ^ 20

pub record Bootstrap : Type 0 where
  pub generation : ℕ
  pub nodes : List ℕ
  pub replication_factor : ℕ
  pub allow_partial : Bool
  pub ranges : List RangeDescriptor

pub record Catalog : Type 0 where
  pub generation : ℕ
  pub nodes : List ℕ
  pub replication_factor : ℕ
  pub allow_partial : Bool
  pub ranges : List RangeDescriptor
  pub by_id : List (ℕ × ℕ)

abbrev pub within_limits : Bootstrap → Bool
within_limits b =
    not (b.generation == 0 || (length b.nodes == 0 || ltb max_catalog_nodes (length b.nodes)))
    && (not (ltb b.replication_factor 1 || ltb max_range_replicas b.replication_factor)
        && not (length b.ranges == 0 || ltb max_catalog_ranges (length b.ranges)))

-- On the sorted nodes: none is zero, and none equals the one before it.
abbrev distinct_nodes : Option ℕ → List ℕ → Bool
distinct_nodes previous [] = true
distinct_nodes none (n ∷ ns) = not (n == 0) && distinct_nodes (some n) ns
distinct_nodes (some p) (n ∷ ns) = not (n == 0 || n == p) && distinct_nodes (some n) ns

abbrev pub check_range : Bootstrap → RangeDescriptor → Result Error (Unit {0})
check_range b d = do
  validate d
  guard (length d.replicas == b.replication_factor) invalid_catalog
  guard (all (λ (r : ReplicaDescriptor). contains b.nodes r.node_id) d.replicas) invalid_catalog

abbrev pub check_ranges : Bootstrap → List RangeDescriptor → Result Error (Unit {0})
check_ranges b [] = ok tt
check_ranges b (d ∷ ds) = check_range b d >> check_ranges b ds

-- The sort keys of one replica list are distinct once `validate` has passed, so the sorted
-- arrangement is unique.
abbrev replica_before : ReplicaDescriptor → ReplicaDescriptor → Bool
replica_before a b =
    if not (a.replica_id == b.replica_id)
    then ltb a.replica_id b.replica_id
    else ltb a.node_id b.node_id

abbrev insert_replica : ReplicaDescriptor → List ReplicaDescriptor → List ReplicaDescriptor
insert_replica r [] = r ∷ []
insert_replica r (x ∷ xs) =
    let rest = insert_replica r xs in if replica_before x r then x ∷ rest else r ∷ x ∷ xs

abbrev sort_replicas : List ReplicaDescriptor → List ReplicaDescriptor
sort_replicas [] = []
sort_replicas (r ∷ rs) = insert_replica r (sort_replicas rs)

abbrev pub with_sorted_replicas : RangeDescriptor → RangeDescriptor
with_sorted_replicas d = record d { replicas = sort_replicas d.replicas }

-- `compareStart(left, right) < 0`
unfoldable pub starts_before : RangeDescriptor → RangeDescriptor → Bool
starts_before left right =
    if left.start_key.unbounded
    then not right.start_key.unbounded
    else not right.start_key.unbounded && before left.start_key.key right.start_key.key

abbrev pub insert_range : RangeDescriptor → List RangeDescriptor → List RangeDescriptor
insert_range d [] = d ∷ []
insert_range d (x ∷ xs) =
    let rest = insert_range d xs in if starts_before x d then x ∷ rest else d ∷ x ∷ xs

-- Ranges with one start are rejected after the sort, so how it orders them does not matter.
abbrev pub sort_ranges : List RangeDescriptor → List RangeDescriptor
sort_ranges [] = []
sort_ranges (d ∷ ds) = insert_range (with_sorted_replicas d) (sort_ranges ds)

abbrev touches : Bool → Ordering → Bool
touches partial Ordering.lt = partial
touches partial Ordering.eq = true
touches partial Ordering.gt = false

abbrev pub adjoins : Bool → RangeDescriptor → RangeDescriptor → Bool
adjoins partial previous d =
    not (previous.end_key.unbounded || d.start_key.unbounded)
    && touches partial (compare_bytes previous.end_key.key d.start_key.key)

abbrev follows : Bool → Option RangeDescriptor → RangeDescriptor → Bool
follows partial none d = true
follows partial (some previous) d = adjoins partial previous d

-- The loop over the sorted ranges, with the ids seen and the range before.
abbrev pub chained : Bool → List ℕ → Option RangeDescriptor → List RangeDescriptor → Bool
chained partial seen previous [] = true
chained partial seen previous (d ∷ ds) =
    not (contains seen d.range_id)
    && (follows partial previous d && chained partial (d.range_id ∷ seen) (some d) ds)

abbrev pub last_unbounded : List RangeDescriptor → Bool
last_unbounded [] = false
last_unbounded (d ∷ []) = d.end_key.unbounded
last_unbounded (d ∷ e ∷ es) = last_unbounded (e ∷ es)

abbrev pub first_unbounded : List RangeDescriptor → Bool
first_unbounded [] = false
first_unbounded (d ∷ ds) = d.start_key.unbounded

abbrev positions : ℕ → List RangeDescriptor → List (ℕ × ℕ)
positions index [] = []
positions index (d ∷ ds) = (d.range_id, index) ∷ positions (index + 1) ds

abbrev pub encoded_ranges : List RangeDescriptor → ℕ
encoded_ranges [] = 0
encoded_ranges (d ∷ ds) =
    32 + length d.start_key.key + length d.end_key.key + 16 * length d.replicas + encoded_ranges ds

-- The length of `encodeCatalog`'s buffer before its checksum.
abbrev pub encoded_size : Catalog → ℕ
encoded_size c = 28 + 8 * length c.nodes + encoded_ranges c.ranges

abbrev pub within_encoding : Catalog → Result Error Catalog
within_encoding c =
    if ltb (max_catalog_bytes - 4) (encoded_size c) then err resource_limit else ok c

abbrev pub catalog_of : Bootstrap → Catalog
catalog_of b = record {
  generation = b.generation;
  nodes = sort b.nodes;
  replication_factor = b.replication_factor;
  allow_partial = b.allow_partial;
  ranges = sort_ranges b.ranges;
  by_id = positions 0 (sort_ranges b.ranges);
}

abbrev pub covers : Bootstrap → Bool
covers b =
    b.allow_partial
    || first_unbounded (sort_ranges b.ranges) && last_unbounded (sort_ranges b.ranges)

unfoldable pub new_catalog : Bootstrap → Result Error Catalog
new_catalog b = do
  guard (within_limits b) invalid_catalog
  guard (distinct_nodes none (sort b.nodes)) invalid_catalog
  check_ranges b b.ranges
  guard (chained b.allow_partial [] none (sort_ranges b.ranges)) invalid_catalog
  guard (covers b) invalid_catalog
  within_encoding (catalog_of b)

-- `sort.Search`: each round at least halves the interval, and its length is fuel enough.
unfoldable pub search : ℕ → ℕ → ℕ → (ℕ → Bool) → ℕ
search zero i j f = i
search (suc fuel) i j f = elim (ltb i j) [
  | false ↦ i
  | true ↦ elim (f ((i + j) / 2)) [
    | true ↦ search fuel i ((i + j) / 2) f
    | false ↦ search fuel ((i + j) / 2 + 1) j f
  ]
]

-- The test of the search at an index; the search keeps the index in range.
abbrev pub ends_after_at : List ℕ → List RangeDescriptor → ℕ → Bool
ends_after_at key ds index = elim (get_elem? ds index) [ none ↦ true | some d ↦ ends_after key d ]

abbrev pub checked : List ℕ → Option RangeDescriptor → Result Error RangeDescriptor
checked key none = err range_not_found
checked key (some d) = if not (contains_key d key) then err range_not_found else ok d

unfoldable pub lookup : Catalog → List ℕ → Result Error RangeDescriptor
unfolding search
lookup c key =
    checked key (
      get_elem? c.ranges
        (search (length c.ranges) 0 (length c.ranges) (ends_after_at key c.ranges)))

abbrev position_of : ℕ → List (ℕ × ℕ) → Option ℕ
position_of id [] = none
position_of id ((i, index) ∷ m) = if i == id then some index else position_of id m

abbrev at_position : Catalog → Option ℕ → Result Error RangeDescriptor
at_position c none = err range_not_found
at_position c (some index) = elim (get_elem? c.ranges index) [
  | none ↦ err range_not_found
  | some d ↦ ok d
]

unfoldable pub lookup_by_id : Catalog → ℕ → Result Error RangeDescriptor
lookup_by_id c id = at_position c (position_of id c.by_id)

abbrev is_some : {A : Type 0} → Option A → Bool
is_some none = false
is_some (some a) = true

abbrev assigned_in : ℕ → List RangeDescriptor → List RangeDescriptor
assigned_in node [] = []
assigned_in node (d ∷ ds) =
    let rest = assigned_in node ds in
    if is_some (replica_on node d.replicas) then d ∷ rest else rest

unfoldable pub assigned : Catalog → ℕ → List RangeDescriptor
assigned c node = assigned_in node c.ranges
