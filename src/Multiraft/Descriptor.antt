-- ===== src/Multiraft/Descriptor.antt =====
-- internal/multiraft/descriptor.go: range descriptors, which keys they hold, and when two are the same.
use rivet_db.Prelude.{
  ℕ, ◌^◌, ◌≡◌, ◌⊎◌, Bool, true, false, Option, none, some, not, List, [], ◌∷◌, ◌&&◌, ◌||◌, ◌==◌,
  leb, if◌then◌else◌, Ordering, arith, length, Result, guard,
}
use rivet_db.Prelude.Bytes.{
  compare_bytes, compare_bytes→eq, compare_bytes-flip, compare_bytes_trans,
}
use rivet_db.Raft.Sort.{contains}

pub data Error : Type 0 where
  invalid_descriptor invalid_catalog range_not_found resource_limit : Error

abbrev pub max_user_key_size : ℕ
max_user_key_size = 2 ^ 20

pub record KeyBound : Type 0 where
  pub unbounded : Bool
  pub key : List ℕ

pub record ReplicaDescriptor : Type 0 where
  pub replica_id : ℕ
  pub node_id : ℕ

pub record RangeDescriptor : Type 0 where
  pub range_id : ℕ
  pub generation : ℕ
  pub start_key : KeyBound
  pub end_key : KeyBound
  pub replicas : List ReplicaDescriptor

abbrev is_lt : Ordering → Bool
is_lt Ordering.lt = true
is_lt _ = false

-- `bytes.Compare(a, b) < 0`
unfoldable pub before : List ℕ → List ℕ → Bool
before a b = is_lt (compare_bytes a b)

abbrev is_empty : {A : Type 0} → List A → Bool
is_empty [] = true
is_empty (x ∷ xs) = false

-- The loop over the replicas with its two sets of identities seen.
abbrev distinct_replicas : List ℕ → List ℕ → List ReplicaDescriptor → Bool
distinct_replicas ids nodes [] = true
distinct_replicas ids nodes (r ∷ rs) =
    not (r.replica_id == 0 || r.node_id == 0)
    && (not (contains ids r.replica_id)
        && (not (contains nodes r.node_id)
            && distinct_replicas (r.replica_id ∷ ids) (r.node_id ∷ nodes) rs))

abbrev pub bounded_interval : RangeDescriptor → Bool
bounded_interval d =
    d.start_key.unbounded || d.end_key.unbounded || before d.start_key.key d.end_key.key

-- Every failure is `ErrInvalidDescriptor`, so the checks form one conjunction.
unfoldable pub validate : RangeDescriptor → Result Error (Unit {0})
validate d =
    guard
      (bounded_interval d
        && (not (d.range_id == 0 || (d.generation == 0 || is_empty d.replicas))
            && (not (d.start_key.unbounded && not (is_empty d.start_key.key))
                && (not (d.end_key.unbounded && not (is_empty d.end_key.key))
                    && (leb (length d.start_key.key) max_user_key_size
                        && (leb (length d.end_key.key) max_user_key_size
                            && distinct_replicas [] [] d.replicas))))))
      invalid_descriptor

-- The two tests of `Contains`.
abbrev pub reached : List ℕ → RangeDescriptor → Bool
reached key d = d.start_key.unbounded || not (before key d.start_key.key)

abbrev pub ends_after : List ℕ → RangeDescriptor → Bool
ends_after key d = d.end_key.unbounded || before key d.end_key.key

abbrev pub contains_key : RangeDescriptor → List ℕ → Bool
contains_key d key = reached key d && ends_after key d

abbrev opt_contains : RangeDescriptor → Option (List ℕ) → Bool
opt_contains d none = true
opt_contains d (some key) = contains_key d key

abbrev end_inside : RangeDescriptor → Option (List ℕ) → Bool
end_inside d none = true
end_inside d (some key) =
    not (not d.end_key.unbounded && before d.end_key.key key)
    && not (not d.start_key.unbounded && not (before d.start_key.key key))

abbrev ordered_span : Option (List ℕ) → Option (List ℕ) → Bool
ordered_span (some start) (some stop) = not (before stop start)
ordered_span _ _ = true

-- `ContainsSpan`: a nil bound is `none`.
unfoldable pub contains_span : RangeDescriptor → Option (List ℕ) → Option (List ℕ) → Bool
contains_span d start stop = opt_contains d start && (end_inside d stop && ordered_span start stop)

unfoldable pub replica_on : ℕ → List ReplicaDescriptor → Option ReplicaDescriptor
replica_on node [] = none
replica_on node (r ∷ rs) =
    let rest = replica_on node rs in if r.node_id == node then some r else rest

-- `bytes.Compare` as a strict order.
pub before_trans : (a b c : List ℕ) → before a b ≡ true → before b c ≡ true → before a c ≡ true
unfolding before
before_trans a b c h k = ground (arith, compare_bytes_trans a b c)

-- A third key lies above the smaller or below the larger.
pub before_between :
    (a b c : List ℕ) → before a c ≡ true → (before a b ≡ true) ⊎ (before b c ≡ true)
unfolding before
before_between a b c h =
    ground (arith, compare_bytes_trans b a c, compare_bytes-flip a b, compare_bytes→eq a b)
