-- ===== src/Multiraft/Witness.antt =====
-- Runs of the catalog, and the theorems at concrete inputs.
use rivet_db.Prelude.{ℕ, ◌≡◌, ◌↔◌, refl, true, false, [], ◌∷◌, ok, some, get_elem?}
use rivet_db.Prelude.Bytes.{compare_bytes}
use rivet_db.Raft.Sort.{sort}
use rivet_db.Multiraft.Descriptor.{KeyBound, RangeDescriptor, validate, before, contains_key}
use rivet_db.Multiraft.Catalog.{
  Bootstrap, Catalog, catalog_of, starts_before, new_catalog, lookup, search,
}
use rivet_db.Multiraft.Catalog.Find.{lookup_exact, lookup_total, one_range}

abbrev endless : KeyBound
endless = record { unbounded = true; key = [] }

abbrev at : ℕ → KeyBound
at byte = record { unbounded = false; key = byte ∷ [] }

abbrev span : ℕ → KeyBound → KeyBound → RangeDescriptor
span id from to = record {
  range_id = id;
  generation = 1;
  start_key = from;
  end_key = to;
  replicas = record { replica_id = id; node_id = 1 } ∷ [];
}

-- Three ranges given out of order, which cover every key.
abbrev three : Bootstrap
three = record {
  generation = 1;
  nodes = 1 ∷ [];
  replication_factor = 1;
  allow_partial = false;
  ranges = span 7 (at 109) endless ∷ span 5 endless (at 99) ∷ span 6 (at 99) (at 109) ∷ [];
}

abbrev built : Catalog
built = catalog_of three

three_valid : new_catalog three ≡ ok built
unfolding new_catalog validate starts_before before compare_bytes sort
three_valid = refl

middle_found : lookup built (100 ∷ 1 ∷ []) ≡ ok (span 6 (at 99) (at 109))
unfolding lookup search starts_before before compare_bytes
middle_found = refl

middle_holds : contains_key (span 6 (at 99) (at 109)) (100 ∷ []) ≡ true
unfolding before compare_bytes
middle_holds = refl

middle_second : get_elem? built.ranges 1 ≡ some (span 6 (at 99) (at 109))
unfolding starts_before before compare_bytes
middle_second = refl

lookup_exact_example : (lookup built (100 ∷ []) ≡ ok (span 6 (at 99) (at 109))) ↔ (
    (contains_key (span 6 (at 99) (at 109)) (100 ∷ []) ≡ true)
    × ((i : ℕ) × (get_elem? built.ranges i ≡ some (span 6 (at 99) (at 109)))))
lookup_exact_example = lookup_exact three built (100 ∷ []) (span 6 (at 99) (at 109)) three_valid

lookup_total_example : (d : RangeDescriptor) × (lookup built (200 ∷ []) ≡ ok d)
lookup_total_example = lookup_total three built (200 ∷ []) refl three_valid

one_range_example : span 6 (at 99) (at 109) ≡ span 6 (at 99) (at 109)
one_range_example =
    one_range three built (100 ∷ []) 1 1 (span 6 (at 99) (at 109)) (span 6 (at 99) (at 109))
      three_valid middle_second middle_second middle_holds middle_holds
