-- ===== src/Storage/Batch/Accepted.antt =====
-- What EncodeWriteBatch's first loop accepts fits the format and the size limit.
use rivet_db.Prelude.{
  ℕ, ◌+◌, ◌*◌, ◌-◌, ◌≤◌, ◌≡◌, refl, subst, sym, Bool, true, false, List, [], ◌∷◌, ◌++◌, ◌&&◌, not,
  ltb, if◌then◌else◌, length, Result, ok, err, arith, Bool-cases, inl, inr, length-append,
}
use rivet_db.Storage.Key.{valid, carries_value}
use rivet_db.Storage.Batch.{
  Error, Mutation, append_uvarint, uvarint_len, encode_value, encode_mutation, encode_mutations,
  max_record_size, key_size, value_size, check_mutations, invalid_value_kind, batch_too_large,
}
use rivet_db.Storage.Batch.RoundTrip.{AllFit, kept}

uvarint_len_positive : (v : ℕ) → 1 ≤ uvarint_len v
unfolding uvarint_len append_uvarint
uvarint_len_positive v = elim (Bool-cases (ltb v 128)) [
  | inl small ↦ rw small (omega arith)
  | inr large ↦ rw large (omega arith)
]

length-encode_value : (m : Mutation) → length (encode_value m) ≡ value_size m
unfolding uvarint_len
length-encode_value m = elim (Bool-cases (carries_value m.kind)) [
  | inl carried ↦ rw carried (length-append (append_uvarint (length m.value)) m.value)
  | inr bare ↦ rw bare refl
]

length-encode_mutation : (m : Mutation) → length (encode_mutation m) ≡ key_size m + value_size m
unfolding uvarint_len
length-encode_mutation m =
    rw
      (
        length-append (append_uvarint (length m.key)) (m.key ++ encode_value m),
        length-append m.key (encode_value m),
        length-encode_value m,
      )
      (omega arith)

-- The first mutation passed every test, and the others were tested from its end on.
abbrev Passed : ℕ → Mutation → List Mutation → Type 0
Passed size m ms =
    (valid m.kind ≡ true)
    × (size + key_size m + value_size m ≤ max_record_size)
    × (check_mutations (size + key_size m + value_size m) ms ≡ ok tt)

tests_passed :
    (a b c : Bool) (r : Result Error (Unit {0}))
    → (if not a
        then err invalid_value_kind
        else if b
        then err batch_too_large
        else if c
        then err batch_too_large
        else r)
      ≡ ok tt
    → (a ≡ true) × (b ≡ false) × (c ≡ false) × (r ≡ ok tt)
tests_passed true true c r h = ground arith
tests_passed true false true r h = ground arith
tests_passed true false false r h = (refl, refl, refl, h)
tests_passed false b c r h = ground arith

fits_sum :
    (a b : ℕ) → a ≤ max_record_size → ltb (max_record_size - a) b ≡ false → a + b ≤ max_record_size
fits_sum a b h fits = ground arith

bare_size : (m : Mutation) → carries_value m.kind ≡ false → value_size m ≡ 0
bare_size m bare = rw bare refl

check_mutations-head :
    (size : ℕ) (m : Mutation) (ms : List Mutation)
    → size ≤ max_record_size
    → check_mutations size (m ∷ ms) ≡ ok tt
    → Passed size m ms
check_mutations-head size m ms h accepted =
    let (a, b, c, r) =
      tests_passed (valid m.kind) (ltb (max_record_size - size) (key_size m))
        (carries_value m.kind && ltb (max_record_size - (size + key_size m)) (value_size m)) _
        accepted in
    let k : size + key_size m ≤ max_record_size = fits_sum size (key_size m) h b in
    (
      a,
      elim (Bool-cases (carries_value m.kind)) [
        | inl carried ↦ fits_sum (size + key_size m) (value_size m) k (
            subst (λ x. (x && ltb (max_record_size - (size + key_size m)) (value_size m)) ≡ false)
              carried c)
        | inr bare ↦
            subst (λ v. size + key_size m + v ≤ max_record_size) (sym (bare_size m bare))
              (omega arith)
      ],
      r,
    )

kept_bound : (m : Mutation) → length (kept m).value ≤ value_size m
kept_bound m = elim (Bool-cases (carries_value m.kind)) [
  | inl carried ↦ rw carried (omega arith)
  | inr bare ↦ rw bare (omega arith)
]

-- What the accepted mutations promise the decoder.
pub check_mutations-Fits :
    (size : ℕ) (ms : List Mutation)
    → size ≤ max_record_size
    → check_mutations size ms ≡ ok tt
    → AllFit ms
      × (size + length (encode_mutations ms) ≤ max_record_size)
      × (length ms * 2 ≤ length (encode_mutations ms))
check_mutations-Fits size [] h accepted = (tt, omega arith, omega arith)
check_mutations-Fits size (m ∷ ms) h accepted =
    let (v, bound, next) = check_mutations-head size m ms h accepted in
    let (fit, total, count) =
      check_mutations-Fits (size + key_size m + value_size m) ms bound next in
    let l1 = length-append (encode_mutation m) (encode_mutations ms) in
    let l2 = length-encode_mutation m in
    let one = uvarint_len_positive (length m.key) in
    (((v, omega arith, omega (arith, kept_bound m)), fit), omega arith, omega arith)
