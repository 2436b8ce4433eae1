-- ===== src/Multiraft/Catalog/Lookup.antt =====
-- The binary search of a lookup finds the range that holds the key.
use rivet_db.Prelude.{
  ℕ, zero, suc, ◌+◌, ◌/◌, ◌≤◌, ◌<◌, ◌≡◌, ◌⊎◌, inl, inr, Bool, true, false, arith, ltb, Bool-cases,
  ltb→lt,
}
use rivet_db.Multiraft.Catalog.{search}

-- `f` is false up to some index and true from there on.
abbrev pub Monotone : (ℕ → Bool) → Type 0
Monotone f = (i j : ℕ) → i ≤ j → f i ≡ true → f j ≡ true

-- `r` is the first index of `[i, j)` at which `f` is true, or `j`.
pub record IsFirst (f : ℕ → Bool) (i j r : ℕ) : Type 0 where
  pub low : i ≤ r
  pub high : r ≤ j
  pub below : (k : ℕ) → i ≤ k → k < r → f k ≡ false
  pub found : r < j → f r ≡ true

middle_high : (i j : ℕ) → i < j → (i + j) / 2 < j
middle_high i j h = omega arith

middle_low : (i j : ℕ) → i < j → i ≤ (i + j) / 2
middle_low i j h = omega arith

search_left :
    (f : ℕ → Bool) (i j h r : ℕ) → i ≤ h → h < j → f h ≡ true → IsFirst f i h r → IsFirst f i j r
search_left f i j h r ih hj fh s = record {
  low = s.low;
  high = omega (arith, s.high);
  below = s.below;
  found = λ rj. at_end (s.high);
}
  where
    at_end : r ≤ h → f r ≡ true
    at_end le = elim (Bool-cases (ltb r h)) [
      | inl lt ↦ s.found (ltb→lt r h lt)
      | inr ge ↦ (let same : r ≡ h = ground arith in rw same fh)
    ]

search_right :
    (f : ℕ → Bool) (i j h r : ℕ)
    → Monotone f
    → i ≤ h
    → f h ≡ false
    → IsFirst f (h + 1) j r
    → IsFirst f i j r
search_right f i j h r mono ih fh s = record {
  low = omega (arith, s.low);
  high = s.high;
  below = λ k ik kr. before_h k (Bool-cases (f k)) ik kr;
  found = s.found;
}
  where
    before_h : (k : ℕ) → (f k ≡ true) ⊎ (f k ≡ false) → i ≤ k → k < r → f k ≡ false
    before_h k (inr low) ik kr = low
    before_h k (inl high) ik kr = elim (Bool-cases (ltb h k)) [
      | inl later ↦ s.below k (ground (arith, ltb→lt h k)) kr
      | inr early ↦ (let raised = mono k h (ground arith) high in cc)
    ]

pub search-IsFirst :
    (fuel i j : ℕ) (f : ℕ → Bool)
    → Monotone f
    → i ≤ j
    → j ≤ i + fuel
    → IsFirst f i j (search fuel i j f)
unfolding search
search-IsFirst zero i j f mono ij fuel = record {
  low = omega arith;
  high = ij;
  below = λ k ik kr. absurd (omega arith);
  found = λ rj. absurd (omega arith);
}
search-IsFirst (suc fuel) i j f mono ij enough = elim (Bool-cases (ltb i j)) [
  | inr done ↦
      rw (search, done)
        (record {
          low = omega arith;
          high = ij;
          below = λ k ik kr. absurd (omega arith);
          found = λ rj. absurd (ground arith);
        })
  | inl more ↦
      rw (search, more)
        (elim (Bool-cases (f ((i + j) / 2))) [
          | inl high ↦ rw high (
              search_left f i j ((i + j) / 2) (search fuel i ((i + j) / 2) f)
                (middle_low i j (ltb→lt i j more)) (middle_high i j (ltb→lt i j more)) high
                (search-IsFirst fuel i ((i + j) / 2) f mono (middle_low i j (ltb→lt i j more))
                  (ground (arith, ltb→lt i j more))))
          | inr low ↦ rw low (
              search_right f i j ((i + j) / 2) (search fuel ((i + j) / 2 + 1) j f) mono
                (middle_low i j (ltb→lt i j more)) low
                (search-IsFirst fuel ((i + j) / 2 + 1) j f mono
                  (ground (arith, middle_high i j (ltb→lt i j more)))
                  (ground (arith, ltb→lt i j more))))
        ])
]
