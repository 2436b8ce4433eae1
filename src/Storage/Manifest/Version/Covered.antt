-- ===== src/Storage/Manifest/Version/Covered.antt =====
-- The scan of frontierCovered against the sequences that sorted spans hold.
use rivet_db.Prelude.{
  ℕ, ◌+◌, ◌≤◌, ◌<◌, ◌≡◌, refl, Bool, true, false, List, [], ◌∷◌, ◌&&◌, ltb, leb, arith, All, any,
  Bool-cases, inl, inr,
}
use rivet_db.Storage.Sorting.{IsSorted, Decides}
use rivet_db.Storage.Manifest.Edit.{TableMetadata}
use rivet_db.Storage.Manifest.Version.{SequenceSpan, by_first, spans_between, scan_covered}

abbrev pub holds : ℕ → SequenceSpan → Bool
holds x s = leb s.first x && leb x s.last

-- Some table's range of sequences has the sequence in it.
abbrev pub held : List TableMetadata → ℕ → Bool
held tables x = any (λ t. leb t.smallest_sequence x && leb x t.largest_sequence) tables

abbrev pub Earlier : SequenceSpan → SequenceSpan → Type 0
Earlier a b = a.first ≤ b.first

pub by_first-Decides : Decides Earlier by_first
by_first-Decides = record {
  below = λ a b h. ground arith;
  above = λ a b h. ground arith;
  trans = λ a b c p q. omega arith;
}

pub none_holds :
    (x : ℕ) (s : SequenceSpan) (ss : List SequenceSpan)
    → x < s.first
    → All (Earlier s) ss
    → any (holds x) ss ≡ false
none_holds x s [] h hs = refl
none_holds x s (t ∷ ss) h (ht, hs) = ground (arith, none_holds x s ss h hs)

pub scan_covered_sound :
    (target cursor : ℕ) (ss : List SequenceSpan) (x : ℕ)
    → scan_covered target cursor ss ≡ true
    → cursor ≤ x
    → x ≤ target
    → any (holds x) ss ≡ true
unfolding scan_covered
scan_covered_sound target cursor [] x h p q = cc
scan_covered_sound target cursor (s ∷ ss) x h p q =
    ground
      (arith, scan_covered_sound target cursor ss x, scan_covered_sound target (s.last + 1) ss x)

pub scan_covered_complete :
    (target cursor : ℕ) (ss : List SequenceSpan)
    → IsSorted Earlier ss
    → cursor ≤ target
    → ((x : ℕ) → cursor ≤ x → x ≤ target → any (holds x) ss ≡ true)
    → scan_covered target cursor ss ≡ true
unfolding scan_covered
scan_covered_complete target cursor [] o le h = h cursor (omega arith) le
scan_covered_complete target cursor (s ∷ ss) (first, o) le h =
    elim (Bool-cases (ltb cursor s.first)) [
      | inl before ↦
          absurd
            (ground (arith, h cursor (omega arith) le, none_holds cursor s ss (ground arith) first))
      | inr reached ↦ elim (Bool-cases (ltb s.last cursor)) [
        | inl over ↦
            rw (reached, over)
              (scan_covered_complete target cursor ss o le (λ x p q. ground (arith, h x p q)))
        | inr within ↦ elim (Bool-cases (leb target s.last)) [
          | inl end ↦ rw (reached, within, end) refl
          | inr more ↦
              rw (reached, within, more)
                (scan_covered_complete target (s.last + 1) ss o (ground arith)
                  (λ x p q. ground (arith, h x (ground arith) q)))
        ]
      ]
    ]

pub any-spans_between :
    (start target x : ℕ) (ts : List TableMetadata)
    → start ≤ x
    → x ≤ target
    → any (holds x) (spans_between start target ts) ≡ held ts x
any-spans_between start target x [] p q = refl
any-spans_between start target x (t ∷ ts) p q =
    ground (arith, any-spans_between start target x ts p q)
