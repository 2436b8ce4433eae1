-- ===== src/Storage/Manifest/Version/Frontier.antt =====
-- frontierCovered and maximumContiguousFrontier against the sequences that the tables hold.
use rivet_db.Prelude.{
  ℕ, ◌+◌, ◌-◌, ◌^◌, ◌≤◌, ◌<◌, ◌≡◌, ◌↔◌, refl, subst, ◌∙◌, sym, Bool, true, false, Option, none,
  some, List, [], ◌∷◌, ◌||◌, ltb, leb, ◌==◌, arith, All, any, Bool-cases, inl, inr,
}
use rivet_db.Storage.Sorting.{sort, any-sort, All-sort, IsSorted, sort-IsSorted}
use rivet_db.Storage.Manifest.Edit.{TableMetadata}
use rivet_db.Storage.Manifest.Version.{
  SequenceSpan, by_first, spans_between, spans_from, covered_from, frontier_covered,
  scan_contiguous, contiguous_from, contiguous_end, maximum_contiguous_frontier,
}
use rivet_db.Storage.Manifest.Version.Covered.{
  holds, held, Earlier, by_first-Decides, none_holds, scan_covered_sound, scan_covered_complete,
  any-spans_between,
}

-- The first sequence after a frontier.
abbrev pub after : Option ℕ → ℕ
after none = 0
after (some f) = f + 1

covered_from_iff :
    (tables : List TableMetadata) (start target : ℕ)
    → start ≤ target
    → (covered_from tables start target ≡ true)
      ↔ ((x : ℕ) → start ≤ x → x ≤ target → held tables x ≡ true)
unfolding covered_from
covered_from_iff tables start target le =
    let spans = spans_between start target tables in
    (
      λ h x p q.
          sym (any-spans_between start target x tables p q)
          ∙ sym (any-sort by_first (holds x) spans)
          ∙ scan_covered_sound target start (sort by_first spans) x h p q,
      λ h.
          scan_covered_complete target start (sort by_first spans)
            (sort-IsSorted Earlier by_first by_first-Decides spans) le
            (λ x p q.
              any-sort by_first (holds x) spans
              ∙ any-spans_between start target x tables p q
              ∙ h x p q),
    )

-- A target after the present frontier, a uint64, is covered exactly when every sequence after the
-- frontier and up to the target lies in the range of some table.
pub frontier_covered_iff :
    (tables : List TableMetadata) (frontier : Option ℕ) (target : ℕ)
    → after frontier ≤ target
    → target < 2 ^ 64
    → (frontier_covered tables frontier target ≡ true)
      ↔ ((x : ℕ) → after frontier ≤ x → x ≤ target → held tables x ≡ true)
unfolding frontier_covered
frontier_covered_iff tables none target h u = covered_from_iff tables 0 target h
frontier_covered_iff tables (some f) target h u =
    let other : (target == f) ≡ false = ground arith in
    let more : (f == 2 ^ 64 - 1) ≡ false = ground arith in
    rw (other, more) (covered_from_iff tables (f + 1) target h)

-- What the scan of maximumContiguousFrontier returns, from a cursor on.
record Contiguous (cursor : ℕ) (advanced : Bool) (ss : List SequenceSpan) (r : ℕ × Bool)
    : Type 0 where
  grows : cursor ≤ r.0
  moved : r.1 ≡ (advanced || ltb cursor r.0)
  full : (x : ℕ) → cursor ≤ x → x < r.0 → any (holds x) ss ≡ true
  ends : any (holds r.0) ss ≡ false

abbrev IsBounded : SequenceSpan → Type 0
IsBounded s = s.last < 2 ^ 64

none_past : (ss : List SequenceSpan) → All IsBounded ss → any (holds (2 ^ 64)) ss ≡ false
none_past [] h = refl
none_past (s ∷ ss) (h, hs) = ground (arith, none_past ss hs)

scan_contiguous-Contiguous :
    (cursor : ℕ) (advanced : Bool) (ss : List SequenceSpan)
    → IsSorted Earlier ss
    → All IsBounded ss
    → Contiguous cursor advanced ss (scan_contiguous cursor advanced ss)
unfolding scan_contiguous
scan_contiguous-Contiguous cursor advanced [] o b = record {
  grows = omega arith;
  moved = ground arith;
  full = λ x p q. absurd (omega arith);
  ends = refl;
}
scan_contiguous-Contiguous cursor advanced (s ∷ ss) (first, o) (b, bs) =
    elim (Bool-cases (ltb cursor s.first)) [
      | inl before ↦ rw before (record {
        grows = omega arith;
        moved = ground arith;
        full = λ x p q. absurd (omega arith);
        ends = ground (arith, none_holds cursor s ss (ground arith) first);
      })
      | inr reached ↦ elim (Bool-cases (ltb s.last cursor)) [
        | inl over ↦
            (let r = scan_contiguous-Contiguous cursor advanced ss o bs in
              rw (reached, over)
                (record {
                  grows = r.grows;
                  moved = r.moved;
                  full = λ x p q. ground (arith, r.full x p q);
                  ends = ground (arith, r.ends, r.grows);
                }))
        | inr within ↦ elim (Bool-cases (s.last == 2 ^ 64 - 1)) [
          | inl end ↦
              rw (reached, within, end)
                (record {
                  grows = ground arith;
                  moved = ground arith;
                  full = λ x p q. ground arith;
                  ends = ground (arith, none_past ss bs);
                })
          | inr more ↦
              (let r = scan_contiguous-Contiguous (s.last + 1) true ss o bs in
                rw (reached, within, more)
                  (record {
                    grows = ground (arith, r.grows);
                    moved = ground (arith, r.grows, r.moved);
                    full = λ x p q. ground (arith, r.full x);
                    ends = ground (arith, r.ends, r.grows);
                  }))
        ]
      ]
    ]

any-spans_from :
    (start x : ℕ) (ts : List TableMetadata)
    → start ≤ x
    → any (holds x) (spans_from start ts) ≡ held ts x
any-spans_from start x [] p = refl
any-spans_from start x (t ∷ ts) p = ground (arith, any-spans_from start x ts p)

spans_from-IsBounded :
    (start : ℕ) (ts : List TableMetadata)
    → All (λ t. t.largest_sequence < 2 ^ 64) ts
    → All IsBounded (spans_from start ts)
spans_from-IsBounded start [] h = tt
spans_from-IsBounded start (t ∷ ts) (h, hs) = elim (Bool-cases (leb start t.largest_sequence)) [
  | inl kept ↦ rw kept (h, spans_from-IsBounded start ts hs)
  | inr left ↦ rw left (spans_from-IsBounded start ts hs)
]

-- The frontier lies where the sequences held from `start` on first break off.
abbrev pub BreaksAt : List TableMetadata → ℕ → ℕ → Type 0
BreaksAt tables start end =
    (start ≤ end)
    × ((x : ℕ) → start ≤ x → x < end → held tables x ≡ true)
    × (held tables end ≡ false)

contiguous_from-BreaksAt :
    (tables : List TableMetadata) (start : ℕ)
    → All (λ t. t.largest_sequence < 2 ^ 64) tables
    → BreaksAt tables start (contiguous_from tables start).0
      × ((contiguous_from tables start).1 ≡ ltb start (contiguous_from tables start).0)
unfolding contiguous_from
contiguous_from-BreaksAt tables start b =
    let spans = spans_from start tables in
    let sorted = sort by_first spans in
    let c =
      scan_contiguous-Contiguous start false sorted
        (sort-IsSorted Earlier by_first by_first-Decides spans)
        (All-sort IsBounded by_first spans (spans_from-IsBounded start tables b)) in
    let end = (scan_contiguous start false sorted).0 in
    (
      (
        c.grows,
        λ x p q.
            sym (any-spans_from start x tables p)
            ∙ sym (any-sort by_first (holds x) spans)
            ∙ c.full x p q,
        sym (any-spans_from start end tables c.grows)
            ∙ sym (any-sort by_first (holds end) spans)
            ∙ c.ends,
      ),
      c.moved,
    )

contiguous_end-BreaksAt :
    (tables : List TableMetadata) (frontier : Option ℕ) (r : ℕ × Bool)
    → BreaksAt tables (after frontier) r.0
    → r.1 ≡ ltb (after frontier) r.0
    → BreaksAt tables (after frontier) (after (contiguous_end frontier r))
contiguous_end-BreaksAt tables frontier (end, true) (g, f, e) m =
    let same : end - 1 + 1 ≡ end = ground arith in
    subst (BreaksAt tables (after frontier)) (sym same) (g, f, e)
contiguous_end-BreaksAt tables frontier (end, false) (g, f, e) m =
    let same : end ≡ after frontier = ground arith in
    subst (BreaksAt tables (after frontier)) same (g, f, e)

held_past :
    (ts : List TableMetadata) → All (λ t. t.largest_sequence < 2 ^ 64) ts → held ts (2 ^ 64) ≡ false
held_past [] h = refl
held_past (t ∷ ts) (h, hs) = ground (arith, held_past ts hs)

-- The frontier that maximumContiguousFrontier computes, from one that is a uint64 and tables whose
-- sequences are: every sequence after the old frontier and up to the new one lies in the range of some
-- table, and the sequence after the new one does not.
pub maximum_contiguous_frontier-BreaksAt :
    (tables : List TableMetadata) (frontier : Option ℕ)
    → after frontier ≤ 2 ^ 64
    → All (λ t. t.largest_sequence < 2 ^ 64) tables
    → BreaksAt tables (after frontier) (after (maximum_contiguous_frontier tables frontier))
unfolding maximum_contiguous_frontier
maximum_contiguous_frontier-BreaksAt tables none h b =
    let (breaks, moved) = contiguous_from-BreaksAt tables 0 b in
    contiguous_end-BreaksAt tables none (contiguous_from tables 0) breaks moved
maximum_contiguous_frontier-BreaksAt tables (some f) h b = elim (Bool-cases (f == 2 ^ 64 - 1)) [
  | inl top ↦
      (let last : 2 ^ 64 ≡ f + 1 = ground arith in
        rw top (
          omega arith,
          λ x p q. absurd (omega arith),
          subst (λ n. held tables n ≡ false) last (held_past tables b),
        ))
  | inr more ↦
      (let (breaks, moved) = contiguous_from-BreaksAt tables (f + 1) b in
        rw more
          (contiguous_end-BreaksAt tables (some f) (contiguous_from tables (f + 1)) breaks moved))
]
