-- ===== src/Storage/Compaction/Passes.antt =====
-- One loop over a level: what it selects, and when it selects nothing.
use rivet_db.Prelude.{
  ℕ, ◌≤◌, ◌<◌, ◌≡◌, refl, ap, subst, ◌∙◌, true, false, List, [], ◌∷◌, not, ◌==◌, arith, All,
  Bool-cases, inl, inr,
}
use rivet_db.Storage.Sorting.{count, All-map}
use rivet_db.Storage.Manifest.Edit.{TableMetadata, seen_file}
use rivet_db.Storage.Compaction.{
  KeySpan, Pass, pass, at_most, joins, selects, ranges_overlap, expand_range,
}
use rivet_db.Storage.Compaction.Order.{
  Inside, Inside-mono, Grows, Grows-refl, Grows-trans, expand_range-Grows, expand_range-Inside,
}

-- What is selected stays so.
abbrev pub Extends : List ℕ → List ℕ → Type 0
Extends old new = (n : ℕ) → seen_file n old ≡ true → seen_file n new ≡ true

abbrev pub missing : List ℕ → List TableMetadata → ℕ
missing selected ts = count (λ t. not (selects selected t)) ts

pub missing_le :
    (old new : List ℕ) (ts : List TableMetadata) → Extends old new → missing new ts ≤ missing old ts
missing_le old new [] e = omega arith
missing_le old new (t ∷ ts) e = ground (arith, e t.file_number, missing_le old new ts e)

pub pass-Extends :
    (ts : List TableMetadata) (selected : List ℕ) (r : KeySpan)
    → Extends selected (pass ts selected r).selected
pass-Extends [] selected r n h = h
pass-Extends (t ∷ ts) selected r n h = elim (Bool-cases (joins selected r t)) [
  | inl add ↦
      rw add (pass-Extends ts (t.file_number ∷ selected) (expand_range r t) n (ground arith))
  | inr skip ↦ rw skip (pass-Extends ts selected r n h)
]

pub pass-Grows :
    (ts : List TableMetadata) (selected : List ℕ) (r : KeySpan) → Grows r (pass ts selected r).range
pass-Grows [] selected r = Grows-refl r
pass-Grows (t ∷ ts) selected r = elim (Bool-cases (joins selected r t)) [
  | inl add ↦
      (let rest = pass-Grows ts (t.file_number ∷ selected) (expand_range r t) in
        rw add (Grows-trans r (expand_range r t) _ (expand_range-Grows r t) rest))
  | inr skip ↦ rw skip (pass-Grows ts selected r)
]

missing_added :
    (old new : List ℕ) (t : TableMetadata) (ts : List TableMetadata)
    → selects old t ≡ false
    → selects new t ≡ true
    → missing new ts ≤ missing old ts
    → missing new (t ∷ ts) < missing old (t ∷ ts)
missing_added old new t ts h k le = rw (h, k) (omega arith)

missing_kept :
    (old new : List ℕ) (t : TableMetadata) (ts : List TableMetadata)
    → Extends old new
    → missing new ts < missing old ts
    → missing new (t ∷ ts) < missing old (t ∷ ts)
missing_kept old new t ts e lt = ground (arith, e t.file_number)

-- A pass that adds a table leaves fewer of the level unselected.
pub pass_progress :
    (ts : List TableMetadata) (selected : List ℕ) (r : KeySpan)
    → (pass ts selected r).changed ≡ true
    → missing (pass ts selected r).selected ts < missing selected ts
pass_progress [] selected r h = cc
pass_progress (t ∷ ts) selected r h = elim (Bool-cases (joins selected r t)) [
  | inl add ↦
      (let added = t.file_number ∷ selected in
        let p = pass ts added (expand_range r t) in
        let same : p.selected ≡ (pass (t ∷ ts) selected r).selected = rw add refl in
        let e = pass-Extends ts added (expand_range r t) in
        let all_old : Extends selected added = λ n k. ground arith in
        subst (λ new. missing new (t ∷ ts) < missing selected (t ∷ ts)) same
          (missing_added selected p.selected t ts (ground arith) (e t.file_number (ground arith)) (
            omega (arith, missing_le added p.selected ts e, missing_le selected added ts all_old))))
  | inr skip ↦
      (let same : (pass ts selected r).selected ≡ (pass (t ∷ ts) selected r).selected =
          rw skip refl in
        subst (λ new. missing new (t ∷ ts) < missing selected (t ∷ ts)) same
          (missing_kept selected (pass ts selected r).selected t ts (pass-Extends ts selected r)
            (pass_progress ts selected r (ground arith))))
]

-- A pass that adds none changes nothing, and every table that overlaps the span is selected.
abbrev pub Quiet : List TableMetadata → List ℕ → KeySpan → Type 0
Quiet ts selected r = All (λ t. ranges_overlap r t ≡ true → selects selected t ≡ true) ts

pub record Unchanged (ts : List TableMetadata) (selected : List ℕ) (r : KeySpan) (p : Pass)
    : Type 0 where
  pub same_selected : p.selected ≡ selected
  pub same_range : p.range ≡ r
  pub quiet : Quiet ts selected r

pub pass-Unchanged :
    (ts : List TableMetadata) (selected : List ℕ) (r : KeySpan)
    → (pass ts selected r).changed ≡ false
    → Unchanged ts selected r (pass ts selected r)
pass-Unchanged [] selected r h = record { same_selected = refl; same_range = refl; quiet = tt }
pass-Unchanged (t ∷ ts) selected r h = elim (Bool-cases (joins selected r t)) [
  | inl add ↦ absurd (ground arith)
  | inr skip ↦
      (let u = pass-Unchanged ts selected r (ground arith) in
        rw skip (record {
          same_selected = u.same_selected;
          same_range = u.same_range;
          quiet = ((λ o. ground arith), u.quiet);
        }))
]

-- Tables of one number have one range of keys.
abbrev pub SameKeys : TableMetadata → TableMetadata → Type 0
SameKeys u t =
    (u.file_number == t.file_number) ≡ true
    → (u.smallest_user ≡ t.smallest_user) × (u.largest_user ≡ t.largest_user)

abbrev pub Agree : List TableMetadata → List TableMetadata → Type 0
Agree us ts = All (λ t. All (λ u. SameKeys u t) us) ts

-- Every selected table lies in the span.
abbrev pub Covered : List ℕ → KeySpan → List TableMetadata → Type 0
Covered selected r us = All (λ u. selects selected u ≡ true → Inside r u) us

pub Covered-Grows :
    (selected : List ℕ) (r s : KeySpan) (us : List TableMetadata)
    → Grows r s
    → Covered selected r us
    → Covered selected s us
Covered-Grows selected r s us g c =
    All-map (λ u. selects selected u ≡ true → Inside r u)
      (λ u. selects selected u ≡ true → Inside s u) (λ u h k. Inside-mono r s u g (h k)) us c

covers_one :
    (selected : List ℕ) (r : KeySpan) (t u : TableMetadata)
    → SameKeys u t
    → (selects selected u ≡ true → Inside r u)
    → selects (t.file_number ∷ selected) u ≡ true
    → Inside (expand_range r t) u
covers_one selected r t u a c h = elim (Bool-cases (u.file_number == t.file_number)) [
  | inl same ↦
      (let (s, l) = a same in
        let (x, y) = expand_range-Inside r t in
        (
          ap (at_most (expand_range r t).smallest) s ∙ x,
          ap (λ k. at_most k (expand_range r t).largest) l ∙ y,
        ))
  | inr other ↦ Inside-mono r (expand_range r t) u (expand_range-Grows r t) (c (ground arith))
]

Covered-add :
    (selected : List ℕ) (r : KeySpan) (t : TableMetadata) (us : List TableMetadata)
    → All (λ u. SameKeys u t) us
    → Covered selected r us
    → Covered (t.file_number ∷ selected) (expand_range r t) us
Covered-add selected r t [] a c = tt
Covered-add selected r t (u ∷ us) (a, as') (c, cs) =
    ((λ h. covers_one selected r t u a c h), Covered-add selected r t us as' cs)

pub pass-Covered :
    (ts : List TableMetadata) (selected : List ℕ) (r : KeySpan) (us : List TableMetadata)
    → Agree us ts
    → Covered selected r us
    → Covered (pass ts selected r).selected (pass ts selected r).range us
pass-Covered [] selected r us a c = c
pass-Covered (t ∷ ts) selected r us (a, as') c = elim (Bool-cases (joins selected r t)) [
  | inl add ↦
      (let rest =
          pass-Covered ts (t.file_number ∷ selected) (expand_range r t) us as'
            (Covered-add selected r t us a c) in
        rw add rest)
  | inr skip ↦ (let rest = pass-Covered ts selected r us as' c in rw skip rest)
]
