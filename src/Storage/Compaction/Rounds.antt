-- ===== src/Storage/Compaction/Rounds.antt =====
-- The rounds of the outer loop end, with a choice to which no table can be added.
use rivet_db.Prelude.{
  ℕ, zero, suc, ◌+◌, ◌<◌, ◌≡◌, refl, sym, subst, ◌∙◌, true, false, some, List, ◌||◌, arith,
  Bool-cases, inl, inr, ||_false,
}
use rivet_db.Storage.Manifest.Edit.{TableMetadata}
use rivet_db.Storage.Compaction.{pass, Choice, rounds}
use rivet_db.Storage.Compaction.Order.{Grows, Grows-trans}
use rivet_db.Storage.Compaction.Passes.{
  Extends, missing, missing_le, pass-Extends, pass-Grows, pass_progress, Quiet, pass-Unchanged,
  Agree, Covered, Covered-Grows, pass-Covered,
}

-- What the rounds keep, and what holds of the choice at their end.
pub record Fits (source target : List TableMetadata) (c : Choice) : Type 0 where
  pub source_covered : Covered c.source c.range source
  pub target_covered : Covered c.target c.range target

pub record Closes (source target : List TableMetadata) (c d : Choice) : Type 0 where
  pub keeps : Extends c.source d.source
  pub grows : Grows c.range d.range
  pub fits : Fits source target d
  pub source_quiet : Quiet source d.source d.range
  pub target_quiet : Quiet target d.target d.range

abbrev advance : List TableMetadata → List TableMetadata → Choice → Choice
advance source target c =
    let p = pass source c.source c.range in
    let q = pass target c.target p.range in
    record { source = p.selected; target = q.selected; range = q.range }

abbrev pub unselected : List TableMetadata → List TableMetadata → Choice → ℕ
unselected source target c = missing c.source source + missing c.target target

module _ (source target : List TableMetadata) (s : Agree source source)
    (t : Agree target target) where
  advance-Fits : (c : Choice) → Fits source target c → Fits source target (advance source target c)
  advance-Fits c f =
      let p = pass source c.source c.range in
      let q = pass target c.target p.range in
      record {
        source_covered =
            Covered-Grows p.selected p.range q.range source (pass-Grows target c.target p.range)
              (pass-Covered source c.source c.range source s f.source_covered);
        target_covered = pass-Covered target c.target p.range target t (
            Covered-Grows c.target c.range p.range target (pass-Grows source c.source c.range)
              f.target_covered);
      }

  advance_progress :
      (c : Choice)
      → ((pass source c.source c.range).changed
          || (pass target c.target (pass source c.source c.range).range).changed)
        ≡ true
      → unselected source target (advance source target c) < unselected source target c
  advance_progress c h =
      let p = pass source c.source c.range in
      let q = pass target c.target p.range in
      let less = missing_le c.source p.selected source (pass-Extends source c.source c.range) in
      let less' = missing_le c.target q.selected target (pass-Extends target c.target p.range) in
      elim (Bool-cases p.changed) [
        | inl moved ↦ omega (arith, pass_progress source c.source c.range moved, less')
        | inr still ↦ omega (arith, pass_progress target c.target p.range (ground arith), less)
      ]

  -- A round that adds no table ends the loop.
  advance-Closes :
      (c : Choice)
      → Fits source target c
      → ((pass source c.source c.range).changed
          || (pass target c.target (pass source c.source c.range).range).changed)
        ≡ false
      → Closes source target c (advance source target c)
  advance-Closes c f h =
      let p = pass source c.source c.range in
      let q = pass target c.target p.range in
      let (still, still') = ||_false p.changed q.changed h in
      let u = pass-Unchanged source c.source c.range still in
      let u' = pass-Unchanged target c.target p.range still' in
      record {
        keeps = pass-Extends source c.source c.range;
        grows =
            Grows-trans c.range p.range q.range (pass-Grows source c.source c.range)
              (pass-Grows target c.target p.range);
        fits = advance-Fits c f;
        source_quiet =
            subst (λ n. Quiet source n q.range) (sym u.same_selected)
              (subst (λ r. Quiet source c.source r) (sym (u'.same_range ∙ u.same_range)) u.quiet);
        target_quiet =
            subst (λ n. Quiet target n q.range) (sym u'.same_selected)
              (subst (λ r. Quiet target c.target r) (sym u'.same_range) u'.quiet);
      }

  later :
      (c d : Choice) → Closes source target (advance source target c) d → Closes source target c d
  later c d k =
      let p = pass source c.source c.range in
      let q = pass target c.target p.range in
      record {
        keeps = λ n h. k.keeps n (pass-Extends source c.source c.range n h);
        grows =
            Grows-trans c.range q.range d.range
              (Grows-trans c.range p.range q.range (pass-Grows source c.source c.range)
                (pass-Grows target c.target p.range))
              k.grows;
        fits = k.fits;
        source_quiet = k.source_quiet;
        target_quiet = k.target_quiet;
      }

  -- With more rounds than unselected tables the loop ends.
  pub rounds_end :
      (fuel : ℕ) (c : Choice)
      → unselected source target c < fuel
      → Fits source target c
      → (d : Choice) × (rounds fuel source target c ≡ some d) × Closes source target c d
  unfolding rounds
  rounds_end zero c h f = absurd (omega arith)
  rounds_end (suc fuel) c h f =
      elim (Bool-cases (
        (pass source c.source c.range).changed
        || (pass target c.target (pass source c.source c.range).range).changed)) [
          | inl more ↦
              (let (d, e, k) =
                  rounds_end fuel (advance source target c) (omega (arith, advance_progress c more))
                    (advance-Fits c f) in
                (d, rw more e, later c d k))
          | inr done ↦ (advance source target c, rw done refl, advance-Closes c f done)
        ]
