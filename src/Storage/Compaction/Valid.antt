-- ===== src/Storage/Compaction/Valid.antt =====
-- What Pick returns of a version with the invariant.
use rivet_db.Prelude.{
  ℕ, zero, suc, ◌+◌, ◌≤◌, ◌<◌, ◌≡◌, refl, ap, sym, subst, ◌∙◌, true, false, Option, some, List, [],
  ◌∷◌, ◌++◌, ◌==◌, ==_refl, ltb, arith, All, any, all, Bool-cases, inl, inr, length, Result, ok,
  le→not_ltb,
}
use rivet_db.Prelude.Int.{pos}
use rivet_db.Storage.Sorting.{count, All-map}
use rivet_db.Storage.Manifest.Edit.{TableMetadata, seen_file, validate_table, max_levels}
use rivet_db.Storage.Manifest.Version.{Version, level_at, has_number}
use rivet_db.Storage.Manifest.Apply.Levels.{count_file, Placed-level_at}
use rivet_db.Storage.Manifest.Apply.WellFormed.{IsWellFormed}
use rivet_db.Storage.Manifest.Apply.OneTable.{validate_table-IsRange}
use rivet_db.Storage.Compaction.{
  Error, KeySpan, Choice, Plan, contains_table, selects, inputs, numbers, input_fits, settled,
  validate, filter, plan_of, last_of, seeded, pick_from, pick_above, trigger_of, pick,
  ranges_overlap, at_most, found_equal,
}
use rivet_db.Storage.Compaction.Order.{
  at_most_refl, at_most_trans, not_less, Inside, Inside-mono, Inside-overlap,
}
use rivet_db.Storage.Compaction.Passes.{SameKeys, missing, Agree, Covered, Quiet}
use rivet_db.Storage.Compaction.Rounds.{Fits, unselected, rounds_end}
use rivet_db.Storage.Compaction.Selected.{
  all-true, All-append, All-both, All-last, IsUnique, IsUnique-Agree, found_self, All-filter,
  seen-filter, seen-append, members,
}

level_unique :
    (i n : ℕ) (ls : List (List TableMetadata))
    → count_file ls n ≤ 1
    → count (has_number n) (level_at i ls) ≤ 1
level_unique i n [] h = omega arith
level_unique zero n (l ∷ ls) h = omega arith
level_unique (suc i) n (l ∷ ls) h = level_unique i n ls (omega arith)

-- What the proof uses of the tables of one level.
record Level (v : Version) (i : ℕ) : Type 0 where
  unique : IsUnique (level_at i v.levels)
  live : All (λ t. contains_table v t ≡ true) (level_at i v.levels)
  ranges : All (λ t. at_most t.smallest_user t.largest_user ≡ true) (level_at i v.levels)

abbrev IsLive : Version → TableMetadata → Type 0
IsLive v t = contains_table v t ≡ true

abbrev IsRange : TableMetadata → Type 0
IsRange t = at_most t.smallest_user t.largest_user ≡ true

contains_here :
    (v : Version) (i : ℕ) (t : TableMetadata)
    → i < max_levels
    → t.level ≡ i
    → found_equal (level_at i v.levels) t ≡ true
    → contains_table v t ≡ true
contains_here v i t h e f =
    let low : ltb t.level max_levels ≡ true = ground arith in
    let found : found_equal (level_at t.level v.levels) t ≡ true =
      subst (λ k. found_equal (level_at k v.levels) t ≡ true) (sym e) f in
    rw (low, found) refl

Level-facts : (v : Version) (i : ℕ) → IsWellFormed v → i < max_levels → Level v i
Level-facts v i w h =
    let ts = level_at i v.levels in
    let unique : IsUnique ts = λ n. level_unique i n v.levels (w.unique n) in
    let placed = Placed-level_at i 0 v.levels w.placed in
    record {
      unique = unique;
      live =
          All-map _ (IsLive v) (λ t ((e, _), f). contains_here v i t h (omega arith) f) ts
            (All-both (λ t. (t.level ≡ i + 0) × (validate_table t ≡ ok tt))
              (λ t. found_equal ts t ≡ true) ts placed (found_self ts unique));
      ranges =
          All-map _ IsRange
            (λ t (_, f). not_less t.smallest_user t.largest_user (validate_table-IsRange t f)) ts
            placed;
    }

missing-le-length : (selected : List ℕ) (ts : List TableMetadata) → missing selected ts ≤ length ts
missing-le-length selected [] = omega arith
missing-le-length selected (t ∷ ts) = ground (arith, missing-le-length selected ts)

Inside-seed :
    (seed u : TableMetadata)
    → (u.smallest_user ≡ seed.smallest_user) × (u.largest_user ≡ seed.largest_user)
    → Inside (seeded seed).range u
Inside-seed seed u (a, b) = (
  ap (at_most seed.smallest_user) a ∙ at_most_refl seed.smallest_user,
  ap (λ k. at_most k seed.largest_user) b ∙ at_most_refl seed.largest_user,
)

seeded-Covered :
    (seed : TableMetadata) (us : List TableMetadata)
    → All
        (λ u.
          (u.file_number == seed.file_number) ≡ true
          → (u.smallest_user ≡ seed.smallest_user) × (u.largest_user ≡ seed.largest_user))
        us
    → Covered (seeded seed).source (seeded seed).range us
seeded-Covered seed [] h = tt
seeded-Covered seed (u ∷ us) (h, hs) =
    ((λ k. Inside-seed seed u (h (ground arith))), seeded-Covered seed us hs)

seeded_target : (r : KeySpan) (us : List TableMetadata) → Covered [] r us
seeded_target r [] = tt
seeded_target r (u ∷ us) = ((λ k. absurd (ground arith)), seeded_target r us)

module _ (v : Version) (d : Choice) (source : Level v 0) (target : Level v 1)
    (f : Fits (level_at 0 v.levels) (level_at 1 v.levels) d) where
  fit_level :
      (selected : List ℕ) (ts : List TableMetadata)
      → All (IsLive v) ts
      → All IsRange ts
      → Covered selected d.range ts
      → All (λ t. input_fits (plan_of v d) v t ≡ true) (filter selected ts)
  fit_level selected ts live ranges covered =
      All-map _ (λ t. input_fits (plan_of v d) v t ≡ true) (λ t (((l, r), c), s). fit t l r (c s))
        (filter selected ts)
        (All-filter
          (λ t. ((IsLive v t × IsRange t) × (selects selected t ≡ true → Inside d.range t)))
          selected ts
          (All-both (λ t. IsLive v t × IsRange t)
            (λ t. selects selected t ≡ true → Inside d.range t) ts
            (All-both (IsLive v) IsRange ts live ranges) covered))
    where
      fit :
          (t : TableMetadata)
          → IsLive v t
          → IsRange t
          → Inside d.range t
          → input_fits (plan_of v d) v t ≡ true
      fit t l r i = let o = Inside-overlap d.range t r i in rw (l, o) refl

  inputs_fit : all (input_fits (plan_of v d) v) (inputs (plan_of v d)) ≡ true
  inputs_fit = all-true (input_fits (plan_of v d) v) (inputs (plan_of v d)) (
      All-append (λ t. input_fits (plan_of v d) v t ≡ true) (filter d.source (level_at 0 v.levels))
        (filter d.target (level_at 1 v.levels))
        (fit_level d.source (level_at 0 v.levels) source.live source.ranges f.source_covered)
        (fit_level d.target (level_at 1 v.levels) target.live target.ranges f.target_covered))

  settled_level :
      (selected : List ℕ) (ts : List TableMetadata)
      → Quiet ts selected d.range
      → ((n : ℕ)
          → seen_file n (numbers (filter selected ts)) ≡ true
          → seen_file n (numbers (inputs (plan_of v d))) ≡ true)
      → all (settled (plan_of v d)) ts ≡ true
  settled_level selected ts quiet among = all-true (settled (plan_of v d)) ts (
      All-map _ (λ t. settled (plan_of v d) t ≡ true) (λ t (q, m). settle t q m) ts
        (All-both (λ t. ranges_overlap d.range t ≡ true → selects selected t ≡ true)
          (λ t. any (has_number t.file_number) ts ≡ true) ts quiet (members ts)))
    where
      settle :
          (t : TableMetadata)
          → (ranges_overlap d.range t ≡ true → selects selected t ≡ true)
          → any (has_number t.file_number) ts ≡ true
          → settled (plan_of v d) t ≡ true
      settle t q m = elim (Bool-cases (ranges_overlap d.range t)) [
        | inl over ↦
            (let among_inputs =
                among t.file_number (seen-filter t.file_number selected ts (q over) m) in
              rw (over, among_inputs) refl)
        | inr apart ↦ rw apart refl
      ]

among_source :
    (xs ys : List TableMetadata) (n : ℕ)
    → seen_file n (numbers xs) ≡ true
    → seen_file n (numbers (xs ++ ys)) ≡ true
among_source xs ys n h = ground (arith, seen-append n xs ys)

among_target :
    (xs ys : List TableMetadata) (n : ℕ)
    → seen_file n (numbers ys) ≡ true
    → seen_file n (numbers (xs ++ ys)) ≡ true
among_target xs ys n h = ground (arith, seen-append n xs ys)

not_empty :
    (n : ℕ) (ts : List TableMetadata) → seen_file n (numbers ts) ≡ true → (length ts == 0) ≡ false
not_empty n [] h = cc
not_empty n (t ∷ ts) h = ground arith

-- Everything that Validate asks of the plan.
plan_valid :
    (v : Version) (seed : TableMetadata) (d : Choice)
    → Level v 0
    → Level v 1
    → any (has_number seed.file_number) (level_at 0 v.levels) ≡ true
    → IsRange seed
    → (selects d.source seed ≡ true)
    → Inside d.range seed
    → Fits (level_at 0 v.levels) (level_at 1 v.levels) d
    → Quiet (level_at 0 v.levels) d.source d.range
    → Quiet (level_at 1 v.levels) d.target d.range
    → validate (plan_of v d) v ≡ ok tt
unfolding validate
plan_valid v seed d source target member ranged chosen (low, high) f q q' =
    let xs = filter d.source (level_at 0 v.levels) in
    let ys = filter d.target (level_at 1 v.levels) in
    let some_of =
      not_empty seed.file_number xs
        (seen-filter seed.file_number d.source (level_at 0 v.levels) chosen member) in
    let order =
      at_most_trans d.range.smallest seed.smallest_user d.range.largest low
        (at_most_trans seed.smallest_user seed.largest_user d.range.largest ranged high) in
    rw
      (
        some_of,
        order,
        inputs_fit v d source target f,
        settled_level v d source target f d.source (level_at 0 v.levels) q (among_source xs ys),
        settled_level v d source target f d.target (level_at 1 v.levels) q' (among_target xs ys),
      )
      refl

abbrev pub Picked : Version → Result Error (Option Plan) → Type 0
Picked v r = (p : Plan) × (r ≡ ok (some p)) × (validate p v ≡ ok tt)

pick_from-Picked :
    (v : Version) (ss : List TableMetadata)
    → level_at 0 v.levels ≡ ss
    → 0 < length ss
    → Level v 0
    → Level v 1
    → Picked v (pick_from v ss (level_at 1 v.levels))
pick_from-Picked v [] e h source target = absurd (omega arith)
pick_from-Picked v (t ∷ ts) e h source target =
    let first = t ∷ ts in
    let second = level_at 1 v.levels in
    let seed = last_of t ts in
    let agree : Agree first first =
      subst (λ (l : List TableMetadata). Agree l l) e
        (IsUnique-Agree (level_at 0 v.levels) source.unique) in
    let start : Fits first second (seeded seed) = record {
      source_covered =
          seeded-Covered seed first (All-last (λ x. All (λ u. SameKeys u x) first) t ts agree);
      target_covered = seeded_target (seeded seed).range second;
    } in
    let room : unselected first second (seeded seed) < suc (length first + length second) =
      omega (arith, missing-le-length (seeded seed).source first, missing-le-length [] second) in
    let (d, ends, k) =
      rounds_end first second agree (IsUnique-Agree second target.unique)
        (suc (length first + length second)) (seeded seed) room start in
    let member =
      subst (λ (l : List TableMetadata). any (has_number seed.file_number) l ≡ true) (sym e)
        (All-last (λ x. any (has_number x.file_number) first ≡ true) t ts (members first)) in
    let valid =
      plan_valid v seed d source target member
        (All-last IsRange t ts (subst (λ (l : List TableMetadata). All IsRange l) e source.ranges))
        (k.keeps seed.file_number (rw (==_refl seed.file_number) refl))
        (Inside-mono (seeded seed).range d.range seed k.grows (Inside-seed seed seed (refl, refl)))
        (subst (λ (l : List TableMetadata). Fits l second d) (sym e) k.fits)
        (subst (λ (l : List TableMetadata). Quiet l d.source d.range) (sym e) k.source_quiet)
        k.target_quiet in
    (plan_of v d, rw (ends, valid) refl, valid)

trigger_positive : (n : ℕ) → 0 < trigger_of n
trigger_positive n = ground arith

-- On a version with the invariant and at least as many tables on its first level as the trigger asks
-- for, Pick returns a plan, and Validate accepts it: the loop that widens the key range ends, every
-- input is live and overlaps the range, and every table of the two levels that overlaps it is an input.
pub pick-Picked :
    (n : ℕ) (v : Version)
    → IsWellFormed v
    → trigger_of n ≤ length (level_at 0 v.levels)
    → Picked v (pick (pos n) v)
unfolding pick pick_above
pick-Picked n v w h =
    let enough : ltb (length (level_at 0 v.levels)) (trigger_of n) ≡ false =
      le→not_ltb (length (level_at 0 v.levels)) (trigger_of n) h in
    rw enough (
      pick_from-Picked v (level_at 0 v.levels) refl (omega (arith, trigger_positive n))
        (Level-facts v 0 w (omega arith)) (Level-facts v 1 w (omega arith)))
