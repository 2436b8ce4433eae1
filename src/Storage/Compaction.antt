-- ===== src/Storage/Compaction.antt =====
-- internal/storage/compaction/plan.go: which tables a compaction of the first level takes. The Reason
-- of a plan, a constant text, is left out; the error of a nil plan or version has no counterpart.
pub mod Order
pub mod Passes
pub mod Rounds
pub mod Selected
pub mod Valid
mod Witness
use rivet_db.Prelude.{
  ℕ, zero, suc, ◌+◌, Bool, true, false, Option, none, some, List, [], ◌∷◌, ◌++◌, ◌&&◌, ◌||◌, not,
  ltb, ◌==◌, if◌then◌else◌, Ordering, length, any, all, Result, ok, err, ◌>>=◌, ◌>>◌,
}
use rivet_db.Prelude.Int.{ℤ, pos, negsuc}
use rivet_db.Prelude.Bytes.{compare_bytes, equal_bytes}
use rivet_db.Storage.Key
use rivet_db.Storage.Sorting.{greater}
use rivet_db.Storage.Manifest.Edit.{TableMetadata, seen_file, max_levels}
use rivet_db.Storage.Manifest.Version.{Version, level_at, has_number}

-- `out_of_rounds` stands for a loop of Pick that has not ended in its fuel.
pub data Error : Type 0 where
  invalid_plan invalid_options out_of_rounds : Error

abbrev pub default_l0_trigger : ℕ
default_l0_trigger = 4

-- `bytes.Compare(a, b) <= 0`
abbrev pub at_most : List ℕ → List ℕ → Bool
at_most a b = not (greater (compare_bytes a b))

pub record KeySpan : Type 0 where
  pub smallest : List ℕ
  pub largest : List ℕ

-- rangesOverlap, on a span of keys and a table.
abbrev pub ranges_overlap : KeySpan → TableMetadata → Bool
ranges_overlap r t = at_most r.smallest t.largest_user && at_most t.smallest_user r.largest

unfoldable pub expand_range : KeySpan → TableMetadata → KeySpan
expand_range r t = record {
  smallest = if at_most r.smallest t.smallest_user then r.smallest else t.smallest_user;
  largest = if at_most t.largest_user r.largest then r.largest else t.largest_user;
}

-- One loop over a level: the file numbers selected, the span, and whether a table was added.
pub record Pass : Type 0 where
  pub selected : List ℕ
  pub range : KeySpan
  pub changed : Bool

abbrev pub joins : List ℕ → KeySpan → TableMetadata → Bool
joins selected r t = not (seen_file t.file_number selected) && ranges_overlap r t

abbrev pub pass : List TableMetadata → List ℕ → KeySpan → Pass
pass [] selected r = record { selected = selected; range = r; changed = false }
pass (t ∷ ts) selected r =
    let taken = pass ts (t.file_number ∷ selected) (expand_range r t) in
    let left = pass ts selected r in
    if joins selected r t then record taken { changed = true } else left

-- The rounds of the outer loop, over both levels, while a table was added.
pub record Choice : Type 0 where
  pub source : List ℕ
  pub target : List ℕ
  pub range : KeySpan

unfoldable pub rounds : ℕ → List TableMetadata → List TableMetadata → Choice → Option Choice
rounds zero source target c = none
rounds (suc fuel) source target c =
    let p = pass source c.source c.range in
    let q = pass target c.target p.range in
    let next : Choice = record { source = p.selected; target = q.selected; range = q.range } in
    let rest = rounds fuel source target next in if p.changed || q.changed then rest else some next

pub record Plan : Type 0 where
  pub base_generation : ℕ
  pub source_level : ℕ
  pub target_level : ℕ
  pub source_inputs : List TableMetadata
  pub target_inputs : List TableMetadata
  pub range : KeySpan

-- `tableEqual` and `Version.Contains` of the manifest.
unfoldable pub table_equal : TableMetadata → TableMetadata → Bool
table_equal a b =
    a.level == b.level
    && a.file_number == b.file_number
    && a.flush_generation == b.flush_generation
    && a.file_size == b.file_size
    && a.entry_count == b.entry_count
    && a.deletion_count == b.deletion_count
    && a.raw_key_value_bytes == b.raw_key_value_bytes
    && a.data_block_count == b.data_block_count
    && a.smallest_sequence == b.smallest_sequence
    && a.largest_sequence == b.largest_sequence
    && equal_bytes (Key.encode a.smallest_internal) (Key.encode b.smallest_internal)
    && equal_bytes (Key.encode a.largest_internal) (Key.encode b.largest_internal)
    && equal_bytes a.smallest_user b.smallest_user
    && equal_bytes a.largest_user b.largest_user

-- The table that findFile finds, compared.
abbrev pub found_equal : List TableMetadata → TableMetadata → Bool
found_equal [] t = false
found_equal (u ∷ us) t = if has_number t.file_number u then table_equal u t else found_equal us t

abbrev pub contains_table : Version → TableMetadata → Bool
contains_table v t = ltb t.level max_levels && found_equal (level_at t.level v.levels) t

abbrev pub selects : List ℕ → TableMetadata → Bool
selects selected t = seen_file t.file_number selected

abbrev pub inputs : Plan → List TableMetadata
inputs p = p.source_inputs ++ p.target_inputs

abbrev pub numbers : List TableMetadata → List ℕ
numbers [] = []
numbers (t ∷ ts) = t.file_number ∷ numbers ts

-- Every input is live and overlaps the span; and every table of the two levels that overlaps it is one.
abbrev pub input_fits : Plan → Version → TableMetadata → Bool
input_fits p v t = contains_table v t && ranges_overlap p.range t

abbrev pub settled : Plan → TableMetadata → Bool
settled p t = not (ranges_overlap p.range t) || selects (numbers (inputs p)) t

unfoldable pub validate : Plan → Version → Result Error (Unit {0})
validate p v =
    if not (p.source_level == 0)
      || not (p.target_level == 1)
      || length p.source_inputs == 0
      || not (at_most p.range.smallest p.range.largest)
    then err invalid_plan
    else if not (all (input_fits p v) (inputs p))
    then err invalid_plan
    else if not (
        all (settled p) (level_at p.source_level v.levels)
        && all (settled p) (level_at p.target_level v.levels))
    then err invalid_plan
    else ok tt

-- The tables of a level that are selected, in the level's order.
abbrev pub filter : List ℕ → List TableMetadata → List TableMetadata
filter selected [] = []
filter selected (t ∷ ts) = if selects selected t then t ∷ filter selected ts else filter selected ts

abbrev pub plan_of : Version → Choice → Plan
plan_of v c = record {
  base_generation = v.generation;
  source_level = 0;
  target_level = 1;
  source_inputs = filter c.source (level_at 0 v.levels);
  target_inputs = filter c.target (level_at 1 v.levels);
  range = c.range;
}

-- The last table of a level that is not empty.
abbrev pub last_of : TableMetadata → List TableMetadata → TableMetadata
last_of t [] = t
last_of t (u ∷ us) = last_of u us

abbrev pub seeded : TableMetadata → Choice
seeded t = record {
  source = t.file_number ∷ [];
  target = [];
  range = record { smallest = t.smallest_user; largest = t.largest_user };
}

abbrev pub checked : Version → Option Choice → Result Error (Option Plan)
checked v none = err out_of_rounds
checked v (some c) = validate (plan_of v c) v >> ok (some (plan_of v c))

-- One round more than there are tables.
abbrev pub pick_from :
    Version → List TableMetadata → List TableMetadata → Result Error (Option Plan)
pick_from v [] target = ok none
pick_from v (t ∷ ts) target =
    checked v
      (rounds (suc (length (t ∷ ts) + length target)) (t ∷ ts) target (seeded (last_of t ts)))

unfoldable pub pick_above : ℕ → Version → Result Error (Option Plan)
pick_above trigger v =
    if ltb (length (level_at 0 v.levels)) trigger
    then ok none
    else pick_from v (level_at 0 v.levels) (level_at 1 v.levels)

-- `Picker.Pick`, with the picker's L0Trigger, whose zero stands for the default.
abbrev pub trigger_of : ℕ → ℕ
trigger_of n = if n == 0 then default_l0_trigger else n

unfoldable pub pick : ℤ → Version → Result Error (Option Plan)
pick (pos n) v = pick_above (trigger_of n) v
pick (negsuc n) v = err invalid_options
