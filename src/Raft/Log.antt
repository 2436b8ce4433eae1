-- ===== src/Raft/Log.antt =====
-- internal/raft/node.go: reading and cutting the log that follows the snapshot.
use rivet_db.Prelude.{
  ℕ, zero, suc, ◌-◌, Bool, false, Option, none, some, List, [], ◌∷◌, ◌||◌, ◌&&◌, ltb, leb, ◌==◌,
  if◌then◌else◌, get_elem?, take, drop, not, length,
}
use rivet_db.Raft.Types.{Entry, PersistentState, compacted, unavailable}
use rivet_db.Raft.State.{Outcome, done, fail, panic, M, inc}

abbrev pub last_entry : List Entry → Option Entry
last_entry [] = none
last_entry (e ∷ []) = some e
last_entry (e ∷ f ∷ es) = last_entry (f ∷ es)

unfoldable pub last_index : PersistentState → ℕ
last_index s = elim (last_entry s.entries) [ none ↦ s.snapshot.index | some e ↦ e.index ]

unfoldable pub last_term : PersistentState → ℕ
last_term s = elim (last_entry s.entries) [ none ↦ s.snapshot.term | some e ↦ e.term ]

-- A slice index out of range panics.
unfoldable pub at_offset : List Entry → ℕ → Outcome Entry
at_offset es i = elim (get_elem? es i) [ none ↦ panic | some e ↦ done e ]

unfoldable pub entry_at : ℕ → PersistentState → Outcome Entry
unfolding at_offset
entry_at index s =
    if leb index s.snapshot.index
    then fail compacted
    else if ltb (last_index s) index
    then fail unavailable
    else at_offset s.entries (index - s.snapshot.index - 1)

abbrev pub entry_term : Outcome Entry → Outcome ℕ
entry_term (done e) = done e.term
entry_term (fail x) = fail x
entry_term panic = panic

unfoldable pub term_at : ℕ → PersistentState → Outcome ℕ
unfolding at_offset
term_at index s =
    if index == s.snapshot.index
    then done s.snapshot.term
    else if ltb index s.snapshot.index
    then fail compacted
    else if ltb (last_index s) index
    then fail unavailable
    else entry_term (at_offset s.entries (index - s.snapshot.index - 1))

-- `es[i:]`: a cut past the end of the slice panics.
abbrev pub suffix_from : List Entry → ℕ → Outcome (List Entry)
suffix_from es i = if leb i (length es) then done (drop i es) else panic

unfoldable pub entries_from : ℕ → PersistentState → Outcome (List Entry)
entries_from index s =
    if leb index s.snapshot.index
    then fail compacted
    else if ltb (inc (last_index s)) index
    then fail unavailable
    else if index == inc (last_index s)
    then done []
    else suffix_from s.entries (index - s.snapshot.index - 1)

-- `truncateSuffix`, after its assertion
abbrev pub cut_from : ℕ → PersistentState → PersistentState
cut_from index s = record s { entries = take (index - s.snapshot.index - 1) s.entries }

unfoldable pub truncate_suffix : ℕ → M (Unit {0})
truncate_suffix index n =
    if ltb n.commit_index index
    then (done tt, record n { persistent = cut_from index n.persistent })
    else (panic, n)

abbrev pub is_term : ℕ → Outcome ℕ → Bool
is_term t (done u) = u == t
is_term t _ = false

-- The loop runs down to the snapshot at most, so `index - snapshot.index` rounds are enough.
first_index_loop : ℕ → ℕ → ℕ → PersistentState → ℕ
first_index_loop zero index t s = index
first_index_loop (suc fuel) index t s =
    let earlier = first_index_loop fuel (index - 1) t s in
    if not (ltb s.snapshot.index index)
    then index
    else if is_term t (term_at (index - 1) s)
    then earlier
    else index

unfoldable pub first_index_of_term : ℕ → ℕ → PersistentState → ℕ
unfolding first_index_loop
first_index_of_term index t s = first_index_loop (index - s.snapshot.index) index t s

unfoldable pub log_up_to_date : ℕ → ℕ → PersistentState → Bool
log_up_to_date index t s = ltb (last_term s) t || (t == last_term s && leb (last_index s) index)
