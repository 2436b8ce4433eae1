-- ===== src/Raft/Commit/Applied.antt =====
-- What `applyCommitted` applies: the committed entries, each once and in order.
use rivet_db.Prelude.{
  ℕ, zero, suc, ◌+◌, ◌-◌, ◌^◌, ◌≤◌, ◌<◌, ◌≡◌, refl, ap, ◌∙◌, true, false, List, ◌∷◌, arith, ltb,
  ◌==◌, if◌then◌else◌, Bool-cases, inl, inr, Result, ok, err,
}
use rivet_db.Raft.Types.{
  Entry, Configuration, PersistentState, Error, apply_failure, entry_command, entry_config,
}
use rivet_db.Raft.Membership.{decode}
use rivet_db.Raft.State.{
  Node, Call, applied, Outcome, done, fail, panic, continue, ◌>>=◌, ◌>>◌, modify, gets, pure,
  assert, stop_with, persist, save, next_outcome, machine_call, become_follower,
  reset_election_timer, inc,
}
use rivet_db.Raft.State.Rules.{IsPreorder, Moves, Moves-bind, Moves-pure, Moves-if}
use rivet_db.Raft.Log.{entry_at, last_index}
use rivet_db.Raft.Commit.{
  configure, sync_indexes, step_down, install_configuration, call_machine, set_config,
  install_durably, adopt, apply_config, apply_entry, fetch, apply_next, apply_rounds,
  apply_committed, set_applied, unapplied, applied_within,
}

-- The indexes, the log and the machine are as before.
record Still (a b : Node) : Type 0 where
  commit : b.commit_index ≡ a.commit_index
  at : b.last_applied ≡ a.last_applied
  entries : b.persistent.entries ≡ a.persistent.entries
  snapshot : b.persistent.snapshot ≡ a.persistent.snapshot
  machine : b.machine ≡ a.machine

Still-refl : (n : Node) → Still n n
Still-refl n = record { commit = refl; at = refl; entries = refl; snapshot = refl; machine = refl }

Still-trans : (a b c : Node) → Still a b → Still b c → Still a c
Still-trans a b c h k = record {
  commit = k.commit ∙ h.commit;
  at = k.at ∙ h.at;
  entries = k.entries ∙ h.entries;
  snapshot = k.snapshot ∙ h.snapshot;
  machine = k.machine ∙ h.machine;
}

abbrev still : IsPreorder Still
still = record { stay = Still-refl; compose = Still-trans }

stop_with-Still : {A : Type 0} (e : Error) → Moves Still (stop_with {A = A} e)
unfolding stop_with
stop_with-Still e = record {
  at = λ n. record { commit = refl; at = refl; entries = refl; snapshot = refl; machine = refl };
}

persist-Still : Moves Still persist
unfolding persist save stop_with
persist-Still = record {
  at = λ n. elim (Bool-cases (next_outcome n.store.outcomes)) [
    | inl good ↦
        rw good
          (record { commit = refl; at = refl; entries = refl; snapshot = refl; machine = refl })
    | inr bad ↦
        rw bad
          (record { commit = refl; at = refl; entries = refl; snapshot = refl; machine = refl })
  ];
}

configure-Still : (c : Configuration) → Moves Still (modify (configure c))
configure-Still c = record {
  at = λ n. record { commit = refl; at = refl; entries = refl; snapshot = refl; machine = refl };
}

set_config-Still : (c : Configuration) → Moves Still (modify (set_config c))
set_config-Still c = record {
  at = λ n. record { commit = refl; at = refl; entries = refl; snapshot = refl; machine = refl };
}

become_follower-Still : (l : ℕ) (n : Node) → Still n (become_follower l n)
unfolding become_follower reset_election_timer
become_follower-Still l n = record {
  commit = ground arith;
  at = ground arith;
  entries = ground arith;
  snapshot = ground arith;
  machine = ground arith;
}

step_down-Still : Moves Still (modify step_down)
step_down-Still = record { at = λ n. ground (arith, Still-refl n, become_follower-Still 0 n) }

sync_indexes-Still : Moves Still sync_indexes
unfolding sync_indexes
sync_indexes-Still = record { at = λ n. ground (arith, Still-refl n) }

install_configuration-Still : (c : Configuration) → Moves Still (install_configuration c)
unfolding install_configuration
install_configuration-Still c =
    Moves-bind still _ _ (configure-Still c)
      λ _. Moves-bind still _ _ sync_indexes-Still λ _. step_down-Still

install_durably-Still : (c : Configuration) → Moves Still (install_durably c)
install_durably-Still c =
    Moves-bind still _ _ (install_configuration-Still c)
      λ _. Moves-bind still _ _ (set_config-Still c) λ _. persist-Still

adopt-Still : (c : Configuration) → Moves Still (adopt c)
adopt-Still c = record {
  at = λ n. ground (
    arith,
    Still-refl n,
    (stop_with-Still {A = Unit {0}} apply_failure).at n,
    (install_durably-Still c).at n,
  );
}

apply_config-Still : (r : Result Error Configuration) → Moves Still (apply_config r)
apply_config-Still (ok c) = adopt-Still c
apply_config-Still (err e) = stop_with-Still apply_failure

-- The machine's calls after an entry has been applied.
abbrev pub note : Entry → List Call → List Call
note e calls = if e.kind == entry_command then applied e ∷ calls else calls

-- An entry was applied: its call is noted, and all else is as before.
record Applies (e : Entry) (a b : Node) : Type 0 where
  commit : b.commit_index ≡ a.commit_index
  at : b.last_applied ≡ a.last_applied
  entries : b.persistent.entries ≡ a.persistent.entries
  snapshot : b.persistent.snapshot ≡ a.persistent.snapshot
  calls : b.machine.calls ≡ note e a.machine.calls

abbrev WhenDone : {A : Type 0} → (A → Node → Type 0) → Outcome A → Node → Type 0
WhenDone P (done a) n = P a n
WhenDone P (fail e) n = Unit
WhenDone P panic n = Unit

Still-Applies :
    (e : Entry) (a b : Node) (r : Outcome (Unit {0}))
    → (e.kind == entry_command) ≡ false
    → Still a b
    → WhenDone (λ _ n. Applies e a n) r b
Still-Applies e a b (done u) other h = record {
  commit = h.commit;
  at = h.at;
  entries = h.entries;
  snapshot = h.snapshot;
  calls = rw (h.machine, other) refl;
}
Still-Applies e a b (fail x) other h = tt
Still-Applies e a b panic other h = tt

call_machine-Applies :
    (e : Entry) (n : Node)
    → (e.kind == entry_command) ≡ true
    → WhenDone (λ _ b. Applies e n b) (call_machine e n).0 (call_machine e n).1
unfolding machine_call stop_with
call_machine-Applies e n command = elim (Bool-cases (next_outcome n.machine.outcomes)) [
  | inl good ↦ rw good (record {
    commit = refl;
    at = refl;
    entries = refl;
    snapshot = refl;
    calls = rw command refl;
  })
  | inr bad ↦ rw bad tt
]

apply_entry-Applies :
    (e : Entry) (n : Node) → WhenDone (λ _ b. Applies e n b) (apply_entry e n).0 (apply_entry e n).1
unfolding apply_entry
apply_entry-Applies e n = elim (Bool-cases (e.kind == entry_command)) [
  | inl command ↦ rw command (call_machine-Applies e n command)
  | inr other ↦
      (let rest : Moves Still
            (if e.kind == entry_config then apply_config (decode e.command) else pure tt) =
          Moves-if Still _ _ _ (apply_config-Still (decode e.command)) (Moves-pure still tt) in
        rw other (Still-Applies e n _ _ other (rest.at n)))
]

-- The calls that applying `count` entries after `index` adds, the latest first.
abbrev pub note_at : Outcome Entry → List Call → List Call
note_at (done e) calls = note e calls
note_at _ calls = calls

abbrev pub calls_after : ℕ → ℕ → PersistentState → List Call → List Call
calls_after zero index p calls = calls
calls_after (suc count) index p calls =
    calls_after count (index + 1) p (note_at (entry_at (index + 1) p) calls)

entry_at_same :
    (i : ℕ) (p q : PersistentState)
    → q.entries ≡ p.entries
    → q.snapshot ≡ p.snapshot
    → entry_at i q ≡ entry_at i p
unfolding entry_at last_index
entry_at_same i p q e s = rw (e, s) refl

calls_after_same :
    (count index : ℕ) (p q : PersistentState) (calls : List Call)
    → q.entries ≡ p.entries
    → q.snapshot ≡ p.snapshot
    → calls_after count index q calls ≡ calls_after count index p calls
calls_after_same zero index p q calls e s = refl
calls_after_same (suc count) index p q calls e s =
    rw (entry_at_same (index + 1) p q e s) (calls_after_same count (index + 1) p q _ e s)

-- One round applied the next entry.
record Round (a b : Node) : Type 0 where
  commit : b.commit_index ≡ a.commit_index
  at : b.last_applied ≡ inc a.last_applied
  entries : b.persistent.entries ≡ a.persistent.entries
  snapshot : b.persistent.snapshot ≡ a.persistent.snapshot
  calls : b.machine.calls ≡ note_at (entry_at (inc a.last_applied) a.persistent) a.machine.calls

Round-applied :
    (e : Entry) (a b : Node) (r : Outcome (Unit {0}))
    → entry_at (inc a.last_applied) a.persistent ≡ done e
    → WhenDone (λ _ n. Applies e a n) r b
    → WhenDone
        (λ _ n. Round a n)
        (continue r (λ _. modify (set_applied (inc a.last_applied))) b).0
        (continue r (λ _. modify (set_applied (inc a.last_applied))) b).1
Round-applied e a b (done u) found h = record {
  commit = h.commit;
  at = refl;
  entries = h.entries;
  snapshot = h.snapshot;
  calls = rw found h.calls;
}
Round-applied e a b (fail x) found h = tt
Round-applied e a b panic found h = tt

Round-fetched :
    (a : Node) (r : Outcome Entry)
    → entry_at (inc a.last_applied) a.persistent ≡ r
    → WhenDone
        (λ _ n. Round a n)
        ((fetch r >>= λ e. apply_entry e >> modify (set_applied (inc a.last_applied))) a).0
        ((fetch r >>= λ e. apply_entry e >> modify (set_applied (inc a.last_applied))) a).1
unfolding stop_with
Round-fetched a (done e) found =
    Round-applied e a (apply_entry e a).1 (apply_entry e a).0 found (apply_entry-Applies e a)
Round-fetched a (fail x) found = tt
Round-fetched a panic found = tt

apply_next-Round : (n : Node) → WhenDone (λ _ b. Round n b) (apply_next n).0 (apply_next n).1
unfolding apply_next
apply_next-Round n = Round-fetched n (entry_at (inc n.last_applied) n.persistent) refl

-- Everything committed has been applied.
pub record CaughtUp (a b : Node) : Type 0 where
  pub commit : b.commit_index ≡ a.commit_index
  pub at : b.last_applied ≡ a.commit_index
  pub calls :
      b.machine.calls
      ≡ calls_after (a.commit_index - a.last_applied) a.last_applied a.persistent a.machine.calls

abbrev pub CatchesUp : Node → Outcome (Unit {0}) → Node → Type 0
CatchesUp a (done u) b = CaughtUp a b
CatchesUp a (fail e) b = Unit
CatchesUp a panic b = Unit

-- What the rounds after the first apply, the first one has left.
calls_shift :
    (a b : Node) (k : ℕ)
    → Round a b
    → inc a.last_applied ≡ a.last_applied + 1
    → calls_after k b.last_applied b.persistent b.machine.calls
      ≡ calls_after (suc k) a.last_applied a.persistent a.machine.calls
calls_shift a b k r step =
    calls_after_same k b.last_applied a.persistent b.persistent b.machine.calls r.entries r.snapshot
    ∙ rw (r.at, r.calls, step) refl

Round-CaughtUp :
    (a b c : Node)
    → a.last_applied < a.commit_index
    → a.commit_index < 2 ^ 64
    → Round a b
    → CaughtUp b c
    → CaughtUp a c
Round-CaughtUp a b c behind bound r h =
    let step : inc a.last_applied ≡ a.last_applied + 1 = omega arith in
    let k = a.commit_index - a.last_applied - 1 in
    let left : b.commit_index - b.last_applied ≡ k = omega (arith, r.commit, r.at, step) in
    let whole : suc k ≡ a.commit_index - a.last_applied = omega arith in
    record {
      commit = h.commit ∙ r.commit;
      at = h.at ∙ r.commit;
      calls =
          h.calls
          ∙ ap (λ count. calls_after count b.last_applied b.persistent b.machine.calls) left
          ∙ calls_shift a b k r step
          ∙ ap (λ count. calls_after count a.last_applied a.persistent a.machine.calls) whole;
    }

Round-CatchesUp :
    (a b : Node) (r : Outcome (Unit {0})) (c : Node)
    → a.last_applied < a.commit_index
    → a.commit_index < 2 ^ 64
    → Round a b
    → CatchesUp b r c
    → CatchesUp a r c
Round-CatchesUp a b (done u) c behind bound r h = Round-CaughtUp a b c behind bound r h
Round-CatchesUp a b (fail e) c behind bound r h = tt
Round-CatchesUp a b panic c behind bound r h = tt

CaughtUp-end : (n : Node) → n.last_applied ≡ n.commit_index → CaughtUp n n
CaughtUp-end n h =
    let none_left : 0 ≡ n.commit_index - n.last_applied = omega arith in
    record {
      commit = refl;
      at = h;
      calls = ap (λ count. calls_after count n.last_applied n.persistent n.machine.calls) none_left;
    }

Fits : ℕ → Node → Type 0
Fits fuel n =
    (n.last_applied ≤ n.commit_index)
    × (n.commit_index ≤ n.last_applied + fuel)
    × (n.commit_index < 2 ^ 64)

next_rounds :
    (fuel : ℕ) (a b : Node) (r : Outcome (Unit {0}))
    → a.last_applied < a.commit_index
    → Fits (suc fuel) a
    → ((n : Node) → Fits fuel n → CatchesUp n (apply_rounds fuel n).0 (apply_rounds fuel n).1)
    → WhenDone (λ _ n. Round a n) r b
    → CatchesUp a
        (continue r (λ _ n'. apply_rounds fuel n') b).0
        (continue r (λ _ n'. apply_rounds fuel n') b).1
unfolding Fits
next_rounds fuel a b (done u) behind (low, enough, bound) rest h =
    Round-CatchesUp a b (apply_rounds fuel b).0 (apply_rounds fuel b).1 behind bound h (
      rest b
        (omega (arith, h.commit, h.at), omega (arith, h.commit, h.at), omega (arith, h.commit)))
next_rounds fuel a b (fail e) behind fits rest h = tt
next_rounds fuel a b panic behind fits rest h = tt

apply_rounds-CatchesUp :
    (fuel : ℕ) (n : Node)
    → Fits fuel n
    → CatchesUp n (apply_rounds fuel n).0 (apply_rounds fuel n).1
unfolding apply_rounds Fits
apply_rounds-CatchesUp zero n (low, enough, bound) = CaughtUp-end n (omega arith)
apply_rounds-CatchesUp (suc fuel) n (low, enough, bound) =
    elim (Bool-cases (ltb n.last_applied n.commit_index)) [
      | inl behind ↦
          rw (apply_rounds, behind)
            (next_rounds fuel n (apply_next n).1 (apply_next n).0 (ground arith)
              (low, enough, bound) (apply_rounds-CatchesUp fuel) (apply_next-Round n))
      | inr level ↦ rw (apply_rounds, level) (CaughtUp-end n (ground arith))
    ]

within_keeps :
    (a b : Node) (r : Outcome (Unit {0}))
    → CatchesUp a r b
    → CatchesUp a
        (continue r (λ _. gets applied_within >>= λ within. assert within) b).0
        (continue r (λ _. gets applied_within >>= λ within. assert within) b).1
within_keeps a b (done u) h = rw (h.at, h.commit) (ground arith)
within_keeps a b (fail e) h = tt
within_keeps a b panic h = tt

-- When applyCommitted returns without an error, from an applied index at most the commit index, a
-- uint64: everything committed has been applied, and the state machine was called for exactly the
-- command entries between the two indexes, once each and in the order of the log.
pub apply_committed-CatchesUp :
    (n : Node)
    → n.last_applied ≤ n.commit_index
    → n.commit_index < 2 ^ 64
    → CatchesUp n (apply_committed n).0 (apply_committed n).1
unfolding apply_committed Fits
apply_committed-CatchesUp n low bound =
    within_keeps n (apply_rounds (unapplied n) n).1 (apply_rounds (unapplied n) n).0
      (apply_rounds-CatchesUp (unapplied n) n (low, omega arith, bound))
