-- ===== src/Raft/Forward/Commit.antt =====
-- Applying and committing.
use rivet_db.Prelude.{ℕ, zero, suc, ◌-◌, ◌<◌, ◌≡◌, refl, Option, none, some, arith, Result, ok, err}
use rivet_db.Raft.Types.{Configuration, Entry, Error, apply_failure}
use rivet_db.Raft.Membership.{decode}
use rivet_db.Raft.State.{
  Node, Outcome, done, fail, panic, continue, stop_with, machine_call, applied,
}
use rivet_db.Raft.Log.{entry_at}
use rivet_db.Raft.State.Rules.{
  Moves, Moves-bind, Moves-pure, Moves-gets, Moves-assert, choose, Moves-if,
}
use rivet_db.Raft.Forward.Basic.{
  Forward, forward, Forward-refl, Forward-trans, Forward_quiet, stop_with-Forward, persist-Forward,
  quiet-Forward, become_follower_quiet,
}
use rivet_db.Raft.Commit.{
  sync_indexes, install_configuration, call_machine, adopt, apply_config, apply_entry, fetch,
  apply_next, apply_rounds, apply_committed, find_commit, commit_to, advance_commit, set_applied,
  configure, step_down, set_config, install_durably, fetch_at, unapplied, next_commit, commit_next,
  applied_within, set_commit,
}

sync_indexes-Forward : Moves Forward sync_indexes
unfolding sync_indexes
sync_indexes-Forward = record { at = λ n. ground (arith, Forward-refl n) }

pub install_configuration-Forward : (c : Configuration) → Moves Forward (install_configuration c)
unfolding install_configuration
install_configuration-Forward c =
    Moves-bind forward _ _
      (quiet-Forward (configure c) (λ n. (refl, refl, refl, refl, omega arith)))
      λ _.
        Moves-bind forward _ _ sync_indexes-Forward
          λ _. quiet-Forward step_down (λ n. ground (arith, become_follower_quiet 0 n))

call_machine-Forward : (e : Entry) → Moves Forward (call_machine e)
call_machine-Forward e = record { at = λ n. choose Forward n _ _ _ (λ _. noted n) (λ _. stopped n) }
  where
    later : Node → Node
    later n = record n { machine = machine_call (applied e) n.machine }

    noted : (n : Node) → Forward n (later n)
    noted n = Forward_quiet n (later n) refl refl refl refl (omega arith)

    stopped : (n : Node) → Forward n (stop_with {A = Unit {0}} apply_failure (later n)).1
    stopped n =
        Forward-trans n (later n) _ (noted n) ((stop_with-Forward apply_failure).at (later n))

install_durably-Forward : (c : Configuration) → Moves Forward (install_durably c)
install_durably-Forward c = Moves-bind forward _ _ (install_configuration-Forward c) λ _.
    Moves-bind forward _ _
      (quiet-Forward (set_config c) (λ n. (refl, refl, refl, refl, omega arith)))
      λ _. persist-Forward

adopt-Forward : (c : Configuration) → Moves Forward (adopt c)
adopt-Forward c = record {
  at = λ n. ground (
    arith,
    Forward-refl n,
    (stop_with-Forward {A = Unit {0}} apply_failure).at n,
    (install_durably-Forward c).at n,
  );
}

apply_config-Forward : (r : Result Error Configuration) → Moves Forward (apply_config r)
apply_config-Forward (ok c) = adopt-Forward c
apply_config-Forward (err e) = stop_with-Forward apply_failure

apply_entry-Forward : (e : Entry) → Moves Forward (apply_entry e)
unfolding apply_entry
apply_entry-Forward e =
    Moves-if Forward _ _ _ (call_machine-Forward e)
      (Moves-if Forward _ _ _ (apply_config-Forward (decode e.command)) (Moves-pure forward tt))

fetch-Forward : (r : Outcome Entry) → Moves Forward (fetch r)
fetch-Forward (done e) = Moves-pure forward e
fetch-Forward (fail x) = stop_with-Forward apply_failure
fetch-Forward panic = record { at = Forward-refl }

fetch_at-Forward : (index : ℕ) → Moves Forward (fetch_at index)
fetch_at-Forward index = record { at = λ n. (fetch-Forward (entry_at index n.persistent)).at n }

apply_next-Forward : Moves Forward apply_next
unfolding apply_next
apply_next-Forward = Moves-bind forward _ _ (Moves-gets forward _) λ index.
    Moves-bind forward _ _ (fetch_at-Forward index) λ e.
      Moves-bind forward _ _ (apply_entry-Forward e)
        λ _. quiet-Forward (set_applied index) (λ n. (refl, refl, refl, refl, omega arith))

apply_rounds-Forward : (fuel : ℕ) → Moves Forward (apply_rounds fuel)
unfolding apply_rounds
apply_rounds-Forward zero = record { at = Forward-refl }
apply_rounds-Forward (suc fuel) =
    let rest =
      Moves-bind forward apply_next (λ _ n'. apply_rounds fuel n') apply_next-Forward
        (λ _. apply_rounds-Forward fuel) in
    record { at = λ n. choose Forward n _ _ _ (λ _. Forward-refl n) (λ _. rest.at n) }

pub apply_committed-Forward : Moves Forward apply_committed
unfolding apply_committed
apply_committed-Forward = Moves-bind forward _ _ (Moves-gets forward unapplied) λ fuel.
    Moves-bind forward _ _ (apply_rounds-Forward fuel)
      λ _. Moves-bind forward _ _ (Moves-gets forward applied_within) λ b. Moves-assert forward b

-- The commit index that the search finds is ahead of the present one.
find_commit-gt :
    (fuel index found : ℕ) (n : Node)
    → find_commit fuel index n ≡ done (some found)
    → n.commit_index < found
unfolding find_commit
find_commit-gt zero index found n h = cc
find_commit-gt (suc fuel) index found n h = ground (arith, find_commit-gt fuel (index - 1) found n)

commit_found :
    (r : Outcome (Option ℕ)) (n : Node)
    → ((found : ℕ) → r ≡ done (some found) → n.commit_index < found)
    → Forward n (continue r commit_to n).1
commit_found (done none) n h = Forward-refl n
commit_found (done (some i)) n h =
    Forward-trans n (set_commit i n) _
      (Forward_quiet n (set_commit i n) refl refl refl refl (omega (arith, h i refl)))
      (apply_committed-Forward.at (set_commit i n))
commit_found (fail e) n h = Forward-refl n
commit_found panic n h = Forward-refl n

commit_next-Forward : Moves Forward commit_next
commit_next-Forward = record {
  at = λ n. commit_found (next_commit n) n (λ found. find_commit-gt _ _ found n);
}

pub advance_commit-Forward : Moves Forward advance_commit
unfolding advance_commit
advance_commit-Forward = record {
  at = λ n. ground (arith, Forward-refl n, commit_next-Forward.at n);
}
