-- ===== src/Raft/Forward/Snapshot.antt =====
-- InstallSnapshot, its response, and local snapshots.
use rivet_db.Prelude.{ℕ, ◌≡◌, refl, sym, ap, ◌∙◌, List, arith}
use rivet_db.Raft.Types.{
  Entry, Configuration, Snapshot, PersistentState, Message, HardState, apply_failure,
}
use rivet_db.Raft.State.{
  inc, Node, Outcome, M, continue, ◌>>=◌, ◌>>◌, gets, modify, save, stop_with, become_follower,
  machine_call, restored,
}
use rivet_db.Raft.State.Rules.{
  Moves, Moves-bind, Moves-pure, Moves-gets, Moves-read, Moves-continue, Moves-then, choose,
}
use rivet_db.Raft.Log.{term_at, entries_from}
use rivet_db.Raft.Forward.Basic.{
  Forward, forward, Forward-refl, Forward-trans, Forward_quiet, save-Forward, stop_with-Forward,
  quiet-Forward, modify-Forward, become_follower-Forward, set_match_index-Forward,
  set_next_index-Forward, usable-Forward,
}
use rivet_db.Raft.Forward.Commit.{install_configuration-Forward}
use rivet_db.Raft.Replicate.{
  with_snapshot, restore_machine, install_newer, set_persistent, jump_to, snapshot_taken,
  adopt_snapshot, adopt_suffix, take_snapshot, kept_suffix, follow_and_take,
  handle_install_snapshot, advance_snapshot_match, replicate_to, handle_snapshot_response,
  take_image, after_image, keep_snapshot, save_and_set, snapshot_at, snapshot_applied,
  create_snapshot,
}

pub restore_machine-Forward : (s : Snapshot) → Moves Forward (restore_machine s)
restore_machine-Forward s = record {
  at = λ n. choose Forward n _ _ _ (λ _. noted n) (λ _. stopped n);
}
  where
    later : Node → Node
    later n = record n { machine = machine_call (restored s.payload) n.machine }

    noted : (n : Node) → Forward n (later n)
    noted n = Forward_quiet n (later n) refl refl refl refl (omega arith)

    stopped : (n : Node) → Forward n (stop_with {A = Unit {0}} apply_failure (later n)).1
    stopped n =
        Forward-trans n (later n) _ (noted n) ((stop_with-Forward apply_failure).at (later n))

persistent-save : (p : PersistentState) (n : Node) → (save p n).1.persistent ≡ n.persistent
unfolding save
persistent-save p n = ground arith

persistent-restore_machine :
    (s : Snapshot) (n : Node) → (restore_machine s n).1.persistent ≡ n.persistent
unfolding stop_with
persistent-restore_machine s n = ground arith

install_newer-Forward : (c : Configuration) → Moves Forward (install_newer c)
install_newer-Forward c = record {
  at = λ n. ground (arith, Forward-refl n, (install_configuration-Forward c).at n);
}

jump_to-Forward : (index : ℕ) → Moves Forward (modify (jump_to index))
jump_to-Forward index = quiet-Forward (jump_to index) (λ n. (refl, refl, refl, refl, omega arith))

-- While the hard state in memory is `h`: an action that keeps it, and one that need not.
record Holding (h : HardState) (a b : Node) : Type 0 where
  goes : a.persistent.hard_state ≡ h → (b.persistent.hard_state ≡ h) × Forward a b

record Assuming (h : HardState) (a b : Node) : Type 0 where
  goes : a.persistent.hard_state ≡ h → Forward a b

module _ (h : HardState) where
  hold :
      {A B : Type 0} (m : M A) (f : A → M B)
      → Moves (Holding h) m
      → ((x : A) → Moves (Assuming h) (f x))
      → Moves (Assuming h) (m >>= f)
  hold m f hm hf =
      Moves-then m f (λ a b r. record { goes = λ e. (r.goes e).1 })
        (λ a b c r s. record {
          goes = λ e. let (e', first) = r.goes e in Forward-trans a b c first (s.goes e');
        })
        hm hf

  assume : {A : Type 0} (m : M A) → Moves Forward m → Moves (Assuming h) m
  assume m f = record { at = λ n. record { goes = λ _. f.at n } }

  save-Holding : (p : PersistentState) → p.hard_state ≡ h → Moves (Holding h) (save p)
  save-Holding p e = record {
    at = λ n. record {
      goes = λ e'. (
        ap (λ (s : PersistentState). s.hard_state) (persistent-save p n) ∙ e',
        save-Forward p n (e ∙ sym e'),
      );
    };
  }

  restore_machine-Holding : (s : Snapshot) → Moves (Holding h) (restore_machine s)
  restore_machine-Holding s = record {
    at = λ n. record {
      goes = λ e'. (
        ap (λ (s : PersistentState). s.hard_state) (persistent-restore_machine s n) ∙ e',
        (restore_machine-Forward s).at n,
      );
    };
  }

  set_persistent-Holding :
      (p : PersistentState) → p.hard_state ≡ h → Moves (Holding h) (modify (set_persistent p))
  set_persistent-Holding p e = record {
    at = λ n. record {
      goes =
          λ e'. (e, Forward_quiet n (set_persistent p n) refl (e ∙ sym e') refl refl (omega arith));
    };
  }

after_restore-Forward :
    (m : Message) (c : Configuration)
    → Moves Forward
        (install_newer c >> (modify (jump_to m.snapshot.index) >> gets (snapshot_taken m)))
after_restore-Forward m c = Moves-bind forward _ _ (install_newer-Forward c) λ _.
    Moves-bind forward _ _ (jump_to-Forward m.snapshot.index)
      λ _. Moves-gets forward (snapshot_taken m)

adopt_snapshot-Assuming :
    (m : Message) (p : PersistentState) → Moves (Assuming p.hard_state) (adopt_snapshot m p)
adopt_snapshot-Assuming m p = hold p.hard_state _ _ (save-Holding p.hard_state p refl) λ _.
    hold p.hard_state _ _ (restore_machine-Holding p.hard_state m.snapshot) λ _.
      hold p.hard_state _ _ (set_persistent-Holding p.hard_state p refl)
        λ _. assume p.hard_state _ (after_restore-Forward m p.config)

adopt_suffix-Forward : (m : Message) (suffix : List Entry) → Moves Forward (adopt_suffix m suffix)
adopt_suffix-Forward m suffix = record {
  at = λ n.
      ((adopt_snapshot-Assuming m (with_snapshot m.snapshot suffix n.persistent)).at n).goes refl;
}

adopt_kept-Forward :
    (m : Message) (r : Outcome (List Entry)) → Moves Forward (continue r (adopt_suffix m))
adopt_kept-Forward m r = Moves-continue forward r (adopt_suffix m) (adopt_suffix-Forward m)

take_snapshot-Forward : (m : Message) → Moves Forward (take_snapshot m)
take_snapshot-Forward m = record {
  at = λ n. ground (
    arith,
    Forward-refl n,
    (adopt_kept-Forward m
          (kept_suffix m.snapshot n.persistent (term_at m.snapshot.index n.persistent))).at
        n,
  );
}

follow_and_take-Forward : (m : Message) → Moves Forward (follow_and_take m)
follow_and_take-Forward m =
    Moves-bind forward _ _
      (modify-Forward (become_follower m.sender) (become_follower-Forward m.sender))
      λ _. take_snapshot-Forward m

pub handle_install_snapshot-Forward : (m : Message) → Moves Forward (handle_install_snapshot m)
unfolding handle_install_snapshot
handle_install_snapshot-Forward m = record {
  at = λ n. ground (arith, Forward-refl n, (follow_and_take-Forward m).at n);
}

advance_snapshot_match-Forward : (m : Message) → Moves Forward (advance_snapshot_match m)
advance_snapshot_match-Forward m = Moves-bind forward _ _ (Moves-gets forward (λ n. n)) λ n.
    Moves-bind forward _ _ (set_match_index-Forward m.sender _) λ _.
      Moves-bind forward _ _ (Moves-gets forward (λ n. n)) λ n'.
        Moves-bind forward _ _ (set_next_index-Forward m.sender _)
          λ _. Moves-read forward (replicate_to m.sender)

pub handle_snapshot_response-Forward : (m : Message) → Moves Forward (handle_snapshot_response m)
unfolding handle_snapshot_response
handle_snapshot_response-Forward m = record {
  at = λ n. ground (arith, Forward-refl n, (advance_snapshot_match-Forward m).at n);
}

take_image-Forward : Moves Forward take_image
take_image-Forward = record {
  at = λ n. ground (arith, Forward_quiet n (after_image n) refl refl refl refl (omega arith));
}

save_and_set-Assuming :
    (p : PersistentState) (s : Snapshot) → Moves (Assuming p.hard_state) (save_and_set p s)
save_and_set-Assuming p s = hold p.hard_state _ _ (save-Holding p.hard_state p refl) λ _.
    hold p.hard_state _ _ (set_persistent-Holding p.hard_state p refl)
      λ _. assume p.hard_state _ (Moves-pure forward s)

keep_snapshot-Forward : (s : Snapshot) (es : List Entry) → Moves Forward (keep_snapshot s es)
keep_snapshot-Forward s es = record {
  at = λ n.
      ((save_and_set-Assuming (record n.persistent { snapshot = s; entries = es }) s).at n).goes
        refl;
}

snapshot_at-Forward : (index : ℕ) → Moves Forward (snapshot_at index)
unfolding snapshot_at
snapshot_at-Forward index =
    Moves-bind forward _ _ (Moves-read forward (λ n. term_at index n.persistent)) λ t.
      Moves-bind forward _ _ take_image-Forward λ image.
        Moves-bind forward _ _ (Moves-gets forward (λ n. n)) λ n.
          Moves-bind forward _ _ (Moves-read forward (λ n. entries_from (inc index) n.persistent))
            λ es. keep_snapshot-Forward _ es

snapshot_applied-Forward : Moves Forward snapshot_applied
snapshot_applied-Forward = record {
  at = λ n. ground (arith, Forward-refl n, (snapshot_at-Forward n.last_applied).at n);
}

pub create_snapshot-Forward : Moves Forward create_snapshot
unfolding create_snapshot
create_snapshot-Forward = Moves-bind forward _ _ usable-Forward λ _. snapshot_applied-Forward
