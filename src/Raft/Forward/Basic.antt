-- ===== src/Raft/Forward/Basic.antt =====
-- The relation, and the actions of Raft/State.
use rivet_db.Prelude.{ℕ, ◌≤◌, ◌≡◌, ◌≢◌, refl, ap, none, arith, Bool-cases, inl, inr, sym, ◌∙◌}
use rivet_db.Raft.Types.{HardState, PersistentState, Error}
use rivet_db.Raft.State.{
  Node, next_outcome, stop_with, save, persist, reset_election_timer, become_follower,
  set_match_index, set_next_index, set_vote, usable, modify,
}
use rivet_db.Raft.State.Rules.{IsPreorder, Moves}

-- The term does not fall, and within a term a vote that was cast stays.
pub record HardLe (a b : HardState) : Type 0 where
  pub term : a.term ≤ b.term
  pub vote : a.term ≡ b.term → a.voted_for ≢ 0 → b.voted_for ≡ a.voted_for

pub HardLe-refl : (a : HardState) → HardLe a a
HardLe-refl a = record { term = omega arith; vote = λ _ _. refl }

pub HardLe-trans : (a b c : HardState) → HardLe a b → HardLe b c → HardLe a c
HardLe-trans a b c h k = record {
  term = omega (arith, h.term, k.term);
  vote = λ e v.
      let ab : a.term ≡ b.term = omega (arith, h.term, k.term) in
      let bc : b.term ≡ c.term = omega (arith, h.term, k.term) in
      let same = h.vote ab v in k.vote bc (λ z. v (sym same ∙ z)) ∙ same;
}

-- What is on disk is not ahead of what is in memory.
abbrev pub DiskBehind : Node → Type 0
DiskBehind n = HardLe n.store.disk.hard_state n.persistent.hard_state

-- Unless the node has failed, what is on disk is what is in memory.
abbrev pub Durable : Node → Type 0
Durable n = n.fatal ≡ none → n.store.disk.hard_state ≡ n.persistent.hard_state

pub record Advance (a b : Node) : Type 0 where
  pub same_id : b.id ≡ a.id
  pub hard : HardLe a.persistent.hard_state b.persistent.hard_state
  pub commit : a.commit_index ≤ b.commit_index
  pub disk : DiskBehind a → DiskBehind b × HardLe a.store.disk.hard_state b.store.disk.hard_state

pub record Forward (a b : Node) : Type 0 where
  pub advance : Advance a b
  pub durable : Durable a → Durable b

Advance-refl : (n : Node) → Advance n n
Advance-refl n = record {
  same_id = refl;
  hard = HardLe-refl _;
  commit = omega arith;
  disk = λ h. (h, HardLe-refl _);
}

Advance-trans : (a b c : Node) → Advance a b → Advance b c → Advance a c
Advance-trans a b c h k = record {
  same_id = k.same_id ∙ h.same_id;
  hard = HardLe-trans _ _ _ h.hard k.hard;
  commit = omega (arith, h.commit, k.commit);
  disk = λ d. let (d', l) = h.disk d in let (d'', l') = k.disk d' in (d'', HardLe-trans _ _ _ l l');
}

pub Forward-refl : (n : Node) → Forward n n
Forward-refl n = record { advance = Advance-refl n; durable = λ d. d }

pub Forward-trans : (a b c : Node) → Forward a b → Forward b c → Forward a c
Forward-trans a b c h k = record {
  advance = Advance-trans a b c h.advance k.advance;
  durable = λ d. k.durable (h.durable d);
}

abbrev pub forward : IsPreorder Forward
forward = record { stay = Forward-refl; compose = Forward-trans }

-- A change of other fields.
Advance_quiet :
    (a b : Node)
    → b.id ≡ a.id
    → b.persistent.hard_state ≡ a.persistent.hard_state
    → b.store ≡ a.store
    → a.commit_index ≤ b.commit_index
    → Advance a b
Advance_quiet a b i p s c = record {
  same_id = i;
  hard = rw p (HardLe-refl _);
  commit = c;
  disk = λ h. rw (p, s) (h, HardLe-refl _);
}

pub Forward_quiet :
    (a b : Node)
    → b.id ≡ a.id
    → b.persistent.hard_state ≡ a.persistent.hard_state
    → b.store ≡ a.store
    → b.fatal ≡ a.fatal
    → a.commit_index ≤ b.commit_index
    → Forward a b
Forward_quiet a b i p s f c = record {
  advance = Advance_quiet a b i p s c;
  durable = λ d e. rw (p, s) (d (sym f ∙ e));
}

-- A step of the hard state in memory; the disk follows when it is saved.
pub Advance_hard :
    (a b : Node)
    → b.id ≡ a.id
    → HardLe a.persistent.hard_state b.persistent.hard_state
    → b.store ≡ a.store
    → a.commit_index ≤ b.commit_index
    → Advance a b
Advance_hard a b i p s c = record {
  same_id = i;
  hard = p;
  commit = c;
  disk = λ h. rw s (HardLe-trans _ _ _ h p, HardLe-refl _);
}

pub Advance-Forward : (a b c : Node) → Advance a b → Forward b c → Advance a c
Advance-Forward a b c h k = Advance-trans a b c h k.advance

pub stop_with-Forward : {A : Type 0} (e : Error) → Moves Forward (stop_with {A = A} e)
unfolding stop_with
stop_with-Forward e = record {
  at = λ n. record {
    advance = Advance_quiet _ _ refl refl refl (omega arith);
    durable = λ _ none_left. cc;
  };
}

-- Saving a state whose hard state is the one in memory.
pub save-Forward :
    (s : PersistentState) (n : Node)
    → s.hard_state ≡ n.persistent.hard_state
    → Forward n (save s n).1
unfolding save
save-Forward s n e = elim (Bool-cases (next_outcome n.store.outcomes)) [
  | inl good ↦ rw good (record {
    advance = record {
      same_id = refl;
      hard = HardLe-refl _;
      commit = omega arith;
      disk = λ h. rw e (HardLe-refl _, h);
    };
    durable = λ _ _. e;
  })
  | inr bad ↦ rw bad (elim (Bool-cases (next_outcome n.store.published)) [
    | inl landed ↦ rw landed (record {
      advance = record {
        same_id = refl;
        hard = HardLe-refl _;
        commit = omega arith;
        disk = λ h. rw e (HardLe-refl _, h);
      };
      durable = λ _ none_left. cc;
    })
    | inr lost ↦ rw lost (record {
      advance = record {
        same_id = refl;
        hard = HardLe-refl _;
        commit = omega arith;
        disk = λ h. (h, HardLe-refl _);
      };
      durable = λ _ none_left. cc;
    })
  ])
]

pub persist-Forward : Moves Forward persist
unfolding persist
persist-Forward = record { at = λ n. save-Forward n.persistent n refl }

persist-Durable : (n : Node) → Durable (persist n).1
unfolding persist save
persist-Durable n = elim (Bool-cases (next_outcome n.store.outcomes)) [
  | inl good ↦ rw good (λ _. refl)
  | inr bad ↦ rw bad (λ none_left. cc)
]

-- A step of the hard state that is saved at once.
pub persist_after : (a b : Node) → Advance a b → Forward a (persist b).1
persist_after a b h = record {
  advance = Advance-Forward a b (persist b).1 h (persist-Forward.at b);
  durable = λ _. persist-Durable b;
}

pub reset_election_timer_quiet :
    (n : Node)
    → ((reset_election_timer n).id ≡ n.id)
      × ((reset_election_timer n).persistent ≡ n.persistent)
      × ((reset_election_timer n).store ≡ n.store)
      × ((reset_election_timer n).fatal ≡ n.fatal)
      × ((reset_election_timer n).commit_index ≡ n.commit_index)
unfolding reset_election_timer
reset_election_timer_quiet n = ground arith

pub become_follower_quiet :
    (l : ℕ) (n : Node)
    → ((become_follower l n).id ≡ n.id)
      × ((become_follower l n).persistent ≡ n.persistent)
      × ((become_follower l n).store ≡ n.store)
      × ((become_follower l n).fatal ≡ n.fatal)
      × ((become_follower l n).commit_index ≡ n.commit_index)
unfolding become_follower
become_follower_quiet l n = ground arith

pub set_match_index-Forward : (p v : ℕ) → Moves Forward (set_match_index p v)
unfolding set_match_index
set_match_index-Forward p v = record { at = λ n. ground (arith, Forward-refl n) }

pub set_next_index-Forward : (p v : ℕ) → Moves Forward (set_next_index p v)
unfolding set_next_index
set_next_index-Forward p v = record { at = λ n. ground (arith, Forward-refl n) }

pub set_vote-Forward : (p : ℕ) → Moves Forward (set_vote p)
unfolding set_vote
set_vote-Forward p = record { at = λ n. ground (arith, Forward-refl n) }

pub usable-Forward : Moves Forward usable
unfolding usable
usable-Forward = record { at = λ n. ground (arith, Forward-refl n) }

pub quiet-Forward :
    (f : Node → Node)
    → ((n : Node)
        → ((f n).id ≡ n.id)
          × ((f n).persistent.hard_state ≡ n.persistent.hard_state)
          × ((f n).store ≡ n.store)
          × ((f n).fatal ≡ n.fatal)
          × (n.commit_index ≤ (f n).commit_index))
    → Moves Forward (modify f)
quiet-Forward f h = record {
  at = λ n. let (i, p, s, e, c) = h n in Forward_quiet n (f n) i p s e c;
}

pub become_follower-Forward : (l : ℕ) (n : Node) → Forward n (become_follower l n)
become_follower-Forward l n =
    let (i, p, s, f, c) = become_follower_quiet l n in
    Forward_quiet n _ i (ap (λ (t : PersistentState). t.hard_state) p) s f (omega (arith, c))

pub reset_election_timer-Forward : (n : Node) → Forward n (reset_election_timer n)
reset_election_timer-Forward n =
    let (i, p, s, f, c) = reset_election_timer_quiet n in
    Forward_quiet n _ i (ap (λ (t : PersistentState). t.hard_state) p) s f (omega (arith, c))

pub modify-Forward : (f : Node → Node) → ((n : Node) → Forward n (f n)) → Moves Forward (modify f)
modify-Forward f h = record { at = h }
