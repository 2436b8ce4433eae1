-- ===== src/Raft/Life/Votes.antt =====
-- At most one vote per term, over a whole life.
use rivet_db.Prelude.{◌≡◌, ◌≢◌, ◌∙◌, ap, sym, true, List, [], ◌∷◌, ◌++◌, All}
use rivet_db.Raft.Types.{HardState, Message}
use rivet_db.Raft.State.{Node}
use rivet_db.Raft.Forward.Basic.{HardLe, HardLe-refl, HardLe-trans}
use rivet_db.Raft.Life.{Life, born, then_step, AllGenuine}
use rivet_db.Raft.Life.Granted.{Marked}
use rivet_db.Raft.Life.Sound.{Sound, DiskLe, Step-Sequel}

-- Two votes given in one term are given to one candidate.
abbrev pub Agree : Message → Message → Type 0
Agree m k = m.vote_granted ≡ true → k.vote_granted ≡ true → m.term ≡ k.term → m.target ≡ k.target

-- Any two messages of a list agree.
abbrev pub OneVote : List Message → Type 0
OneVote [] = Unit
OneVote (m ∷ ms) = All (Agree m) ms × OneVote ms

-- A vote that was sent is on the disk, or the disk is past its term.
abbrev Kept : Node → Message → Type 0
Kept n m =
    m.vote_granted ≡ true
    → (m.target ≢ 0)
      × HardLe (record { term = m.term; voted_for = m.target }) n.store.disk.hard_state

Marked-Kept : (n : Node) (ms : List Message) → All (Marked n) ms → All (Kept n) ms
Marked-Kept n [] h = tt
Marked-Kept n (m ∷ ms) (h, hs) =
    ((λ g. let (z, e) = h g in (z, rw e (HardLe-refl _))), Marked-Kept n ms hs)

Kept-DiskLe : (a b : Node) (ms : List Message) → DiskLe a b → All (Kept a) ms → All (Kept b) ms
Kept-DiskLe a b [] l h = tt
Kept-DiskLe a b (m ∷ ms) l (h, hs) =
    ((λ g. let (z, k) = h g in (z, HardLe-trans _ _ _ k l)), Kept-DiskLe a b ms l hs)

Marked-Agree : (n : Node) (m k : Message) → Marked n m → Kept n k → Agree m k
Marked-Agree n m k hm hk gm gk same =
    let (zm, em) = hm gm in
    let (zk, lk) = hk gk in
    sym (ap (λ (h : HardState). h.voted_for) em)
    ∙ lk.vote (sym same ∙ sym (ap (λ (h : HardState). h.term) em)) zk

Marked-Agrees :
    (n : Node) (m : Message) (ks : List Message) → Marked n m → All (Kept n) ks → All (Agree m) ks
Marked-Agrees n m [] hm h = tt
Marked-Agrees n m (k ∷ ks) hm (h, hs) = (Marked-Agree n m k hm h, Marked-Agrees n m ks hm hs)

module _ (P : Message → Type 0) where
  All-append : (ms ks : List Message) → All P ms → All P ks → All P (ms ++ ks)
  All-append [] ks h k = k
  All-append (m ∷ ms) ks (h, hs) k = (h, All-append ms ks hs k)

OneVote-append :
    (n : Node) (ms ks : List Message)
    → All (Marked n) ms
    → All (Kept n) ks
    → OneVote ks
    → OneVote (ms ++ ks)
OneVote-append n [] ks hm hk o = o
OneVote-append n (m ∷ ms) ks (h, hs) hk o = (
  Marked-Agrees n m (ms ++ ks) h (All-append (Kept n) ms ks (Marked-Kept n ms hs) hk),
  OneVote-append n ms ks hs hk o,
)

record Record (a b : Node) (ms : List Message) : Type 0 where
  sound : Sound b
  disk : DiskLe a b
  kept : All (Kept b) ms
  one : OneVote ms

Life-Record :
    {a b : Node} {ms : List Message} (life : Life a b ms)
    → AllGenuine life
    → Sound a
    → Record a b ms
Life-Record born g s = record { sound = s; disk = HardLe-refl _; kept = tt; one = tt }
Life-Record (then_step {b = b} {c = c} {ms = old} {ks = new} life step) (gs, g) s =
    let before = Life-Record life gs s in
    let after = Step-Sequel step g before.sound in
    let kept = Kept-DiskLe b c old after.disk before.kept in
    record {
      sound = after.sound;
      disk = HardLe-trans _ _ _ before.disk after.disk;
      kept = All-append (Kept c) new old (Marked-Kept c new after.marked) kept;
      one = OneVote-append c new old after.marked kept before.one;
    }

-- Over any sequence of calls and restarts of one server, from a node whose disk is not ahead of its
-- memory and, unless the node has failed, not behind it, and where each AppendEntries message
-- received covers the commit index that it carries: no two votes that the server sends out in one
-- term are for different candidates, whichever of its saves fail.
pub votes_agree :
    {a b : Node} {ms : List Message} (life : Life a b ms) → AllGenuine life → Sound a → OneVote ms
votes_agree life g s = (Life-Record life g s).one

-- Over such a sequence the term on disk never falls, and within one term a vote on disk never
-- changes.
pub disk_advances :
    {a b : Node} {ms : List Message} (life : Life a b ms)
    → AllGenuine life
    → Sound a
    → HardLe a.store.disk.hard_state b.store.disk.hard_state
disk_advances life g s = (Life-Record life g s).disk
