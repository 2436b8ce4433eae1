-- ===== src/Raft/Membership/Quorum.antt =====
-- Two quorums share a member: within one configuration, and across an allowed transition.
use rivet_db.Prelude.{
  ℕ, ◌+◌, ◌<◌, ◌≡◌, ◌≢◌, ap, ◌∙◌, sym, Bool, true, List, [], ◌∷◌, ◌&&◌, arith, length, Bool-cases,
  inl, inr, ok, checks_passed, ◌⊎◌,
}
use rivet_db.Raft.Sort.{count, contains, sort, count-sort, length-sort, contains-sort, equal_ids→eq}
use rivet_db.Raft.Types.{Configuration, config_transition}
use rivet_db.Raft.Membership.{
  majority_acknowledged, has_quorum, normalize, validate, validate_transition, voter, joint,
  allowed, is_empty,
}

-- A member of `ids` that passes both tests.
abbrev pub Common : List ℕ → (ℕ → Bool) → (ℕ → Bool) → Type 0
Common ids p q = (id : ℕ) × (contains ids id ≡ true) × (p id ≡ true) × (q id ≡ true)

Common-later : (x : ℕ) (xs : List ℕ) (p q : ℕ → Bool) → Common xs p q → Common (x ∷ xs) p q
Common-later x xs p q (id, h, hp, hq) = (id, ground arith, hp, hq)

-- Pigeonhole: two counts that add up past the length meet.
pigeonhole :
    (ids : List ℕ) (p q : ℕ → Bool) → length ids < count p ids + count q ids → Common ids p q
pigeonhole [] p q h = absurd (omega arith)
pigeonhole (x ∷ xs) p q h = elim (Bool-cases (p x && q x)) [
  | inl both ↦ (x, ground arith, ground arith, ground arith)
  | inr one ↦ Common-later x xs p q (pigeonhole xs p q (ground arith))
]

majorities_meet :
    (ids : List ℕ) (p q : ℕ → Bool)
    → majority_acknowledged ids p ≡ true
    → majority_acknowledged ids q ≡ true
    → length ids ≢ 0
    → Common ids p q
unfolding majority_acknowledged
majorities_meet ids p q hp hq ne = pigeonhole ids p q (ground arith)

majority-sort :
    (ids : List ℕ) (p : ℕ → Bool) → majority_acknowledged (sort ids) p ≡ majority_acknowledged ids p
unfolding majority_acknowledged
majority-sort ids p = rw (length-sort, count-sort)

-- Majorities of two voter lists with the same members, in whatever order.
same_voters_meet :
    (xs ys : List ℕ) (p q : ℕ → Bool)
    → sort xs ≡ sort ys
    → length xs ≢ 0
    → majority_acknowledged xs p ≡ true
    → majority_acknowledged ys q ≡ true
    → (id : ℕ) × (contains xs id ≡ true) × (contains ys id ≡ true) × (p id ≡ true) × (q id ≡ true)
same_voters_meet xs ys p q same ne hp hq =
    let (id, inside, pid, qid) =
      majorities_meet (sort xs) p q (majority-sort xs p ∙ hp)
        (ap (λ l. majority_acknowledged l q) same ∙ (majority-sort ys q ∙ hq))
        (λ e. ne (sym (length-sort xs) ∙ e)) in
    (
      id,
      sym (contains-sort id xs) ∙ inside,
      sym (contains-sort id ys) ∙ (ap (λ l. contains l id) (sym same) ∙ inside),
      pid,
      qid,
    )

validate_nonempty : (c : Configuration) → validate c ≡ ok tt → length c.old_voters ≢ 0
unfolding validate
validate_nonempty c h e = ground arith

transition_allowed :
    (from to : Configuration)
    → validate_transition from to ≡ ok tt
    → (allowed (normalize from) (normalize to) ≡ true)
      × (length from.old_voters ≢ 0)
      × (length to.old_voters ≢ 0)
unfolding validate_transition normalize
transition_allowed from to h =
    let (valid_from, valid_to, allows) =
      checks_passed (validate (normalize from)) (validate (normalize to))
        (allowed (normalize from) (normalize to)) config_transition h in
    (
      allows,
      λ e. validate_nonempty (normalize from) valid_from (length-sort from.old_voters ∙ e),
      λ e. validate_nonempty (normalize to) valid_to (length-sort to.old_voters ∙ e),
    )

is_empty-sort : (ids : List ℕ) → is_empty (sort ids) ≡ is_empty ids
is_empty-sort ids = ground (arith, length-sort ids)

-- The one voter list that the two configurations share.
shared_voters :
    (from to : Configuration)
    → allowed (normalize from) (normalize to) ≡ true
    → ((joint from ≡ true) × (sort to.old_voters ≡ sort from.new_voters))
      ⊎ (sort to.old_voters ≡ sort from.old_voters)
unfolding normalize
shared_voters from to h = elim (Bool-cases (is_empty from.new_voters)) [
  | inl stable ↦ inr (equal_ids→eq _ _ (ground (arith, is_empty-sort from.new_voters)))
  | inr both ↦ inl (rw both, equal_ids→eq _ _ (ground (arith, is_empty-sort from.new_voters)))
]

has_quorum_old :
    (c : Configuration) (p : ℕ → Bool)
    → has_quorum c p ≡ true
    → majority_acknowledged c.old_voters p ≡ true
unfolding has_quorum
has_quorum_old c p h = ground arith

has_quorum_new :
    (c : Configuration) (p : ℕ → Bool)
    → has_quorum c p ≡ true
    → joint c ≡ true
    → majority_acknowledged c.new_voters p ≡ true
unfolding has_quorum
has_quorum_new c p h j = ground arith

-- Any quorum of a configuration and any quorum of a configuration that it may change into, stable or
-- joint on either side, have a member in common, and it votes in both.
pub transition_quorums_meet :
    (from to : Configuration) (p q : ℕ → Bool)
    → validate_transition from to ≡ ok tt
    → has_quorum from p ≡ true
    → has_quorum to q ≡ true
    → (id : ℕ) × (voter from id ≡ true) × (voter to id ≡ true) × (p id ≡ true) × (q id ≡ true)
transition_quorums_meet from to p q valid hp hq =
    let (allows, some_from, some_to) = transition_allowed from to valid in
    elim (shared_voters from to allows) [
      | inl (joined, same) ↦
          let (id, in_to, in_from, qid, pid) =
            same_voters_meet to.old_voters from.new_voters q p same some_to (has_quorum_old to q hq)
              (has_quorum_new from p hp joined) in
          (id, ground arith, ground arith, pid, qid)
      | inr same ↦
          let (id, in_to, in_from, qid, pid) =
            same_voters_meet to.old_voters from.old_voters q p same some_to (has_quorum_old to q hq)
              (has_quorum_old from p hp) in
          (id, ground arith, ground arith, pid, qid)
    ]

-- Any two quorums of one valid configuration have a voter in common.
pub quorums_meet :
    (c : Configuration) (p q : ℕ → Bool)
    → validate c ≡ ok tt
    → has_quorum c p ≡ true
    → has_quorum c q ≡ true
    → (id : ℕ) × (voter c id ≡ true) × (p id ≡ true) × (q id ≡ true)
quorums_meet c p q valid hp hq =
    let (id, inside, pid, qid) =
      majorities_meet c.old_voters p q (has_quorum_old c p hp) (has_quorum_old c q hq)
        (validate_nonempty c valid) in
    (id, ground arith, pid, qid)
