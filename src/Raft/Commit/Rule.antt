-- ===== src/Raft/Commit/Rule.antt =====
-- Which index `advanceCommit` chooses.
use rivet_db.Prelude.{
  ℕ, zero, suc, ◌+◌, ◌-◌, ◌≤◌, ◌<◌, ◌≡◌, refl, ap, true, false, not, Option, none, some, arith, ltb,
  ◌==◌, if◌then◌else◌, Bool-cases, inl, inr, ltb→lt, ==_iff, subst, ◌∙◌, ◌⊎◌,
}
use rivet_db.Raft.Membership.{has_quorum}
use rivet_db.Raft.State.{Node, Outcome, done, fail, panic, term}
use rivet_db.Raft.Log.{last_index, term_at}
use rivet_db.Raft.Commit.{acknowledged, find_commit, next_commit}

-- An entry of the present term that a quorum has acknowledged.
abbrev pub Committable : Node → ℕ → Type 0
Committable n i =
    (term_at i n.persistent ≡ done (term n))
    × (has_quorum n.configuration (acknowledged n i) ≡ true)

-- The result of a search from `top` down to the commit index: an index that may be committed, and
-- none above it may.
pub record Rule (n : Node) (top : ℕ) (r : Option ℕ) : Type 0 where
  pub found : (i : ℕ) → r ≡ some i → (n.commit_index < i) × (i ≤ top) × Committable n i
  pub best :
      (j : ℕ) → n.commit_index < j → j ≤ top → Committable n j → (i : ℕ) × (r ≡ some i) × (j ≤ i)

abbrev pub RuleOf : Node → ℕ → Outcome (Option ℕ) → Type 0
RuleOf n top (done r) = Rule n top r
RuleOf n top (fail e) = Unit
RuleOf n top panic = Unit

Rule-end : (n : Node) (top : ℕ) → top ≤ n.commit_index → Rule n top none
Rule-end n top h = record { found = λ i e. cc; best = λ j above below c. absurd (omega arith) }

Rule-hit : (n : Node) (top : ℕ) → n.commit_index < top → Committable n top → Rule n top (some top)
Rule-hit n top h c = record {
  found = λ i e. (let same : top ≡ i = ground arith in rw⁻¹ same (h, omega arith, c));
  best = λ j above below cj. (top, refl, below);
}

Rule-skip :
    (n : Node) (top : ℕ) (r : Option ℕ)
    → n.commit_index < top
    → ¬ Committable n top
    → Rule n (top - 1) r
    → Rule n top r
Rule-skip n top r h not_here rest = record {
  found = λ i e. (let (above, below, c) = rest.found i e in (above, omega arith, c));
  best = λ j above below c. lower j above c (Bool-cases (j == top)) below;
}
  where
    lower :
        (j : ℕ)
        → n.commit_index < j
        → Committable n j
        → ((j == top) ≡ true) ⊎ ((j == top) ≡ false)
        → j ≤ top
        → (i : ℕ) × (r ≡ some i) × (j ≤ i)
    lower j above c (inl here) below =
        absurd (not_here (subst (Committable n) ((==_iff j top).0 here) c))
    lower j above c (inr other) below = rest.best j above (ground arith) c

RuleOf-skip :
    (n : Node) (top : ℕ) (o : Outcome (Option ℕ))
    → n.commit_index < top
    → ¬ Committable n top
    → RuleOf n (top - 1) o
    → RuleOf n top o
RuleOf-skip n top (done r) h not_here rest = Rule-skip n top r h not_here rest
RuleOf-skip n top (fail e) h not_here rest = tt
RuleOf-skip n top panic h not_here rest = tt

-- One round, by what `termAt` answers.
round :
    (n : Node) (top : ℕ) (rest : Outcome (Option ℕ)) (o : Outcome ℕ)
    → n.commit_index < top
    → term_at top n.persistent ≡ o
    → RuleOf n (top - 1) rest
    → RuleOf n top (elim o [
      | fail e ↦ fail e
      | panic ↦ panic
      | done t ↦
          if not (t == term n)
          then rest
          else if has_quorum n.configuration (acknowledged n top)
          then done (some top)
          else rest
    ])
round n top rest (fail e) h at r = tt
round n top rest panic h at r = tt
round n top rest (done t) h at r = elim (Bool-cases (t == term n)) [
  | inr old ↦ rw old (RuleOf-skip n top rest h (λ c. ground arith) r)
  | inl present ↦ rw present (elim (Bool-cases (has_quorum n.configuration (acknowledged n top))) [
    | inl quorum ↦
        rw quorum (Rule-hit n top h (at ∙ ap done ((==_iff t (term n)).0 present), quorum))
    | inr few ↦ rw few (RuleOf-skip n top rest h (λ c. ground arith) r)
  ])
]

find_commit-RuleOf :
    (fuel top : ℕ) (n : Node) → top ≤ n.commit_index + fuel → RuleOf n top (find_commit fuel top n)
unfolding find_commit
find_commit-RuleOf zero top n h = Rule-end n top (omega arith)
find_commit-RuleOf (suc fuel) top n h = elim (Bool-cases (ltb n.commit_index top)) [
  | inl more ↦
      rw (find_commit, more)
        (round n top (find_commit fuel (top - 1) n) (term_at top n.persistent)
          (ltb→lt n.commit_index top more) refl
          (find_commit-RuleOf fuel (top - 1) n (ground arith)))
  | inr done_here ↦ rw (find_commit, done_here) (Rule-end n top (ground arith))
]

-- The index that advanceCommit chooses, when termAt fails nowhere on the way, lies above the commit
-- index and within the log, holds an entry of the present term, and a quorum has acknowledged it; no
-- higher index is such, and when none is chosen there is none.
pub next_commit-RuleOf : (n : Node) → RuleOf n (last_index n.persistent) (next_commit n)
next_commit-RuleOf n =
    find_commit-RuleOf (last_index n.persistent - n.commit_index) (last_index n.persistent) n
      (omega arith)
