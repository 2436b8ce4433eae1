-- ===== src/Storage/Wal/Outcomes.antt =====
-- What a recovery comes to, and its rounds.
use rivet_db.Prelude.{
  ℕ, zero, suc, ◌+◌, ◌%◌, ◌^◌, ◌<◌, ◌≡◌, refl, ap, subst, Bool, false, Option, none, some, List, [],
  ◌∷◌, map, length, arith,
}
use rivet_db.Storage.Wal.{Writer, Position}
use rivet_db.Storage.Wal.Accept.{Going}
use rivet_db.Storage.Wal.Reader.{Reader, LogRecord, next}
use rivet_db.Storage.Wal.Recovery.{
  accept_every, Recovery, recover_from, finished, after_next, then_consumed, is_truncated,
  failure_of,
}

-- What recovery gives for these entries, from the number of records before them.
pub record Recovered (entries : List (List ℕ × Position)) (file : List ℕ) (valid n : ℕ)
    (out : Recovery) : Type 0 where
  pub consumed : map (λ (l : LogRecord). (l.payload, l.position)) out.consumed ≡ entries
  pub failure : out.failure ≡ none
  pub valid_end : out.result.valid_end ≡ valid
  pub file_end : out.result.file_end ≡ length file
  pub records : out.result.records ≡ (n + length entries) % 2 ^ 64

pub then_consumed-some :
    (l : LogRecord) (rest : Option Recovery) (out : Recovery)
    → then_consumed l rest ≡ some out
    → (out' : Recovery) × (rest ≡ some out') × (out ≡ record out' { consumed = l ∷ out'.consumed })
then_consumed-some l none out h = cc
then_consumed-some l (some out') out h = (out', refl, cc)

-- A reader at the end of what a writer wrote.
pub record Ready (w : Writer) (r : Reader) : Type 0 where
  pub going : Going r
  pub assembling : r.assembling ≡ false
  pub offset : r.offset ≡ w.offset
  pub valid_to : r.valid_end ≡ w.offset

-- Next stops there, and leaves the valid part; P is what is known of the tail.
abbrev pub Closes : (Bool → Type 0) → List ℕ → Writer → Type 0
Closes P file w =
    (r : Reader)
    → Ready w r
    → (r1 : Reader) × (next file r ≡ some (r1, false))
      × (r1.error ≡ none)
      × (r1.valid_end ≡ w.offset)
      × P (is_truncated r1.tail)

pub recover_round :
    (fuel n : ℕ) (file : List ℕ) (r r' : Reader) (b : Bool) (out : Recovery)
    → next file r ≡ some (r', b)
    → recover_from (suc fuel) accept_every file n r ≡ some out
    → after_next accept_every file n
        (recover_from fuel accept_every file ((n + 1) % 2 ^ 64))
        (some (r', b))
      ≡ some out
unfolding recover_from
recover_round fuel n file r r' b out e h =
    subst
      (λ o.
        after_next accept_every file n (recover_from fuel accept_every file ((n + 1) % 2 ^ 64)) o
        ≡ some out)
      e h

pub recover_nothing :
    (n : ℕ) (file : List ℕ) (r : Reader) (out : Recovery)
    → recover_from zero accept_every file n r ≡ some out
    → ⊥
unfolding recover_from
recover_nothing n file r out h = cc

pub Recovered-end :
    (P : Bool → Type 0) (n : ℕ) (file : List ℕ) (w : Writer) (r r1 : Reader) (out : Recovery)
    → n < 2 ^ 64
    → r1.error ≡ none
    → r1.valid_end ≡ w.offset
    → P (is_truncated r1.tail)
    → some (finished file n r1) ≡ some out
    → Recovered [] file w.offset n out × P out.result.tail_truncated
Recovered-end P n file w r r1 out small fine valid known e =
    let same : finished file n r1 ≡ out = cc in
    subst (λ o. Recovered [] file w.offset n o × P o.result.tail_truncated) same
      (
        record {
          consumed = refl;
          failure = ap failure_of fine;
          valid_end = valid;
          file_end = refl;
          records = omega arith;
        },
        known,
      )
