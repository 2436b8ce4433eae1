-- ===== src/RangeState/Settled.antt =====
-- A decision stands: whatever is applied later, a terminal record and a settled participant keep
-- their status.
use rivet_db.Prelude.{
  ℕ, ◌≡◌, refl, ap, ◌∙◌, true, false, Option, none, some, List, arith, Result, ok, err, Bool-cases,
  inl, inr,
}
use rivet_db.Prelude.Bytes.{equal_bytes, equal_bytes→eq}
use rivet_db.Txn.{Status, Record, Operation, terminal, equal_record}
use rivet_db.RangeState.{
  IdMap, find, put, wanted, create_checked, apply_create, decide, apply_decision, take_over,
  apply_takeover, Error,
}

-- What a later record of the same transaction keeps.
pub record Keeps (r r' : Record) : Type 0 where
  pub status : terminal r.status ≡ true → r'.status ≡ r.status
  pub home : r'.home ≡ r.home
  pub read_time : r'.read_time ≡ r.read_time
  pub commit_time : r'.commit_time ≡ r.commit_time

Keeps-refl : (r : Record) → Keeps r r
Keeps-refl r = record { status = λ h. refl; home = refl; read_time = refl; commit_time = refl }

-- Every binding of `m` has one in `m'` that keeps it, in the sense of `K`.
pub record RetainsBy {V : Type 0} (K : V → V → Type 0) (m m' : IdMap V) : Type 0 where
  pub at : (id : List ℕ) (r : V) → find m id ≡ some r → (r' : V) × (find m' id ≡ some r') × K r r'

module _ {V : Type 0} (K : V → V → Type 0) (stays : (v : V) → K v v) where
  pub RetainsBy-refl : (m : IdMap V) → RetainsBy K m m
  RetainsBy-refl m = record { at = λ id r h. (r, h, stays r) }

  -- A new binding for an id that had none, or one that keeps the old.
  pub put-RetainsBy :
      (m : IdMap V) (id : List ℕ) (new : V)
      → ((old : V) → find m id ≡ some old → K old new)
      → RetainsBy K m (put id new m)
  put-RetainsBy m id new h = record { at = at_id }
    where
      at_id :
          (k : List ℕ) (r : V)
          → find m k ≡ some r
          → (r' : V) × (find (put id new m) k ≡ some r') × K r r'
      at_id k r e = elim (Bool-cases (equal_bytes id k)) [
        | inl same ↦ (new, rw same refl, h r (rw (equal_bytes→eq id k same) e))
        | inr other ↦ (r, rw other e, stays r)
      ]

pub RetainsBy-trans :
    {V : Type 0} (K : V → V → Type 0) (a b c : IdMap V)
    → ((x y z : V) → K x y → K y z → K x z)
    → RetainsBy K a b
    → RetainsBy K b c
    → RetainsBy K a c
RetainsBy-trans K a b c trans h k = record {
  at = λ id r e.
      let (r', e', kept) = h.at id r e in
      let (r'', e'', kept') = k.at id r' e' in (r'', e'', trans r r' r'' kept kept');
}

Keeps-trans : (a b c : Record) → Keeps a b → Keeps b c → Keeps a c
Keeps-trans a b c h k = record {
  status = λ t. (let same = h.status t in k.status (ap terminal same ∙ t) ∙ same);
  home = k.home ∙ h.home;
  read_time = k.read_time ∙ h.read_time;
  commit_time = k.commit_time ∙ h.commit_time;
}

abbrev pub Retains : IdMap Record → IdMap Record → Type 0
Retains = RetainsBy Keeps

pub Retains-refl : (m : IdMap Record) → Retains m m
Retains-refl = RetainsBy-refl Keeps Keeps-refl

pub Retains-trans : (a b c : IdMap Record) → Retains a b → Retains b c → Retains a c
Retains-trans a b c h k = RetainsBy-trans Keeps a b c Keeps-trans h k

put-Retains :
    (m : IdMap Record) (id : List ℕ) (new : Record)
    → ((old : Record) → find m id ≡ some old → Keeps old new)
    → Retains m (put id new m)
put-Retains = put-RetainsBy Keeps Keeps-refl

-- What an operation on the records leaves.
abbrev pub Kept : IdMap Record → Result Error (IdMap Record) → Type 0
Kept m (ok m') = Retains m m'
Kept m (err e) = Unit

create_checked-Kept :
    (m : IdMap Record) (o : Operation) (found : Option Record)
    → find m o.id ≡ found
    → Kept m (create_checked found o m)
create_checked-Kept m o none e = put-Retains m o.id (wanted o) (λ old h. cc)
create_checked-Kept m o (some existing) e = elim (Bool-cases (equal_record existing (wanted o))) [
  | inl same ↦ rw same (Retains-refl m)
  | inr other ↦ rw other tt
]

pub apply_create-Kept :
    (range_id generation : ℕ) (o : Operation) (m : IdMap Record)
    → Kept m (apply_create range_id generation o m)
unfolding apply_create
apply_create-Kept range_id generation o m =
    ground (arith, create_checked-Kept m o (find m o.id) refl)

decided-Keeps :
    (m : IdMap Record) (id : List ℕ) (r old : Record) (status : Status)
    → find m id ≡ some r
    → terminal r.status ≡ false
    → find m id ≡ some old
    → Keeps old (record r { status = status })
decided-Keeps m id r old status e pending e' =
    let same : r ≡ old = cc in
    rw⁻¹ same (record { status = λ t. cc; home = refl; read_time = refl; commit_time = refl })

decided-Retains :
    (m : IdMap Record) (id : List ℕ) (r : Record) (status : Status)
    → find m id ≡ some r
    → terminal r.status ≡ false
    → Retains m (put id (record r { status = status }) m)
decided-Retains m id r status e pending =
    put-Retains m id (record r { status = status })
      (λ old h. decided-Keeps m id r old status e pending h)

decide-Kept :
    (m : IdMap Record) (o : Operation) (status : Status) (found : Option Record)
    → find m o.id ≡ found
    → Kept m (decide found o status m)
decide-Kept m o status none e = tt
decide-Kept m o status (some r) e =
    ground (arith, Retains-refl m, decided-Retains m o.id r status e)

pub apply_decision-Kept :
    (o : Operation) (status : Status) (m : IdMap Record) → Kept m (apply_decision o status m)
unfolding apply_decision
apply_decision-Kept o status m = decide-Kept m o status (find m o.id) refl

taken-Keeps :
    (m : IdMap Record) (id : List ℕ) (r old : Record) (epoch : ℕ)
    → find m id ≡ some r
    → find m id ≡ some old
    → Keeps old (record r { epoch = epoch })
taken-Keeps m id r old epoch e e' =
    let same : r ≡ old = cc in
    rw⁻¹ same (record { status = λ t. refl; home = refl; read_time = refl; commit_time = refl })

take_over-Kept :
    (m : IdMap Record) (o : Operation) (found : Option Record)
    → find m o.id ≡ found
    → Kept m (take_over found o m)
take_over-Kept m o none e = tt
take_over-Kept m o (some r) e = ground (
  arith,
  Retains-refl m,
  put-Retains m o.id (record r { epoch = o.epoch }) (λ old h. taken-Keeps m o.id r old o.epoch e h),
)

pub apply_takeover-Kept : (o : Operation) (m : IdMap Record) → Kept m (apply_takeover o m)
unfolding apply_takeover
apply_takeover-Kept o m = take_over-Kept m o (find m o.id) refl
