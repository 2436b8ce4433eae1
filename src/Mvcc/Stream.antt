-- ===== src/Mvcc/Stream.antt =====
-- Any interleaving of `Observe` and `Now` on one clock.
use rivet_db.Prelude.{
  ℕ, ◌≤◌, ◌<◌, List, [], ◌∷◌, arith, ok, err, Result, All, Result-cases, subst, inl, inr,
}
use rivet_db.Prelude.Int.{ℤ, pos, negsuc}
use rivet_db.Prelude.Bytes.{IsU64}
use rivet_db.Mvcc.{Clock, Error, observe, now}
use rivet_db.Mvcc.Advance.{now_grows, now_floor, observe_lem}

pub data Event : Type 0 where
  observed : ℕ → Event
  read : ℤ → Event

abbrev pub InRange : Event → Type 0
InRange (observed v) = IsU64 v
InRange (read r) = Unit

abbrev pub emit : Result Error ℕ → List ℕ → List ℕ
emit (ok t) ts = t ∷ ts
emit (err e) ts = ts

-- The timestamps that the calls hand out, in order.
unfoldable pub issued : List Event → Clock → List ℕ
issued [] c = []
issued (observed v ∷ es) c = issued es (observe v c)
issued (read r ∷ es) c = emit (now r c).0 (issued es (now r c).1)

abbrev pub IncreasingFrom : ℕ → List ℕ → Type 0
IncreasingFrom floor [] = Unit
IncreasingFrom floor (t ∷ ts) = (floor < t) × IncreasingFrom t ts

IncreasingFrom-lower : (f g : ℕ) (ts : List ℕ) → f ≤ g → IncreasingFrom g ts → IncreasingFrom f ts
IncreasingFrom-lower f g [] h k = tt
IncreasingFrom-lower f g (t ∷ ts) h k = (omega arith, k.1)

now-emit :
    (r : ℤ) (c : Clock) (ts : List ℕ)
    → IsU64 c.last
    → IncreasingFrom (now r c).1.last ts
    → IncreasingFrom c.last (emit (now r c).0 ts)
now-emit (negsuc n) c ts u h = unfold now in h
now-emit (pos m) c ts u h = elim (Result-cases (now (pos m) c).0) [
  | inl (t, e) ↦
      let (above, _, _, floor) = now_grows m t c u e in
      rw e (above, subst (λ f. IncreasingFrom f ts) floor h)
  | inr (x, e) ↦ rw e (IncreasingFrom-lower c.last _ ts (now_floor (pos m) c u).0 h)
]

-- However `Observe` and `Now` calls interleave, the timestamps that the clock issues are strictly
-- increasing, and all lie above its initial floor.
pub issued_increasing :
    (es : List Event) (c : Clock)
    → IsU64 c.last
    → All InRange es
    → IncreasingFrom c.last (issued es c)
unfolding issued
issued_increasing [] c u h = tt
issued_increasing (observed v ∷ es) c u (hv, hs) =
    let (up, u') = observe_lem v c u hv in
    IncreasingFrom-lower c.last _ _ up (issued_increasing es (observe v c) u' hs)
issued_increasing (read r ∷ es) c u (_, hs) =
    now-emit r c _ u (issued_increasing es (now r c).1 (now_floor r c u).1 hs)
