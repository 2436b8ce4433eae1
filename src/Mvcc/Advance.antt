-- ===== src/Mvcc/Advance.antt =====
-- One call of the clock: what `Now` and `Observe` do to the floor.
use rivet_db.Prelude.{ℕ, ◌^◌, ◌-◌, ◌≤◌, ◌<◌, ◌≡◌, refl, ◌⊎◌, ◌↔◌, arith, ok, err}
use rivet_db.Prelude.Int.{ℤ, pos, negsuc}
use rivet_db.Prelude.Bytes.{IsU64}
use rivet_db.Mvcc.{Clock, exhausted, observe, advance, now, physical_of, logical_of, max_physical}

advance_grows :
    (m t : ℕ) (c : Clock)
    → IsU64 c.last
    → m ≤ max_physical
    → (advance m c).0 ≡ ok t
    → (c.last < t) × (m ≤ physical_of t) × IsU64 t × ((advance m c).1.last ≡ t)
unfolding advance physical_of logical_of
advance_grows m t c u hm h = ground arith

-- A successful `Now` returns a uint64 strictly above the old floor and not behind the physical
-- reading, and the new floor is what it returned.
pub now_grows :
    (m t : ℕ) (c : Clock)
    → IsU64 c.last
    → (now (pos m) c).0 ≡ ok t
    → (c.last < t) × (m ≤ physical_of t) × IsU64 t × ((now (pos m) c).1.last ≡ t)
unfolding now
now_grows m t c u h = ground (arith, advance_grows m t c)

-- A reading or a floor from which no next timestamp exists.
abbrev pub Exhausted : ℤ → Clock → Type 0
Exhausted (negsuc n) c = Unit
Exhausted (pos m) c = (max_physical < m) ⊎ (c.last ≡ 2 ^ 64 - 1)

-- `Now` fails exactly for a reading before the epoch, a reading above 48 bits, or a floor at the
-- largest uint64; the floor is then unchanged.
pub now_error :
    (r : ℤ) (c : Clock)
    → IsU64 c.last
    → (((now r c).0 ≡ err exhausted) ↔ Exhausted r c) × (Exhausted r c → (now r c).1 ≡ c)
unfolding now advance physical_of logical_of
now_error (negsuc n) c u = ((λ _. tt, λ _. refl), λ _. refl)
now_error (pos k) c u = ((λ h. ground arith, λ h. ground arith), λ h. ground arith)

pub observe_lem :
    (v : ℕ) (c : Clock)
    → IsU64 c.last
    → IsU64 v
    → (c.last ≤ (observe v c).last) × IsU64 (observe v c).last
unfolding observe
observe_lem v c u h = ground arith

-- Whatever the reading, `Now` never lowers the floor.
pub now_floor :
    (r : ℤ) (c : Clock) → IsU64 c.last → (c.last ≤ (now r c).1.last) × IsU64 (now r c).1.last
unfolding now advance physical_of logical_of
now_floor (negsuc n) c u = (omega arith, u)
now_floor (pos k) c u = ground arith
