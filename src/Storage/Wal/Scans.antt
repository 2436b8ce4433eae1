-- ===== src/Storage/Wal/Scans.antt =====
-- Scans and Next, from what the rounds come to.
use rivet_db.Prelude.{
  ℕ, zero, suc, ◌-◌, ◌≤◌, ◌≡◌, refl, ap, ◌∙◌, sym, Bool, true, false, some, List, ◌||◌, ◌==◌,
  length, arith, ==_iff,
}
use rivet_db.Storage.Wal.Steps.{Finds, found_now, found_later}
use rivet_db.Storage.Wal.Accept.{Going}
use rivet_db.Storage.Wal.Reader.{Reader, again, found, stop, is_error, round, scan, scan_fuel, next}
use rivet_db.Storage.Wal.Torn.{Stops, stop_now, stop_later}
use rivet_db.Storage.Wal.Rounds.{scan-Ends}

pub scan_found :
    (fuel : ℕ) (file : List ℕ) (r r' : Reader)
    → round file r ≡ found r'
    → scan (suc fuel) file r ≡ some (r', true)
unfolding scan
scan_found fuel file r r' e = rw (e, scan) refl

pub scan_again :
    (fuel : ℕ) (file : List ℕ) (r r1 : Reader)
    → round file r ≡ again r1
    → scan (suc fuel) file r ≡ scan fuel file r1
unfolding scan
scan_again fuel file r r1 e = rw (e, scan) refl

pub scan_nothing :
    (file : List ℕ) (r : Reader) (out : Reader × Bool) → scan zero file r ≡ some out → ⊥
unfolding scan
scan_nothing file r out h = cc

-- Where rounds end with a record, so does any scan that has the fuel.
pub Finds-scan :
    (fuel : ℕ) (file : List ℕ) (r r' : Reader) (out : Reader × Bool)
    → Finds file r r'
    → scan fuel file r ≡ some out
    → out ≡ (r', true)
Finds-scan zero file r r' out finds h = absurd (scan_nothing file r out h)
Finds-scan (suc fuel) file r r' out (found_now e) h =
    let found_it = scan_found fuel file r r' e in cc
Finds-scan (suc fuel) file r r' out (found_later {r1 = r1} e more) h =
    Finds-scan fuel file r1 r' out more (sym (scan_again fuel file r r1 e) ∙ h)

pub Going-idle : (r : Reader) → Going r → (r.done || is_error r.error || r.closed) ≡ false
Going-idle r going = rw (going.done, going.error, going.closed) refl

pub Finds-next :
    (file : List ℕ) (r r' : Reader)
    → Going r
    → r.offset ≤ length file
    → Finds file r r'
    → next file r ≡ some (r', true)
unfolding next
Finds-next file r r' going within finds =
    let (out, e, _) = scan-Ends (scan_fuel file r) file r within (omega arith) in
    let found_it = e ∙ ap some (Finds-scan (scan_fuel file r) file r r' out finds e) in
    rw (Going-idle r going) found_it

pub round_at_end :
    (file : List ℕ) (r : Reader)
    → r.assembling ≡ false
    → r.offset ≡ length file
    → round file r ≡ stop (record r { done = true })
unfolding round
round_at_end file r assembling e =
    let ended : (r.offset == length file) ≡ true = (==_iff r.offset (length file)).1 e in
    simp (ended, assembling) refl

pub scan-stop :
    (fuel : ℕ) (file : List ℕ) (r r' : Reader)
    → round file r ≡ stop r'
    → scan (suc fuel) file r ≡ some (r', false)
unfolding scan
scan-stop fuel file r r' e = rw (e, scan) refl

pub at_end_next :
    (file : List ℕ) (r : Reader)
    → Going r
    → r.assembling ≡ false
    → r.offset ≡ length file
    → next file r ≡ some (record r { done = true }, false)
unfolding next
at_end_next file r going assembling e = rw (Going-idle r going) (
    scan-stop (length file - r.offset) file r (record r { done = true })
      (round_at_end file r assembling e))

pub Stops-scan :
    (fuel : ℕ) (file : List ℕ) (r r' : Reader) (out : Reader × Bool)
    → Stops file r r'
    → scan fuel file r ≡ some out
    → out ≡ (r', false)
Stops-scan zero file r r' out stops h = absurd (scan_nothing file r out h)
Stops-scan (suc fuel) file r r' out (stop_now e) h = let stopped = scan-stop fuel file r r' e in cc
Stops-scan (suc fuel) file r r' out (stop_later {r1 = r1} e more) h =
    Stops-scan fuel file r1 r' out more (sym (scan_again fuel file r r1 e) ∙ h)

pub Stops-next :
    (file : List ℕ) (r r' : Reader)
    → Going r
    → r.offset ≤ length file
    → Stops file r r'
    → next file r ≡ some (r', false)
unfolding next
Stops-next file r r' going within stops =
    let (out, e, _) = scan-Ends (scan_fuel file r) file r within (omega arith) in
    let stopped = e ∙ ap some (Stops-scan (scan_fuel file r) file r r' out stops e) in
    rw (Going-idle r going) stopped
