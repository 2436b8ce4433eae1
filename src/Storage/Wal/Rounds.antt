-- ===== src/Storage/Wal/Rounds.antt =====
-- Next and recovery always come to an end, in the fuel that they are given.
use rivet_db.Prelude.{
  ℕ, zero, suc, ◌+◌, ◌-◌, ◌%◌, ◌^◌, ◌≤◌, ◌<◌, ◌≡◌, ◌≢◌, refl, Bool, true, false, Option, none, some,
  List, ◌||◌, if◌then◌else◌, length, arith,
}
use rivet_db.Storage.Wal.Reader.{
  Reader, LogRecord, again, stop, found, round, scan, scan_fuel, next, new_reader, is_error,
}
use rivet_db.Storage.Wal.Recovery.{
  Recovery, recover_from, recover, after_next, give_current, then_consumed,
}
use rivet_db.Storage.Wal.Progress.{Reached, Onward, Ended, round-Onward}

-- What a scan comes to.
abbrev pub Ends : List ℕ → ℕ → Option (Reader × Bool) → Type 0
Ends file offset o = (out : Reader × Bool) × (o ≡ some out) × Ended file offset out

further-Ended :
    (file : List ℕ) (offset offset' : ℕ) (out : Reader × Bool)
    → offset < offset'
    → Ended file offset' out
    → Ended file offset out
further-Ended file offset offset' (r, true) less h = record {
  further = omega (arith, h.further);
  inside = h.inside;
  valid_to = h.valid_to;
  current = h.current;
}
further-Ended file offset offset' (r, false) less h = tt

pub scan-Ends :
    (fuel : ℕ) (file : List ℕ) (r : Reader)
    → r.offset ≤ length file
    → length file - r.offset < fuel
    → Ends file r.offset (scan fuel file r)
unfolding scan
scan-Ends zero file r within enough = absurd (omega arith)
scan-Ends (suc fuel) file r within enough =
    elim (round file r)
        as (λ step.
          Onward file r.offset step
          → Ends file r.offset (elim step [
            | again r' ↦ scan fuel file r'
            | stop r' ↦ some (r', false)
            | found r' ↦ some (r', true)
          ])) [
            | again r' ↦ λ (further, inside).
                let (out, e, ended) = scan-Ends fuel file r' inside (omega arith) in
                (out, e, further-Ended file r.offset r'.offset out further ended)
            | stop r' ↦ λ h. ((r', false), refl, tt)
            | found r' ↦ λ h. ((r', true), refl, h)
          ]
      (round-Onward file r within)

-- Next returns whatever the file holds, in the fuel that it is given; where it returns true there is
-- a current record, the offset has moved on within the file, and the valid part ends there.
pub next-Ends :
    (file : List ℕ) (r : Reader) → r.offset ≤ length file → Ends file r.offset (next file r)
unfolding next
next-Ends file r within =
    elim (r.done || is_error r.error || r.closed)
      as (λ b. Ends file r.offset (if b then some (r, false) else scan (scan_fuel file r) file r)) [
        | true ↦ ((r, false), refl, tt)
        | false ↦ scan-Ends (scan_fuel file r) file r within (omega arith)
      ]

then_consumed_total :
    (l : LogRecord) (rest : Option Recovery) → rest ≢ none → then_consumed l rest ≢ none
then_consumed_total l none h = h
then_consumed_total l (some recovery) h = λ e. cc

chosen_total :
    (b : Bool) (x y : Option Recovery) → x ≢ none → y ≢ none → (if b then x else y) ≢ none
chosen_total true x y hx hy = hx
chosen_total false x y hx hy = hy

give_total :
    (consume : LogRecord → Bool) (file : List ℕ) (n : ℕ) (r : Reader) (c : Option LogRecord)
    (rest : Option Recovery)
    → c ≢ none
    → rest ≢ none
    → give_current consume file n r c rest ≢ none
give_total consume file n r none rest has h = absurd (has refl)
give_total consume file n r (some l) rest has h =
    chosen_total (consume l) _ _ (then_consumed_total l rest h) (λ e. cc)

after_next_total :
    (consume : LogRecord → Bool) (file : List ℕ) (n offset : ℕ) (rest : Reader → Option Recovery)
    (out : Reader × Bool)
    → Ended file offset out
    → ((r : Reader) → Reached file offset r → rest r ≢ none)
    → after_next consume file n rest (some out) ≢ none
after_next_total consume file n offset rest (r, false) ended more = λ e. cc
after_next_total consume file n offset rest (r, true) ended more =
    give_total consume file n r r.current (rest r) ended.current (more r ended)

recover_from_total :
    (fuel : ℕ) (consume : LogRecord → Bool) (file : List ℕ) (n : ℕ) (r : Reader)
    → r.offset ≤ length file
    → length file - r.offset < fuel
    → recover_from fuel consume file n r ≢ none
unfolding recover_from
recover_from_total zero consume file n r within enough = absurd (omega arith)
recover_from_total (suc fuel) consume file n r within enough =
    let (out, e, ended) = next-Ends file r within in
    rw e (
      after_next_total consume file n r.offset _ out ended (λ r' reached.
        recover_from_total fuel consume file ((n + 1) % 2 ^ 64) r' reached.inside
          (omega (arith, reached.further, reached.inside))))

-- Recovery ends on any bytes whatever, and whatever the callback answers: the loop over Next does not
-- outrun its fuel, and Next has set a record where it returned true.
pub recover_total : (consume : LogRecord → Bool) (file : List ℕ) → recover consume file ≢ none
unfolding recover
recover_total consume file =
    recover_from_total (suc (length file)) consume file 0 new_reader (omega arith) (omega arith)
