-- ===== src/Mvcc/Witness.antt =====
-- Runs of the clock, and the theorems at concrete inputs.
use rivet_db.Prelude.{ℕ, ◌+◌, ◌*◌, ◌≤◌, ◌<◌, ◌≡◌, refl, ◌↔◌, [], ◌∷◌, arith, ok, err}
use rivet_db.Prelude.Int.{pos, negsuc}
use rivet_db.Prelude.Bytes.{IsU64}
use rivet_db.Mvcc.{Clock, exhausted, new_timestamp, physical_of, logical_of, encode, decode, now}
use rivet_db.Mvcc.Order.{new_timestamp_parts, decode-encode}
use rivet_db.Mvcc.Advance.{Exhausted, now_grows, now_error}
use rivet_db.Mvcc.Stream.{IncreasingFrom, observed, read, issued, issued_increasing}

abbrev at : ℕ → Clock
at t = record { last = t }

-- A reading behind the floor counts the logical part up.
now_behind : (now (pos 4) (at (5 * 65536 + 7))).0 ≡ ok (5 * 65536 + 8)
unfolding now physical_of logical_of
now_behind = refl

-- A full logical part carries into the physical part.
now_carry : (now (pos 4) (at (5 * 65536 + 65535))).0 ≡ ok (6 * 65536)
unfolding now physical_of logical_of
now_carry = refl

new_timestamp_run : new_timestamp 5 7 ≡ ok 327687
unfolding new_timestamp
new_timestamp_run = refl

new_timestamp_parts_example : (physical_of 327687 ≡ 5) × (logical_of 327687 ≡ 7) × IsU64 327687
new_timestamp_parts_example = new_timestamp_parts 5 7 327687 (omega arith) new_timestamp_run

decode-encode_example : decode (encode 327687 []) ≡ ok 327687
decode-encode_example = decode-encode 327687 (omega arith)

now_grows_example :
    (5 * 65536 + 7 < 5 * 65536 + 8)
    × (4 ≤ physical_of (5 * 65536 + 8))
    × IsU64 (5 * 65536 + 8)
    × ((now (pos 4) (at (5 * 65536 + 7))).1.last ≡ 5 * 65536 + 8)
now_grows_example = now_grows 4 (5 * 65536 + 8) (at (5 * 65536 + 7)) (omega arith) now_behind

now_error_example :
    (((now (negsuc 0) (at 9)).0 ≡ err exhausted) ↔ Exhausted (negsuc 0) (at 9))
    × (Exhausted (negsuc 0) (at 9) → (now (negsuc 0) (at 9)).1 ≡ at 9)
now_error_example = now_error (negsuc 0) (at 9) (omega arith)

issued_increasing_example :
    IncreasingFrom 9 (issued (read (pos 1) ∷ observed 70000 ∷ read (pos 1) ∷ []) (at 9))
issued_increasing_example =
    issued_increasing (read (pos 1) ∷ observed 70000 ∷ read (pos 1) ∷ []) (at 9) (omega arith)
      (tt, (omega arith, (tt, tt)))
