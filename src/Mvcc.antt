-- ===== src/Mvcc.antt =====
-- internal/mvcc/timestamp.go: hybrid logical timestamps and the range's clock. A `Timestamp` is the
-- uint64 itself; the physical clock's reading (`now.UnixMilli()`, an int64) is an argument of `now`.
pub mod Order
pub mod Advance
pub mod Stream
mod Witness
use Prim.Native.Nat.{bit_or}
use rivet_db.Prelude.{
  ℕ, suc, ◌+◌, ◌-◌, ◌*◌, ◌/◌, ◌%◌, ◌^◌, Bool, true, List, [], ◌∷◌, ◌++◌, ltb, ◌==◌, if◌then◌else◌,
  Result, ok, err, not, length,
}
use rivet_db.Prelude.Int.{ℤ, pos, negsuc}
use rivet_db.Prelude.Bytes.{be_bytes, be_value}

pub data Error : Type 0 where
  invalid_timestamp exhausted : Error

abbrev pub logical_bits : ℕ
logical_bits = 16

abbrev pub max_logical : ℕ
max_logical = 2 ^ 16 - 1

abbrev pub max_physical : ℕ
max_physical = 2 ^ 48 - 1

-- `physical<<LogicalBits | uint64(logical)` in uint64 arithmetic
unfoldable pub new_timestamp : ℕ → ℕ → Result Error ℕ
new_timestamp physical logical =
    if ltb max_physical physical
    then err invalid_timestamp
    else ok (bit_or (physical * 65536 % 2 ^ 64) logical)

unfoldable pub physical_of : ℕ → ℕ
physical_of t = t / 65536

unfoldable pub logical_of : ℕ → ℕ
logical_of t = t % 65536

unfoldable pub encode : ℕ → List ℕ → List ℕ
encode t dst = dst ++ be_bytes 8 t

unfoldable pub decode : List ℕ → Result Error ℕ
decode encoded =
    if not (length encoded == 8) then err invalid_timestamp else ok (be_value 0 encoded)

-- The mutex is held for the whole of each method, so a method is one step on `last`.
pub record Clock : Type 0 where
  pub last : ℕ

unfoldable pub observe : ℕ → Clock → Clock
observe value c = if ltb c.last value then record { last = value } else c

-- What `Now` does once the reading is known to be in range.
advance : ℕ → Clock → Result Error ℕ × Clock
unfolding physical_of logical_of
advance physical c =
    if ltb (physical_of c.last) physical
    then (let shifted = physical * 65536 % 2 ^ 64 in
        let last' : ℕ = if shifted == 0 then 1 else shifted in (ok last', record { last = last' }))
    else if not (logical_of c.last == max_logical)
    then (let last' = (c.last + 1) % 2 ^ 64 in (ok last', record { last = last' }))
    else if physical_of c.last == max_physical
    then (err exhausted, c)
    else (let last' = (physical_of c.last + 1) * 65536 % 2 ^ 64 in
        (ok last', record { last = last' }))

-- `Clock.Now` at the reading `millis` of the physical clock
unfoldable pub now : ℤ → Clock → Result Error ℕ × Clock
unfolding advance
now (negsuc n) c = (err exhausted, c)
now (pos millis) c = if ltb max_physical millis then (err exhausted, c) else advance millis c

unfoldable pub next_after : ℕ → Result Error ℕ
next_after value = if value == 2 ^ 64 - 1 then err exhausted else ok ((value + 1) % 2 ^ 64)
