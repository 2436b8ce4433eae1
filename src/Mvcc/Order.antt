-- ===== src/Mvcc/Order.antt =====
-- Packing and unpacking of a timestamp, its order, and its encoding.
use Prim.Native.Nat.{bit_or}
use rivet_db.Prelude.{ℕ, ◌+◌, ◌*◌, ◌%◌, ◌^◌, ◌≤◌, ◌<◌, ◌≡◌, ap, ◌∙◌, ◌⊎◌, ◌↔◌, [], arith, ok}
use rivet_db.Prelude.Bits.{bit_or_shift}
use rivet_db.Prelude.Bytes.{IsU64, be_value-be_bytes, length-be_bytes}
use rivet_db.Mvcc.{new_timestamp, physical_of, logical_of, max_physical, encode, decode}

pack : (p l : ℕ) → p ≤ max_physical → l < 65536 → bit_or (p * 65536 % 2 ^ 64) l ≡ p * 65536 + l
pack p l hp hl = ap (λ t. bit_or t l) (omega arith) ∙ bit_or_shift p l hl

-- A timestamp built from an in-range physical part and a uint16 logical part has exactly these
-- two parts, and is a uint64.
pub new_timestamp_parts :
    (p l t : ℕ)
    → l < 65536
    → new_timestamp p l ≡ ok t
    → (physical_of t ≡ p) × (logical_of t ≡ l) × IsU64 t
unfolding new_timestamp physical_of logical_of
new_timestamp_parts p l t hl h = ground (arith, pack p l)

-- Unsigned order on timestamps is the lexicographic order of (physical, logical).
pub lt_lexicographic :
    (s t : ℕ)
    → (s < t) ↔ (
        (physical_of s < physical_of t)
        ⊎ ((physical_of s ≡ physical_of t) × (logical_of s < logical_of t)))
unfolding physical_of logical_of
lt_lexicographic s t = (λ h. omega arith, λ h. omega arith)

-- What `Encode` appends to an empty buffer, `DecodeTimestamp` reads back.
pub decode-encode : (t : ℕ) → IsU64 t → decode (encode t []) ≡ ok t
unfolding encode decode
decode-encode t h = ground (arith, length-be_bytes 8 t, be_value-be_bytes 8 t (omega arith))
