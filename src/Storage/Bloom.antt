-- ===== src/Storage/Bloom.antt =====
-- internal/storage/sstable/bloom.go: the Bloom filter of a table. A byte is a number below 256, and
-- `b & (1 << p)` is the bit p of b.
pub mod Complete
pub mod Marks
mod Witness
use Prim.Native.Nat.{bit_or, bit_xor}
use rivet_db.Prelude.{
  ℕ, zero, suc, ◌+◌, ◌*◌, ◌-◌, ◌/◌, ◌%◌, ◌^◌, Bool, true, false, List, [], ◌∷◌, ◌++◌, ◌&&◌, ◌||◌,
  not, ltb, ◌==◌, if◌then◌else◌, length, take, drop, Result, ok, err,
}
use rivet_db.Prelude.Bytes.{le_bytes, le_value}

pub data Error : Type 0 where
  resource_limit corrupt_table : Error

abbrev pub bloom_seed : ℕ
bloom_seed = 11400714819323198485

abbrev pub bloom_probes : ℕ
bloom_probes = 7

abbrev pub bloom_bits_per_key : ℕ
bloom_bits_per_key = 10

abbrev pub bloom_header_size : ℕ
bloom_header_size = 16

abbrev pub max_bloom_bytes : ℕ
max_bloom_bytes = 256 * 2 ^ 20

pub record BloomHash : Type 0 where
  pub first : ℕ
  pub delta : ℕ

unfoldable pub mix_bloom : ℕ → ℕ
mix_bloom value =
    let a = bit_xor value (value / 2 ^ 30) * 13787848793156543929 % 2 ^ 64 in
    let b = bit_xor a (a / 2 ^ 27) * 10723151780598845931 % 2 ^ 64 in bit_xor b (b / 2 ^ 31)

unfoldable pub fold_octets : ℕ → List ℕ → ℕ
fold_octets value [] = value
fold_octets value (octet ∷ key) = fold_octets (bit_xor value octet * 1099511628211 % 2 ^ 64) key

unfoldable pub hash_bloom_key : List ℕ → BloomHash
unfolding mix_bloom fold_octets
hash_bloom_key key =
    let value = fold_octets (bit_xor 14695981039346656037 bloom_seed) key in
    record { first = value; delta = bit_or (mix_bloom ((value + bloom_seed) % 2 ^ 64)) 1 }

-- The bit p of a number.
abbrev pub bit : ℕ → ℕ → ℕ
bit zero n = n % 2
bit (suc p) n = bit p (n / 2)

-- `bits[i]`, and `bits[i] |= mask`. Both are called with an index in range only.
abbrev pub byte_at : ℕ → List ℕ → ℕ
byte_at i [] = 0
byte_at zero (b ∷ bs) = b
byte_at (suc i) (b ∷ bs) = byte_at i bs

abbrev pub or_at : ℕ → ℕ → List ℕ → List ℕ
or_at i mask [] = []
or_at zero mask (b ∷ bs) = bit_or b mask ∷ bs
or_at (suc i) mask (b ∷ bs) = b ∷ or_at i mask bs

-- The position of a probe among a number of bits.
unfoldable pub position : BloomHash → ℕ → ℕ → ℕ
position hash probe bits = (hash.first + probe * hash.delta % 2 ^ 64) % 2 ^ 64 % bits

abbrev pub set_position : ℕ → List ℕ → List ℕ
set_position n bits = or_at (n / 8) (2 ^ (n % 8)) bits

abbrev pub bit_at : ℕ → List ℕ → ℕ
bit_at n bits = bit (n % 8) (byte_at (n / 8) bits)

-- The loops over the probes from `probe` on, `left` of them.
abbrev pub add_probes : (left probe : ℕ) → BloomHash → List ℕ → List ℕ
add_probes zero probe hash bits = bits
add_probes (suc left) probe hash bits =
    add_probes left (probe + 1) hash (set_position (position hash probe (length bits * 8)) bits)

abbrev pub check_probes : (left probe : ℕ) → BloomHash → List ℕ → Bool
check_probes zero probe hash bits = true
check_probes (suc left) probe hash bits =
    let rest = check_probes left (probe + 1) hash bits in
    if bit_at (position hash probe (length bits * 8)) bits == 0 then false else rest

abbrev pub add : BloomHash → List ℕ → List ℕ
add hash bits = add_probes bloom_probes 0 hash bits

unfoldable pub may_contain : List ℕ → List ℕ → Bool
may_contain bits key =
    if length bits == 0 then true else check_probes bloom_probes 0 (hash_bloom_key key) bits

abbrev pub add_all : List BloomHash → List ℕ → List ℕ
add_all [] bits = bits
add_all (hash ∷ hashes) bits = add_all hashes (add hash bits)

abbrev pub zeros : ℕ → List ℕ
zeros zero = []
zeros (suc n) = 0 ∷ zeros n

-- `(max(10 n, 64) + 7) &^ 7`
unfoldable pub bit_count : ℕ → ℕ
bit_count n =
    let bits = if ltb (n * bloom_bits_per_key) 64 then 64 else n * bloom_bits_per_key in
    (bits + 7) / 8 * 8

abbrev pub bloom_header : ℕ → List ℕ
bloom_header bits = 1 ∷ bloom_probes ∷ 0 ∷ 0 ∷ le_bytes 4 bits ++ le_bytes 8 bloom_seed

unfoldable pub encode_bloom : List BloomHash → Result Error (List ℕ)
encode_bloom hashes =
    let bits = bit_count (length hashes) in
    if ltb ((2 ^ 32 - 1) / bloom_bits_per_key) (length hashes)
    then err resource_limit
    else if ltb max_bloom_bytes (bits / 8) || ltb (2 ^ 32 - 1) bits
    then err resource_limit
    else ok (bloom_header bits ++ add_all hashes (zeros (bits / 8)))

abbrev pub sized : ℕ → List ℕ → Result Error (List ℕ)
sized bits body =
    if ltb bits 64
      || not (bits % 8 == 0)
      || ltb max_bloom_bytes (bits / 8)
      || not (length body == bits / 8)
    then err corrupt_table
    else ok body

unfoldable pub decode_bloom : List ℕ → Result Error (List ℕ)
decode_bloom payload =
    if ltb (length payload) bloom_header_size
      || not (byte_at 0 payload == 1)
      || not (byte_at 1 payload == bloom_probes)
      || not (byte_at 2 payload == 0)
      || not (byte_at 3 payload == 0)
      || not (le_value (take 8 (drop 8 payload)) == bloom_seed)
    then err corrupt_table
    else sized (le_value (take 4 (drop 4 payload))) (drop bloom_header_size payload)
