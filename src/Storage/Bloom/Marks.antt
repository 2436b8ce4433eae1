-- ===== src/Storage/Bloom/Marks.antt =====
-- The bits that `add` sets stay set, and `mayContain` finds them.
use Prim.Native.Nat.{bit_or, max}
use rivet_db.Prelude.{
  ℕ, zero, suc, ◌+◌, ◌*◌, ◌/◌, ◌%◌, ◌^◌, ◌≤◌, ◌<◌, ◌≡◌, refl, ap, ◌∙◌, true, List, [], ◌∷◌, length,
  arith,
}
use native.Mathlib.Nat.{pow-suc}
use rivet_db.Prelude.Bits.{bit_or_step}
use rivet_db.Storage.Bloom.{
  BloomHash, bit, byte_at, or_at, position, set_position, bit_at, add_probes, check_probes,
}

bit-bit_or : (p a b : ℕ) → bit p (bit_or a b) ≡ max (bit p a) (bit p b)
bit-bit_or zero a b = omega (arith, bit_or_step a b)
bit-bit_or (suc p) a b =
    let half : bit_or a b / 2 ≡ bit_or (a / 2) (b / 2) = omega (arith, bit_or_step a b) in
    rw half (bit-bit_or p (a / 2) (b / 2))

bit_power : (p : ℕ) → bit p (2 ^ p) ≡ 1
bit_power zero = refl
bit_power (suc p) =
    let half : 2 ^ suc p / 2 ≡ 2 ^ p = omega (arith, pow-suc 2 p) in rw half (bit_power p)

bit_small : (p n : ℕ) → bit p n ≤ 1
bit_small zero n = omega arith
bit_small (suc p) n = bit_small p (n / 2)

length-or_at : (i mask : ℕ) (bs : List ℕ) → length (or_at i mask bs) ≡ length bs
length-or_at i mask [] = refl
length-or_at zero mask (b ∷ bs) = refl
length-or_at (suc i) mask (b ∷ bs) = ap suc (length-or_at i mask bs)

or_at_keeps :
    (p i j mask : ℕ) (bs : List ℕ)
    → bit p (byte_at i bs) ≡ 1
    → bit p (byte_at i (or_at j mask bs)) ≡ 1
or_at_keeps p i j mask [] h = h
or_at_keeps p zero zero mask (b ∷ bs) h = omega (arith, bit-bit_or p b mask, bit_small p mask)
or_at_keeps p zero (suc j) mask (b ∷ bs) h = h
or_at_keeps p (suc i) zero mask (b ∷ bs) h = h
or_at_keeps p (suc i) (suc j) mask (b ∷ bs) h = or_at_keeps p i j mask bs h

or_at_sets : (p i : ℕ) (bs : List ℕ) → i < length bs → bit p (byte_at i (or_at i (2 ^ p) bs)) ≡ 1
or_at_sets p i [] h = absurd (omega arith)
or_at_sets p zero (b ∷ bs) h = omega (arith, bit-bit_or p b (2 ^ p), bit_small p b, bit_power p)
or_at_sets p (suc i) (b ∷ bs) h = or_at_sets p i bs (omega arith)

pub length-add_probes :
    (left probe : ℕ) (hash : BloomHash) (bits : List ℕ)
    → length (add_probes left probe hash bits) ≡ length bits
length-add_probes zero probe hash bits = refl
length-add_probes (suc left) probe hash bits =
    length-add_probes left (probe + 1) hash _ ∙ length-or_at _ _ bits

add_probes_keeps :
    (left probe n : ℕ) (hash : BloomHash) (bits : List ℕ)
    → bit_at n bits ≡ 1
    → bit_at n (add_probes left probe hash bits) ≡ 1
add_probes_keeps zero probe n hash bits h = h
add_probes_keeps (suc left) probe n hash bits h =
    let q = position hash probe (length bits * 8) in
    add_probes_keeps left (probe + 1) n hash (set_position q bits)
      (or_at_keeps (n % 8) (n / 8) (q / 8) (2 ^ (q % 8)) bits h)

-- The probes of a hash from `probe` on find their bits set, among `size` bytes.
abbrev pub Marked : (left probe size : ℕ) → BloomHash → List ℕ → Type 0
Marked zero probe size hash bits = Unit {0}
Marked (suc left) probe size hash bits =
    (bit_at (position hash probe (size * 8)) bits ≡ 1) × Marked left (probe + 1) size hash bits

pub Marked-add_probes :
    (left probe size : ℕ) (hash : BloomHash) (n from : ℕ) (other : BloomHash) (bits : List ℕ)
    → Marked left probe size hash bits
    → Marked left probe size hash (add_probes n from other bits)
Marked-add_probes zero probe size hash n from other bits h = tt
Marked-add_probes (suc left) probe size hash n from other bits (h, hs) = (
  add_probes_keeps n from (position hash probe (size * 8)) other bits h,
  Marked-add_probes left (probe + 1) size hash n from other bits hs,
)

position_bound :
    (hash : BloomHash) (probe size : ℕ) → 0 < size → position hash probe (size * 8) / 8 < size
unfolding position
position_bound hash probe size h = omega arith

pub add_probes-Marked :
    (left probe size : ℕ) (hash : BloomHash) (bits : List ℕ)
    → 0 < size
    → length bits ≡ size
    → Marked left probe size hash (add_probes left probe hash bits)
add_probes-Marked zero probe size hash bits h e = tt
add_probes-Marked (suc left) probe size hash bits h e = rw e (
    let q = position hash probe (size * 8) in
    let next = set_position q bits in
    (
      add_probes_keeps left (probe + 1) q hash next
          (or_at_sets (q % 8) (q / 8) bits (omega (arith, position_bound hash probe size h))),
      add_probes-Marked left (probe + 1) size hash next h (length-or_at _ _ bits ∙ e),
    ))

pub Marked-check :
    (left probe : ℕ) (hash : BloomHash) (bits : List ℕ)
    → Marked left probe (length bits) hash bits
    → check_probes left probe hash bits ≡ true
Marked-check zero probe hash bits h = refl
Marked-check (suc left) probe hash bits (h, hs) =
    rw (h, Marked-check left (probe + 1) hash bits hs) refl
