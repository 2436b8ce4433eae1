-- ===== src/Storage/Bloom/Complete.antt =====
-- The filter has no false negatives, through its encoding.
use rivet_db.Prelude.{
  ℕ, zero, suc, ◌+◌, ◌/◌, ◌%◌, ◌^◌, ◌≤◌, ◌<◌, ◌≡◌, refl, subst, ap, sym, ◌∙◌, Bool, true, false,
  List, [], ◌∷◌, ◌++◌, ◌==◌, ◌||◌, ltb, if◌then◌else◌, length, drop, arith, ok, err, cut_at,
  length-append,
}
use mathlib.Core.List.{append_assoc}
use rivet_db.Prelude.Bytes.{le_bytes, length-le_bytes, le_value-le_bytes}
use rivet_db.Storage.Bloom.{
  BloomHash, add, add_all, bloom_probes, bloom_seed, bloom_header, bloom_header_size,
  max_bloom_bytes, may_contain, hash_bloom_key, zeros, bit_count, encode_bloom, decode_bloom, sized,
  resource_limit,
}
use rivet_db.Storage.Bloom.Marks.{
  Marked, Marked-add_probes, add_probes-Marked, Marked-check, length-add_probes,
}

length-add_all :
    (hashes : List BloomHash) (bits : List ℕ) → length (add_all hashes bits) ≡ length bits
length-add_all [] bits = refl
length-add_all (hash ∷ hashes) bits =
    length-add_all hashes (add hash bits) ∙ length-add_probes 7 0 hash bits

length-zeros : (n : ℕ) → length (zeros n) ≡ n
length-zeros zero = refl
length-zeros (suc n) = ap suc (length-zeros n)

Marked-add_all :
    (hashes : List BloomHash) (size : ℕ) (hash : BloomHash) (bits : List ℕ)
    → Marked bloom_probes 0 size hash bits
    → Marked bloom_probes 0 size hash (add_all hashes bits)
Marked-add_all [] size hash bits h = h
Marked-add_all (other ∷ hashes) size hash bits h =
    Marked-add_all hashes size hash (add other bits)
      (Marked-add_probes bloom_probes 0 size hash bloom_probes 0 other bits h)

add_all-Marked :
    (before : List BloomHash) (hash : BloomHash) (after : List BloomHash) (bits : List ℕ)
    → 0 < length bits
    → Marked bloom_probes 0 (length bits) hash (add_all (before ++ hash ∷ after) bits)
add_all-Marked [] hash after bits h =
    Marked-add_all after (length bits) hash (add hash bits)
      (add_probes-Marked bloom_probes 0 (length bits) hash bits h refl)
add_all-Marked (other ∷ before) hash after bits h =
    let same = length-add_probes bloom_probes 0 other bits in
    subst (λ n. Marked bloom_probes 0 n hash (add_all (before ++ hash ∷ after) (add other bits)))
      same (add_all-Marked before hash after (add other bits) (omega (arith, same)))

may_contain-added :
    (before : List BloomHash) (key : List ℕ) (after : List BloomHash) (bits : List ℕ)
    → 0 < length bits
    → may_contain (add_all (before ++ hash_bloom_key key ∷ after) bits) key ≡ true
unfolding may_contain
may_contain-added before key after bits h =
    let hash = hash_bloom_key key in
    let all_added = add_all (before ++ hash ∷ after) bits in
    let same = length-add_all (before ++ hash ∷ after) bits in
    let some_of : (length all_added == 0) ≡ false = ground (arith, same) in
    rw some_of (
      Marked-check bloom_probes 0 hash all_added (
        subst (λ n. Marked bloom_probes 0 n hash all_added) (sym same)
          (add_all-Marked before hash after bits h)))

bit_count_facts : (n : ℕ) → (64 ≤ bit_count n) × (bit_count n % 8 ≡ 0)
unfolding bit_count
bit_count_facts n = (ground arith, ground arith)

decode_bloom-bloom_header :
    (bits : ℕ) (body : List ℕ)
    → bits < 2 ^ 32
    → decode_bloom (bloom_header bits ++ body) ≡ sized bits body
unfolding decode_bloom
decode_bloom-bloom_header bits body h =
    let count = le_bytes 4 bits in
    let seed = le_bytes 8 bloom_seed in
    let l4 = length-le_bytes 4 bits in
    let l8 = length-le_bytes 8 bloom_seed in
    let parts : (count ++ seed) ++ body ≡ count ++ (seed ++ body) = append_assoc count seed body in
    let l12 : length (count ++ seed) ≡ 12 = omega (arith, length-append count seed) in
    let (t4, d4) = cut_at 4 count (seed ++ body) l4 in
    let (t8, d8) = cut_at 8 seed body l8 in
    let d12 : drop 12 (count ++ (seed ++ body)) ≡ body =
      subst (λ bytes. drop 12 bytes ≡ body) parts (cut_at 12 (count ++ seed) body l12).1 in
    let total : length ((count ++ seed) ++ body) ≡ 12 + length body =
      omega (arith, length-append (count ++ seed) body, l12) in
    let long : ltb (length (bloom_header bits ++ body)) bloom_header_size ≡ false =
      ground (arith, total) in
    rw
      (
        long,
        parts,
        d4,
        t8,
        t4,
        d12,
        le_value-le_bytes 4 bits h,
        le_value-le_bytes 8 bloom_seed (omega arith),
      )
      refl

sized_body :
    (bits : ℕ) (body : List ℕ)
    → 64 ≤ bits
    → bits % 8 ≡ 0
    → ltb max_bloom_bytes (bits / 8) ≡ false
    → length body ≡ bits / 8
    → sized bits body ≡ ok body
sized_body bits body a b c d = ground arith

accepted_hashes :
    (a b c : Bool) (out payload : List ℕ)
    → (if a then err resource_limit else if b || c then err resource_limit else ok out) ≡ ok payload
    → (b ≡ false) × (c ≡ false) × (out ≡ payload)
accepted_hashes true b c out payload h = ground arith
accepted_hashes false true c out payload h = ground arith
accepted_hashes false false true out payload h = ground arith
accepted_hashes false false false out payload h = (refl, refl, ground arith)

-- From the bytes that encodeBloom makes of a list of hashes, decodeBloom gets a filter whose
-- mayContain is true of every key that has its hash in the list.
pub no_false_negative :
    (before : List BloomHash) (key : List ℕ) (after : List BloomHash) (payload : List ℕ)
    → encode_bloom (before ++ hash_bloom_key key ∷ after) ≡ ok payload
    → (bits : List ℕ) × (decode_bloom payload ≡ ok bits) × (may_contain bits key ≡ true)
unfolding encode_bloom
no_false_negative before key after payload e =
    let hashes = before ++ hash_bloom_key key ∷ after in
    let (small, fits, out) =
      accepted_hashes _ (ltb max_bloom_bytes (bit_count (length hashes) / 8)) _ _ payload e in
    let count = bit_count (length hashes) in
    let empty = zeros (count / 8) in
    let (low, whole) = bit_count_facts (length hashes) in
    let size = length-zeros (count / 8) in
    let filter = add_all hashes empty in
    (
      filter,
      subst (λ p. decode_bloom p ≡ ok filter) out
          (decode_bloom-bloom_header count filter (ground arith)
            ∙ sized_body count filter low whole small (length-add_all hashes empty ∙ size)),
      may_contain-added before key after empty (omega (arith, size)),
    )
