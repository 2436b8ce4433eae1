-- ===== src/Storage/Key/Codec.antt =====
-- Encoding and decoding of internal keys.
use rivet_db.Prelude.{
  ℕ, ◌+◌, ◌-◌, ◌≤◌, ◌≡◌, refl, ap, ◌∙◌, sym, List, [], ◌∷◌, ◌++◌, arith, ok, length, take, drop,
  length-append, take-append, drop-append,
}
use mathlib.Core.List.{append_assoc}
use rivet_db.Prelude.Bytes.{IsU64, be_bytes, be_value, length-be_bytes, be_value-be_bytes}
use rivet_db.Storage.Key.{InternalKey, kind_intent, complement, last_byte, encode, decode}

last_byte_snoc : (xs : List ℕ) (b : ℕ) → last_byte (xs ++ b ∷ []) ≡ b
last_byte_snoc [] b = refl
last_byte_snoc (x ∷ []) b = refl
last_byte_snoc (x ∷ y ∷ xs) b = last_byte_snoc (y ∷ xs) b

pub length-encode : (k : InternalKey) → length (encode k) ≡ length k.user_key + 9
unfolding encode
length-encode k = omega (
  arith,
  length-append k.user_key (be_bytes 8 (complement k.sequence) ++ k.kind ∷ []),
  length-append (be_bytes 8 (complement k.sequence)) (k.kind ∷ []),
  length-be_bytes 8 (complement k.sequence),
)

last_byte-encode : (k : InternalKey) → last_byte (encode k) ≡ k.kind
unfolding encode
last_byte-encode k =
    ap last_byte (sym (append_assoc k.user_key (be_bytes 8 (complement k.sequence)) (k.kind ∷ [])))
    ∙ last_byte_snoc (k.user_key ++ be_bytes 8 (complement k.sequence)) k.kind

take-encode : (k : InternalKey) → take (length k.user_key) (encode k) ≡ k.user_key
unfolding encode
take-encode k = take-append k.user_key _

take_eight :
    (k : InternalKey)
    → take 8 (be_bytes 8 (complement k.sequence) ++ k.kind ∷ [])
      ≡ be_bytes 8 (complement k.sequence)
take_eight k =
    ap (λ n. take n (be_bytes 8 (complement k.sequence) ++ k.kind ∷ []))
      (sym (length-be_bytes 8 (complement k.sequence)))
    ∙ take-append (be_bytes 8 (complement k.sequence)) (k.kind ∷ [])

drop-encode :
    (k : InternalKey)
    → take 8 (drop (length k.user_key) (encode k)) ≡ be_bytes 8 (complement k.sequence)
unfolding encode
drop-encode k = ap (take 8) (drop-append k.user_key _) ∙ take_eight k

trailer : (k : InternalKey) → length (encode k) - 9 ≡ length k.user_key
trailer k = omega (arith, length-encode k)

-- A key with a valid kind and a uint64 sequence decodes from its own encoding.
pub decode-encode_key :
    (k : InternalKey) → k.kind ≤ kind_intent → IsU64 k.sequence → decode (encode k) ≡ ok k
unfolding decode
decode-encode_key k hk hs = ground (
  arith,
  length-encode k,
  last_byte-encode k,
  ap (λ n. take n (encode k)) (trailer k) ∙ take-encode k,
  ap (λ n. be_value 0 (take 8 (drop n (encode k)))) (trailer k) ∙ ap (be_value 0) (drop-encode k),
  be_value-be_bytes 8 (complement k.sequence) (omega arith),
)
