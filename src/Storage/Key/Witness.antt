-- ===== src/Storage/Key/Witness.antt =====
-- The key theorems at concrete keys.
use rivet_db.Prelude.{ℕ, ◌≡◌, ◌↔◌, [], ◌∷◌, Ordering, arith, ok, refl}
use rivet_db.Prelude.Bytes.{flip, compare_bytes}
use rivet_db.Storage.Key.{InternalKey, encode, decode, compare_internal}
use rivet_db.Storage.Key.Order.{
  compare_internal_eq_iff, compare_internal-flip, compare_internal_trans,
}
use rivet_db.Storage.Key.Codec.{decode-encode_key}

abbrev key : ℕ → ℕ → InternalKey
key sequence kind = record { user_key = 97 ∷ 0 ∷ []; sequence = sequence; kind = kind }

newer_first : compare_internal (key 9 1) (key 8 1) ≡ Ordering.lt
unfolding compare_internal compare_bytes
newer_first = refl

delete_first : compare_internal (key 8 0) (key 8 1) ≡ Ordering.lt
unfolding compare_internal compare_bytes
delete_first = refl

value_first : compare_internal (key 8 1) (key 8 3) ≡ Ordering.lt
unfolding compare_internal compare_bytes
value_first = refl

compare_internal_eq_iff_example :
    (compare_internal (key 9 1) (key 8 1) ≡ Ordering.eq) ↔ (key 9 1 ≡ key 8 1)
compare_internal_eq_iff_example = compare_internal_eq_iff (key 9 1) (key 8 1)

compare_internal_trans_example : compare_internal (key 8 0) (key 8 3) ≡ Ordering.lt
compare_internal_trans_example =
    compare_internal_trans (key 8 0) (key 8 1) (key 8 3) delete_first value_first

compare_internal-flip_example :
    compare_internal (key 8 1) (key 9 1) ≡ flip (compare_internal (key 9 1) (key 8 1))
compare_internal-flip_example = compare_internal-flip (key 9 1) (key 8 1)

decode-encode_key_example : decode (encode (key 8 1)) ≡ ok (key 8 1)
decode-encode_key_example = decode-encode_key (key 8 1) (omega arith) (omega arith)
