-- ===== src/Storage/Manifest/TableCodec.antt =====
-- encodeTable and decodeTable are inverse.
use rivet_db.Prelude.{
  ℕ, ◌+◌, ◌*◌, ◌≤◌, ◌≡◌, refl, ap, subst, false, List, [], ◌++◌, not, ◌||◌, ltb, length, drop,
  arith, ok, guard, cut_at, length-append, length-drop, guard-ok, >>-ok, ok_injective, le→not_ltb,
  not-true, not-false, ||_false,
}
use mathlib.Core.List.{append_assoc, append-nil}
use rivet_db.Prelude.Bytes.{
  le_bytes, length-le_bytes, le_value-le_bytes, equal_bytes, equal_bytes→eq,
}
use rivet_db.Storage.Key
use rivet_db.Storage.Key.{InternalKey, kind_intent}
use rivet_db.Storage.Key.Codec.{decode-encode_key, length-encode}
use rivet_db.Storage.Manifest.Edit.{
  TableMetadata, validate_table, encode_table, decode_table, decode_parts, decode_key, read_part,
  part, table_parts, table_bytes, with_keys, oversized, invalid_edit, invalid_edit_level,
  bad_numbers, bad_keys, fixed_size, less_bytes, greater_key, max_user_key_size,
  max_internal_key_size,
}
use rivet_db.Storage.Manifest.TableFields.{IsU32, IsKey, IsTyped, with_keys-table, table_tail}

read_part_lem :
    (value rest : List ℕ) → IsU32 (length value) → read_part (part value ++ rest) ≡ ok (value, rest)
unfolding read_part
read_part_lem value rest h =
    let size = le_bytes 4 (length value) in
    let (t4, d4) = cut_at 4 size (value ++ rest) (length-le_bytes 4 (length value)) in
    let (tv, dv) = cut_at (length value) value rest refl in
    let joined : (size ++ value) ++ rest ≡ size ++ (value ++ rest) = append_assoc size value rest in
    let long : ltb (length (size ++ (value ++ rest))) 4 ≡ false =
      ground (arith, length-append size (value ++ rest), length-le_bytes 4 (length value)) in
    let fits : ltb (length (value ++ rest)) (length value) ≡ false =
      ground (arith, length-append value rest) in
    rw (joined, long, t4, d4, le_value-le_bytes 4 (length value) h, fits, tv, dv) refl

decode_key-encode : (k : InternalKey) → IsKey k → decode_key (Key.encode k) ≡ ok k
unfolding decode_key
decode_key-encode k (h, s) = rw (decode-encode_key k h s, decode_key) refl

-- The sizes of the four parts of a table that passes validateTable.
record Sized (t : TableMetadata) : Type 0 where
  smallest_internal : length (Key.encode t.smallest_internal) ≤ max_internal_key_size
  largest_internal : length (Key.encode t.largest_internal) ≤ max_internal_key_size
  smallest_user : length t.smallest_user ≤ max_user_key_size
  largest_user : length t.largest_user ≤ max_user_key_size

bad_keys-Sized : (t : TableMetadata) → bad_keys t ≡ false → Sized t
bad_keys-Sized t h =
    let (h1, _) = ||_false _ (less_bytes t.largest_user t.smallest_user) h in
    let (h2, _) = ||_false _ (greater_key t.smallest_internal t.largest_internal) h1 in
    let (h3, h7) = ||_false _ (not (equal_bytes t.largest_internal.user_key t.largest_user)) h2 in
    let (h4, h5) = ||_false _ (not (equal_bytes t.smallest_internal.user_key t.smallest_user)) h3 in
    let (h8, h9) =
      ||_false (ltb max_user_key_size (length t.smallest_user))
        (ltb max_user_key_size (length t.largest_user)) h4 in
    let same = equal_bytes→eq t.smallest_internal.user_key t.smallest_user (not-false _ h5) in
    let same' = equal_bytes→eq t.largest_internal.user_key t.largest_user (not-false _ h7) in
    let small : length t.smallest_user ≤ max_user_key_size = ground arith in
    let large : length t.largest_user ≤ max_user_key_size = ground arith in
    record {
      smallest_internal = omega (arith, length-encode t.smallest_internal, ap length same);
      largest_internal = omega (arith, length-encode t.largest_internal, ap length same');
      smallest_user = small;
      largest_user = large;
    }

validate_table-Sized : (t : TableMetadata) → validate_table t ≡ ok tt → Sized t
unfolding validate_table
validate_table-Sized t h =
    let (_, h1) = >>-ok (guard _ invalid_edit_level) _ h in
    let (_, h2) = >>-ok (guard (not (bad_numbers t)) invalid_edit) _ h1 in
    bad_keys-Sized t (not-true (bad_keys t) (guard-ok _ _ h2))

read_last : (value : List ℕ) → IsU32 (length value) → read_part (part value) ≡ ok (value, [])
read_last value h =
    subst (λ bytes. read_part bytes ≡ ok (value, [])) (append-nil (part value))
      (read_part_lem value [] h)

decode_parts-table :
    (t : TableMetadata) (payload : List ℕ)
    → IsTyped t
    → validate_table t ≡ ok tt
    → with_keys payload t.smallest_internal t.largest_internal t.smallest_user t.largest_user ≡ t
    → decode_parts payload (table_parts t) ≡ ok t
unfolding decode_parts
decode_parts-table t payload u v same =
    let s = validate_table-Sized t v in
    let a = Key.encode t.smallest_internal in
    let b = Key.encode t.largest_internal in
    let ra =
      read_part_lem a (part b ++ (part t.smallest_user ++ part t.largest_user))
        (omega (arith, s.smallest_internal)) in
    let rb =
      read_part_lem b (part t.smallest_user ++ part t.largest_user)
        (omega (arith, s.largest_internal)) in
    let rc = read_part_lem t.smallest_user (part t.largest_user) (omega (arith, s.smallest_user)) in
    let rd = read_last t.largest_user (omega (arith, s.largest_user)) in
    let fa : ltb max_internal_key_size (length a) ≡ false = ground (arith, s.smallest_internal) in
    let fb : ltb max_internal_key_size (length b) ≡ false = ground (arith, s.largest_internal) in
    let fc : ltb max_user_key_size (length t.smallest_user) ≡ false =
      ground (arith, s.smallest_user) in
    let fd : ltb max_user_key_size (length t.largest_user) ≡ false =
      ground (arith, s.largest_user) in
    rw
      (
        ra,
        rb,
        rc,
        rd,
        fa,
        fb,
        fc,
        fd,
        decode_key-encode t.smallest_internal u.smallest_internal,
        decode_key-encode t.largest_internal u.largest_internal,
        same,
        v,
      )
      refl

length-part : (value : List ℕ) → length (part value) ≡ 4 + length value
length-part value =
    omega (arith, length-append (le_bytes 4 (length value)) value, length-le_bytes 4 (length value))

length-table_parts : (t : TableMetadata) → 16 ≤ length (table_parts t)
length-table_parts t =
    let a = Key.encode t.smallest_internal in
    let b = Key.encode t.largest_internal in
    let cd = part t.smallest_user ++ part t.largest_user in
    omega (
      arith,
      length-append (part a) (part b ++ cd),
      length-append (part b) cd,
      length-append (part t.smallest_user) (part t.largest_user),
      length-part a,
      length-part b,
      length-part t.smallest_user,
      length-part t.largest_user,
    )

tail_length :
    (xs ys : List ℕ)
    → drop fixed_size xs ≡ ys
    → 16 ≤ length ys
    → ltb (length xs) (fixed_size + 4 * 4) ≡ false
tail_length xs ys e h =
    le→not_ltb (length xs) (fixed_size + 4 * 4)
      (omega (arith, ap length e, length-drop fixed_size xs))

-- Any table that encodeTable accepts, with fields in the ranges of their types and keys of known kinds,
-- decodeTable reads back from the bytes.
pub decode-encode_table :
    (t : TableMetadata) (bytes : List ℕ)
    → IsTyped t
    → encode_table t ≡ ok bytes
    → decode_table bytes ≡ ok t
unfolding encode_table decode_table
decode-encode_table t bytes u e =
    let (v, h1) = >>-ok (validate_table t) _ e in
    let (_, h2) =
      >>-ok
        (guard
          (not (
            oversized (Key.encode t.smallest_internal)
            || oversized (Key.encode t.largest_internal)
            || oversized t.smallest_user
            || oversized t.largest_user))
          invalid_edit)
        _ h1 in
    let long : ltb (length (table_bytes t)) (fixed_size + 4 * 4) ≡ false =
      tail_length (table_bytes t) (table_parts t) (table_tail t) (length-table_parts t) in
    subst (λ b. decode_table b ≡ ok t) {x = table_bytes t} (ok_injective h2)
      (rw (long, table_tail t) (decode_parts-table t (table_bytes t) u v (with_keys-table t u)))
