-- ===== src/Raft/Membership/Codec.antt =====
-- A configuration's encoding decodes to its normal form.
use rivet_db.Prelude.{
  ℕ, ◌+◌, ◌*◌, ◌≡◌, refl, ap, ◌∙◌, sym, Bool, true, false, List, [], ◌∷◌, ◌++◌, All, arith, ltb,
  ◌==◌, length, take, drop, Result, ok, err, guard, ◌>>◌, length-append, take-append, drop-append,
  ==_iff,
}
use mathlib.Core.List.{append_assoc, append-nil}
use rivet_db.Prelude.Bytes.{IsU64, le_bytes, le_value, length-le_bytes, le_value-le_bytes}
use rivet_db.Raft.Types.{Configuration, Error, resource_limit}
use rivet_db.Raft.Sort.{sort-sort, sort-All}
use rivet_db.Raft.Membership.{
  normalize, validate, put_ids, get_ids, decode_sets, encode, decode, membership_encoding_version,
}

length-put_ids : (ids : List ℕ) → length (put_ids ids) ≡ 8 * length ids
length-put_ids [] = refl
length-put_ids (id ∷ ids) =
    length-append (le_bytes 8 id) (put_ids ids)
    ∙ omega (arith, length-le_bytes 8 id, length-put_ids ids)

take_field : (v : ℕ) (rest : List ℕ) → take 8 (le_bytes 8 v ++ rest) ≡ le_bytes 8 v
take_field v rest =
    ap (λ n. take n (le_bytes 8 v ++ rest)) (sym (length-le_bytes 8 v))
    ∙ take-append (le_bytes 8 v) rest

drop_field : (v : ℕ) (rest : List ℕ) → drop 8 (le_bytes 8 v ++ rest) ≡ rest
drop_field v rest =
    ap (λ n. drop n (le_bytes 8 v ++ rest)) (sym (length-le_bytes 8 v))
    ∙ drop-append (le_bytes 8 v) rest

field_value : (v : ℕ) (rest : List ℕ) → IsU64 v → le_value (take 8 (le_bytes 8 v ++ rest)) ≡ v
field_value v rest h = ap le_value (take_field v rest) ∙ le_value-le_bytes 8 v (omega arith)

get_ids-put_ids :
    (ids rest : List ℕ) → All IsU64 ids → get_ids (length ids) (put_ids ids ++ rest) ≡ (ids, rest)
get_ids-put_ids [] rest h = refl
get_ids-put_ids (id ∷ ids) rest (h, hs) =
    ap
      (λ bytes. (
        le_value (take 8 bytes) ∷ (get_ids (length ids) (drop 8 bytes)).0,
        (get_ids (length ids) (drop 8 bytes)).1,
      ))
      (append_assoc (le_bytes 8 id) (put_ids ids) rest)
    ∙ rw
        (
          field_value id (put_ids ids ++ rest) h,
          drop_field id (put_ids ids ++ rest),
          get_ids-put_ids ids rest hs,
        )
        refl

-- The body of an encoding, and its length.
abbrev body : Configuration → List ℕ
body c =
    le_bytes 8 c.version ++ (put_ids c.old_voters ++ (put_ids c.new_voters ++ put_ids c.learners))

length-body :
    (c : Configuration)
    → length (body c) ≡ 8 + 8 * (length c.old_voters + length c.new_voters + length c.learners)
length-body c = omega (
  arith,
  length-append (le_bytes 8 c.version)
      (put_ids c.old_voters ++ (put_ids c.new_voters ++ put_ids c.learners)),
  length-append (put_ids c.old_voters) (put_ids c.new_voters ++ put_ids c.learners),
  length-append (put_ids c.new_voters) (put_ids c.learners),
  length-le_bytes 8 c.version,
  length-put_ids c.old_voters,
  length-put_ids c.new_voters,
  length-put_ids c.learners,
)

-- Every number of the configuration is a uint64.
pub record InRange (c : Configuration) : Type 0 where
  pub version : IsU64 c.version
  pub old_voters : All IsU64 c.old_voters
  pub new_voters : All IsU64 c.new_voters
  pub learners : All IsU64 c.learners

normalize-InRange : (c : Configuration) → InRange c → InRange (normalize c)
unfolding normalize
normalize-InRange c h = record {
  version = h.version;
  old_voters = sort-All IsU64 c.old_voters h.old_voters;
  new_voters = sort-All IsU64 c.new_voters h.new_voters;
  learners = sort-All IsU64 c.learners h.learners;
}

last_ids : (ids : List ℕ) → All IsU64 ids → (get_ids (length ids) (put_ids ids)).0 ≡ ids
last_ids ids h =
    ap (λ bytes. (get_ids (length ids) bytes).0) (sym (append-nil (put_ids ids)))
    ∙ rw (get_ids-put_ids ids [] h) refl

decode_sets-body :
    (c : Configuration)
    → InRange c
    → decode_sets (length c.old_voters) (length c.new_voters) (length c.learners) (body c) ≡ c
decode_sets-body c h =
    rw
      (
        field_value c.version (put_ids c.old_voters ++ (put_ids c.new_voters ++ put_ids c.learners))
            h.version,
        drop_field c.version (put_ids c.old_voters ++ (put_ids c.new_voters ++ put_ids c.learners)),
        get_ids-put_ids c.old_voters (put_ids c.new_voters ++ put_ids c.learners) h.old_voters,
        get_ids-put_ids c.new_voters (put_ids c.learners) h.new_voters,
        last_ids c.learners h.learners,
      )
      refl

normalize_again : (c : Configuration) → normalize (normalize c) ≡ normalize c
unfolding normalize
normalize_again c = rw (sort-sort c.old_voters, sort-sort c.new_voters, sort-sort c.learners) refl

decode-body :
    (c : Configuration)
    → InRange c
    → validate c ≡ ok tt
    → normalize c ≡ c
    → decode (
        membership_encoding_version
        ∷ length c.old_voters
        ∷ length c.new_voters
        ∷ length c.learners
        ∷ body c)
      ≡ ok c
unfolding decode
decode-body c h valid normal =
    let long : ltb (length (body c)) 8 ≡ false = ground (arith, length-body c) in
    let exact : (length (body c)
          == 8 + 8 * (length c.old_voters + length c.new_voters + length c.learners))
        ≡ true =
      (==_iff _ _).1 (length-body c) in
    rw (long, exact, decode_sets-body c h, valid, normal) refl

encoded_parts :
    (valid : Result Error (Unit {0})) (b : Bool) (made bytes : List ℕ)
    → (valid >> (guard b resource_limit >> ok made)) ≡ ok bytes
    → (valid ≡ ok tt) × (made ≡ bytes)
encoded_parts (ok tt) true made bytes h = (refl, ground arith)
encoded_parts (ok tt) false made bytes h = cc
encoded_parts (err e) b made bytes h = cc

-- What EncodeConfiguration makes of a configuration of uint64 numbers, DecodeConfiguration reads back
-- as its normal form.
pub decode-encode_configuration :
    (c : Configuration) (bytes : List ℕ)
    → InRange c
    → encode c ≡ ok bytes
    → decode bytes ≡ ok (normalize c)
unfolding encode
decode-encode_configuration c bytes h made =
    let (valid, same) = encoded_parts (validate (normalize c)) _ _ bytes made in
    rw⁻¹ same (decode-body (normalize c) (normalize-InRange c h) valid (normalize_again c))
