-- ===== src/Raft/Membership/Witness.antt =====
-- A configuration's encoding at a concrete configuration.
use rivet_db.Prelude.{ℕ, ◌≡◌, refl, List, [], ◌∷◌, arith, Result, ok, err}
use rivet_db.Prelude.Bytes.{le_bytes}
use rivet_db.Raft.Sort.{sort}
use rivet_db.Raft.Types.{Configuration, Error}
use rivet_db.Raft.Membership.{normalize, validate, encode, decode}
use rivet_db.Raft.Membership.Codec.{InRange, decode-encode_configuration}

abbrev unsorted : Configuration
unsorted = record { version = 4; old_voters = 3 ∷ 1 ∷ []; new_voters = []; learners = 9 ∷ [] }

abbrev bytes_of : Result Error (List ℕ) → List ℕ
bytes_of (ok bytes) = bytes
bytes_of (err e) = []

unsorted_encoded : encode unsorted ≡ ok (bytes_of (encode unsorted))
unfolding encode validate normalize sort le_bytes
unsorted_encoded = refl

unsorted-InRange : InRange unsorted
unsorted-InRange = record {
  version = omega arith;
  old_voters = (omega arith, (omega arith, tt));
  new_voters = tt;
  learners = (omega arith, tt);
}

decode-encode_configuration_example : decode (bytes_of (encode unsorted)) ≡ ok (normalize unsorted)
decode-encode_configuration_example =
    decode-encode_configuration unsorted (bytes_of (encode unsorted)) unsorted-InRange
      unsorted_encoded
