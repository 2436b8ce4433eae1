-- ===== src/Raft/Membership.antt =====
-- internal/raft/membership.go: configurations, joint quorums, transitions and their encoding.
pub mod Quorum
pub mod Codec
mod Witness
use rivet_db.Prelude.{
  ℕ, zero, suc, ◌+◌, ◌*◌, ◌-◌, ◌%◌, ◌^◌, Bool, true, false, not, List, [], ◌∷◌, ◌++◌, ◌&&◌, ◌||◌,
  ltb, leb, ◌==◌, if◌then◌else◌, length, take, drop, all, any, get_elem?, Result, ok, err, ◌>>=◌,
  ◌>>◌, guard, Option, none, some,
}
use rivet_db.Prelude.Bytes.{le_bytes, le_value}
use rivet_db.Raft.Sort.{sort, compact, contains, equal_ids, count}
use rivet_db.Raft.Types.{
  Configuration, Error, invalid_config, resource_limit, config_transition, quorum,
}

unfoldable pub normalize : Configuration → Configuration
normalize c = record c {
  old_voters = sort c.old_voters;
  new_voters = sort c.new_voters;
  learners = sort c.learners;
}

-- No zero, and no id equal to the one before it; `previous` is none at index 0.
abbrev distinct_from : Option ℕ → List ℕ → Bool
distinct_from previous [] = true
distinct_from none (x ∷ xs) = not (x == 0) && distinct_from (some x) xs
distinct_from (some p) (x ∷ xs) = not (x == 0) && not (x == p) && distinct_from (some x) xs

abbrev pub is_empty : List ℕ → Bool
is_empty [] = true
is_empty (x ∷ xs) = false

-- The checks of `validateConfiguration` after the normalisation. Its map `seen` is empty when the
-- old voters are checked, and nothing reads it afterwards.
valid_sets : Configuration → Bool
valid_sets c =
    distinct_from none c.old_voters
    && (distinct_from none c.new_voters
        && (distinct_from none c.learners
            && all (λ id. not (contains c.old_voters id) && not (contains c.new_voters id))
                c.learners))

unfoldable pub validate : Configuration → Result Error (Unit {0})
unfolding normalize valid_sets
validate c =
    if c.version == 0 || is_empty c.old_voters
    then err invalid_config
    else guard (valid_sets (normalize c)) invalid_config

abbrev pub joint : Configuration → Bool
joint c = not (is_empty c.new_voters)

abbrev pub voter : Configuration → ℕ → Bool
voter c id = contains c.old_voters id || contains c.new_voters id

abbrev pub learner : Configuration → ℕ → Bool
learner c id = contains c.learners id

unfoldable pub members : Configuration → List ℕ
members c = compact (sort (c.old_voters ++ (c.new_voters ++ c.learners)))

unfoldable pub majority_acknowledged : List ℕ → (ℕ → Bool) → Bool
majority_acknowledged voters acknowledged = leb (quorum (length voters)) (count acknowledged voters)

-- `Configuration.Quorum`
unfoldable pub has_quorum : Configuration → (ℕ → Bool) → Bool
has_quorum c acknowledged =
    if not (majority_acknowledged c.old_voters acknowledged)
    then false
    else not (joint c) || majority_acknowledged c.new_voters acknowledged

-- Joint to stable takes the new voters; every other step leaves the old voters alone, and stable to
-- stable is a change of learners only. Go's `+ 1` wraps.
abbrev pub allowed : Configuration → Configuration → Bool
allowed from to =
    if not (to.version == (from.version + 1) % 2 ^ 64)
    then false
    else if joint from
    then not (joint to) && equal_ids to.old_voters from.new_voters
    else equal_ids to.old_voters from.old_voters

unfoldable pub validate_transition : Configuration → Configuration → Result Error (Unit {0})
unfolding normalize
validate_transition from' to' =
    let from = normalize from' in
    let to = normalize to' in
    (do validate from; validate to; guard (allowed from to) config_transition)

abbrev pub put_ids : List ℕ → List ℕ
put_ids [] = []
put_ids (id ∷ ids) = le_bytes 8 id ++ put_ids ids

abbrev membership_encoding_version : ℕ
membership_encoding_version = 1

unfoldable pub encode : Configuration → Result Error (List ℕ)
encode value =
    let c = normalize value in
    (do
      validate c
      guard
          (leb (length c.old_voters) 255
            && (leb (length c.new_voters) 255 && leb (length c.learners) 255))
          resource_limit
      ok (
          membership_encoding_version
            ∷ length c.old_voters
            ∷ length c.new_voters
            ∷ length c.learners
            ∷ []
          ++ (le_bytes 8 c.version
              ++ (put_ids c.old_voters ++ (put_ids c.new_voters ++ put_ids c.learners)))))

-- `count` ids from the front, and what follows them.
abbrev pub get_ids : ℕ → List ℕ → List ℕ × List ℕ
get_ids zero bytes = ([], bytes)
get_ids (suc n) bytes =
    let (ids, rest) = get_ids n (drop 8 bytes) in (le_value (take 8 bytes) ∷ ids, rest)

abbrev decode_sets : ℕ → ℕ → ℕ → List ℕ → Configuration
decode_sets a b c body =
    let (old, rest) = get_ids a (drop 8 body) in
    let (new, rest') = get_ids b rest in
    record {
      version = le_value (take 8 body);
      old_voters = old;
      new_voters = new;
      learners = (get_ids c rest').0;
    }

unfoldable pub decode : List ℕ → Result Error Configuration
decode (v ∷ a ∷ b ∷ c ∷ body) =
    if ltb (length body) 8 || not (v == membership_encoding_version)
    then err invalid_config
    else if not (length body == 8 + 8 * (a + b + c))
    then err invalid_config
    else (do validate (decode_sets a b c body); ok (normalize (decode_sets a b c body)))
decode _ = err invalid_config
