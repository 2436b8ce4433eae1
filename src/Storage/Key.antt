-- ===== src/Storage/Key.antt =====
-- internal/storage/internal_key.go: internal keys, their order and their encoding. A `ValueKind` is
-- the uint8 itself, since decoding meets kinds outside the format.
pub mod Order
pub mod Codec
mod Witness
use rivet_db.Prelude.{
  ℕ, ◌+◌, ◌-◌, ◌^◌, Bool, List, [], ◌∷◌, ◌++◌, ◌||◌, not, ltb, leb, ◌==◌, if◌then◌else◌, Ordering,
  Result, ok, err, length, take, drop,
}
use rivet_db.Prelude.Bytes.{compare_bytes, be_bytes, be_value}

pub data Error : Type 0 where
  too_short invalid_kind : Error

abbrev pub kind_delete : ℕ
kind_delete = 0

abbrev pub kind_value : ℕ
kind_value = 1

abbrev pub kind_txn_abort : ℕ
kind_txn_abort = 2

abbrev pub kind_intent : ℕ
kind_intent = 3

abbrev pub valid : ℕ → Bool
valid kind = leb kind kind_intent

abbrev pub carries_value : ℕ → Bool
carries_value kind = kind == kind_value || kind == kind_intent

pub record InternalKey : Type 0 where
  pub user_key : List ℕ
  pub sequence : ℕ
  pub kind : ℕ

unfoldable pub new_internal_key : List ℕ → ℕ → ℕ → Result Error InternalKey
new_internal_key user_key sequence kind =
    if not (valid kind)
    then err invalid_kind
    else ok (record { user_key = user_key; sequence = sequence; kind = kind })

-- `^sequence` on a uint64
abbrev pub complement : ℕ → ℕ
complement v = 2 ^ 64 - 1 - v

unfoldable pub encode : InternalKey → List ℕ
encode k = k.user_key ++ (be_bytes 8 (complement k.sequence) ++ k.kind ∷ [])

-- The last byte of a slice that is not empty.
abbrev last_byte : List ℕ → ℕ
last_byte [] = 0
last_byte (b ∷ []) = b
last_byte (b ∷ c ∷ bs) = last_byte (c ∷ bs)

unfoldable pub decode : List ℕ → Result Error InternalKey
decode encoded =
    if ltb (length encoded) 9
    then err too_short
    else (let trailer = length encoded - 9 in
        let kind = last_byte encoded in
        if not (valid kind)
        then err invalid_kind
        else ok (record {
          user_key = take trailer encoded;
          sequence = complement (be_value 0 (take 8 (drop trailer encoded)));
          kind = kind;
        }))

-- User key ascending, sequence descending, kind ascending. Go's -1, 0 and 1 are `lt`, `eq` and `gt`.
after_user : InternalKey → InternalKey → Ordering
after_user a b =
    if ltb b.sequence a.sequence
    then Ordering.lt
    else if ltb a.sequence b.sequence
    then Ordering.gt
    else if ltb a.kind b.kind
    then Ordering.lt
    else if ltb b.kind a.kind
    then Ordering.gt
    else Ordering.eq

unfoldable pub compare_internal : InternalKey → InternalKey → Ordering
unfolding after_user
compare_internal a b = elim (compare_bytes a.user_key b.user_key) [
  | Ordering.lt ↦ Ordering.lt
  | Ordering.eq ↦ after_user a b
  | Ordering.gt ↦ Ordering.gt
]
