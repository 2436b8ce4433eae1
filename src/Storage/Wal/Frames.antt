-- ===== src/Storage/Wal/Frames.antt =====
-- What Append adds to the file, as a function of the payload and the offset.
use rivet_db.Prelude.{
  ℕ, zero, suc, ◌+◌, min, ◌≡◌, refl, ap, Bool, false, List, [], ◌++◌, ◌||◌, ltb, ◌==◌,
  if◌then◌else◌, length, take, drop, arith, length-take,
}
use rivet_db.Storage.Wal.{
  header_size, padding_at, room_at, zeros, make_header, choose_fragment_kind,
}

-- Where the next fragment starts, how many bytes it takes, and its kind.
abbrev pub starts : ℕ → ℕ
starts offset = offset + padding_at offset

abbrev pub fits : List ℕ → ℕ → ℕ
fits payload offset = min (length payload) (room_at (starts offset))

abbrev pub kind_at : Bool → List ℕ → ℕ → ℕ
kind_at first payload offset = choose_fragment_kind first (fits payload offset == length payload)

abbrev pub fragment : List ℕ → ℕ → List ℕ
fragment payload offset = take (fits payload offset) payload

unfoldable pub frames : ℕ → Bool → List ℕ → ℕ → List ℕ
frames zero first payload offset = []
frames (suc fuel) first payload offset =
    let rest =
      frames fuel false (drop (fits payload offset) payload)
        (starts offset + header_size + fits payload offset) in
    if first || ltb 0 (length payload)
    then zeros (padding_at offset)
      ++ (make_header (fragment payload offset) (kind_at first payload offset)
          ++ (fragment payload offset ++ rest))
    else []

pub length-zeros : (n : ℕ) → length (zeros n) ≡ n
length-zeros zero = refl
length-zeros (suc n) = ap suc (length-zeros n)

pub length-fragment :
    (payload : List ℕ) (offset : ℕ) → length (fragment payload offset) ≡ fits payload offset
length-fragment payload offset = omega (arith, length-take (fits payload offset) payload)
