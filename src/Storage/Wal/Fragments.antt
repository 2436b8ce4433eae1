-- ===== src/Storage/Wal/Fragments.antt =====
-- One fragment of a record, as Append writes it and as a round of Next reads it.
use rivet_db.Prelude.{
  sym, ◌⊎◌, ℕ, zero, suc, ◌+◌, ◌-◌, ◌*◌, ◌%◌, ◌≤◌, ◌<◌, min, ◌≡◌, refl, ap, ◌∙◌, subst, Bool, true,
  false, List, [], ◌++◌, ◌||◌, ltb, ◌==◌, if◌then◌else◌, length, drop, arith, Bool-cases, inl, inr,
  length-append,
}
use mathlib.Core.List.{append_assoc}
use rivet_db.Storage.Wal.{
  header_size, block_size, block_remaining, padding_at, room_at, zeros, make_header,
  choose_fragment_kind, fragment_full, fragment_last,
}
use rivet_db.Storage.Wal.Frames.{
  frames, starts, fits, fragment, kind_at, length-fragment, length-zeros,
}
use rivet_db.Storage.Wal.Header.{length-make_header}
use rivet_db.Storage.Wal.Steps.{Finds, found_later, At, At-skip, padding_step, fragment_step}
use rivet_db.Storage.Wal.Reader.{again, Reader, round, accept_fragment}

-- The padding before a fragment, where there is any, takes one round.
pub past_padding :
    (file rest : List ℕ) (r : Reader)
    → At file r.offset (zeros (padding_at r.offset) ++ rest)
    → (round file r ≡ again (record r { offset = starts r.offset })) ⊎ (starts r.offset ≡ r.offset)
past_padding file rest r h = elim (Bool-cases (ltb (block_remaining r.offset) header_size)) [
  | inl short ↦
      let padded : padding_at r.offset ≡ block_remaining r.offset = rw short refl in
      inl (
        padding_step file rest r (ground (arith, short))
          (subst (λ n. At file r.offset (zeros n ++ rest)) padded h)
        ∙ ap (λ n. again (record r { offset = r.offset + n })) (sym padded))
  | inr long ↦ inr (rw long (omega arith))
]

pub after_padding :
    (file rest : List ℕ) (r r' : Reader)
    → At file r.offset (zeros (padding_at r.offset) ++ rest)
    → Finds file (record r { offset = starts r.offset }) r'
    → Finds file r r'
after_padding file rest r r' h onward = elim (past_padding file rest r h) [
  | inl e ↦ found_later e onward
  | inr e ↦ subst (λ n. Finds file (record r { offset = n }) r') e onward
]

pub room_after_padding : (offset : ℕ) → header_size ≤ block_remaining (starts offset)
room_after_padding offset = ground arith

-- One round more where the block has room for a header only.
unfoldable pub spare : ℕ → ℕ
spare offset = if room_at (starts offset) == 0 then 1 else 0

pub spare-boundary : (offset : ℕ) → offset % block_size ≡ 0 → spare offset ≡ 0
unfolding spare
spare-boundary offset h = ground arith

pub spare-full : (offset : ℕ) → room_at (starts offset) ≡ 0 → spare offset ≡ 1
unfolding spare
spare-full offset h = ground arith

pub block_end :
    (at : ℕ) → header_size ≤ block_remaining at → (at + header_size + room_at at) % block_size ≡ 0
block_end at h = omega arith

-- A fragment that leaves something of the payload fills its block.
pub measure-drops :
    (size room before after : ℕ)
    → min size room < size
    → after ≡ 0
    → (room ≡ 0 → before ≡ 1)
    → 2 * (size - min size room) + after < 2 * size + before
measure-drops size room before after left gone full = elim (Bool-cases (room == 0)) [
  | inl e ↦ let empty : room ≡ 0 = ground arith in omega (arith, full empty)
  | inr e ↦ let some_room : 0 < room = ground arith in omega arith
]

pub frames_nil : (fuel offset : ℕ) → frames fuel false [] offset ≡ []
unfolding frames
frames_nil zero offset = refl
frames_nil (suc fuel) offset = refl

pub kind_low : (first last : Bool) → fragment_full ≤ choose_fragment_kind first last
kind_low true true = omega arith
kind_low true false = omega arith
kind_low false true = omega arith
kind_low false false = omega arith

pub kind_high : (first last : Bool) → choose_fragment_kind first last ≤ fragment_last
kind_high true true = omega arith
kind_high true false = omega arith
kind_high false true = omega arith
kind_high false false = omega arith

abbrev pub after_frame : List ℕ → ℕ → ℕ
after_frame payload offset = starts offset + header_size + fits payload offset

-- One fragment with its padding and header, and what follows it.
abbrev pub frame : Bool → List ℕ → ℕ → List ℕ → List ℕ
frame first payload offset more =
    zeros (padding_at offset)
    ++ (make_header (fragment payload offset) (kind_at first payload offset)
        ++ (fragment payload offset ++ more))

pub frames-frame :
    (fuel : ℕ) (first : Bool) (payload : List ℕ) (offset : ℕ)
    → (first || ltb 0 (length payload)) ≡ true
    → frames (suc fuel) first payload offset
      ≡ frame first payload offset
          (frames fuel false (drop (fits payload offset) payload) (after_frame payload offset))
unfolding frames
frames-frame fuel first payload offset more = rw more refl

pub length-frame :
    (first : Bool) (payload : List ℕ) (offset : ℕ) (more : List ℕ)
    → offset + length (frame first payload offset more) ≡ after_frame payload offset + length more
length-frame first payload offset more =
    let body = fragment payload offset in
    let header = make_header body (kind_at first payload offset) in
    omega (
      arith,
      length-append (zeros (padding_at offset)) (header ++ (body ++ more)),
      length-append header (body ++ more),
      length-append body more,
      length-zeros (padding_at offset),
      length-make_header body (kind_at first payload offset),
      length-fragment payload offset,
    )

pub frame-flat :
    (first : Bool) (payload : List ℕ) (offset : ℕ) (more rest : List ℕ)
    → frame first payload offset more ++ rest ≡ frame first payload offset (more ++ rest)
frame-flat first payload offset more rest =
    let body = fragment payload offset in
    let header = make_header body (kind_at first payload offset) in
    append_assoc (zeros (padding_at offset)) (header ++ (body ++ more)) rest
    ∙ ap (λ l. zeros (padding_at offset) ++ l)
        (append_assoc header (body ++ more) rest
          ∙ ap (λ l. header ++ l) (append_assoc body more rest))

module _ (file : List ℕ) (first : Bool) (payload more : List ℕ) (r : Reader)
    (h : At file r.offset (frame first payload r.offset more)) where
  from_header : At file (starts r.offset) (
      make_header (fragment payload r.offset) (kind_at first payload r.offset)
      ++ (fragment payload r.offset ++ more))
  from_header =
      subst
        (λ n. At file (r.offset + n) (
          make_header (fragment payload r.offset) (kind_at first payload r.offset)
          ++ (fragment payload r.offset ++ more)))
        (length-zeros (padding_at r.offset)) (At-skip (zeros (padding_at r.offset)) _ h)

  pub from_more : At file (after_frame payload r.offset) more
  from_more =
      let body = fragment payload r.offset in
      let header = make_header body (kind_at first payload r.offset) in
      subst (λ n. At file n more)
        (omega (
          arith,
          length-make_header body (kind_at first payload r.offset),
          length-fragment payload r.offset,
        ))
        (At-skip body more (At-skip header (body ++ more) from_header))

  pub frame-round :
      round file (record r { offset = starts r.offset })
      ≡ accept_fragment
          (kind_at first payload r.offset)
          (fragment payload r.offset)
          (starts r.offset)
          (record r { offset = after_frame payload r.offset })
  frame-round =
      fragment_step file (fragment payload r.offset) more (kind_at first payload r.offset)
        (record r { offset = starts r.offset }) (room_after_padding r.offset)
        (omega (arith, length-fragment payload r.offset)) (kind_low first _) (kind_high first _)
        from_header
      ∙ ap
          (λ n.
            accept_fragment (kind_at first payload r.offset) (fragment payload r.offset)
              (starts r.offset) (record r { offset = starts r.offset + header_size + n }))
          (length-fragment payload r.offset)
