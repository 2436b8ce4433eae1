-- ===== src/Storage/Wal/Pieces.antt =====
-- What a record comes to after its next fragment.
use rivet_db.Prelude.{
  ℕ, suc, ◌+◌, ◌*◌, ◌%◌, ◌≤◌, ◌<◌, ◌≡◌, ap, ◌∙◌, sym, subst, Bool, true, false, List, [], ◌++◌,
  ◌||◌, ltb, ◌==◌, length, take, drop, arith, length-drop,
}
use rivet_db.Storage.Wal.{header_size, block_size, room_at}
use rivet_db.Storage.Wal.Frames.{frames, starts, fits, fragment}
use rivet_db.Storage.Wal.Steps.{At}
use rivet_db.Storage.Wal.Fragments.{
  spare, spare-boundary, spare-full, block_end, measure-drops, frames_nil, after_frame, frame,
  frames-frame, length-frame, frame-flat, room_after_padding,
}
use rivet_db.Storage.Wal.Reader.{Reader}
use rivet_db.Storage.Wal.Accept.{Going, Delivered, take_all, drop_all}

-- The reader after a fragment, and where a record ends.
abbrev pub after : List ℕ → Reader → Reader
after payload r = record r { offset = after_frame payload r.offset }

-- A record whose last fragment comes next.
pub ends_here :
    (first : Bool) (payload more : List ℕ) (fuel : ℕ) (r : Reader)
    → fits payload r.offset ≡ length payload
    → (fragment payload r.offset ≡ payload)
      × (frames fuel false (drop (fits payload r.offset) payload) (after_frame payload r.offset)
          ≡ [])
ends_here first payload more fuel r e = (
  ap (λ n. take n payload) e ∙ take_all payload,
  ap (λ l. frames fuel false l (after_frame payload r.offset))
        (ap (λ n. drop n payload) e ∙ drop_all payload)
      ∙ frames_nil fuel (after_frame payload r.offset),
)

pub moved-Going :
    (r : Reader) (offset record_at : ℕ) (assembly : List ℕ) (assembling : Bool)
    → Going r
    → Going (record r {
      offset = offset;
      assembly = assembly;
      assembling = assembling;
      record_at = record_at;
    })
moved-Going r offset record_at assembly assembling going = record {
  tail = going.tail;
  error = going.error;
  done = going.done;
  closed = going.closed;
}

pub Delivered-as :
    (p p' : List ℕ) (start e e' n : ℕ) (r : Reader)
    → p ≡ p'
    → e ≡ e'
    → Delivered p start e n r
    → Delivered p' start e' n r
Delivered-as p p' start e e' n r same ends d =
    subst (λ l. Delivered l start e' n r) same (subst (λ k. Delivered p start k n r) ends d)

-- The first fragment of what is left, and what it costs.
pub record Framed (fuel : ℕ) (file : List ℕ) (first : Bool) (payload rest : List ℕ) (r : Reader)
    : Type 0 where
  pub framed : At file r.offset (
      frame first payload r.offset (
        frames fuel false (drop (fits payload r.offset) payload) (after_frame payload r.offset)
        ++ rest))
  pub size :
      after_frame payload r.offset
        + length (
            frames fuel false (drop (fits payload r.offset) payload) (after_frame payload r.offset))
      ≡ r.offset + length (frames (suc fuel) first payload r.offset)

pub frames-Framed :
    (fuel : ℕ) (file : List ℕ) (first : Bool) (payload rest : List ℕ) (r : Reader)
    → (first || ltb 0 (length payload)) ≡ true
    → At file r.offset (frames (suc fuel) first payload r.offset ++ rest)
    → Framed fuel file first payload rest r
frames-Framed fuel file first payload rest r going_on h =
    let more =
      frames fuel false (drop (fits payload r.offset) payload) (after_frame payload r.offset) in
    let flat = frames-frame fuel first payload r.offset going_on in
    record {
      framed =
          subst (At file r.offset)
            (ap (λ l. l ++ rest) flat ∙ frame-flat first payload r.offset more rest) h;
      size = sym (ap (λ l. r.offset + length l) flat ∙ length-frame first payload r.offset more);
    }

-- What a fragment leaves has a smaller measure.
pub smaller :
    (payload : List ℕ) (offset : ℕ)
    → fits payload offset < length payload
    → 2 * length (drop (fits payload offset) payload) + spare (after_frame payload offset)
      < 2 * length payload + spare offset
smaller payload offset left =
    let at = starts offset in
    let fills : fits payload offset ≡ room_at at = omega arith in
    let boundary : after_frame payload offset % block_size ≡ 0 =
      ap (λ n. (at + header_size + n) % block_size) fills
      ∙ block_end at (room_after_padding offset) in
    omega (
      arith,
      length-drop (fits payload offset) payload,
      measure-drops (length payload) (room_at at) (spare offset)
          (spare (after_frame payload offset)) left
          (spare-boundary (after_frame payload offset) boundary) (spare-full offset),
    )

pub not_last :
    (payload : List ℕ) (offset : ℕ)
    → (fits payload offset == length payload) ≡ false
    → fits payload offset < length payload
not_last payload offset e = ground arith

pub spare-small : (offset : ℕ) → spare offset ≤ 1
unfolding spare
spare-small offset = ground arith
