-- ===== src/Storage/Wal/Partial.antt =====
-- A record that is not there in full: Next reads its whole fragments and stops with no error.
use rivet_db.Prelude.{
  ℕ, zero, suc, ◌+◌, ◌*◌, ◌≤◌, ◌<◌, ◌≡◌, refl, ap, ◌∙◌, sym, ◌||◌, subst, Bool, true, false, List,
  [], ◌∷◌, ◌++◌, ltb, ◌==◌, length, drop, arith, Bool-cases, inl, inr, length-append, length-drop,
  ==_iff,
}
use rivet_db.Storage.Wal.{padding_at, max_record_size, choose_fragment_kind, write_fuel}
use rivet_db.Storage.Wal.Frames.{frames, starts, fits, fragment, length-fragment}
use rivet_db.Storage.Wal.Steps.{At}
use rivet_db.Storage.Wal.Reader.{Reader, accept_fragment}
use rivet_db.Storage.Wal.Fragments.{
  frame, length-frame, frames-frame, frames_nil, after_frame, from_more, frame-round,
}
use rivet_db.Storage.Wal.Accept.{Going, accept_middle, accept_first}
use rivet_db.Storage.Wal.Pieces.{moved-Going, not_last, after, ends_here}
use rivet_db.Storage.Wal.Torn.{Halts, leaves_tail, leaves_tail-past}
use rivet_db.Storage.Wal.Cutoff.{Halts-as, again-Halts, padded-Halts, frame-Halts}

no_frames :
    (first : Bool) (payload bytes cut : List ℕ) (offset : ℕ)
    → 0 < length cut
    → bytes ++ cut ≡ frames zero first payload offset
    → ⊥
unfolding frames
no_frames first payload bytes cut offset some_left e =
    absurd (omega (arith, ap length e, length-append bytes cut))

no_payload :
    (fuel : ℕ) (payload bytes cut : List ℕ) (offset : ℕ)
    → 0 < length cut
    → bytes ++ cut ≡ frames (suc fuel) false payload offset
    → ltb 0 (length payload) ≡ true
no_payload fuel [] bytes cut offset some_left e =
    absurd (omega (arith, ap length (e ∙ frames_nil (suc fuel) offset), length-append bytes cut))
no_payload fuel (x ∷ xs) bytes cut offset some_left e = ground arith

-- What is left when the fragment was not the last.
more_to_come :
    (first : Bool) (fuel : ℕ) (payload b cut : List ℕ) (r : Reader)
    → 0 < length cut
    → b ++ cut
      ≡ frames fuel false (drop (fits payload r.offset) payload) (after_frame payload r.offset)
    → (fits payload r.offset == length payload) ≡ false
more_to_come first fuel payload b cut r some_left e =
    elim (Bool-cases (fits payload r.offset == length payload)) [
      | inl last ↦
          let (_, ended) =
            ends_here first payload [] fuel r
              ((==_iff (fits payload r.offset) (length payload)).0 last) in
          absurd (omega (arith, ap length (e ∙ ended), length-append b cut))
      | inr other ↦ other
    ]

rest-Halts :
    (fuel : ℕ) (file payload bytes cut : List ℕ) (r : Reader)
    → Going r
    → r.assembling ≡ true
    → length r.assembly + length payload ≤ max_record_size
    → At file r.offset bytes
    → 0 < length cut
    → bytes ++ cut ≡ frames fuel false payload r.offset
    → Halts file r true
rest-Halts zero file payload bytes cut r going assembling small h some_left e =
    absurd (no_frames false payload bytes cut r.offset some_left e)
rest-Halts (suc fuel) file payload bytes cut r going assembling small h some_left e =
    let offset = r.offset in
    let body = fragment payload offset in
    let left = drop (fits payload offset) payload in
    let more = frames fuel false left (after_frame payload offset) in
    let flat =
      frames-frame fuel false payload offset
        (no_payload fuel payload bytes cut offset some_left e) in
    elim (frame-Halts file false payload more bytes cut r going h (e ∙ flat)) [
      | inl halts ↦
          Halts-as file r (ap (λ b. b || leaves_tail (length bytes) (padding_at offset)) assembling)
            halts
      | inr (b, whole, e') ↦
          let h' : At file offset (frame false payload offset b) = subst (At file offset) whole h in
          let other = more_to_come false fuel payload b cut r some_left e' in
          let short = not_last payload offset other in
          let taken = length-fragment payload offset in
          let r1 = record r {
            offset = after_frame payload offset;
            assembly = r.assembly ++ body;
          } in
          padded-Halts file _ r true h' (
            again-Halts file (record r { offset = starts offset }) r1 true refl
              (frame-round file false payload b r h'
                ∙ ap (λ k. accept_fragment k body (starts offset) (after payload r))
                    (ap (choose_fragment_kind false) other)
                ∙ accept_middle body (starts offset) (after payload r) assembling (omega arith))
              (rest-Halts fuel file left b cut r1
                (moved-Going r (after_frame payload offset) r.record_at (r.assembly ++ body)
                  r.assembling going)
                assembling
                (omega
                  (arith, length-append r.assembly body, length-drop (fits payload offset) payload))
                (from_more file false payload b r h') some_left e'))
    ]

-- A whole fragment is more than the padding before it.
frame_marks :
    (first : Bool) (payload b bytes : List ℕ) (offset : ℕ)
    → bytes ≡ frame first payload offset b
    → leaves_tail (length bytes) (padding_at offset) ≡ true
frame_marks first payload b bytes offset whole =
    leaves_tail-past (length bytes) (padding_at offset)
      (omega (arith, ap length whole, length-frame first payload offset b))

-- A log that ends within the frames of a record.
pub record-Halts :
    (file payload bytes cut : List ℕ) (r : Reader)
    → Going r
    → r.assembling ≡ false
    → length payload ≤ max_record_size
    → At file r.offset bytes
    → 0 < length cut
    → bytes ++ cut ≡ frames (write_fuel payload) true payload r.offset
    → Halts file r (leaves_tail (length bytes) (padding_at r.offset))
record-Halts file payload bytes cut r going assembling small h some_left e0 =
    let fuel = 2 * length payload + 1 in
    let offset = r.offset in
    let counted : write_fuel payload ≡ suc fuel = omega arith in
    let e = e0 ∙ ap (λ k. frames k true payload offset) counted in
    let body = fragment payload offset in
    let left = drop (fits payload offset) payload in
    let more = frames fuel false left (after_frame payload offset) in
    let flat = frames-frame fuel true payload offset refl in
    elim (frame-Halts file true payload more bytes cut r going h (e ∙ flat)) [
      | inl halts ↦
          Halts-as file r (ap (λ b. b || leaves_tail (length bytes) (padding_at offset)) assembling)
            halts
      | inr (b, whole, e') ↦
          let h' : At file offset (frame true payload offset b) = subst (At file offset) whole h in
          let other = more_to_come true fuel payload b cut r some_left e' in
          let short = not_last payload offset other in
          let taken = length-fragment payload offset in
          let r1 = record r {
            offset = after_frame payload offset;
            assembly = body;
            assembling = true;
            record_at = starts offset;
          } in
          Halts-as file r (sym (frame_marks true payload b bytes offset whole)) (
            padded-Halts file _ r true h' (
              again-Halts file (record r { offset = starts offset }) r1 true refl
                (frame-round file true payload b r h'
                  ∙ ap (λ k. accept_fragment k body (starts offset) (after payload r))
                      (ap (choose_fragment_kind true) other)
                  ∙ accept_first body (starts offset) (after payload r) assembling)
                (rest-Halts fuel file left b cut r1
                  (moved-Going r (after_frame payload offset) (starts offset) body true going) refl
                  (omega (arith, length-drop (fits payload offset) payload))
                  (from_more file true payload b r h') some_left e')))
    ]
