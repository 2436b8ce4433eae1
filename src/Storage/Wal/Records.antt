-- ===== src/Storage/Wal/Records.antt =====
-- Next finds the record that Append wrote: the fragments of a record, one after the other.
use rivet_db.Prelude.{
  ℕ, zero, suc, ◌+◌, ◌*◌, ◌≤◌, ◌<◌, ◌≡◌, refl, ap, ap₂, ◌∙◌, sym, subst, true, false, List, [],
  ◌++◌, ◌==◌, length, drop, arith, Bool-cases, inl, inr, length-append, length-drop,
  take-append-drop, lt→ltb, ==_iff,
}
use mathlib.Core.List.{append_assoc}
use rivet_db.Storage.Wal.{max_record_size, write_fuel, choose_fragment_kind}
use rivet_db.Storage.Wal.Frames.{frames, starts, fits, fragment, length-fragment}
use rivet_db.Storage.Wal.Steps.{At, Finds, found_now, found_later}
use rivet_db.Storage.Wal.Fragments.{after_padding, spare, after_frame, from_more, frame-round}
use rivet_db.Storage.Wal.Reader.{Reader, accept_fragment}
use rivet_db.Storage.Wal.Accept.{
  Going, Delivered, accept_middle, delivered-Delivered, accept_last, accept_full, accept_first,
}
use rivet_db.Storage.Wal.Pieces.{
  after, ends_here, moved-Going, Delivered-as, frames-Framed, smaller, not_last, spare-small,
}

-- The rest of a record that a reader is putting together.
rest-Finds :
    (fuel : ℕ) (file payload rest : List ℕ) (r : Reader)
    → 0 < length payload
    → 2 * length payload + spare r.offset < fuel
    → Going r
    → r.assembling ≡ true
    → length r.assembly + length payload ≤ max_record_size
    → At file r.offset (frames fuel false payload r.offset ++ rest)
    → (r' : Reader) × Finds file r r'
      × Delivered
          (r.assembly ++ payload)
          r.record_at
          (r.offset + length (frames fuel false payload r.offset))
          r.number
          r'
rest-Finds zero file payload rest r some_left enough going assembling small h = absurd (omega arith)
rest-Finds (suc fuel) file payload rest r some_left enough going assembling small h =
    let offset = r.offset in
    let body = fragment payload offset in
    let left = drop (fits payload offset) payload in
    let f = frames-Framed fuel file false payload rest r (lt→ltb 0 (length payload) some_left) h in
    let step = frame-round file false payload _ r f.framed in
    elim (Bool-cases (fits payload offset == length payload)) [
      | inl e ↦
          let (whole, ended) =
            ends_here false payload rest fuel r
              ((==_iff (fits payload offset) (length payload)).0 e) in
          let accepted =
            step
            ∙ ap₂ (λ k b. accept_fragment k b (starts offset) (after payload r))
                (ap (choose_fragment_kind false) e) whole
            ∙ accept_last payload (starts offset) (after payload r) assembling small in
          let ends : after_frame payload offset
              ≡ offset + length (frames (suc fuel) false payload offset) =
            omega (arith, f.size, ap length ended) in
          (
            _,
            after_padding file _ r _ f.framed (found_now accepted),
            Delivered-as _ _ r.record_at _ _ r.number _ refl ends (
                delivered-Delivered (r.assembly ++ payload) r.record_at
                  (record (after payload r) { assembly = []; assembling = false }) refl
                  (moved-Going r (after_frame payload offset) r.record_at [] false going)),
          )
      | inr e ↦
          let short = not_last payload offset e in
          let taken = length-fragment payload offset in
          let dropped = length-drop (fits payload offset) payload in
          let accepted =
            step
            ∙ ap (λ k. accept_fragment k body (starts offset) (after payload r))
                (ap (choose_fragment_kind false) e)
            ∙ accept_middle body (starts offset) (after payload r) assembling (omega arith) in
          let (r', finds, d) =
            rest-Finds fuel file left rest
              (record r { offset = after_frame payload offset; assembly = r.assembly ++ body })
              (omega arith) (omega (arith, smaller payload offset short))
              (moved-Going r (after_frame payload offset) r.record_at (r.assembly ++ body)
                r.assembling going)
              assembling (omega (arith, length-append r.assembly body))
              (from_more file false payload _ r f.framed) in
          let joined =
            append_assoc r.assembly body left
            ∙ ap (λ l. r.assembly ++ l) (take-append-drop (fits payload offset) payload) in
          (
            r',
            after_padding file _ r r' f.framed (found_later accepted finds),
            Delivered-as _ _ r.record_at _ _ r.number r' joined f.size d,
          )
    ]

-- A whole record, from its padding on.
pub record-Finds :
    (file payload rest : List ℕ) (r : Reader)
    → Going r
    → r.assembling ≡ false
    → length payload ≤ max_record_size
    → At file r.offset (frames (write_fuel payload) true payload r.offset ++ rest)
    → (r' : Reader) × Finds file r r'
      × Delivered payload
          (starts r.offset)
          (r.offset + length (frames (write_fuel payload) true payload r.offset))
          r.number
          r'
record-Finds file payload rest r going assembling small h =
    let fuel = 2 * length payload + 1 in
    let offset = r.offset in
    let body = fragment payload offset in
    let left = drop (fits payload offset) payload in
    let counted : write_fuel payload ≡ suc fuel = omega arith in
    let f =
      frames-Framed fuel file true payload rest r refl
        (subst (λ k. At file offset (frames k true payload offset ++ rest)) counted h) in
    let size = f.size ∙ ap (λ k. offset + length (frames k true payload offset)) (sym counted) in
    let step = frame-round file true payload _ r f.framed in
    elim (Bool-cases (fits payload offset == length payload)) [
      | inl e ↦
          let (whole, ended) =
            ends_here true payload rest fuel r
              ((==_iff (fits payload offset) (length payload)).0 e) in
          let accepted =
            step
            ∙ ap₂ (λ k b. accept_fragment k b (starts offset) (after payload r))
                (ap (choose_fragment_kind true) e) whole
            ∙ accept_full payload (starts offset) (after payload r) assembling small in
          let ends : after_frame payload offset
              ≡ offset + length (frames (write_fuel payload) true payload offset) =
            omega (arith, size, ap length ended) in
          (
            _,
            after_padding file _ r _ f.framed (found_now accepted),
            Delivered-as _ _ (starts offset) _ _ r.number _ refl ends (
                delivered-Delivered payload (starts offset) (after payload r) assembling (
                  moved-Going r (after_frame payload offset) r.record_at r.assembly r.assembling
                    going)),
          )
      | inr e ↦
          let short = not_last payload offset e in
          let taken = length-fragment payload offset in
          let dropped = length-drop (fits payload offset) payload in
          let accepted =
            step
            ∙ ap (λ k. accept_fragment k body (starts offset) (after payload r))
                (ap (choose_fragment_kind true) e)
            ∙ accept_first body (starts offset) (after payload r) assembling in
          let (r', finds, d) =
            rest-Finds fuel file left rest
              (record r {
                offset = after_frame payload offset;
                assembly = body;
                assembling = true;
                record_at = starts offset;
              })
              (omega arith) (omega (arith, smaller payload offset short, spare-small offset))
              (moved-Going r (after_frame payload offset) (starts offset) body true going) refl
              (omega arith) (from_more file true payload _ r f.framed) in
          (
            r',
            after_padding file _ r r' f.framed (found_later accepted finds),
            Delivered-as _ _ (starts offset) _ _ r.number r'
                (take-append-drop (fits payload offset) payload) size d,
          )
    ]
