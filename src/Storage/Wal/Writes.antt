-- ===== src/Storage/Wal/Writes.antt =====
-- Append writes the frames of its payload.
use rivet_db.Prelude.{
  ℕ, zero, suc, ◌+◌, ◌≤◌, ◌≡◌, refl, ap, ap₂, ◌∙◌, sym, Bool, true, false, Option, none, some, List,
  [], ◌++◌, ◌||◌, ltb, if◌then◌else◌, length, drop, arith, length-append, ok, err, Result,
}
use mathlib.Core.List.{append_assoc, append-nil}
use rivet_db.Storage.Wal.{
  Disk, Device, Writer, Position, header_size, padding_at, zeros, make_header, and_then, write_all,
  write_up_to, write_fragments, write_fuel, grown, append, append_open, appended, positioned,
  sync_after, sync_locked, max_record_size, Error, record_too_large, closed_writer, Durability,
  sync_batch, sync_none,
}
use rivet_db.Storage.Wal.Header.{length-make_header}
use rivet_db.Storage.Wal.Frames.{
  starts, fits, kind_at, fragment, frames, length-zeros, length-fragment,
}

pub and_then-done :
    (m : Disk × Bool) (next : Disk → Disk × Bool) (d : Disk)
    → and_then m next ≡ (d, true)
    → (d1 : Disk) × (m ≡ (d1, true)) × (next d1 ≡ (d, true))
and_then-done (d1, true) next d h = (d1, refl, h)
and_then-done (d1, false) next d h = cc

pub write_up_to-grown :
    (limit : Option ℕ) (bytes : List ℕ) (w : Writer) (s : Device) (d : Disk)
    → write_up_to limit bytes (w, s) ≡ (d, true)
    → d.0 ≡ grown w bytes
write_up_to-grown none bytes w s d h = sym (ap (λ (x : Disk × Bool). x.0.0) h)
write_up_to-grown (some limit) bytes w s d h = ground arith

pub write_all-grown :
    (bytes : List ℕ) (d d' : Disk) → write_all bytes d ≡ (d', true) → d'.0 ≡ grown d.0 bytes
write_all-grown bytes (w, s) d' h = write_up_to-grown s.accepts bytes w s d' h

pub grown_twice : (w : Writer) (xs ys : List ℕ) → grown (grown w xs) ys ≡ grown w (xs ++ ys)
grown_twice w xs ys =
    ap₂ (λ file offset. record w { file = file; offset = offset }) (append_assoc w.file xs ys)
      (omega (arith, length-append xs ys))

pub grown_nothing : (w : Writer) → grown w [] ≡ w
grown_nothing w =
    ap₂ (λ file offset. record w { file = file; offset = offset }) (append-nil w.file) (omega arith)

-- A round of the loop that ends well, in the four writes that it is made of.
pub round_grown :
    (padding header body : List ℕ) (next : Disk → Disk × Bool) (more : ℕ → List ℕ) (d d' : Disk)
    → length header ≡ header_size
    → ((d3 : Disk) → next d3 ≡ (d', true) → d'.0 ≡ grown d3.0 (more d3.0.offset))
    → and_then
        (write_all padding d)
        (λ d1. and_then (write_all header d1) (λ d2. and_then (write_all body d2) next))
      ≡ (d', true)
    → d'.0
      ≡ grown d.0 (
          padding
          ++ (header ++ (body ++ more (d.0.offset + length padding + header_size + length body))))
round_grown padding header body next more d d' sized rest h =
    let (d1, e1, h1) = and_then-done (write_all padding d) _ d' h in
    let (d2, e2, h2) = and_then-done (write_all header d1) _ d' h1 in
    let (d3, e3, h3) = and_then-done (write_all body d2) next d' h2 in
    let g1 = write_all-grown padding d d1 e1 in
    let g2 = write_all-grown header d1 d2 e2 ∙ ap (λ w. grown w header) g1 in
    let g3 = write_all-grown body d2 d3 e3 ∙ ap (λ w. grown w body) g2 in
    let g4 = rest d3 h3 ∙ ap (λ (w : Writer). grown w (more w.offset)) g3 in
    let last = d.0.offset + length padding + length header + length body in
    let flat : grown (grown (grown (grown d.0 padding) header) body) (more last)
        ≡ grown d.0 (padding ++ (header ++ (body ++ more last))) =
      grown_twice (grown (grown d.0 padding) header) body (more last)
      ∙ grown_twice (grown d.0 padding) header (body ++ more last)
      ∙ grown_twice d.0 padding (header ++ (body ++ more last)) in
    g4
    ∙ flat
    ∙ ap
        (λ n.
          grown d.0
            (padding ++ (header ++ (body ++ more (d.0.offset + length padding + n + length body)))))
        sized

pub tested :
    (test : Bool) (work : Disk × Bool) (bytes : List ℕ) (d d' : Disk)
    → (work ≡ (d', true) → d'.0 ≡ grown d.0 bytes)
    → (if test then work else (d, true)) ≡ (d', true)
    → d'.0 ≡ grown d.0 (if test then bytes else [])
tested true work bytes d d' done h = done h
tested false work bytes d d' done h =
    sym (ap (λ (x : Disk × Bool). x.0.0) h) ∙ sym (grown_nothing d.0)

pub write_fragments-grown :
    (fuel : ℕ) (first : Bool) (payload : List ℕ) (d d' : Disk)
    → write_fragments fuel first payload d ≡ (d', true)
    → d'.0 ≡ grown d.0 (frames fuel first payload d.0.offset)
unfolding write_fragments frames
write_fragments-grown zero first payload d d' h =
    sym (ap (λ (x : Disk × Bool). x.0.0) h) ∙ sym (grown_nothing d.0)
write_fragments-grown (suc fuel) first payload d d' h =
    let offset = d.0.offset in
    let kept = fragment payload offset in
    let left = drop (fits payload offset) payload in
    let head = make_header kept (kind_at first payload offset) in
    let place : offset + length (zeros (padding_at offset)) + header_size + length kept
        ≡ starts offset + header_size + fits payload offset =
      omega (arith, length-zeros (padding_at offset), length-fragment payload offset) in
    tested (first || ltb 0 (length payload)) _ _ d d'
      (λ worked.
        round_grown (zeros (padding_at offset)) head kept (write_fragments fuel false left)
          (frames fuel false left) d d' (length-make_header kept (kind_at first payload offset))
          (λ d3 e. write_fragments-grown fuel false left d3 d' e) worked
        ∙ ap
            (λ k.
              grown d.0 (zeros (padding_at offset) ++ (head ++ (kept ++ frames fuel false left k))))
            place)
      h

-- What is left of a writer that appended a record.
pub record Appended (payload : List ℕ) (w w' : Writer) (p : Position) : Type 0 where
  pub small : length payload ≤ max_record_size
  pub file : w'.file ≡ w.file ++ frames (write_fuel payload) true payload w.offset
  pub offset : w'.offset ≡ w.offset + length (frames (write_fuel payload) true payload w.offset)
  pub start : p.start ≡ starts w.offset
  pub end : p.end ≡ w'.offset

-- A sync leaves the file and the offset.
pub sync_after-file :
    (durability : Durability) (d d' : Disk)
    → sync_after durability d ≡ (d', true)
    → (d'.0.file ≡ d.0.file) × (d'.0.offset ≡ d.0.offset)
unfolding sync_locked
sync_after-file sync_none d d' h = ground arith
sync_after-file sync_batch d d' h = ground arith

pub positioned-done :
    (start end : ℕ) (m : Disk × Bool) (w' : Writer) (p : Position)
    → positioned start end m ≡ (w', ok p)
    → (d : Disk) × (m ≡ (d, true)) × (w' ≡ d.0) × (p.start ≡ start) × (p.end ≡ end)
positioned-done start end ((w, s), false) w' p h = cc
positioned-done start end ((w, s), true) w' p h = (
  (w, s),
  refl,
  sym (ap (λ (x : Writer × Result Error Position). x.0) h),
  ground arith,
  ground arith,
)

pub appended-synced :
    (start : ℕ) (written : Disk × Bool) (w' : Writer) (p : Position)
    → appended start written ≡ (w', ok p)
    → (d : Disk) × (written ≡ (d, true))
      × (w'.file ≡ d.0.file)
      × (w'.offset ≡ d.0.offset)
      × (p.start ≡ start)
      × (p.end ≡ d.0.offset)
appended-synced start ((w, s), false) w' p h = cc
appended-synced start ((w, s), true) w' p h =
    let (d, done, same, at, stop) =
      positioned-done start w.offset (sync_after w.durability (w, s)) w' p h in
    let (file, offset) = sync_after-file w.durability (w, s) d done in
    (
      (w, s),
      refl,
      ap (λ (x : Writer). x.file) same ∙ file,
      ap (λ (x : Writer). x.offset) same ∙ offset,
      at,
      stop,
    )

pub when_open :
    (failed : Option Error) (payload : List ℕ) (w w' : Writer) (s : Device) (p : Position)
    → append_open failed payload (w, s) ≡ (w', ok p)
    → appended (starts w.offset) (write_fragments (write_fuel payload) true payload (w, s))
      ≡ (w', ok p)
when_open none payload w w' s p h = h
when_open (some e) payload w w' s p h = cc

pub guards_passed :
    (large closed : Bool) (w w' : Writer) (p : Position) (next : Writer × Result Error Position)
    → (if large then (w, err record_too_large) else if closed then (w, err closed_writer) else next)
      ≡ (w', ok p)
    → (large ≡ false) × (next ≡ (w', ok p))
guards_passed true closed w w' p next h = cc
guards_passed false true w w' p next h = cc
guards_passed false false w w' p next h = (refl, h)

-- An Append that succeeds had a payload of at most MaxRecordSize, and added to the file exactly the
-- frames of the payload at the old offset: nothing before the old end changed. The offset grew by as
-- much, and the position returned runs from where the first header stands to the new offset.
pub append-Appended :
    (payload : List ℕ) (w w' : Writer) (s : Device) (p : Position)
    → append payload (w, s) ≡ (w', ok p)
    → Appended payload w w' p
append-Appended payload w w' s p h =
    let reached : (ltb max_record_size (length payload) ≡ false)
        × (append_open w.failed payload (w, s) ≡ (w', ok p)) =
      unfold append in guards_passed (ltb max_record_size (length payload)) w.closed w w' p _ h in
    let (large, opened) = reached in
    let (d, written, file, offset, at, stop) =
      appended-synced (starts w.offset) (write_fragments (write_fuel payload) true payload (w, s))
        w' p (when_open w.failed payload w w' s p opened) in
    let grew = write_fragments-grown (write_fuel payload) true payload (w, s) d written in
    record {
      small = ground (arith, large);
      file = file ∙ ap (λ (x : Writer). x.file) grew;
      offset = offset ∙ ap (λ (x : Writer). x.offset) grew;
      start = at;
      end = stop ∙ sym offset;
    }
