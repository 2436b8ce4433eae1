-- ===== src/Storage/Wal/Steps.antt =====
-- One round of Next over what Append wrote: the padding at the end of a block, and a fragment.
use rivet_db.Prelude.{
  ℕ, ◌+◌, ◌-◌, ◌%◌, ◌^◌, ◌/◌, ◌≤◌, ◌<◌, min, ◌≡◌, refl, ap, ◌∙◌, subst, true, false, List, ◌++◌,
  ltb, ◌==◌, not, length, take, drop, arith, length-append, cut_at, drop-drop, drop-append, ==_refl,
}
use rivet_db.Prelude.Bytes.{equal_bytes_refl}
use rivet_db.Storage.Wal.{
  header_size, block_remaining, zeros, make_header, header_crc, crc_update, fragment_full,
  fragment_last,
}
use rivet_db.Storage.Wal.Header.{
  length-make_header, content_crc_of-make_header, header_crc_of-make_header, meta_of-make_header,
  length_of-make_header, type_of-make_header,
}
use rivet_db.Storage.Wal.Frames.{length-zeros}
use rivet_db.Storage.Wal.Reader.{
  Reader, again, found, round, consume_padding, read_fragment, read_payload, accept_fragment,
  read_at, bad_kind, header_crc_of, meta_of, type_of, length_of,
}

-- Rounds that end with a record.
pub data Finds (file : List ℕ) : Reader → Reader → Type 0 where
  found_now : {r r' : Reader} → round file r ≡ found r' → Finds file r r'
  found_later : {r r1 r' : Reader} → round file r ≡ again r1 → Finds file r1 r' → Finds file r r'

-- The file holds these bytes from the offset on, and nothing after them.
pub record At (file : List ℕ) (offset : ℕ) (bytes : List ℕ) : Type 0 where
  pub holds : drop offset file ≡ bytes
  pub ends : offset + length bytes ≡ length file

pub At-skip :
    {file : List ℕ} {offset : ℕ} (read rest : List ℕ)
    → At file offset (read ++ rest)
    → At file (offset + length read) rest
At-skip {file} {offset} read rest h = record {
  holds =
      drop-drop offset (length read) (offset + length read) file refl
      ∙ ap (drop (length read)) h.holds
      ∙ drop-append read rest;
  ends = omega (arith, h.ends, length-append read rest);
}

pub At-read :
    {file : List ℕ} {offset : ℕ} (n : ℕ) (read rest : List ℕ)
    → length read ≡ n
    → At file offset (read ++ rest)
    → read_at file offset n ≡ read
At-read {file} {offset} n read rest e h = ap (take n) h.holds ∙ (cut_at n read rest e).0

pub padding_step :
    (file rest : List ℕ) (r : Reader)
    → block_remaining r.offset < header_size
    → At file r.offset (zeros (block_remaining r.offset) ++ rest)
    → round file r ≡ again (record r { offset = r.offset + block_remaining r.offset })
unfolding round consume_padding
padding_step file rest r short h =
    let left = block_remaining r.offset in
    let some_left : 0 < left = omega arith in
    let size : r.offset + (left + length rest) ≡ length file =
      omega (arith, h.ends, length-append (zeros left) rest, length-zeros left) in
    let inside : (r.offset == length file) ≡ false = ground arith in
    let near : ltb left header_size ≡ true = ground arith in
    let available : min left (length file - r.offset) ≡ left = omega arith in
    let read = At-read left (zeros left) rest (length-zeros left) h in
    let whole : ltb left left ≡ false = ground arith in
    rw (inside, near, available, read, equal_bytes_refl (zeros left), whole) refl

pub room_left : (offset : ℕ) → block_remaining offset - header_size < 2 ^ 16
room_left offset = omega arith

-- The payload after a header.
payload_step :
    (file body rest : List ℕ) (kind : ℕ) (r : Reader)
    → length body < 2 ^ 16
    → kind ≤ fragment_last
    → At file r.offset (make_header body kind ++ (body ++ rest))
    → read_payload file (make_header body kind) r
      ≡ accept_fragment kind body r.offset
          (record r { offset = r.offset + header_size + length body })
payload_step file body rest kind r small high h =
    let next : At file (r.offset + header_size) (body ++ rest) =
      subst (λ n. At file (r.offset + n) (body ++ rest)) (length-make_header body kind)
        (At-skip (make_header body kind) (body ++ rest) h) in
    let read = At-read (length body) body rest refl next in
    let size = length_of-make_header body kind small in
    let whole : ltb (length file - (r.offset + header_size)) (length body) ≡ false =
      ground (arith, next.ends, length-append body rest) in
    let low : kind % 16 ≡ kind = omega arith in
    rw
      (
        size,
        whole,
        read,
        content_crc_of-make_header body kind,
        meta_of-make_header body kind,
        ==_refl (crc_update (header_crc body kind) body),
        type_of-make_header body kind,
        low,
      )
      refl

-- A whole header, whatever there is of its payload.
pub header_step :
    (file body rest : List ℕ) (kind : ℕ) (r : Reader)
    → header_size ≤ block_remaining r.offset
    → length body ≤ block_remaining r.offset - header_size
    → fragment_full ≤ kind
    → kind ≤ fragment_last
    → At file r.offset (make_header body kind ++ rest)
    → round file r ≡ read_payload file (make_header body kind) r
unfolding round read_fragment
header_step file body rest kind r room fit low high h =
    let left = block_remaining r.offset in
    let header = make_header body kind in
    let sized = length-make_header body kind in
    let size : r.offset + (header_size + length rest) ≡ length file =
      omega (arith, h.ends, length-append header rest, sized) in
    let inside : (r.offset == length file) ≡ false = ground arith in
    let far : ltb left header_size ≡ false = ground arith in
    let long : ltb (length file - r.offset) header_size ≡ false = ground arith in
    let read = At-read header_size header rest sized h in
    let small : length body < 2 ^ 16 = omega (arith, room_left r.offset) in
    let passes : not (header_crc_of header == crc_update 0 (meta_of header)) ≡ false =
      rw
        (
          header_crc_of-make_header body kind,
          meta_of-make_header body kind,
          ==_refl (header_crc body kind),
        )
        refl in
    let version : not (type_of header / 16 == 0) ≡ false =
      rw (type_of-make_header body kind) (ground arith) in
    let known : bad_kind (type_of header % 16) ≡ false =
      rw (type_of-make_header body kind) (ground arith) in
    let inside_block : ltb (left - header_size) (length_of header) ≡ false =
      rw (length_of-make_header body kind small) (ground arith) in
    rw (inside, far, long, read, passes, version, known, inside_block) refl

pub fragment_step :
    (file body rest : List ℕ) (kind : ℕ) (r : Reader)
    → header_size ≤ block_remaining r.offset
    → length body ≤ block_remaining r.offset - header_size
    → fragment_full ≤ kind
    → kind ≤ fragment_last
    → At file r.offset (make_header body kind ++ (body ++ rest))
    → round file r
      ≡ accept_fragment kind body r.offset
          (record r { offset = r.offset + header_size + length body })
fragment_step file body rest kind r room fit low high h =
    header_step file body (body ++ rest) kind r room fit low high h
    ∙ payload_step file body rest kind r (omega (arith, room_left r.offset)) high h
