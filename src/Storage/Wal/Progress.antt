-- ===== src/Storage/Wal/Progress.antt =====
-- Every round of Next that goes on moves the offset.
use rivet_db.Prelude.{
  ℕ, ◌+◌, ◌-◌, ◌%◌, ◌/◌, ◌≤◌, ◌<◌, min, ◌≡◌, ◌≢◌, refl, Bool, true, false, none, List, [], ltb,
  ◌==◌, not, if◌then◌else◌, length, arith,
}
use rivet_db.Prelude.Bytes.{equal_bytes}
use rivet_db.Storage.Wal.{
  header_size, block_remaining, max_record_size, fragment_full, fragment_first, fragment_middle,
  zeros, crc_update,
}
use rivet_db.Storage.Wal.Reader.{
  Reader, Round, again, stop, found, round, consume_padding, read_fragment, read_payload,
  accept_fragment, read_at, finish_record, overflows, length_of, type_of, bad_kind, header_crc_of,
  content_crc_of, meta_of,
}

-- A record was found: the offset has moved on within the file, and the valid part ends there.
pub record Reached (file : List ℕ) (offset : ℕ) (r : Reader) : Type 0 where
  pub further : offset < r.offset
  pub inside : r.offset ≤ length file
  pub valid_to : r.valid_end ≡ r.offset
  pub current : r.current ≢ none

abbrev pub Onward : List ℕ → ℕ → Round → Type 0
Onward file offset (again r) = (offset < r.offset) × (r.offset ≤ length file)
Onward file offset (stop r) = Unit {0}
Onward file offset (found r) = Reached file offset r

abbrev pub Ended : List ℕ → ℕ → Reader × Bool → Type 0
Ended file offset (r, true) = Reached file offset r
Ended file offset (r, false) = Unit {0}

pub tested-Onward :
    (file : List ℕ) (offset : ℕ) (b : Bool) (x y : Round)
    → Onward file offset x
    → (b ≡ false → Onward file offset y)
    → Onward file offset (if b then x else y)
tested-Onward file offset true x y hx hy = hx
tested-Onward file offset false x y hx hy = hy refl

pub finish_record-Onward :
    (file payload : List ℕ) (offset start : ℕ) (r : Reader)
    → offset < r.offset
    → r.offset ≤ length file
    → Onward file offset (finish_record payload start r)
finish_record-Onward file payload offset start r further inside =
    tested-Onward file offset (ltb max_record_size (length payload)) _ _ tt
      (λ _. record { further = further; inside = inside; valid_to = refl; current = λ e. cc })

pub accept_fragment-Onward :
    (kind : ℕ) (file payload : List ℕ) (offset at : ℕ) (r : Reader)
    → offset < r.offset
    → r.offset ≤ length file
    → Onward file offset (accept_fragment kind payload at r)
unfolding accept_fragment
accept_fragment-Onward kind file payload offset at r further inside =
    tested-Onward file offset (kind == fragment_full) _ _
      (tested-Onward file offset r.assembling _ _ tt
        (λ _. finish_record-Onward file payload offset at r further inside))
      (λ _.
        tested-Onward file offset (kind == fragment_first) _ _
          (tested-Onward file offset r.assembling _ _ tt (λ _. (further, inside)))
          (λ _. tested-Onward file offset (not r.assembling) _ _ tt (λ _.
            tested-Onward file offset (overflows payload r) _ _ tt (λ _.
              tested-Onward file offset (kind == fragment_middle) _ _ (further, inside)
                (λ _.
                  finish_record-Onward file _ offset r.record_at
                    (record r { assembly = []; assembling = false }) further inside)))))

pub read_payload-Onward :
    (file header : List ℕ) (r : Reader)
    → r.offset + header_size ≤ length file
    → Onward file r.offset (read_payload file header r)
read_payload-Onward file header r room =
    let after = r.offset + header_size in
    tested-Onward file r.offset (ltb (length file - after) (length_of header)) _ _ tt (λ whole.
      tested-Onward file r.offset
        (not (
          content_crc_of header
          == crc_update (crc_update 0 (meta_of header)) (read_at file after (length_of header))))
        _ _ tt
        (λ _.
          accept_fragment-Onward (type_of header % 16) file (read_at file after (length_of header))
            r.offset r.offset (record r { offset = after + length_of header }) (omega arith)
            (ground arith)))

pub read_fragment-Onward :
    (file header : List ℕ) (remaining : ℕ) (r : Reader)
    → r.offset + header_size ≤ length file
    → Onward file r.offset (read_fragment file remaining header r)
unfolding read_fragment
read_fragment-Onward file header remaining r room =
    tested-Onward file r.offset (not (header_crc_of header == crc_update 0 (meta_of header))) _ _ tt
      (λ _. tested-Onward file r.offset (not (type_of header / 16 == 0)) _ _ tt (λ _.
        tested-Onward file r.offset (bad_kind (type_of header % 16)) _ _ tt (λ _.
          tested-Onward file r.offset (ltb (remaining - header_size) (length_of header)) _ _ tt
            (λ _. read_payload-Onward file header r room))))

pub consume_padding-Onward :
    (file : List ℕ) (remaining : ℕ) (r : Reader)
    → 0 < remaining
    → r.offset < length file
    → Onward file r.offset (consume_padding file remaining r)
unfolding consume_padding
consume_padding-Onward file remaining r some_left within =
    let available = min remaining (length file - r.offset) in
    tested-Onward file r.offset
      (not (equal_bytes (read_at file r.offset available) (zeros available))) _ _ tt
      (λ _.
        tested-Onward file r.offset (ltb available remaining) _ _ tt
          (λ _. (omega arith, omega arith)))

pub some_of_block : (offset : ℕ) → 0 < block_remaining offset
some_of_block offset = omega arith

pub round-Onward :
    (file : List ℕ) (r : Reader) → r.offset ≤ length file → Onward file r.offset (round file r)
unfolding round
round-Onward file r within =
    let remaining = block_remaining r.offset in
    tested-Onward file r.offset (r.offset == length file) _ _
      (tested-Onward file r.offset r.assembling _ _ tt (λ _. tt))
      (λ more.
        tested-Onward file r.offset (ltb remaining header_size) _ _
          (consume_padding-Onward file remaining r (some_of_block r.offset) (ground arith))
          (λ _.
            tested-Onward file r.offset (ltb (length file - r.offset) header_size) _ _ tt (λ long.
              read_fragment-Onward file (read_at file r.offset header_size) remaining r
                (ground arith))))
