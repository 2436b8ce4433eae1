-- ===== src/Storage/Wal/Reader.antt =====
-- internal/storage/wal/reader.go and recovery.go: the scan of a log for whole records. A file is its
-- bytes, which `ReadAt` returns in range, so the errors of readFullAt have no counterpart.
use rivet_db.Prelude.{
  ℕ, zero, suc, ◌+◌, ◌-◌, ◌/◌, ◌%◌, ◌^◌, min, Bool, true, false, Option, none, some, List, [], ◌++◌,
  ◌||◌, not, ltb, ◌==◌, if◌then◌else◌, length, take, drop,
}
use rivet_db.Prelude.Bytes.{le_value, equal_bytes}
use rivet_db.Storage.Wal.{
  Error, record_too_large, header_checksum_mismatch, checksum_mismatch, unsupported_version,
  invalid_fragment_type, invalid_length, invalid_padding, block_remaining, header_size,
  max_record_size, fragment_full, fragment_first, fragment_middle, fragment_last, crc_update, zeros,
  Position,
}

pub record LogRecord : Type 0 where
  pub payload : List ℕ
  pub position : Position
  pub number : ℕ

pub record Tail : Type 0 where
  pub start : ℕ
  pub end : ℕ

pub record CorruptionError : Type 0 where
  pub offset : ℕ
  pub cause : Error

pub record Reader : Type 0 where
  pub offset : ℕ
  pub valid_end : ℕ
  pub current : Option LogRecord
  pub number : ℕ
  pub assembly : List ℕ
  pub assembling : Bool
  pub record_at : ℕ
  pub tail : Option Tail
  pub error : Option CorruptionError
  pub done : Bool
  pub closed : Bool

abbrev pub new_reader : Reader
new_reader = record {
  offset = 0;
  valid_end = 0;
  current = none;
  number = 0;
  assembly = [];
  assembling = false;
  record_at = 0;
  tail = none;
  error = none;
  done = false;
  closed = false;
}

-- A round of Next's loop: it goes round again, returns false, or returns true.
pub data Round : Type 0 where
  again stop found : Reader → Round

abbrev pub corrupt : ℕ → Error → Reader → Round
corrupt offset cause r =
    stop (record r { error = some (record { offset = offset; cause = cause }) })

abbrev pub mark_tail : ℕ → ℕ → Reader → Round
mark_tail size start r =
    stop (record r { tail = some (record { start = start; end = size }); done = true })

abbrev pub incomplete_start : Reader → ℕ
incomplete_start r = if r.assembling then r.record_at else r.valid_end

abbrev pub finish_record : List ℕ → ℕ → Reader → Round
finish_record payload start r =
    if ltb max_record_size (length payload)
    then corrupt start record_too_large r
    else found (record r {
      current = some (record {
        payload = payload;
        position = record { start = start; end = r.offset };
        number = r.number;
      });
      number = (r.number + 1) % 2 ^ 64;
      valid_end = r.offset;
    })

-- `len(payload) > MaxRecordSize-len(r.assembly)`
abbrev pub overflows : List ℕ → Reader → Bool
overflows payload r = ltb (max_record_size - length r.assembly) (length payload)

abbrev pub last_fragment : List ℕ → Reader → Round
last_fragment payload r =
    finish_record (r.assembly ++ payload) r.record_at
      (record r { assembly = []; assembling = false })

unfoldable pub accept_fragment : ℕ → List ℕ → ℕ → Reader → Round
accept_fragment kind payload at r =
    if kind == fragment_full
    then (if r.assembling then corrupt at invalid_fragment_type r else finish_record payload at r)
    else if kind == fragment_first
    then (if r.assembling
        then corrupt at invalid_fragment_type r
        else again (record r { assembly = payload; assembling = true; record_at = at }))
    else if not r.assembling
    then corrupt at invalid_fragment_type r
    else if overflows payload r
    then corrupt at record_too_large r
    else if kind == fragment_middle
    then again (record r { assembly = r.assembly ++ payload })
    else last_fragment payload r

-- `read_at file at n` is what `ReadAt` puts into a slice of n bytes.
abbrev pub read_at : List ℕ → ℕ → ℕ → List ℕ
read_at file at n = take n (drop at file)

unfoldable pub consume_padding : List ℕ → ℕ → Reader → Round
consume_padding file remaining r =
    let available = min remaining (length file - r.offset) in
    if not (equal_bytes (read_at file r.offset available) (zeros available))
    then corrupt r.offset invalid_padding r
    else (let r' = record r { offset = r.offset + available } in
        if ltb available remaining
        then mark_tail (length file) (incomplete_start r') r'
        else again r')

-- The fields of a header.
abbrev pub content_crc_of : List ℕ → ℕ
content_crc_of header = le_value (take 4 header)

abbrev pub header_crc_of : List ℕ → ℕ
header_crc_of header = le_value (take 4 (drop 4 header))

abbrev pub meta_of : List ℕ → List ℕ
meta_of header = take 3 (drop 8 header)

abbrev pub length_of : List ℕ → ℕ
length_of header = le_value (take 2 (drop 8 header))

abbrev pub type_of : List ℕ → ℕ
type_of header = le_value (take 1 (drop 10 header))

-- What follows a header that passed: the payload.
abbrev pub read_payload : List ℕ → List ℕ → Reader → Round
read_payload file header r =
    let at = r.offset + header_size in
    let payload = read_at file at (length_of header) in
    if ltb (length file - at) (length_of header)
    then mark_tail (length file) (incomplete_start r) r
    else if not (content_crc_of header == crc_update (crc_update 0 (meta_of header)) payload)
    then corrupt r.offset checksum_mismatch r
    else accept_fragment (type_of header % 16) payload r.offset
        (record r { offset = at + length_of header })

abbrev pub bad_kind : ℕ → Bool
bad_kind kind = ltb kind fragment_full || ltb fragment_last kind

unfoldable pub read_fragment : List ℕ → ℕ → List ℕ → Reader → Round
read_fragment file remaining header r =
    if not (header_crc_of header == crc_update 0 (meta_of header))
    then corrupt r.offset header_checksum_mismatch r
    else if not (type_of header / 16 == 0)
    then corrupt r.offset unsupported_version r
    else if bad_kind (type_of header % 16)
    then corrupt r.offset invalid_fragment_type r
    else if ltb (remaining - header_size) (length_of header)
    then corrupt r.offset invalid_length r
    else read_payload file header r

unfoldable pub round : List ℕ → Reader → Round
round file r =
    if r.offset == length file
    then (if r.assembling
        then mark_tail (length file) r.record_at r
        else stop (record r { done = true }))
    else if ltb (block_remaining r.offset) header_size
    then consume_padding file (block_remaining r.offset) r
    else if ltb (length file - r.offset) header_size
    then mark_tail (length file) (incomplete_start r) r
    else read_fragment file (block_remaining r.offset) (read_at file r.offset header_size) r

-- The loop of Next, on fuel; `none` where the fuel is spent.
unfoldable pub scan : ℕ → List ℕ → Reader → Option (Reader × Bool)
scan zero file r = none
scan (suc fuel) file r = elim (round file r) [
  | again r' ↦ scan fuel file r'
  | stop r' ↦ some (r', false)
  | found r' ↦ some (r', true)
]

abbrev pub is_error : Option CorruptionError → Bool
is_error none = false
is_error (some e) = true

-- A round that goes on moves the offset, so one more than the bytes that are left is enough.
abbrev pub scan_fuel : List ℕ → Reader → ℕ
scan_fuel file r = suc (length file - r.offset)

unfoldable pub next : List ℕ → Reader → Option (Reader × Bool)
next file r =
    if r.done || is_error r.error || r.closed
    then some (r, false)
    else scan (scan_fuel file r) file r
